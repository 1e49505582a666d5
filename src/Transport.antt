-- ===== src/Transport.antt =====
-- src/transport.rs: one SLCAN port over a connection, `run_port` and `dispatch`.
-- What is written to the connection is returned as a list of effects; results of writes are ignored by
-- the source. `timestamp` and `is_open` are the locals `timestamp` and `open` of `run_port`.
pub mod Dispatch
pub mod Feed
pub mod Lines
pub mod Forward
use espcan_br.Base.{
  ℕ, zero, suc, ◌+◌, ◌-◌, ◌/◌, ◌%◌, ◌^◌, u16, Bool, true, false, not, ◌==◌, ◌||◌, ltb,
  if◌then◌else◌, Option, none, some, List, [], ◌∷◌, ◌++◌, Bytes, length, get_elem?, replicate,
  Outcome, ok, absent, panic, ◌>>=◌, ◌>>◌, index, write_at, slice,
}
use espcan_br.Slcan.{CanFrame, bell, cr, max_frame_ascii, parse_tx, format_frame}
use espcan_br.Twai.{Twai}
use espcan_br.Can.{
  Counters, bump, Shared, set_bitrate, open_port, close_port, transmit, status_flags,
}

pub data Iface : Type 0 where
  serial tcp : Iface

unfoldable pub count_in : Iface → Counters → Counters
count_in serial c = record c { ser_in = bump c.ser_in }
count_in tcp c = record c { tcp_in = bump c.tcp_in }

unfoldable pub count_out : Iface → Counters → Counters
count_out serial c = record c { ser_out = bump c.ser_out }
count_out tcp c = record c { tcp_out = bump c.tcp_out }

-- `n & 0x0f` is `n % 16`.
unfoldable pub hex_nibble : ℕ → ℕ
hex_nibble n = let low = n % 16 in if ltb low 10 then b'0' + low else b'A' + (low - 10)

-- `ms` is the time since the epoch in milliseconds.
unfoldable pub now_ms : ℕ → ℕ
now_ms ms = u16 (ms % 60_000)

pub data Effect : Type 0 where
  write_all : Bytes → Effect
  flush : Effect

pub record Port : Type 0 where
  pub line : Bytes
  pub len : ℕ
  pub is_open : Bool
  pub timestamp : Bool

abbrev pub fresh : Port
fresh = record { line = replicate 64 0; len = 0; is_open = false; timestamp = false }

-- What `dispatch` reads and changes.
pub record Ctl (Driver : Type 0) : Type 0 where
  pub is_open : Bool
  pub timestamp : Bool
  pub shared : Shared Driver

-- The state of the loop of `run_port` while it handles the bytes of one read.
pub record Run (Driver : Type 0) : Type 0 where
  pub port : Port
  pub shared : Shared Driver
  pub effects : List Effect
  pub wrote : Bool

abbrev pub ack : Bytes
ack = cr ∷ []

abbrev pub nak : Bytes
nak = bell ∷ []

module _ (h : Twai) where
  open h use {Driver}

  -- A command's new state and its reply.
  abbrev pub Replied : Type 0
  Replied = Ctl Driver × Bytes

  abbrev pub with_can : Ctl Driver → Shared Driver → Ctl Driver
  with_can c s = record c { shared = s }

  -- `F`
  unfoldable pub flags_cmd : Ctl Driver → Replied
  flags_cmd c =
      let f = status_flags h c.shared.can in
      (c, b'F' ∷ hex_nibble (f / 2 ^ 4) ∷ hex_nibble (f % 16) ∷ cr ∷ [])

  -- `Z`
  unfoldable pub stamp_cmd : Option ℕ → Ctl Driver → Replied
  stamp_cmd none c = (c, nak)
  stamp_cmd (some d) c =
      if d == b'0'
      then (record c { timestamp = false }, ack)
      else if d == b'1'
      then (record c { timestamp = true }, ack)
      else (c, nak)

  -- `S`
  unfoldable pub rate_cmd : Option ℕ → Ctl Driver → Replied
  rate_cmd none c = (c, nak)
  rate_cmd (some d) c =
      let (m, done) = set_bitrate h d c.shared.can in
      (with_can c (record c.shared { can = m }), if done then ack else nak)

  -- `O` and `L`
  unfoldable pub open_cmd : Bool → Ctl Driver → Replied
  open_cmd only c =
      if not c.is_open
      then (
        record c {
          is_open = true;
          shared = record c.shared { can = open_port h only c.shared.can };
        },
        ack,
      )
      else (c, ack)

  -- `C`
  unfoldable pub close_cmd : Ctl Driver → Replied
  close_cmd c =
      if c.is_open
      then (
        record c { is_open = false; shared = record c.shared { can = close_port h c.shared.can } },
        ack,
      )
      else (c, ack)

  -- The part of a transmit command behind the count, when the line was read.
  unfoldable pub send_frame : ℕ → CanFrame → Ctl Driver → Outcome Replied
  send_frame cmd f c = if not c.is_open then ok (c, nak) else (do
    (s, done) ← transmit h f c.shared
    ok (
      with_can c s,
      if done then (if cmd == b'T' || cmd == b'R' then b'Z' else b'z') ∷ cr ∷ [] else nak,
    ))

  -- `t`, `T`, `r` and `R`: a line that is not read answers BEL, on an open port as on a closed one.
  unfoldable pub send_cmd : Iface → ℕ → Bytes → Ctl Driver → Outcome Replied
  send_cmd iface cmd line c = elim (parse_tx line) [
    | absent ↦ ok (c, nak)
    | panic ↦ panic
    | ok f ↦
        send_frame cmd f
          (with_can c (record c.shared { counters = count_in iface c.shared.counters }))
  ]

  unfoldable pub dispatch : Iface → Bytes → Ctl Driver → Outcome Replied
  dispatch iface line c = do
    cmd ← index line 0
    if cmd == b'V'
        then ok (c, b'V' ∷ b'1' ∷ b'0' ∷ b'1' ∷ b'3' ∷ cr ∷ [])
        else if cmd == b'N'
        then ok (c, b'N' ∷ b'1' ∷ b'2' ∷ b'3' ∷ b'4' ∷ cr ∷ [])
        else if cmd == b'F'
        then ok (flags_cmd c)
        else if cmd == b'M' || cmd == b'm' || cmd == b'A'
        then ok (c, ack)
        else if cmd == b'Z'
        then ok (stamp_cmd (get_elem? line 1) c)
        else if cmd == b'S'
        then ok (rate_cmd (get_elem? line 1) c)
        else if cmd == b's'
        then ok (c, nak)
        else if cmd == b'O' || cmd == b'L'
        then ok (open_cmd (cmd == b'L') c)
        else if cmd == b'C'
        then ok (close_cmd c)
        else if cmd == b't' || cmd == b'T' || cmd == b'r' || cmd == b'R'
        then send_cmd iface cmd line c
        else ok (c, nak)

  -- The end of a line: `CR` behind at least one byte.
  unfoldable pub end_line : Iface → Run Driver → Outcome (Run Driver)
  end_line iface r = do
    line ← slice r.port.line 0 r.port.len
    (c, reply) ←
        dispatch iface line
          (record { is_open = r.port.is_open; timestamp = r.port.timestamp; shared = r.shared })
    ok (record {
      port = record r.port { is_open = c.is_open; timestamp = c.timestamp; len = 0 };
      shared = c.shared;
      effects = r.effects ++ write_all reply ∷ [];
      wrote = true;
    })

  -- One byte of `rxbuf`.
  unfoldable pub feed_byte : Iface → ℕ → Run Driver → Outcome (Run Driver)
  feed_byte iface b r =
      if b == cr
      then (if ltb 0 r.port.len then end_line iface r else ok r)
      else if b == b'\n'
      then ok r
      else if ltb r.port.len (length r.port.line)
      then (do
        line ← write_at r.port.line r.port.len b
        ok (record r { port = record r.port { line = line; len = r.port.len + 1 } }))
      else ok (record r {
        port = record r.port { len = 0 };
        effects = r.effects ++ write_all nak ∷ [];
        wrote = true;
      })

  unfoldable pub feed_all : Iface → Bytes → Run Driver → Outcome (Run Driver)
  feed_all iface [] r = ok r
  feed_all iface (b ∷ bs) r = do r' ← feed_byte iface b r; feed_all iface bs r'

  -- `Act::Bytes`
  unfoldable pub on_bytes :
      Iface → Bytes → Port → Shared Driver → Outcome (Port × Shared Driver × List Effect)
  on_bytes iface bs p s = do
    r ← feed_all iface bs (record { port = p; shared = s; effects = []; wrote = false })
    ok (r.port, r.shared, if r.wrote then r.effects ++ flush ∷ [] else r.effects)

  -- `Act::Frame`
  unfoldable pub on_frame :
      Iface → ℕ → CanFrame → Port → Shared Driver → Outcome (Shared Driver × List Effect)
  on_frame iface ms frame p s =
      if p.is_open
      then (do
        (n, out) ←
            format_frame frame (if p.timestamp then some (now_ms ms) else none)
              (replicate max_frame_ascii 0)
        written ← slice out 0 n
        ok (record s { counters = count_out iface s.counters }, write_all written ∷ flush ∷ []))
      else ok (s, [])

  -- `Act::Stop`, and the end of `run_port`
  unfoldable pub on_stop : Port → Shared Driver → Shared Driver
  on_stop p s = if p.is_open then record s { can = close_port h s.can } else s
