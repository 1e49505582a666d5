-- ===== src/Can.antt =====
-- src/can.rs: the CAN manager that all ports share, the frame counters, and the receive task.
-- `Shared` is the static `CAN` with the static counters; `atomics` add modulo 2 ^ 32.
pub mod Convert
pub mod Transmit
pub mod Receive
use espcan_br.Base.{
  ℕ, zero, suc, ◌+◌, ◌-◌, ◌*◌, ◌/◌, ◌%◌, ◌^◌, bit_or, u8, u16, u32, Bool, true, false, ◌==◌, ltb,
  leb, ◌||◌, not, ◌++◌, ◌&&◌, if◌then◌else◌, Option, none, some, List, [], ◌∷◌, Bytes, length, take,
  drop, replicate, Outcome, ok, absent, panic, ◌>>=◌, ◌>>◌, try, slice,
}
use espcan_br.Slcan.{CanFrame, no_data}
use espcan_br.Twai.{
  BaudRate, b125k, b250k, b500k, b1000k, custom, TwaiMode, normal, listen_only, FrameId, standard,
  extended, Sent, sent, would_block, other, Twai,
}

abbrev pub default_baud : BaudRate
default_baud = b500k

pub record Counters : Type 0 where
  pub rx_count : ℕ
  pub tx_count : ℕ
  pub ser_in : ℕ
  pub ser_out : ℕ
  pub tcp_in : ℕ
  pub tcp_out : ℕ

-- `fetch_add(1)`
abbrev pub bump : ℕ → ℕ
bump n = u32 (n + 1)

pub record CanManager (Driver : Type 0) : Type 0 where
  pub twai : Option Driver
  pub baud : BaudRate
  pub open_count : ℕ

pub record Shared (Driver : Type 0) : Type 0 where
  pub can : CanManager Driver
  pub counters : Counters

unfoldable pub baud_from_s : ℕ → Option BaudRate
baud_from_s digit =
    if digit == b'2'
    then some (custom 80 3 15 4)
    else if digit == b'3'
    then some (custom 40 3 15 4)
    else if digit == b'4'
    then some b125k
    else if digit == b'5'
    then some b250k
    else if digit == b'6'
    then some b500k
    else if digit == b'7'
    then some (custom 4 3 16 8)
    else if digit == b'8'
    then some b1000k
    else none

abbrev pub tx_retries : ℕ
tx_retries = 50

module _ (h : Twai) where
  open h use {
    StandardId, standard_new, standard_raw, ExtendedId, extended_new, extended_raw, EspFrame,
    new_remote, new_frame, frame_id, is_remote_frame, frame_dlc, frame_data, Driver, start,
    transmit_once, receive, receive_error_count, transmit_error_count, is_bus_off,
  }

  abbrev pub Manager : Type 0
  Manager = CanManager Driver

  -- `CanManager::new`
  unfoldable pub new : Manager
  new = record { twai = none; baud = default_baud; open_count = 0 }

  unfoldable pub set_bitrate : ℕ → Manager → Manager × Bool
  set_bitrate digit m =
      if not (m.open_count == 0)
      then (m, false)
      else elim (baud_from_s digit) [ some b ↦ (record m { baud = b }, true) | none ↦ (m, false) ]

  -- `open_twai`: the pins and the accept-all filter are fixed, so the driver starts in a state given
  -- by the bitrate and the mode.
  unfoldable pub open_twai : BaudRate → Bool → Driver
  open_twai baud only = start baud (if only then listen_only else normal)

  -- `CanManager::open`
  unfoldable pub open_port : Bool → Manager → Manager
  open_port only m =
      let started =
        if m.open_count == 0 then record m { twai = some (open_twai m.baud only) } else m in
      record started { open_count = u32 (started.open_count + 1) }

  -- `CanManager::close`
  unfoldable pub close_port : Manager → Manager
  close_port m =
      if ltb 0 m.open_count
      then (let left = m.open_count - 1 in
          if left == 0
          then record m { open_count = left; twai = none }
          else record m { open_count = left })
      else m

  unfoldable pub id_of : CanFrame → Outcome (FrameId StandardId ExtendedId)
  id_of f =
      if f.ext
      then (do e ← try (extended_new f.id); ok (extended e))
      else (do s ← try (standard_new (u16 f.id)); ok (standard s))

  unfoldable pub to_esp : CanFrame → Outcome EspFrame
  to_esp f = do
    id ← id_of f
    if f.rtr
        then try (new_remote id f.dlc)
        else (do bytes ← slice f.payload 0 f.dlc; try (new_frame id bytes))

  unfoldable pub raw_id : FrameId StandardId ExtendedId → Bool × ℕ
  raw_id (standard s) = (false, standard_raw s)
  raw_id (extended e) = (true, extended_raw e)

  -- `f.data[..d.len()].copy_from_slice(d)` on zeroed data
  unfoldable pub copy_data : Bytes → Outcome Bytes
  copy_data d = if leb (length d) 8 then ok (d ++ drop (length d) no_data) else panic

  unfoldable pub from_esp : EspFrame → Outcome CanFrame
  from_esp frame = do
    payload ← copy_data (frame_data frame)
    ok (record {
      id = (raw_id (frame_id frame)).1;
      ext = (raw_id (frame_id frame)).0;
      rtr = is_remote_frame frame;
      dlc = u8 (frame_dlc frame);
      payload = payload;
    })

  -- The loop of `try_transmit` with `left = TX_RETRIES - tries`: `tries > TX_RETRIES` after an
  -- increment is `left = 0` before it.
  unfoldable pub try_from : ℕ → Driver → EspFrame → Driver × Bool
  try_from zero d frame =
      let (d', result) = transmit_once d frame in
      elim result [ sent ↦ (d', true) | would_block ↦ (d', false) | other ↦ (d', false) ]
  try_from (suc left) d frame =
      let (d', result) = transmit_once d frame in
      elim result [ sent ↦ (d', true) | would_block ↦ try_from left d' frame | other ↦ (d', false) ]

  unfoldable pub try_transmit : Driver → EspFrame → Driver × Bool
  try_transmit = try_from tx_retries

  -- The end of `CanManager::transmit`, once the frame is converted.
  unfoldable pub transmit_esp : Shared Driver → Driver → EspFrame → Shared Driver × Bool
  transmit_esp s d esp =
      let (d', done) = try_transmit d esp in
      let can = record s.can { twai = some d' } in
      if done
      then (
        record s {
          can = can;
          counters = record s.counters { tx_count = bump s.counters.tx_count };
        },
        true,
      )
      else (record s { can = can }, false)

  unfoldable pub transmit_on :
      Shared Driver → Option Driver → CanFrame → Outcome (Shared Driver × Bool)
  transmit_on s none frame = ok (s, false)
  transmit_on s (some d) frame = elim (to_esp frame) [
    | ok esp ↦ ok (transmit_esp s d esp)
    | absent ↦ ok (s, false)
    | panic ↦ panic
  ]

  -- `CanManager::transmit`
  unfoldable pub transmit : CanFrame → Shared Driver → Outcome (Shared Driver × Bool)
  transmit frame s = transmit_on s s.can.twai frame

  unfoldable pub status_of : Driver → ℕ
  status_of d =
      let rec = receive_error_count d in
      let tec = transmit_error_count d in
      let f : ℕ = 0 in
      let f' = if leb 96 rec || leb 96 tec then bit_or f (1 * 2 ^ 2) else f in
      let f'' = if leb 128 rec || leb 128 tec then bit_or f' (1 * 2 ^ 5) else f' in
      if is_bus_off d then bit_or f'' (1 * 2 ^ 7) else f''

  -- `CanManager::status_flags`
  unfoldable pub status_flags : Manager → ℕ
  status_flags m = elim m.twai [ none ↦ 0 | some d ↦ status_of d ]

  unfoldable pub received :
      Shared Driver → Driver × Option EspFrame → Outcome (Shared Driver × Option CanFrame)
  received s (d, none) = ok (record s { can = record s.can { twai = some d } }, none)
  received s (d, some e) = do
    f ← from_esp e
    ok (
      record s {
        can = record s.can { twai = some d };
        counters = record s.counters { rx_count = bump s.counters.rx_count };
      },
      some f,
    )

  -- `CanManager::poll_rx`
  unfoldable pub poll_rx : Shared Driver → Outcome (Shared Driver × Option CanFrame)
  poll_rx s = elim s.can.twai [ none ↦ ok (s, none) | some d ↦ received s (receive d) ]

  -- The inner loop of `can_rx_task`, with `n` rounds left, under one lock: what is published, in order.
  unfoldable pub drain : ℕ → Shared Driver → Outcome (Shared Driver × List CanFrame)
  drain zero s = ok (s, [])
  drain (suc n) s = do
    (s', got) ← poll_rx s
    elim got [ none ↦ ok (s', []) | some f ↦ (do (s'', more) ← drain n s'; ok (s'', f ∷ more)) ]

  -- One round of `can_rx_task`.
  unfoldable pub rx_round : Shared Driver → Outcome (Shared Driver × List CanFrame)
  rx_round = drain 16
