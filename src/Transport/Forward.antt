-- ===== src/Transport/Forward.antt =====
-- src/transport.rs: frames from the bus, and the end of a connection.
use espcan_br.Base.{
  ℕ, ◌-◌, ◌<◌, ◌≡◌, refl, arith, inl, inr, Bool-cases, if◌then◌else◌, Option, none, some, [], ◌∷◌,
  ◌++◌, Bytes, length, length-append, drop, take-append, replicate, ok, slice-ok,
}
use espcan_br.Slcan.{CanFrame, max_frame_ascii}
use espcan_br.Slcan.Frame.{IsFrame, render}
use espcan_br.Slcan.Format.{format_frame-render}
use espcan_br.Twai.{Twai}
use espcan_br.Can.{Shared}
use espcan_br.Transport.{Iface, Port, write_all, flush, count_out, now_ms, on_frame}

-- The timestamp of a frame that is forwarded at `ms`.
abbrev pub stamp_at : Port → ℕ → Option ℕ
stamp_at p ms = if p.timestamp then some (now_ms ms) else none

pub now_ms-lt : (ms : ℕ) → now_ms ms < 60_000
unfolding now_ms
now_ms-lt ms = omega arith

module _ (h : Twai) (iface : Iface) where
  open h use {Driver}

  -- A frame of CAN 2.0 is forwarded exactly while the port is open: as its line, with the time in the
  -- range 0 to 59999 if timestamps are on, in one write behind which the connection is flushed; it is
  -- counted. A closed port writes nothing and counts nothing.
  pub on_frame-render :
      (ms : ℕ) (f : CanFrame) (p : Port) (s : Shared Driver)
      → IsFrame f
      → on_frame h iface ms f p s
        ≡ ok (
            if p.is_open
            then (
              record s { counters = count_out iface s.counters },
              write_all (render f (stamp_at p ms)) ∷ flush ∷ [],
            )
            else (s, []))
  unfolding on_frame
  on_frame-render ms f p s v = elim (Bool-cases p.is_open) [
    | inl shown ↦ rw (
      shown,
      format_frame-render f (stamp_at p ms) blank v.dlc_le v.whole (omega arith),
      slice-ok line 0 size (omega arith)
          (omega (arith, length-append (render f (stamp_at p ms)) rest)),
      whole,
      take-append (render f (stamp_at p ms)) rest size refl,
    )
    | inr hidden ↦ rw hidden
  ]
    where
      blank : Bytes
      blank = replicate max_frame_ascii 0

      size : ℕ
      size = length (render f (stamp_at p ms))

      rest : Bytes
      rest = drop size blank

      line : Bytes
      line = render f (stamp_at p ms) ++ rest

      whole : size - 0 ≡ size
      whole = omega arith
