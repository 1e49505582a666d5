-- ===== src/Bridge.antt =====
-- The tasks that share the CAN manager: the ports of src/main.rs and src/autoconnect.rs, each in
-- `run_port`, and `can_rx_task`, interleaved in any order. A task gives way only where it awaits: a
-- port between two bytes of a read at the most, since one command locks the manager once, and the
-- receive task between two rounds.
pub mod Invariant
use espcan_br.Base.{
  ℕ, suc, ◌≡◌, Bool, false, Option, none, some, List, [], ◌∷◌, Bytes, get_elem?, set, replicate, ok,
  Outcome,
}
use espcan_br.Slcan.{CanFrame}
use espcan_br.Slcan.Frame.{IsFrame}
use espcan_br.Twai.{Twai}
use espcan_br.Can.{Shared, Counters, new, rx_round}
use espcan_br.Transport.{Iface, Port, fresh, Effect, Run, feed_byte, on_frame, on_stop}

-- A task that may run a port: no connection, waiting in `select`, or with bytes of a read left.
pub data Slot : Type 0 where
  gone : Slot
  waiting : Port → Slot
  reading : Port → Bytes → Slot

pub record System (Driver : Type 0) : Type 0 where
  pub slots : List Slot
  pub shared : Shared Driver

abbrev pub zeros : Counters
zeros = record { rx_count = 0; tx_count = 0; ser_in = 0; ser_out = 0; tcp_in = 0; tcp_out = 0 }

module _ (h : Twai) where
  open h use {Driver}

  -- `n` tasks, none of them with a connection.
  abbrev pub boot : ℕ → System Driver
  boot n = record { slots = replicate n gone; shared = record { can = new h; counters = zeros } }

  abbrev pub put_slot : System Driver → ℕ → Slot → Shared Driver → System Driver
  put_slot s i slot shared = record { slots = set s.slots i slot; shared = shared }

  abbrev pub run_of : Port → Shared Driver → Run Driver
  run_of p shared = record { port = p; shared = shared; effects = []; wrote = false }

  pub data Step (s : System Driver) : System Driver → Type 0 where
    connect :
        (i : ℕ) → get_elem? s.slots i ≡ some gone → Step s (put_slot s i (waiting fresh) s.shared)
    read :
        (i : ℕ) (p : Port) (bytes : Bytes)
        → get_elem? s.slots i ≡ some (waiting p)
        → Step s (put_slot s i (reading p bytes) s.shared)
    byte :
        (i : ℕ) (p : Port) (b : ℕ) (bytes : Bytes) (iface : Iface) (r : Run Driver)
        → get_elem? s.slots i ≡ some (reading p (b ∷ bytes))
        → feed_byte h iface b (run_of p s.shared) ≡ ok r
        → Step s (put_slot s i (reading r.port bytes) r.shared)
    done :
        (i : ℕ) (p : Port)
        → get_elem? s.slots i ≡ some (reading p [])
        → Step s (put_slot s i (waiting p) s.shared)
    forward :
        (i : ℕ) (p : Port) (iface : Iface) (ms : ℕ) (f : CanFrame) (r : Shared Driver × List Effect)
        → get_elem? s.slots i ≡ some (waiting p)
        → IsFrame f
        → on_frame h iface ms f p s.shared ≡ ok r
        → Step s (put_slot s i (waiting p) r.0)
    stop :
        (i : ℕ) (p : Port)
        → get_elem? s.slots i ≡ some (waiting p)
        → Step s (put_slot s i gone (on_stop h p s.shared))
    receive_frames :
        (r : Shared Driver × List CanFrame)
        → rx_round h s.shared ≡ ok r
        → Step s (record s { shared = r.0 })
    -- The controller changes state by itself, on the bus.
    bus :
        (d d' : Driver)
        → s.shared.can.twai ≡ some d
        → Step s
            (record s { shared = record s.shared { can = record s.shared.can { twai = some d' } } })

  pub data Reach (n : ℕ) : System Driver → Type 0 where
    start : Reach n (boot n)
    later : {s t : System Driver} → Reach n s → Step s t → Reach n t
