-- ===== src/Bridge/Invariant.antt =====
-- The number of open ports is what the CAN manager has counted, in every reachable state.
use espcan_br.Base.{
  ℕ, zero, suc, ◌+◌, ◌-◌, ◌^◌, ◌<◌, ◌≤◌, ◌≡◌, refl, sym, ◌∙◌, ap, subst, arith, Bool, true, false,
  ltb, if◌then◌else◌, some, List, [], ◌∷◌, Bytes, length, length-set, length-replicate, get_elem?,
  set, replicate, All, All-set, Outcome, ok,
}
use mathlib.Core.Option.{some-injective}
use espcan_br.Can.Receive.{rx_round-Keeps}
use espcan_br.Slcan.{CanFrame}
use espcan_br.Slcan.Frame.{IsFrame, render}
use espcan_br.Twai.{Twai, Documented}
use espcan_br.Can.{Shared, CanManager, new, close_port}
use espcan_br.Can.Transmit.{on_bus}
use espcan_br.Transport.{
  Iface, Port, Run, Effect, write_all, flush, fresh, feed_byte, on_frame, on_stop, count_out,
}
use espcan_br.Transport.Dispatch.{share, Holds}
use espcan_br.Transport.Feed.{IsPort, Feeds, feed_byte-Feeds}
use espcan_br.Transport.Forward.{on_frame-render, stamp_at}
use espcan_br.Bridge.{
  Slot, gone, waiting, reading, System, put_slot, run_of, Step, connect, read, byte, done, forward,
  stop, receive_frames, bus, Reach, start, later,
}

-- Whether a slot's port is open.
abbrev pub weight : Slot → ℕ
weight gone = 0
weight (waiting p) = share p.is_open
weight (reading p _) = share p.is_open

abbrev pub open_ports : List Slot → ℕ
open_ports [] = 0
open_ports (x ∷ xs) = weight x + open_ports xs

weight-le : (x : Slot) → weight x ≤ 1
weight-le gone = omega arith
weight-le (waiting p) = ground arith
weight-le (reading p _) = ground arith

open_ports-le : (xs : List Slot) → open_ports xs ≤ length xs
open_ports-le [] = omega arith
open_ports-le (x ∷ xs) = omega (arith, weight-le x, open_ports-le xs)

open_ports-set :
    (xs : List Slot) (i : ℕ) (a b : Slot)
    → get_elem? xs i ≡ some a
    → open_ports (set xs i b) + weight a ≡ open_ports xs + weight b
open_ports-set [] i a b e = cc
open_ports-set (x ∷ xs) zero a b e =
    let same : weight x ≡ weight a = ground arith in omega (arith, same)
open_ports-set (x ∷ xs) (suc i) a b e = omega (arith, open_ports-set xs i a b e)

abbrev HasPort : Slot → Type 0
HasPort gone = Unit
HasPort (waiting p) = IsPort p
HasPort (reading p _) = IsPort p

All-get {ℓ} :
    {A : Type ℓ} (P : A → Type 0) (xs : List A) (i : ℕ) {a : A}
    → All P xs
    → get_elem? xs i ≡ some a
    → P a
All-get P [] i k e = cc
All-get P (x ∷ xs) zero k e = subst P (some-injective _ _ e) k.0
All-get P (x ∷ xs) (suc i) k e = All-get P xs i k.1 e

-- The manager counts the open ports, the controller is on the bus exactly while a port is open, and
-- every port's buffer is within bounds.
pub record Inv (h : Twai) (n : ℕ) (s : System h.Driver) : Type 0 where
  pub tasks : length s.slots ≡ n
  pub counted : s.shared.can.open_count ≡ open_ports s.slots
  pub runs : on_bus s.shared.can.twai ≡ ltb 0 s.shared.can.open_count
  pub ports : All HasPort s.slots

module _ (h : Twai) (laws : Documented h) (n : ℕ) (few : n < 2 ^ 32 - 1) where
  open h use {Driver}

  module _ (s : System Driver) (inv : Inv h n s) where
    count-lt : s.shared.can.open_count < 2 ^ 32 - 1
    count-lt = omega (arith, inv.counted, inv.tasks, open_ports-le s.slots)

    -- A slot and the manager change together.
    put_slot-Inv :
        (i : ℕ) (a b : Slot) (shared : Shared Driver)
        → get_elem? s.slots i ≡ some a
        → HasPort b
        → shared.can.open_count + weight a ≡ s.shared.can.open_count + weight b
        → on_bus shared.can.twai ≡ ltb 0 shared.can.open_count
        → Inv h n (put_slot h s i b shared)
    put_slot-Inv i a b shared e p balance runs = record {
      tasks = length-set s.slots i b ∙ inv.tasks;
      counted = omega (arith, balance, inv.counted, open_ports-set s.slots i a b e);
      runs = runs;
      ports = All-set HasPort s.slots i b inv.ports p;
    }

    slot-HasPort : (i : ℕ) (a : Slot) → get_elem? s.slots i ≡ some a → HasPort a
    slot-HasPort i a e = All-get HasPort s.slots i inv.ports e

    -- An open port is one of those counted.
    share-le :
        (i : ℕ) (a : Slot) → get_elem? s.slots i ≡ some a → weight a ≤ s.shared.can.open_count
    share-le i a e = omega (arith, inv.counted, open_ports-set s.slots i a gone e)

    byte-Inv :
        (i : ℕ) (p : Port) (b : ℕ) (bytes : Bytes) (iface : Iface) (r : Run Driver)
        → get_elem? s.slots i ≡ some (reading p (b ∷ bytes))
        → feed_byte h iface b (run_of h p s.shared) ≡ ok r
        → Inv h n (put_slot h s i (reading r.port bytes) r.shared)
    byte-Inv i p b bytes iface r e fed =
        put_slot-Inv i (reading p (b ∷ bytes)) (reading r.port bytes) r.shared e f.port
          (omega (arith, f.settles.balance)) f.settles.runs
      where
        holds : Holds (record { is_open = p.is_open; timestamp = p.timestamp; shared = s.shared })
        holds = record {
          few = count-lt;
          counts = share-le i (reading p (b ∷ bytes)) e;
          runs = inv.runs;
        }

        f : Feeds (run_of h p s.shared) r
        f = rw fed at (
            feed_byte-Feeds h laws iface (run_of h p s.shared)
              (slot-HasPort i (reading p (b ∷ bytes)) e) holds b)

    forward-Inv :
        (i : ℕ) (p : Port) (iface : Iface) (ms : ℕ) (f : CanFrame) (r : Shared Driver × List Effect)
        → get_elem? s.slots i ≡ some (waiting p)
        → IsFrame f
        → on_frame h iface ms f p s.shared ≡ ok r
        → Inv h n (put_slot h s i (waiting p) r.0)
    forward-Inv i p iface ms f r e v sent =
        put_slot-Inv i (waiting p) (waiting p) r.0 e (slot-HasPort i (waiting p) e)
          (omega (arith, ap (λ (m : CanManager Driver). m.open_count) kept))
          (ap (λ (m : CanManager Driver). on_bus m.twai) kept
            ∙ inv.runs
            ∙ ap (λ (m : CanManager Driver). ltb 0 m.open_count) (sym kept))
      where
        kept : r.0.can ≡ s.shared.can
        kept = ap can_of (sym sent ∙ on_frame-render h iface ms f p s.shared v) ∙ same p.is_open
          where
            can_of : Outcome (Shared Driver × List Effect) → CanManager Driver
            can_of (ok t) = t.0.can
            can_of _ = s.shared.can

            same :
                (b : Bool)
                → can_of (
                    ok (
                      if b
                      then (
                        record s.shared { counters = count_out iface s.shared.counters },
                        write_all (render f (stamp_at p ms)) ∷ flush ∷ [],
                      )
                      else (s.shared, [])))
                  ≡ s.shared.can
            same true = refl
            same false = refl

    stop-Inv :
        (i : ℕ) (p : Port)
        → get_elem? s.slots i ≡ some (waiting p)
        → Inv h n (put_slot h s i gone (on_stop h p s.shared))
    stop-Inv i p e = put_slot-Inv i (waiting p) gone _ e tt balance runs
      where
        counts : share p.is_open ≤ s.shared.can.open_count
        counts = share-le i (waiting p) e

        balance :
            (on_stop h p s.shared).can.open_count + share p.is_open ≡ s.shared.can.open_count + 0
        balance = unfold on_stop close_port in ground (arith, counts)

        runs : on_bus (on_stop h p s.shared).can.twai ≡ ltb 0 (on_stop h p s.shared).can.open_count
        runs = unfold on_stop close_port in ground (arith, counts, inv.runs)

    pub Step-Inv : {t : System Driver} → Step h s t → Inv h n t
    Step-Inv (connect i e) =
        put_slot-Inv i gone (waiting fresh) s.shared e
          (record { whole = refl; within = omega arith }) refl inv.runs
    Step-Inv (read i p bytes e) =
        put_slot-Inv i (waiting p) (reading p bytes) s.shared e (slot-HasPort i (waiting p) e) refl
          inv.runs
    Step-Inv (byte i p b bytes iface r e fed) = byte-Inv i p b bytes iface r e fed
    Step-Inv (done i p e) =
        put_slot-Inv i (reading p []) (waiting p) s.shared e (slot-HasPort i (reading p []) e) refl
          inv.runs
    Step-Inv (forward i p iface ms f r e v sent) = forward-Inv i p iface ms f r e v sent
    Step-Inv (stop i p e) = stop-Inv i p e
    Step-Inv (receive_frames r e) =
        let k = rw e at (rx_round-Keeps h laws s.shared) in
        record {
          tasks = inv.tasks;
          counted = k.open_count ∙ inv.counted;
          runs = k.on ∙ inv.runs ∙ ap (ltb 0) (sym k.open_count);
          ports = inv.ports;
        }
    Step-Inv (bus d d' e) = record {
      tasks = inv.tasks;
      counted = inv.counted;
      runs = sym (ap on_bus e) ∙ inv.runs;
      ports = inv.ports;
    }

  All-gone : (m : ℕ) → All HasPort (replicate m gone)
  All-gone zero = tt
  All-gone (suc m) = (tt, All-gone m)

  none_open : (m : ℕ) → open_ports (replicate m gone) ≡ 0
  none_open zero = refl
  none_open (suc m) = omega (arith, none_open m)

  -- In every state that `n` tasks can reach, in any order of their steps, the manager's count is the
  -- number of open ports, the controller is on the bus exactly if that is not zero, and every line
  -- buffer has its 64 bytes with `len` within them.
  pub Reach-Inv : {s : System Driver} → Reach h n s → Inv h n s
  unfolding new
  Reach-Inv start = record {
    tasks = length-replicate n gone;
    counted = sym (none_open n);
    runs = refl;
    ports = All-gone n;
  }
  Reach-Inv (later {s} r st) = Step-Inv s (Reach-Inv r) st
