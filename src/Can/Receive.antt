-- ===== src/Can/Receive.antt =====
-- src/can.rs: `can_rx_task` takes what the controller has received, in its order.
use espcan_br.Base.{
  ℕ, zero, suc, ◌+◌, ◌^◌, ◌<◌, ◌≡◌, refl, sym, ◌∙◌, ap, arith, none, some, Option-cases, List, [],
  ◌∷◌, map, length, All, ok, Returns, Returns-of, ◌>>=◌, u32, inl, inr,
}
use espcan_br.Slcan.{CanFrame}
use espcan_br.Slcan.Frame.{IsFrame}
use espcan_br.Twai.{Twai, Documented}
use espcan_br.Can.{Shared, bump, received, poll_rx, drain, rx_round}
use espcan_br.Can.Transmit.{on_bus}
use espcan_br.Can.Convert.{from_esp-IsFrame}

module _ (h : Twai) (laws : Documented h) where
  open h use {Driver, EspFrame, receive}

  -- The frames that the driver gives until it has none, `n` at most, and the driver behind them.
  pub pulled : ℕ → Driver → List EspFrame
  pulled zero d = []
  pulled (suc n) d = let (d', got) = receive d in elim got [ none ↦ [] | some e ↦ e ∷ pulled n d' ]

  pub emptied : ℕ → Driver → Driver
  emptied zero d = d
  emptied (suc n) d = let (d', got) = receive d in elim got [ none ↦ d' | some e ↦ emptied n d' ]

  -- The frame that the conversion makes.
  pub converted : EspFrame → CanFrame
  converted e = (from_esp-IsFrame h laws e).0

  pub All-converted : (es : List EspFrame) → All IsFrame (map converted es)
  unfolding converted
  All-converted [] = tt
  All-converted (e ∷ es) = ((from_esp-IsFrame h laws e).2, All-converted es)

  -- `s` with the controller in state `d`, after `n` more received frames.
  abbrev pub counted : Shared Driver → Driver → ℕ → Shared Driver
  counted s d n = record s {
    can = record s.can { twai = some d };
    counters = record s.counters { rx_count = u32 (s.counters.rx_count + n) };
  }

  -- One frame is taken from the driver, or there is none.
  Drains : ℕ → Shared Driver → Driver → ℕ → Type 0
  Drains n s d m =
      drain h n (counted s d m)
      ≡ ok (counted s (emptied n d) (m + length (pulled n d)), map converted (pulled n d))

  module _ (n : ℕ) (d : Driver) where
    pulled-none :
        (receive d).1 ≡ none → (pulled (suc n) d ≡ []) × (emptied (suc n) d ≡ (receive d).0)
    unfolding pulled emptied
    pulled-none e = (rw (e, pulled), rw (e, emptied))

    pulled-some :
        (f : EspFrame)
        → (receive d).1 ≡ some f
        → (pulled (suc n) d ≡ f ∷ pulled n (receive d).0)
          × (emptied (suc n) d ≡ emptied n (receive d).0)
    unfolding pulled emptied
    pulled-some f e = (rw (e, pulled), rw (e, emptied))

  module _ (n : ℕ) (s : Shared Driver) (d : Driver) (m : ℕ) where
    abbrev Result : Shared Driver × List CanFrame → Type 0
    Result r = drain h (suc n) (counted s d m) ≡ ok r

    Drains-none : (receive d).1 ≡ none → Drains (suc n) s d m
    unfolding Drains
    Drains-none e =
        let (all, end) = pulled-none n d e in
        rw (all, end) (stop ∙ ap (λ k. ok (counted s (receive d).0 k, [])) more)
      where
        stop : Result (counted s (receive d).0 m, [])
        stop = unfold drain poll_rx received in rw (e, received)

        more : m ≡ m + 0
        more = omega arith

    Drains-some :
        (e : EspFrame)
        → (receive d).1 ≡ some e
        → Drains n s (receive d).0 (m + 1)
        → Drains (suc n) s d m
    unfolding Drains
    Drains-some e got later =
        let (all, end) = pulled-some n d e got in
        rw (all, end)
          (step
            ∙ ap (λ r. r >>= λ (t : Shared Driver × List CanFrame). ok (t.0, converted e ∷ t.1))
                later
            ∙ ap
                (λ k. ok (
                  counted s (emptied n (receive d).0) k,
                  converted e ∷ map converted (pulled n (receive d).0),
                ))
                more)
      where
        rest : List EspFrame
        rest = pulled n (receive d).0

        more : m + 1 + length rest ≡ m + suc (length rest)
        more = omega arith

        bumped : bump (u32 (s.counters.rx_count + m)) ≡ u32 (s.counters.rx_count + (m + 1))
        bumped = omega arith

        step :
            drain h (suc n) (counted s d m)
            ≡ (drain h n (counted s (receive d).0 (m + 1)) >>= λ t. ok (t.0, converted e ∷ t.1))
        step = rw (← bumped) (
            unfold drain poll_rx received converted in
            rw (got, received, (from_esp-IsFrame h laws e).1))

  drain-Drains : (n : ℕ) (s : Shared Driver) (d : Driver) (m : ℕ) → Drains n s d m
  drain-Drains zero s d m =
      unfold Drains drain pulled emptied in ap (λ k. ok (counted s d k, [])) more
    where
      more : m ≡ m + 0
      more = omega arith
  drain-Drains (suc n) s d m = elim (Option-cases (receive d).1) [
    | inl none_left ↦ Drains-none n s d m none_left
    | inr (e, got) ↦ Drains-some n s d m e got (drain-Drains n s (receive d).0 (m + 1))
  ]

  -- One round of `can_rx_task` with the controller running: what is published is what the driver gives
  -- until it has no more, 16 frames at most, converted and in its order; it is counted modulo 2 ^ 32; the
  -- bitrate, the number of open ports and the other counters are unchanged. The counter is of 32 bits
  -- before, and the driver does what its documentation says.
  pub rx_round-pulled :
      (s : Shared Driver) (d : Driver)
      → s.can.twai ≡ some d
      → s.counters.rx_count < 2 ^ 32
      → rx_round h s
        ≡ ok (counted s (emptied 16 d) (length (pulled 16 d)), map converted (pulled 16 d))
  unfolding rx_round Drains
  rx_round-pulled s d on k =
      ap (drain h 16) same
      ∙ drain-Drains 16 s d 0
      ∙ ap (λ n. ok (counted s (emptied 16 d) n, map converted (pulled 16 d))) none_yet
    where
      none_yet : 0 + length (pulled 16 d) ≡ length (pulled 16 d)
      none_yet = omega arith

      unchanged : s.counters.rx_count ≡ u32 (s.counters.rx_count + 0)
      unchanged = omega arith

      same : s ≡ counted s d 0
      same = λ j. record s {
        can = record s.can { twai = on j };
        counters = record s.counters { rx_count = unchanged j };
      }

-- What receiving leaves alone.
pub record Keeps {Driver : Type 0} (s : Shared Driver) (r : Shared Driver × List CanFrame)
    : Type 0 where
  pub open_count : r.0.can.open_count ≡ s.can.open_count
  pub baud : r.0.can.baud ≡ s.can.baud
  pub on : on_bus r.0.can.twai ≡ on_bus s.can.twai

module _ (h : Twai) (laws : Documented h) where
  open h use {Driver, EspFrame}

  running-Keeps :
      (n : ℕ) (s : Shared Driver) (d : Driver)
      → s.can.twai ≡ some d
      → Returns (Keeps s) (drain h (suc n) s)
  unfolding Drains
  running-Keeps n s d on = elim (Option-cases (h.receive d).1) [
    | inl nothing ↦
        Returns-of (Keeps s) (record s { can = record s.can { twai = some (h.receive d).0 } }, [])
          (unfold drain poll_rx received in rw (on, poll_rx, nothing, received))
          (record { open_count = refl; baud = refl; on = sym (ap on_bus on) })
    | inr (e, got) ↦
        let first : drain h (suc n) s ≡ (
            drain h n (counted h laws s (h.receive d).0 1) >>= λ t.
            ok (t.0, converted h laws e ∷ t.1)) =
          unfold drain poll_rx received converted in
          rw (on, poll_rx, got, received, (from_esp-IsFrame h laws e).1) in
        Returns-of (Keeps s) _
          (first
            ∙ ap
                (λ m.
                  m >>= λ (t : Shared Driver × List CanFrame). ok (t.0, converted h laws e ∷ t.1))
                (drain-Drains h laws n s (h.receive d).0 1))
          (record { open_count = refl; baud = refl; on = sym (ap on_bus on) })
  ]

  -- A round of `can_rx_task` returns, and leaves the number of open ports, the bitrate and the
  -- controller's presence alone.
  pub rx_round-Keeps : (s : Shared Driver) → Returns (Keeps s) (rx_round h s)
  unfolding rx_round
  rx_round-Keeps s = elim (Option-cases s.can.twai) [
    | inl off ↦
        Returns-of (Keeps s) (record s { can = record s.can { twai = none } }, [])
          (unfold drain poll_rx in
            rw (off, poll_rx) (λ j. ok (record s { can = record s.can { twai = off j } }, [])))
          (record { open_count = refl; baud = refl; on = sym (ap on_bus off) })
    | inr (d, on) ↦ running-Keeps 15 s d on
  ]
