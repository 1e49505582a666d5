-- ===== src/Can/Transmit.antt =====
-- src/can.rs: the bounded retries of `try_transmit`, and what `CanManager::transmit` changes.
use espcan_br.Base.{
  ℕ, zero, suc, ◌≤◌, ◌≡◌, refl, sym, subst, ◌∙◌, ap, arith, Bool, true, false, if◌then◌else◌,
  Option, none, some, ok, absent, inl, inr, Bool-cases, ◌⊎◌, ◌^◌, dec_lt, not-lt→le,
}
use espcan_br.Slcan.{CanFrame}
use espcan_br.Slcan.Frame.{IsFrame, IsParsed, IsParsed-IsFrame}
use espcan_br.Can.Convert.{IsFrame-Enters, to_esp_large}
use espcan_br.Twai.{Twai, Documented, Sent, sent, would_block, other}
use espcan_br.Can.{
  Shared, bump, try_from, try_transmit, transmit, transmit_on, transmit_esp, to_esp,
}

pub is_sent : Sent → Bool
is_sent sent = true
is_sent would_block = false
is_sent other = false

module _ (h : Twai) (frame : h.EspFrame) where
  open h use {Driver, transmit_once}

  -- The driver after `n` attempts, and the result of the attempt with `n` before it.
  pub after : ℕ → Driver → Driver
  after zero d = d
  after (suc n) d = after n (transmit_once d frame).0

  pub result : ℕ → Driver → Sent
  unfolding after
  result n d = (transmit_once (after n d) frame).1

  -- The first `n` attempts find the controller's queue full.
  pub Blocks : ℕ → Driver → Type 0
  Blocks n d = (k : ℕ) → suc k ≤ n → result k d ≡ would_block

  -- `m` attempts block, the next one is the last, and its result is returned.
  pub record Attempts (limit : ℕ) (d : Driver) (r : Driver × Bool) : Type 0 where
    pub m : ℕ
    pub within : m ≤ limit
    pub blocked : Blocks m d
    pub last : r.0 ≡ after (suc m) d
    pub done : r.1 ≡ is_sent (result m d)
    pub exhausted : result m d ≡ would_block → m ≡ limit

  first_is_last :
      (limit : ℕ) (d : Driver) (r : Driver × Bool)
      → r.0 ≡ (transmit_once d frame).0
      → r.1 ≡ is_sent (transmit_once d frame).1
      → ((transmit_once d frame).1 ≡ would_block → 0 ≡ limit)
      → Attempts limit d r
  unfolding after result Blocks
  first_is_last limit d r e f g = record {
    m = 0;
    within = omega arith;
    blocked = λ k p. absurd (omega arith);
    last = e;
    done = f;
    exhausted = g;
  }

  one_more :
      (limit : ℕ) (d : Driver) (r : Driver × Bool)
      → (transmit_once d frame).1 ≡ would_block
      → Attempts limit (transmit_once d frame).0 r
      → Attempts (suc limit) d r
  unfolding after result Blocks
  one_more limit d r e a = record {
    m = suc a.m;
    within = omega (arith, a.within);
    blocked = blocked;
    last = a.last;
    done = a.done;
    exhausted = λ p. ap suc (a.exhausted p);
  }
    where
      blocked : (k : ℕ) → suc k ≤ suc a.m → (transmit_once (after k d) frame).1 ≡ would_block
      blocked zero p = e
      blocked (suc k) p = a.blocked k (omega arith)

  try_from-Attempts : (left : ℕ) (d : Driver) → Attempts left d (try_from h left d frame)
  try_from-Attempts zero d = go (transmit_once d frame).1 refl
    where
      go : (r : Sent) → (transmit_once d frame).1 ≡ r → Attempts zero d (try_from h zero d frame)
      go sent e =
          first_is_last zero d _ (unfold try_from in rw (e, try_from))
            (unfold try_from is_sent in rw (e, try_from)) (λ _. refl)
      go would_block e =
          first_is_last zero d _ (unfold try_from in rw (e, try_from))
            (unfold try_from is_sent in rw (e, try_from)) (λ _. refl)
      go other e =
          first_is_last zero d _ (unfold try_from in rw (e, try_from))
            (unfold try_from is_sent in rw (e, try_from)) (λ _. refl)
  try_from-Attempts (suc left) d =
      go (transmit_once d frame).1 refl (try_from-Attempts left (transmit_once d frame).0)
    where
      go :
          (r : Sent)
          → (transmit_once d frame).1 ≡ r
          → Attempts left
              (transmit_once d frame).0
              (try_from h left (transmit_once d frame).0 frame)
          → Attempts (suc left) d (try_from h (suc left) d frame)
      go sent e a =
          first_is_last (suc left) d _ (unfold try_from in rw (e, try_from))
            (unfold try_from is_sent in rw (e, try_from)) (λ p. cc)
      go other e a =
          first_is_last (suc left) d _ (unfold try_from in rw (e, try_from))
            (unfold try_from is_sent in rw (e, try_from)) (λ p. cc)
      go would_block e a = unfold try_from in rw (e, try_from) (one_more left d _ e a)

  -- `try_transmit` makes at most 51 attempts: it goes on as long as an attempt finds the queue full,
  -- stops at the first other result, and returns whether that attempt sent the frame.
  pub try_transmit-Attempts : (d : Driver) → Attempts 50 d (try_transmit h d frame)
  unfolding try_transmit
  try_transmit-Attempts d = try_from-Attempts 50 d

-- Whether the controller is on the bus.
abbrev pub on_bus {ℓ} : {A : Type ℓ} → Option A → Bool
on_bus none = false
on_bus (some _) = true

module _ (h : Twai) where
  open h use {Driver, EspFrame}

  -- What a transmission leaves alone, and what it counts.
  pub record Transmits (s : Shared Driver) (r : Shared Driver × Bool) : Type 0 where
    pub baud : r.0.can.baud ≡ s.can.baud
    pub open_count : r.0.can.open_count ≡ s.can.open_count
    pub on : on_bus r.0.can.twai ≡ on_bus s.can.twai
    pub counted :
        r.0.counters
        ≡ (if r.1 then record s.counters { tx_count = bump s.counters.tx_count } else s.counters)

  Transmits-refused : (s : Shared Driver) → Transmits s (s, false)
  Transmits-refused s = record { baud = refl; open_count = refl; on = refl; counted = refl }

  Transmits-esp :
      (s : Shared Driver) (d : Driver) (e : EspFrame)
      → s.can.twai ≡ some d
      → Transmits s (transmit_esp h s d e)
  unfolding transmit_esp
  Transmits-esp s d e on = elim (Bool-cases (try_transmit h d e).1) [
    | inl done ↦
        rw done (record { baud = refl; open_count = refl; on = sym (ap on_bus on); counted = refl })
    | inr failed ↦
        rw failed
          (record { baud = refl; open_count = refl; on = sym (ap on_bus on); counted = refl })
  ]

  transmit_esp-tried :
      (s : Shared Driver) (d : Driver) (e : EspFrame)
      → ((transmit_esp h s d e).0.can.twai ≡ some (try_transmit h d e).0)
        × ((transmit_esp h s d e).1 ≡ (try_transmit h d e).1)
  unfolding transmit_esp
  transmit_esp-tried s d e = elim (Bool-cases (try_transmit h d e).1) [
    | inl done ↦ (rw done, rw done)
    | inr failed ↦ (rw failed, rw failed)
  ]

  module _ (laws : Documented h) (frame : CanFrame) where
    to_esp-cases :
        IsParsed frame → ((e : EspFrame) × (to_esp h frame ≡ ok e)) ⊎ (to_esp h frame ≡ absent)
    to_esp-cases v = elim (dec_lt frame.id (2 ^ (if frame.ext then 29 else 11))) [
      | yes fits ↦
          let (e, entered, _) = IsFrame-Enters h laws frame (IsParsed-IsFrame frame v fits) in
          inl (e, entered)
      | no large ↦ inr (to_esp_large h laws frame v (not-lt→le large))
    ]

    -- Of a frame that the parser has returned: `CanManager::transmit` returns, leaves the bitrate, the
    -- number of open ports and the controller's presence alone, and counts the frame exactly if it
    -- answers `true`.
    pub transmit-Transmits :
        (s : Shared Driver)
        → IsParsed frame
        → (r : Shared Driver × Bool) × (transmit h frame s ≡ ok r) × Transmits s r
    unfolding transmit
    transmit-Transmits s v = go s.can.twai refl (to_esp-cases v)
      where
        go :
            (t : Option Driver)
            → s.can.twai ≡ t
            → ((e : EspFrame) × (to_esp h frame ≡ ok e)) ⊎ (to_esp h frame ≡ absent)
            → (r : Shared Driver × Bool) × (transmit_on h s t frame ≡ ok r) × Transmits s r
        go none e c = ((s, false), unfold transmit_on in refl, Transmits-refused s)
        go (some d) e (inl (esp, entered)) = (
          transmit_esp h s d esp,
          unfold transmit_on in rw (entered, transmit_on),
          Transmits-esp s d esp e,
        )
        go (some d) e (inr refused) =
            ((s, false), unfold transmit_on in rw (refused, transmit_on), Transmits-refused s)

    -- A frame of CAN 2.0 is offered to a running controller: in at most 51 attempts, and the answer
    -- is whether the last of them sent it.
    pub transmit-Attempts :
        (s : Shared Driver) (d : Driver)
        → IsFrame frame
        → s.can.twai ≡ some d
        → (e : EspFrame) × (r : Shared Driver × Bool) × (d' : Driver) × (to_esp h frame ≡ ok e)
          × (transmit h frame s ≡ ok r)
          × (r.0.can.twai ≡ some d')
          × Attempts h e 50 d (d', r.1)
    unfolding transmit transmit_on
    transmit-Attempts s d v on =
        let (e, entered, _) = IsFrame-Enters h laws frame v in
        let (left, answer) = transmit_esp-tried s d e in
        let tried = try_transmit-Attempts h e d in
        (
          e,
          transmit_esp h s d e,
          (try_transmit h d e).0,
          entered,
          ap (λ t. transmit_on h s t frame) on ∙ rw (entered, transmit_on),
          left,
          subst (λ b. Attempts h e 50 d ((try_transmit h d e).0, b)) (sym answer) tried,
        )
