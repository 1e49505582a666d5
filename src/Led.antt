-- ===== src/Led.antt =====
-- src/led.rs: the activity LED. `PulseCode`, the RMT channel and its transactions are `esp_hal`'s, so
-- they are parameters; a failed call gives the channel back, as a successful one does.
pub mod Level
pub mod Pulses
use espcan_br.Base.{
  ℕ, ◌+◌, ◌-◌, ◌*◌, ◌/◌, ◌%◌, ◌^◌, min, u8, Bool, not, ◌==◌, if◌then◌else◌, Option, none, some,
  List, [], ◌∷◌, replicate, Outcome, ok, absent, panic, ◌>>=◌, write_at, ◌⊎◌, inl, inr,
}

abbrev pub frames_for_full : ℕ
frames_for_full = 50

abbrev pub max_level : ℕ
max_level = 64

abbrev pub min_level : ℕ
min_level = 4

-- `u32::saturating_mul`
abbrev pub saturating_mul : ℕ → ℕ → ℕ
saturating_mul a b = min (a * b) (2 ^ 32 - 1)

unfoldable pub level_from_count : ℕ → ℕ
level_from_count count =
    if count == 0
    then 0
    else (let span = max_level - min_level in
        let extra = saturating_mul count span / frames_for_full in
        u8 (min (min_level + extra) max_level))

pub record Rmt : Type 1 where
  pub PulseCode : Type 0
  pub end_marker : PulseCode
  -- `PulseCode::new(Level::High, high, Level::Low, low)`
  pub high_low : ℕ → ℕ → PulseCode
  pub Channel : Type 0
  pub Txn : Type 0
  pub transmit : Channel → List PulseCode → Txn ⊎ Channel
  pub wait : Txn → Channel ⊎ Channel

-- `T0H`, `T0L`, `T1H` and `T1L`
abbrev pub t0h : ℕ
t0h = 32

abbrev pub t0l : ℕ
t0l = 68

abbrev pub t1h : ℕ
t1h = 64

abbrev pub t1l : ℕ
t1l = 36

-- `LEN`
abbrev pub pulses_len : ℕ
pulses_len = 25

module _ (rmt : Rmt) where
  open rmt use {PulseCode, end_marker, high_low, Channel, Txn, transmit, wait}

  abbrev pub pulse : Bool → PulseCode
  pulse b = if b then high_low t1h t1l else high_low t0h t0l

  -- `data[i] = ..; i += 1;` for each bit of the list.
  unfoldable pub put_bits : ℕ → List ℕ → ℕ × List PulseCode → Outcome (ℕ × List PulseCode)
  put_bits byte [] c = ok c
  put_bits byte (bit ∷ bits) (i, pulses) = do
    pulses' ← write_at pulses i (pulse (not (byte / 2 ^ bit % 2 == 0)))
    put_bits byte bits (i + 1, pulses')

  unfoldable pub put_bytes : List ℕ → ℕ × List PulseCode → Outcome (ℕ × List PulseCode)
  put_bytes [] c = ok c
  put_bytes (byte ∷ bytes) c = do
    c' ← put_bits byte (7 ∷ 6 ∷ 5 ∷ 4 ∷ 3 ∷ 2 ∷ 1 ∷ 0 ∷ []) c
    put_bytes bytes c'

  unfoldable pub given_back : Txn ⊎ Channel → Channel
  given_back (inl txn) = elim (wait txn) [ inl c ↦ c | inr c ↦ c ]
  given_back (inr c) = c

  -- `ActivityLed::set_rgb`, with the pulses that it hands to the channel.
  unfoldable pub set_rgb : ℕ → ℕ → ℕ → Option Channel → Outcome (Option Channel × List PulseCode)
  set_rgb r g b none = ok (none, [])
  set_rgb r g b (some ch) = do
    (i, pulses) ← put_bytes (g ∷ r ∷ b ∷ []) (0, replicate pulses_len end_marker)
    ok (some (given_back (transmit ch pulses)), pulses)
