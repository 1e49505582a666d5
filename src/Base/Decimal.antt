-- ===== src/Base/Decimal.antt =====
-- Numbers in decimal digits, as `write!` prints them, and as `parse` reads them.
use Prim.Native.Nat.{ℕ, zero, suc, ◌+◌, ◌-◌, ◌*◌, ◌/◌, ◌%◌, ◌≤◌, ◌<◌}
use mathlib.Core.Path.{◌≡◌, refl, ◌∙◌, ap}
use mathlib.Core.Logic.{◌⊎◌, inl, inr}
use mathlib.Core.Bool.{true, false}
use mathlib.Core.Option.{some}
use mathlib.Core.List.{[], ◌∷◌, ◌++◌}
use native.Mathlib.Omega.{arith}
use espcan_br.Base.Tests.{ltb, lt→ltb, Bool-cases, ltb-false→le}
use espcan_br.Base.Lists.{Bytes, All, All-append, length, length-append}
use espcan_br.Base.Text.{parse_digits, parse_unsigned, has}

abbrev decimal_from : ℕ → ℕ → Bytes
decimal_from zero n = (b'0' + n % 10) ∷ []
decimal_from (suc f) n = elim (ltb n 10) [
  | true ↦ (b'0' + n % 10) ∷ []
  | false ↦ decimal_from f (n / 10) ++ (b'0' + n % 10) ∷ []
]

-- `{}` of an unsigned number.
unfoldable pub decimal : ℕ → Bytes
decimal n = decimal_from n n

-- Digits alone, one at least.
abbrev pub IsDigit : ℕ → Type 0
IsDigit d = (b'0' ≤ d) × (d ≤ b'9')

IsDigit-char : (n : ℕ) → IsDigit (b'0' + n % 10)
IsDigit-char n = (omega arith, omega arith)

decimal_from-IsDigit : (f n : ℕ) → All IsDigit (decimal_from f n)
decimal_from-IsDigit zero n = (IsDigit-char n, tt)
decimal_from-IsDigit (suc f) n = elim (Bool-cases (ltb n 10)) [
  | inl small ↦ rw (small, decimal_from) (IsDigit-char n, tt)
  | inr large ↦
      rw (large, decimal_from)
        (All-append IsDigit (decimal_from f (n / 10)) ((b'0' + n % 10) ∷ [])
          (decimal_from-IsDigit f (n / 10)) (IsDigit-char n, tt))
]

pub decimal-IsDigit : (n : ℕ) → All IsDigit (decimal n)
unfolding decimal
decimal-IsDigit n = decimal_from-IsDigit n n

parse_digits-append :
    (most acc k d : ℕ) (xs : Bytes)
    → parse_digits most acc xs ≡ some k
    → IsDigit d
    → k * 10 + (d - b'0') ≤ most
    → parse_digits most acc (xs ++ d ∷ []) ≡ some (k * 10 + (d - b'0'))
parse_digits-append most acc k d [] e digit fits = ground arith
parse_digits-append most acc k d (x ∷ xs) e digit fits =
    ground (arith, parse_digits-append most (acc * 10 + (x - b'0')) k d xs)

parse_digits-decimal_from :
    (most f n : ℕ) → n ≤ f → n ≤ most → parse_digits most 0 (decimal_from f n) ≡ some n
parse_digits-decimal_from most zero n le fits = ground arith
parse_digits-decimal_from most (suc f) n le fits = elim (Bool-cases (ltb n 10)) [
  | inl small ↦ rw (small, decimal_from) (ground arith)
  | inr large ↦
      let more = ltb-false→le n 10 large in
      rw (large, decimal_from)
        (parse_digits-append most 0 (n / 10) (b'0' + n % 10) (decimal_from f (n / 10))
            (parse_digits-decimal_from most f (n / 10) (omega arith) (omega arith)) (IsDigit-char n)
            (omega arith)
          ∙ ap some (omega arith))
]

parse_unsigned-digits :
    (most d : ℕ) (ds : Bytes)
    → IsDigit d
    → parse_unsigned most (d ∷ ds) ≡ parse_digits most 0 (d ∷ ds)
parse_unsigned-digits most d [] digit = ground arith
parse_unsigned-digits most d (e ∷ ds) digit = ground arith

parse_unsigned-All :
    (most n : ℕ) (ds : Bytes)
    → All IsDigit ds
    → 0 < length ds
    → parse_unsigned most ds ≡ parse_digits most 0 ds
parse_unsigned-All most n [] digits some_digit = absurd (omega arith)
parse_unsigned-All most n (d ∷ ds) digits some_digit = parse_unsigned-digits most d ds digits.0

pub decimal_nonempty : (n : ℕ) → 0 < length (decimal n)
unfolding decimal
decimal_nonempty n = go n n
  where
    go : (f n : ℕ) → 0 < length (decimal_from f n)
    go zero n = omega arith
    go (suc f) n = elim (Bool-cases (ltb n 10)) [
      | inl small ↦ rw (small, decimal_from) (omega arith)
      | inr large ↦
          rw (large, decimal_from)
            (omega (arith, length-append (decimal_from f (n / 10)) ((b'0' + n % 10) ∷ [])))
    ]

-- A printed number is read back.
pub parse_unsigned-decimal : (most n : ℕ) → n ≤ most → parse_unsigned most (decimal n) ≡ some n
unfolding decimal
parse_unsigned-decimal most n fits =
    parse_unsigned-All most n (decimal_from n n) (decimal_from-IsDigit n n) (decimal_nonempty n)
    ∙ parse_digits-decimal_from most n n (omega arith) fits

-- A byte that is no digit does not occur among digits.
pub has-IsDigit : (c : ℕ) (ds : Bytes) → (c < b'0') ⊎ (b'9' < c) → All IsDigit ds → has c ds ≡ false
has-IsDigit c [] out h = refl
has-IsDigit c (d ∷ ds) out h = let rest = has-IsDigit c ds out h.1 in ground arith

-- The power of ten behind the `k`-th.
abbrev pub next_power : ℕ → ℕ
next_power zero = 10
next_power (suc k) = 10 * next_power k

decimal_from-few : (f k n : ℕ) → n < next_power k → length (decimal_from f n) ≤ suc k
decimal_from-few zero k n h = omega arith
decimal_from-few (suc f) zero n h =
    let small : ltb n 10 ≡ true = lt→ltb n 10 h in rw (small, decimal_from) (omega arith)
decimal_from-few (suc f) (suc k) n h = elim (Bool-cases (ltb n 10)) [
  | inl small ↦ rw (small, decimal_from) (omega arith)
  | inr large ↦
      let front : length (decimal_from f (n / 10)) ≤ suc k =
        decimal_from-few f k (n / 10) (omega (arith, h)) in
      rw (large, decimal_from)
        (omega (arith, front, length-append (decimal_from f (n / 10)) ((b'0' + n % 10) ∷ [])))
]

-- A number below a power of ten has that many digits at most.
pub decimal-few : (k n : ℕ) → n < next_power k → length (decimal n) ≤ suc k
unfolding decimal
decimal-few k n h = decimal_from-few n k n h
