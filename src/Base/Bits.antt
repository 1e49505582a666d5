-- ===== src/Base/Bits.antt =====
-- `bit_or` of two words whose bits do not meet is their sum.
use Prim.Native.Nat.{
  ℕ, zero, suc, ◌+◌, ◌*◌, ◌/◌, ◌%◌, ◌^◌, ◌≤◌, ◌<◌, max, bit_or, bit_xor, differ, digits,
  bit_or-bitwise, bit_xor-bitwise,
}
use mathlib.Core.Path.{◌≡◌, ◌∙◌, refl, sym, ap, ap₂}
use native.Mathlib.Nat.{pow-suc}
use native.Mathlib.Omega.{arith}
use native.Mathlib.Decide.{ℕ_discrete}
use mathlib.Core.Bool.{◌&&◌}
use espcan_br.Base.Tests.{◌==◌}

-- Binary digits combined by `f`, those of the first number in charge of the recursion.
module _ (f : ℕ → ℕ → ℕ) where
  abbrev combined : ℕ → ℕ → ℕ → ℕ
  combined n a b = digits (λ b. b) f n a b

  combined_fuel : (a j k b : ℕ) → a ≤ j → a ≤ k → combined j a b ≡ combined k a b
  combined_fuel zero zero zero b le le' = refl
  combined_fuel zero zero (suc k) b le le' = refl
  combined_fuel zero (suc j) zero b le le' = refl
  combined_fuel zero (suc j) (suc k) b le le' = refl
  combined_fuel (suc a) zero k b le le' = absurd (omega arith)
  combined_fuel (suc a) (suc j) zero b le le' = absurd (omega arith)
  combined_fuel (suc a) (suc j) (suc k) b le le' =
      omega (arith, combined_fuel (suc a / 2) j k (b / 2) (omega arith) (omega arith))

zero-bit_or : (b : ℕ) → bit_or 0 b ≡ b
zero-bit_or b = bit_or-bitwise 0 b

pub bit_or_step : (a b : ℕ) → bit_or a b ≡ bit_or (a / 2) (b / 2) * 2 + max (a % 2) (b % 2)
bit_or_step zero b = omega (arith, zero-bit_or b, zero-bit_or (b / 2))
bit_or_step (suc a) b = omega (
  arith,
  bit_or-bitwise (suc a) b,
  bit_or-bitwise (suc a / 2) (b / 2),
  combined_fuel max (suc a / 2) a (suc a / 2) (b / 2) (omega arith) (omega arith),
)

zero-bit_xor : (b : ℕ) → bit_xor 0 b ≡ b
zero-bit_xor b = bit_xor-bitwise 0 b

bit_xor_step : (a b : ℕ) → bit_xor a b ≡ bit_xor (a / 2) (b / 2) * 2 + differ (a % 2) (b % 2)
bit_xor_step zero b = omega (arith, zero-bit_xor b, zero-bit_xor (b / 2), lowest)
  where
    lowest : differ (0 % 2) (b % 2) ≡ b % 2
    lowest = refl
bit_xor_step (suc a) b = omega (
  arith,
  bit_xor-bitwise (suc a) b,
  bit_xor-bitwise (suc a / 2) (b / 2),
  combined_fuel differ (suc a / 2) a (suc a / 2) (b / 2) (omega arith) (omega arith),
)

bit_or-zero_fuel : (n a : ℕ) → a ≤ n → bit_or a 0 ≡ a
bit_or-zero_fuel n zero h = refl
bit_or-zero_fuel zero (suc a) h = absurd (omega arith)
bit_or-zero_fuel (suc n) (suc a) h =
    omega (arith, bit_or_step (suc a) 0, bit_or-zero_fuel n (suc a / 2) (omega arith))

pub bit_or-zero : (a : ℕ) → bit_or a 0 ≡ a
bit_or-zero a = bit_or-zero_fuel a a (omega arith)

-- `(v << k) | d`, where `d` has at most `k` bits.
pub bit_or-shift : (k v d : ℕ) → d < 2 ^ k → bit_or (v * 2 ^ k) d ≡ v * 2 ^ k + d
bit_or-shift zero v d h =
    let none_left : d ≡ 0 = omega arith in rw none_left (bit_or-zero (v * 2 ^ 0) ∙ omega arith)
bit_or-shift (suc k) v d h = omega (
  arith,
  pow-suc 2 k,
  ap_mul,
  bit_or_step (v * 2 ^ suc k) d,
  halved,
  bit_or-shift k v (d / 2) (omega (arith, pow-suc 2 k)),
)
  where
    ap_mul : v * 2 ^ suc k ≡ 2 * (v * 2 ^ k)
    ap_mul = rw (pow-suc 2 k) (omega arith)

    halved : bit_or (v * 2 ^ suc k / 2) (d / 2) ≡ bit_or (v * 2 ^ k) (d / 2)
    halved = rw ap_mul (rw half)
      where
        half : 2 * (v * 2 ^ k) / 2 ≡ v * 2 ^ k
        half = omega arith

pub bit_or_nibble : (v d : ℕ) → d < 16 → bit_or (v * 16) d ≡ v * 16 + d
bit_or_nibble v d h = bit_or-shift 4 v d h

differ-eq : (x y : ℕ) → differ x y ≡ 0 → x ≡ y
differ-eq zero y h = sym h
differ-eq (suc x) zero h = h
differ-eq (suc x) (suc y) h = ap suc (differ-eq x y h)

differ-same : (x : ℕ) → differ x x ≡ 0
differ-same zero = refl
differ-same (suc x) = differ-same x

bit_xor-eq_fuel : (n a b : ℕ) → a ≤ n → bit_xor a b ≡ 0 → a ≡ b
bit_xor-eq_fuel n zero b le h = omega (arith, zero-bit_xor b, h)
bit_xor-eq_fuel zero (suc a) b le h = absurd (omega arith)
bit_xor-eq_fuel (suc n) (suc a) b le h =
    let step = bit_xor_step (suc a) b in
    let highs : suc a / 2 ≡ b / 2 =
      bit_xor-eq_fuel n (suc a / 2) (b / 2) (omega arith) (omega (arith, h, step)) in
    let lows : suc a % 2 ≡ b % 2 = differ-eq (suc a % 2) (b % 2) (omega (arith, h, step)) in
    omega (arith, highs, lows)

bit_xor-same_fuel : (n a : ℕ) → a ≤ n → bit_xor a a ≡ 0
bit_xor-same_fuel n zero le = refl
bit_xor-same_fuel zero (suc a) le = absurd (omega arith)
bit_xor-same_fuel (suc n) (suc a) le = omega (
  arith,
  bit_xor_step (suc a) (suc a),
  bit_xor-same_fuel n (suc a / 2) (omega arith),
  differ-same (suc a % 2),
)

bit_or-none_fuel : (n a b : ℕ) → a ≤ n → bit_or a b ≡ 0 → (a ≡ 0) × (b ≡ 0)
bit_or-none_fuel n zero b le h = (refl, omega (arith, zero-bit_or b, h))
bit_or-none_fuel zero (suc a) b le h = absurd (omega arith)
bit_or-none_fuel (suc n) (suc a) b le h =
    let (highs, other_highs) =
      bit_or-none_fuel n (suc a / 2) (b / 2) (omega arith)
        (omega (arith, h, bit_or_step (suc a) b)) in
    let lows : max (suc a % 2) (b % 2) ≡ 0 = omega (arith, h, bit_or_step (suc a) b) in
    (omega (arith, highs, lows), omega (arith, other_highs, lows))

-- Two words are equal exactly if nothing is left of their exclusive or; two words are both zero exactly
-- if their `or` is.
pub bit_xor-==0 : (a b : ℕ) → (bit_xor a b == 0) ≡ (a == b)
bit_xor-==0 a b = elim (ℕ_discrete a b) [
  | yes same ↦
      (let none_left : bit_xor a b ≡ 0 =
          ap (bit_xor a) (sym same) ∙ bit_xor-same_fuel a a (omega arith) in
        ground arith)
  | no apart ↦
      (let some_left : ¬ (bit_xor a b ≡ 0) = λ h. apart (bit_xor-eq_fuel a a b (omega arith) h) in
        ground arith)
]

pub bit_or-==0 : (a b : ℕ) → (bit_or a b == 0) ≡ (a == 0 && b == 0)
bit_or-==0 a b = elim (ℕ_discrete (bit_or a b) 0) [
  | yes none_left ↦ (let (x, y) = bit_or-none_fuel a a b (omega arith) none_left in ground arith)
  | no some_left ↦
      (let apart : ¬ ((a ≡ 0) × (b ≡ 0)) = λ p. some_left (ap₂ bit_or p.0 p.1) in ground arith)
]
