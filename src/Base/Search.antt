-- ===== src/Base/Search.antt =====
-- Where a pattern is found stays the same when more bytes follow.
use Prim.Native.Nat.{ℕ, ◌+◌, ◌≤◌}
use mathlib.Core.Path.{◌≡◌, refl, ap}
use mathlib.Core.Logic.{◌⊎◌, inl, inr}
use mathlib.Core.Option.{none, some, some-injective}
use mathlib.Core.List.{[], ◌∷◌, ◌++◌}
use native.Mathlib.Omega.{arith}
use espcan_br.Base.Tests.{◌==◌, Bool-cases, Option-cases}
use espcan_br.Base.Lists.{Bytes, length}
use espcan_br.Base.Text.{strip_prefix, position}

strip_prefix-some :
    (p xs ys rest : Bytes)
    → strip_prefix p xs ≡ some rest
    → strip_prefix p (xs ++ ys) ≡ some (rest ++ ys)
strip_prefix-some [] xs ys rest h = ap (λ r. some (r ++ ys)) (some-injective _ _ h)
strip_prefix-some (p ∷ ps) [] ys rest h = cc
strip_prefix-some (p ∷ ps) (x ∷ xs) ys rest h = elim (Bool-cases (x == p)) [
  | inl same ↦
      let k : strip_prefix ps xs ≡ some rest = rw same at h in
      rw same (strip_prefix-some ps xs ys rest k)
  | inr other ↦ (let k : none ≡ some rest = rw other at h in cc)
]

strip_prefix-none :
    (p xs ys : Bytes)
    → length p ≤ length xs
    → strip_prefix p xs ≡ none
    → strip_prefix p (xs ++ ys) ≡ none
strip_prefix-none [] xs ys room h = cc
strip_prefix-none (p ∷ ps) [] ys room h = absurd (omega arith)
strip_prefix-none (p ∷ ps) (x ∷ xs) ys room h = elim (Bool-cases (x == p)) [
  | inl same ↦
      let k : strip_prefix ps xs ≡ none = rw same at h in
      rw same (strip_prefix-none ps xs ys (omega arith) k)
  | inr other ↦ rw other refl
]

strip_prefix-length : (p xs rest : Bytes) → strip_prefix p xs ≡ some rest → length p ≤ length xs
strip_prefix-length [] xs rest h = omega arith
strip_prefix-length (p ∷ ps) [] rest h = cc
strip_prefix-length (p ∷ ps) (x ∷ xs) rest h = elim (Bool-cases (x == p)) [
  | inl same ↦
      let k : strip_prefix ps xs ≡ some rest = rw same at h in
      let ih = strip_prefix-length ps xs rest k in omega arith
  | inr other ↦ (let k : none ≡ some rest = rw other at h in cc)
]

-- A pattern is found in front, or behind the first byte.
place_lem :
    (p : Bytes) (x : ℕ) (xs : Bytes) (i : ℕ)
    → position p (x ∷ xs) ≡ some i
    → ((rest : Bytes) × (strip_prefix p (x ∷ xs) ≡ some rest) × (i ≡ 0))
      ⊎ ((j : ℕ) × (strip_prefix p (x ∷ xs) ≡ none) × (position p xs ≡ some j) × (i ≡ j + 1))
place_lem p x xs i h = elim (Option-cases (strip_prefix p (x ∷ xs))) [
  | inr (rest, here) ↦
      let k : some 0 ≡ some i = rw (here, position) at h in
      inl (rest, here, (let e = some-injective _ _ k in omega arith))
  | inl away ↦ elim (Option-cases (position p xs)) [
    | inl lacks ↦ (let k : none ≡ some i = rw (away, lacks, position) at h in cc)
    | inr (j, found) ↦
        let k : some (j + 1) ≡ some i = rw (away, found, position) at h in
        inr (j, away, found, (let e = some-injective _ _ k in omega arith))
  ]
]

pub position-lt : (p xs : Bytes) (i : ℕ) → position p xs ≡ some i → i + length p ≤ length xs
position-lt p [] i h = cc
position-lt p (x ∷ xs) i h = elim (place_lem p x xs i h) [
  | inl (rest, here, first) ↦ (let l = strip_prefix-length p (x ∷ xs) rest here in omega arith)
  | inr (j, away, found, later) ↦ (let l = position-lt p xs j found in omega arith)
]

pub position-append :
    (p xs ys : Bytes) (i : ℕ) → position p xs ≡ some i → position p (xs ++ ys) ≡ some i
position-append p [] ys i h = cc
position-append p (x ∷ xs) ys i h = elim (place_lem p x xs i h) [
  | inl (rest, here, first) ↦ rw (position, strip_prefix-some p (x ∷ xs) ys rest here, first) refl
  | inr (j, away, found, later) ↦
      let l = position-lt p xs j found in
      let still = strip_prefix-none p (x ∷ xs) ys (omega arith) away in
      rw (position, still, position-append p xs ys j found, later) refl
]
