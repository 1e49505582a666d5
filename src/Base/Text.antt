-- ===== src/Base/Text.antt =====
-- What the source uses of `str`, on bytes.
use Prim.Native.Nat.{ℕ, ◌+◌, ◌-◌, ◌*◌}
use Prim.Native.String.{String}
use Prim.Native.Char.{code}
use mathlib.Core.Path.{◌≡◌, refl, ap}
use mathlib.Core.Bool.{Bool, true, false, ◌&&◌, ◌||◌}
use mathlib.Core.Option.{Option, none, some}
use mathlib.Core.List.{List, [], ◌∷◌, ◌++◌}
use native.Mathlib.Omega.{arith}
use espcan_br.Base.Tests.{◌==◌, leb, within, if◌then◌else◌}
use espcan_br.Base.Lists.{Bytes}

-- The bytes of an ASCII text.
abbrev pub codes : String → Bytes
codes String.[] = []
codes (String.◌∷◌ c s) = code c ∷ codes s

-- Whether a byte occurs.
abbrev pub has : ℕ → Bytes → Bool
has c [] = false
has c (x ∷ xs) = x == c || has c xs

-- `starts_with`, with what follows.
abbrev pub strip_prefix : Bytes → Bytes → Option Bytes
strip_prefix [] xs = some xs
strip_prefix (p ∷ ps) [] = none
strip_prefix (p ∷ ps) (x ∷ xs) = if x == p then strip_prefix ps xs else none

-- `split_once` at a pattern.
abbrev pub split_once_at : Bytes → Bytes → Option (Bytes × Bytes)
split_once_at pat [] = none
split_once_at pat (x ∷ xs) = elim (strip_prefix pat (x ∷ xs)) [
  | some rest ↦ some ([], rest)
  | none ↦ elim (split_once_at pat xs) [
    | none ↦ none
    | some (before, rest) ↦ some (x ∷ before, rest)
  ]
]

-- `split_once` and `rsplit_once` at a character.
abbrev pub split_once : ℕ → Bytes → Option (Bytes × Bytes)
split_once c [] = none
split_once c (x ∷ xs) = elim (x == c) [
  | true ↦ some ([], xs)
  | false ↦ elim (split_once c xs) [ none ↦ none | some (before, rest) ↦ some (x ∷ before, rest) ]
]

abbrev pub rsplit_once : ℕ → Bytes → Option (Bytes × Bytes)
rsplit_once c [] = none
rsplit_once c (x ∷ xs) = elim (rsplit_once c xs) [
  | some (before, rest) ↦ some (x ∷ before, rest)
  | none ↦ if x == c then some ([], xs) else none
]

-- `split` at a character: a first part, and those behind it.
abbrev pub push_char : ℕ → ℕ → Bytes × List Bytes → Bytes × List Bytes
push_char c x (part, parts) = if x == c then ([], part ∷ parts) else (x ∷ part, parts)

abbrev pub parts_of : ℕ → Bytes → Bytes × List Bytes
parts_of c [] = ([], [])
parts_of c (x ∷ xs) = push_char c x (parts_of c xs)

unfoldable pub split : ℕ → Bytes → List Bytes
split c xs = (parts_of c xs).0 ∷ (parts_of c xs).1

-- `trim_end_matches`
abbrev pub trim_end : ℕ → Bytes → Bytes
trim_end c [] = []
trim_end c (x ∷ xs) = elim (trim_end c xs) [
  | [] ↦ if x == c then [] else x ∷ []
  | y ∷ ys ↦ x ∷ y ∷ ys
]

-- `parse` of an unsigned number of at most `most`, from the digits on.
abbrev pub parse_digits : ℕ → ℕ → Bytes → Option ℕ
parse_digits most acc [] = some acc
parse_digits most acc (d ∷ ds) = elim (within b'0' b'9' d && leb (acc * 10 + (d - b'0')) most) [
  | true ↦ parse_digits most (acc * 10 + (d - b'0')) ds
  | false ↦ none
]

-- `parse`: one sign `+` may stand in front; there is at least one digit.
abbrev pub parse_unsigned : ℕ → Bytes → Option ℕ
parse_unsigned most [] = none
parse_unsigned most (b ∷ []) = if b == b'+' then none else parse_digits most 0 (b ∷ [])
parse_unsigned most (b ∷ c ∷ cs) =
    if b == b'+' then parse_digits most 0 (c ∷ cs) else parse_digits most 0 (b ∷ c ∷ cs)

-- `u8::to_ascii_lowercase`
abbrev pub lower : ℕ → ℕ
lower c = if within b'A' b'Z' c then c + 32 else c

pub has-append : (c : ℕ) (xs ys : Bytes) → has c (xs ++ ys) ≡ (has c xs || has c ys)
has-append c [] ys = refl
has-append c (x ∷ xs) ys = ground (arith, has-append c xs ys)

pub split_once-append :
    (c : ℕ) (xs ys : Bytes) → has c xs ≡ false → split_once c (xs ++ c ∷ ys) ≡ some (xs, ys)
split_once-append c [] ys h = ground arith
split_once-append c (x ∷ xs) ys h = ground (arith, split_once-append c xs ys)

pub split_once-lacks : (c : ℕ) (xs : Bytes) → has c xs ≡ false → split_once c xs ≡ none
split_once-lacks c [] h = refl
split_once-lacks c (x ∷ xs) h = ground (arith, split_once-lacks c xs)

pub rsplit_once-lacks : (c : ℕ) (xs : Bytes) → has c xs ≡ false → rsplit_once c xs ≡ none
rsplit_once-lacks c [] h = refl
rsplit_once-lacks c (x ∷ xs) h = ground (arith, rsplit_once-lacks c xs)

pub rsplit_once-append :
    (c : ℕ) (xs ys : Bytes) → has c ys ≡ false → rsplit_once c (xs ++ c ∷ ys) ≡ some (xs, ys)
rsplit_once-append c [] ys h = ground (arith, rsplit_once-lacks c ys)
rsplit_once-append c (x ∷ xs) ys h = ground (arith, rsplit_once-append c xs ys)

parts_of-lacks : (c : ℕ) (xs : Bytes) → has c xs ≡ false → parts_of c xs ≡ (xs, [])
parts_of-lacks c [] h = refl
parts_of-lacks c (x ∷ xs) h = ground (arith, parts_of-lacks c xs)

pub split-lacks : (c : ℕ) (xs : Bytes) → has c xs ≡ false → split c xs ≡ xs ∷ []
unfolding split
split-lacks c xs h = ap (λ p. p.0 ∷ p.1) (parts_of-lacks c xs h)

parts_of-append :
    (c : ℕ) (xs ys : Bytes) → has c xs ≡ false → parts_of c (xs ++ c ∷ ys) ≡ (xs, split c ys)
unfolding split
parts_of-append c [] ys h = ground arith
parts_of-append c (x ∷ xs) ys h = ground (arith, parts_of-append c xs ys)

pub split-append :
    (c : ℕ) (xs ys : Bytes) → has c xs ≡ false → split c (xs ++ c ∷ ys) ≡ xs ∷ split c ys
unfolding split
split-append c xs ys h = ap (λ p. p.0 ∷ p.1) (parts_of-append c xs ys h)

pub trim_end-skip : (c : ℕ) (xs : Bytes) → trim_end c (xs ++ c ∷ []) ≡ trim_end c xs
trim_end-skip c [] = ground arith
trim_end-skip c (x ∷ xs) = rw (trim_end-skip c xs, trim_end) refl

-- Nothing is trimmed behind a last part without the character.
pub trim_end-keep :
    (c : ℕ) (xs : Bytes) (y : ℕ) (ys : Bytes)
    → has c (y ∷ ys) ≡ false
    → trim_end c (xs ++ y ∷ ys) ≡ xs ++ y ∷ ys
trim_end-keep c [] y [] h = ground arith
trim_end-keep c [] y (z ∷ ys) h = ground (arith, trim_end-keep c [] z ys)
trim_end-keep c (x ∷ []) y ys h = rw (trim_end-keep c [] y ys h, trim_end) refl
trim_end-keep c (x ∷ w ∷ xs) y ys h = rw (trim_end-keep c (w ∷ xs) y ys h, trim_end) refl

-- `windows(pat.len()).position(|w| w == pat)`
abbrev pub position : Bytes → Bytes → Option ℕ
position pat [] = none
position pat (x ∷ xs) = elim (strip_prefix pat (x ∷ xs)) [
  | some rest ↦ some 0
  | none ↦ elim (position pat xs) [ none ↦ none | some i ↦ some (i + 1) ]
]
