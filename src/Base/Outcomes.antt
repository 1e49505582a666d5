-- ===== src/Base/Outcomes.antt =====
-- What a Rust call comes to: a value, `None` (or `Err`) handed on by `?`, or a panic.
use mathlib.Core.Path.{◌≡◌, refl, sym, ◌∙◌, ap, subst}
use mathlib.Core.Option.{Option, none, some}
use Prim.Native.Nat.{ℕ, ◌<◌, ◌≤◌, ◌-◌, ◌+◌}
use native.Mathlib.Omega.{arith}
use mathlib.Core.List.{List, ◌∷◌, ◌++◌}
use mathlib.Core.Bool.{Bool, true, false, ◌&&◌}
use espcan_br.Base.Lists.{
  length, get_elem?, set, take, drop, get_elem?-lt, get_elem?-at, set-append, length-append,
  take-append, drop-append,
}
use espcan_br.Base.Tests.{ltb, leb, lt→ltb, le→leb, if◌then◌else◌}

pub data Outcome {ℓ} (A : Type ℓ) : Type ℓ where
  ok : A → Outcome A
  absent : Outcome A
  panic : Outcome A

pub ok-injective : {A : Type 0} {a b : A} → ok a ≡ ok b → a ≡ b
ok-injective e = cc

infixl 5 ◌>>◌ ◌>>=◌
abbrev pub ◌>>=◌ {κ ℓ} : {X : Type κ} {Y : Type ℓ} → Outcome X → (X → Outcome Y) → Outcome Y
absent >>= next = absent
panic >>= next = panic
ok x >>= next = next x

abbrev pub ◌>>◌ {ℓ} : {Y : Type ℓ} → Outcome (Unit {0}) → Outcome Y → Outcome Y
first >> rest = first >>= λ _. rest

-- `e?` on an `Option`.
abbrev pub try {ℓ} : {A : Type ℓ} → Option A → Outcome A
try none = absent
try (some a) = ok a

-- `if cond { return None; }`
abbrev pub refuse_if : Bool → Outcome (Unit {0})
refuse_if true = absent
refuse_if false = ok tt

-- `xs[i]`
abbrev pub index {ℓ} : {A : Type ℓ} → List A → ℕ → Outcome A
index xs i = elim (get_elem? xs i) [ none ↦ panic | some a ↦ ok a ]

-- `xs[i] = v`
abbrev pub write_at {ℓ} : {A : Type ℓ} → List A → ℕ → A → Outcome (List A)
write_at xs i v = if ltb i (length xs) then ok (set xs i v) else panic

-- `&xs[a..b]`
abbrev pub slice {ℓ} : {A : Type ℓ} → List A → ℕ → ℕ → Outcome (List A)
slice xs a b = if leb a b && leb b (length xs) then ok (take (b - a) (drop a xs)) else panic

pub index-lt {ℓ} :
    {A : Type ℓ} (xs : List A) (i : ℕ) → i < length xs → (a : A) × (index xs i ≡ ok a)
index-lt xs i h = let (a, e) = get_elem?-lt xs i h in (a, rw (e, index))

pub index-at {ℓ} :
    {A : Type ℓ} (xs ys : List A) (y : A) (i : ℕ) → i ≡ length xs → index (xs ++ y ∷ ys) i ≡ ok y
index-at xs ys y i h = rw (get_elem?-at xs ys y i h, index)

pub write_at-append {ℓ} :
    {A : Type ℓ} (xs ys : List A) (y v : A) (i : ℕ)
    → i ≡ length xs
    → write_at (xs ++ y ∷ ys) i v ≡ ok (xs ++ v ∷ ys)
write_at-append xs ys y v i h = rw (lt→ltb i (length (xs ++ y ∷ ys)) room, set-append xs ys y v i h)
  where
    room : i < length (xs ++ y ∷ ys)
    room = omega (arith, length-append xs (y ∷ ys))

pub slice-ok {ℓ} :
    {A : Type ℓ} (xs : List A) (a b : ℕ)
    → a ≤ b
    → b ≤ length xs
    → slice xs a b ≡ ok (take (b - a) (drop a xs))
slice-ok xs a b h k = rw (le→leb a b h, le→leb b (length xs) k)

-- A part of a list.
pub slice-append {ℓ} :
    {A : Type ℓ} (list before text rest : List A) (a b : ℕ)
    → list ≡ before ++ (text ++ rest)
    → a ≡ length before
    → b ≡ a + length text
    → slice list a b ≡ ok text
slice-append list before text rest a b e h k =
    slice-ok list a b (omega arith) long
    ∙ ap ok (
        (λ i. take (b - a) (drop a (e i)))
        ∙ ap (take (b - a)) (drop-append before (text ++ rest) a h)
        ∙ take-append text rest (b - a) (omega arith))
  where
    long : b ≤ length list
    long = omega (arith, ap length e, length-append before (text ++ rest), length-append text rest)

pub refuse_if-ltb : (a b : ℕ) → b ≤ a → refuse_if (ltb a b) ≡ ok tt
refuse_if-ltb a b h = ground arith

-- The call does not panic, and a value that it returns satisfies `P`.
abbrev pub Yields {ℓ} : {A : Type ℓ} → (A → Type 0) → Outcome A → Type 0
Yields P (ok a) = P a
Yields P absent = Unit
Yields P panic = ⊥

pub Yields-bind {ℓ κ} :
    {A : Type ℓ} {B : Type κ} (P : A → Type 0) (Q : B → Type 0) (m : Outcome A) (f : A → Outcome B)
    → Yields P m
    → ((a : A) → P a → Yields Q (f a))
    → Yields Q (m >>= f)
Yields-bind P Q (ok a) f h k = k a h
Yields-bind P Q absent f h k = tt
Yields-bind P Q panic f h k = elim h [ ]

pub Yields-mono {ℓ} :
    {A : Type ℓ} (P Q : A → Type 0) (m : Outcome A)
    → Yields P m
    → ((a : A) → P a → Q a)
    → Yields Q m
Yields-mono P Q (ok a) h k = k a h
Yields-mono P Q absent h k = tt
Yields-mono P Q panic h k = elim h [ ]

pub Yields-try {ℓ} :
    {A : Type ℓ} (P : A → Type 0) (o : Option A) → ((a : A) → o ≡ some a → P a) → Yields P (try o)
Yields-try P none h = tt
Yields-try P (some a) h = h a refl

pub Yields-index :
    {A : Type 0} (xs : List A) (i : ℕ)
    → i < length xs
    → Yields (λ a. index xs i ≡ ok a) (index xs i)
Yields-index xs i h =
    let (a, e) = index-lt xs i h in subst (λ r. Yields (λ a. r ≡ ok a) r) (sym e) refl

pub Yields-refuse_if : (b : Bool) → Yields (λ _. b ≡ false) (refuse_if b)
Yields-refuse_if true = tt
Yields-refuse_if false = refl

pub Yields-slice :
    {A : Type 0} (xs : List A) (a b : ℕ)
    → a ≤ b
    → b ≤ length xs
    → Yields (λ ys. ys ≡ take (b - a) (drop a xs)) (slice xs a b)
Yields-slice xs a b h k =
    subst (Yields (λ ys. ys ≡ take (b - a) (drop a xs))) (sym (slice-ok xs a b h k)) refl

pub Yields-write_at :
    {A : Type 0} (xs : List A) (i : ℕ) (v : A)
    → i < length xs
    → Yields (λ ys. ys ≡ set xs i v) (write_at xs i v)
Yields-write_at xs i v h = rw (lt→ltb i (length xs) h) refl

-- The call returns a value, and that satisfies `P`.
abbrev pub Returns {ℓ} : {A : Type ℓ} → (A → Type 0) → Outcome A → Type 0
Returns P (ok a) = P a
Returns P absent = ⊥
Returns P panic = ⊥

pub Returns-bind {ℓ κ} :
    {A : Type ℓ} {B : Type κ} (P : A → Type 0) (Q : B → Type 0) (m : Outcome A) (f : A → Outcome B)
    → Returns P m
    → ((a : A) → P a → Returns Q (f a))
    → Returns Q (m >>= f)
Returns-bind P Q (ok a) f h k = k a h
Returns-bind P Q absent f h k = elim h [ ]
Returns-bind P Q panic f h k = elim h [ ]

pub Returns-mono {ℓ} :
    {A : Type ℓ} (P Q : A → Type 0) (m : Outcome A)
    → Returns P m
    → ((a : A) → P a → Q a)
    → Returns Q m
Returns-mono P Q (ok a) h k = k a h
Returns-mono P Q absent h k = h
Returns-mono P Q panic h k = h

-- Such a call is one value.
pub Returns-ok {ℓ} :
    {A : Type ℓ} (P : A → Type 0) (m : Outcome A) → Returns P m → (a : A) × (m ≡ ok a) × P a
Returns-ok P (ok a) h = (a, refl, h)
Returns-ok P absent h = elim h [ ]
Returns-ok P panic h = elim h [ ]

pub Returns-if {ℓ} :
    {A : Type ℓ} (P : A → Type 0) (b : Bool) (x y : Outcome A)
    → (b ≡ true → Returns P x)
    → (b ≡ false → Returns P y)
    → Returns P (if b then x else y)
Returns-if P true x y h k = h refl
Returns-if P false x y h k = k refl

pub Returns-of {ℓ} :
    {A : Type ℓ} (P : A → Type 0) {m : Outcome A} (a : A) → m ≡ ok a → P a → Returns P m
Returns-of P a e p = subst (Returns P) (sym e) p

-- The call returns a value, and that satisfies `P`; or `U` holds, and it may panic.
abbrev pub Ends : {A : Type 0} → (U : Type 0) → (A → Type 0) → Outcome A → Type 0
Ends U P (ok a) = P a
Ends U P absent = ⊥
Ends U P panic = U

pub Ends-bind :
    {A B : Type 0} (U : Type 0) (P : A → Type 0) (Q : B → Type 0) (m : Outcome A)
    (f : A → Outcome B)
    → Ends U P m
    → ((a : A) → P a → Ends U Q (f a))
    → Ends U Q (m >>= f)
Ends-bind U P Q (ok a) f h k = k a h
Ends-bind U P Q absent f h k = elim h [ ]
Ends-bind U P Q panic f h k = h

pub Ends-if :
    {A : Type 0} (U : Type 0) (P : A → Type 0) (b : Bool) (x y : Outcome A)
    → Ends U P x
    → Ends U P y
    → Ends U P (if b then x else y)
Ends-if U P true x y h k = h
Ends-if U P false x y h k = k

pub Ends-mono :
    {A : Type 0} (U V : Type 0) (P : A → Type 0) (m : Outcome A) → Ends U P m → (U → V) → Ends V P m
Ends-mono U V P (ok a) h k = h
Ends-mono U V P absent h k = h
Ends-mono U V P panic h k = k h

-- The value is what the call returns.
pub Ends-self :
    {A : Type 0} (U : Type 0) (P : A → Type 0) (m : Outcome A)
    → Ends U P m
    → Ends U (λ a. (m ≡ ok a) × P a) m
Ends-self U P (ok a) h = (refl, h)
Ends-self U P absent h = h
Ends-self U P panic h = h

pub Returns-Ends :
    {A : Type 0} (U : Type 0) (P : A → Type 0) (m : Outcome A) → Returns P m → Ends U P m
Returns-Ends U P (ok a) h = h
Returns-Ends U P absent h = h
Returns-Ends U P panic h = elim h [ ]

pub Ends-Returns : {A : Type 0} (P : A → Type 0) (m : Outcome A) → Ends ⊥ P m → Returns P m
Ends-Returns P (ok a) h = h
Ends-Returns P absent h = h
Ends-Returns P panic h = h

-- `from_utf8_unchecked`, where the characters of the text are read: other bytes than UTF-8 are undefined
-- behaviour there, which counts as a panic.
abbrev pub from_utf8_unchecked : (is_utf8 : List ℕ → Bool) → List ℕ → Outcome (List ℕ)
from_utf8_unchecked is_utf8 bs = if is_utf8 bs then ok bs else panic
