-- ===== src/Config/Codec.antt =====
-- src/config.rs: a `repr(C)` structure and its bytes. The structures have no padding but the fields
-- that they declare, so the bytes of one are its fields in order, words in little-endian order.
use espcan_br.Base.{
  ℕ, ◌+◌, ◌*◌, ◌^◌, ◌<◌, ◌≡◌, refl, sym, ◌∙◌, ap, ap₂, arith, Bool, ltb, le→ltb, if◌then◌else◌,
  Option, none, some, List, [], ◌∷◌, ◌++◌, append_assoc, Bytes, length, length-append, take, drop,
  take-append, drop-append, map,
}
use espcan_br.Config.{le_bytes}

-- The fields of the given sizes, one behind the other.
abbrev pub chunks : List ℕ → Bytes → List Bytes
chunks [] bs = []
chunks (n ∷ ns) bs = take n bs ∷ chunks ns (drop n bs)

abbrev pub joined : List Bytes → Bytes
joined [] = []
joined (f ∷ fs) = f ++ joined fs

abbrev pub sum : List ℕ → ℕ
sum [] = 0
sum (n ∷ ns) = n + sum ns

-- `u32::from_le_bytes` and `u16::from_le_bytes`, and a byte.
abbrev pub le_word : Bytes → ℕ
le_word [] = 0
le_word (b ∷ bs) = b + 2 ^ 8 * le_word bs

pub le_word-le_bytes : (w : ℕ) → w < 2 ^ 32 → le_word (le_bytes w) ≡ w
le_word-le_bytes w small = omega arith

-- One structure: the sizes of its fields, the fields as bytes, and back. What is read back is tested by
-- `is_valid`.
pub record Codec (C : Type 0) : Type 0 where
  pub sizes : List ℕ
  pub fields : C → List Bytes
  pub of_fields : List Bytes → C
  pub is_valid : C → Bool

-- `as_bytes`
unfoldable pub encode : {C : Type 0} → Codec C → C → Bytes
encode k c = joined (k.fields c)

-- `from_bytes`: `read_unaligned` behind the test of the length.
unfoldable pub decode : {C : Type 0} → Codec C → Bytes → Option C
decode k bs =
    if ltb (length bs) (sum k.sizes)
    then none
    else (let c = k.of_fields (chunks k.sizes bs) in if k.is_valid c then some c else none)

-- A value whose fields have their sizes and that its fields give back.
pub record Encodes {C : Type 0} (k : Codec C) (c : C) : Type 0 where
  pub whole : map length (k.fields c) ≡ k.sizes
  pub back : k.of_fields (k.fields c) ≡ c

chunks-joined : (fs : List Bytes) (rest : Bytes) → chunks (map length fs) (joined fs ++ rest) ≡ fs
chunks-joined [] rest = refl
chunks-joined (f ∷ fs) rest =
    ap (chunks (map length (f ∷ fs))) (append_assoc f (joined fs) rest)
    ∙ ap₂ (λ a b. a ∷ b) (take-append f (joined fs ++ rest) (length f) refl)
        (ap (chunks (map length fs)) (drop-append f (joined fs ++ rest) (length f) refl)
          ∙ chunks-joined fs rest)

pub length-joined : (fs : List Bytes) → length (joined fs) ≡ sum (map length fs)
length-joined [] = refl
length-joined (f ∷ fs) = length-append f (joined fs) ∙ ap (λ n. length f + n) (length-joined fs)

-- What is decoded from the bytes of a value, with anything behind them.
pub decode-encode :
    {C : Type 0} (k : Codec C) (c : C) (rest : Bytes)
    → Encodes k c
    → decode k (encode k c ++ rest) ≡ (if k.is_valid c then some c else none)
unfolding decode encode
decode-encode k c rest e =
    rw
      (le→ltb (length (joined (k.fields c) ++ rest)) (sum k.sizes) (
        omega (
          arith,
          length-append (joined (k.fields c)) rest,
          length-joined (k.fields c),
          ap sum e.whole,
        )))
      (ap (λ t. if k.is_valid t then some t else none)
        (ap k.of_fields (
            ap (λ ns. chunks ns (joined (k.fields c) ++ rest)) (sym e.whole)
            ∙ chunks-joined (k.fields c) rest)
          ∙ e.back))

pub length-encode :
    {C : Type 0} (k : Codec C) (c : C) → Encodes k c → length (encode k c) ≡ sum k.sizes
unfolding encode
length-encode k c e = length-joined (k.fields c) ∙ ap sum e.whole
