-- ===== src/Http/Save/Fields.antt =====
-- src/http.rs: the decoder of form fields returns, whatever it is given.
use espcan_br.Base.{
  ℕ, zero, suc, ◌+◌, ◌-◌, ◌≤◌, ◌<◌, ◌≡◌, ◌*◌, ◌^◌, refl, subst, arith, Bool, true, false,
  Bool-cases, inl, inr, ◌&&◌, ◌==◌, if◌then◌else◌, within, leb, parse_digits, parse_unsigned, ltb,
  lt→ltb, none, some, [], ◌∷◌, Bytes, length, length-take, length-replicate, length-set, Option,
  take, replicate, set, ok, ◌>>=◌, slice, slice-ok, Returns, Returns-bind, Returns-mono, Returns-of,
}
use espcan_br.Http.{url_char, url_from, url_decode_into}
use espcan_br.Http.Request.{find_form_value, trim}
use espcan_br.Config.Device.{default_uart_baud}
use espcan_br.Http.Save.{field, baud_value}

-- What the decoder has written of a buffer.
abbrev Filled : Bytes → ℕ × Bytes → Type 0
Filled dst r = (r.0 ≤ length dst) × (length r.1 ≡ length dst)

url_from-Filled :
    (n : ℕ) (src : Bytes) (di : ℕ) (dst : Bytes)
    → di + n ≡ length dst
    → Returns (Filled dst) (url_from n src di dst)
unfolding url_from
url_from-Filled zero [] di dst e = (omega arith, refl)
url_from-Filled zero (b ∷ src) di dst e = (omega arith, refl)
url_from-Filled (suc n) [] di dst e = (omega arith, refl)
url_from-Filled (suc n) (b ∷ src) di dst e =
    let (v, rest) = url_char b src in
    let sized : length (set dst di v) ≡ length dst = length-set dst di v in
    let later : Returns (Filled dst) (url_from n rest (di + 1) (set dst di v)) =
      subst
        (λ k. Returns (λ r. (r.0 ≤ k) × (length r.1 ≡ k)) (url_from n rest (di + 1) (set dst di v)))
        sized (url_from-Filled n rest (di + 1) (set dst di v) (omega arith)) in
    rw (lt→ltb di (length dst) (omega arith)) later

slice_front-Returns :
    (dst : Bytes) (n : ℕ) → n ≤ length dst → Returns (λ text. length text ≤ n) (slice dst 0 n)
slice_front-Returns dst n h =
    Returns-of (λ text. length text ≤ n) (take (n - 0) dst) (slice-ok dst 0 n (omega arith) h)
      (omega (arith, length-take (n - 0) dst))

decoded-Returns :
    (v : Bytes) (dst : Bytes)
    → Returns (λ text. length text ≤ length dst) (url_decode_into v dst >>= λ r. slice r.1 0 r.0)
unfolding url_decode_into
decoded-Returns v dst =
    Returns-bind (Filled dst) (λ text. length text ≤ length dst) (url_from (length dst) v 0 dst)
      (λ r. slice r.1 0 r.0) (url_from-Filled (length dst) v 0 dst (omega arith))
      (λ r (small, size).
        Returns-mono (λ text. length text ≤ r.0) (λ text. length text ≤ length dst)
          (slice r.1 0 r.0) (slice_front-Returns r.1 r.0 (omega (arith, size)))
          (λ text h. omega arith))

value-Returns :
    (room : ℕ) (v : Option Bytes)
    → Returns
        (λ text. length text ≤ room)
        (elim v [
          | none ↦ ok []
          | some v ↦ (do (n, buf) ← url_decode_into v (replicate room 0); slice buf 0 n)
        ])
value-Returns room none = omega arith
value-Returns room (some v) =
    subst
      (λ k.
        Returns (λ text. length text ≤ k)
          (url_decode_into v (replicate room 0) >>= λ r. slice r.1 0 r.0))
      (length-replicate {A = ℕ} room 0) (decoded-Returns v (replicate room 0))

-- A field of a form, present or not: reading it into a buffer of some size returns a text that fits.
pub field-Returns :
    (body key : Bytes) (room : ℕ) → Returns (λ text. length text ≤ room) (field body key room)
unfolding field
field-Returns body key room = value-Returns room (find_form_value body key)

some-injective : {A : Type 0} {a b : A} → some a ≡ some b → a ≡ b
some-injective e = cc

within_most : (b : Bool) (n most : ℕ) → (b && leb n most) ≡ true → n ≤ most
within_most b n most h = ground arith

parse_digits-le :
    (most acc : ℕ) (ds : Bytes) (n : ℕ) → acc ≤ most → parse_digits most acc ds ≡ some n → n ≤ most
parse_digits-le most acc [] n h e = let same : acc ≡ n = some-injective e in omega arith
parse_digits-le most acc (d ∷ ds) n h e =
    elim (Bool-cases (within b'0' b'9' d && leb (acc * 10 + (d - b'0')) most)) [
      | inl digit ↦
          parse_digits-le most (acc * 10 + (d - b'0')) ds n
            (within_most (within b'0' b'9' d) (acc * 10 + (d - b'0')) most digit)
            (rw (digit, parse_digits) at e)
      | inr other ↦ (let bad : none ≡ some n = rw (other, parse_digits) at e in cc)
    ]

parse_unsigned-le : (most : ℕ) (ds : Bytes) (n : ℕ) → parse_unsigned most ds ≡ some n → n ≤ most
parse_unsigned-le most [] n e = (let bad : none ≡ some n = e in cc)
parse_unsigned-le most (b ∷ []) n e = elim (Bool-cases (b == b'+')) [
  | inl sign ↦ (let bad : none ≡ some n = rw sign at e in cc)
  | inr digit ↦ parse_digits-le most 0 (b ∷ []) n (omega arith) (rw digit at e)
]
parse_unsigned-le most (b ∷ c ∷ cs) n e = elim (Bool-cases (b == b'+')) [
  | inl sign ↦ parse_digits-le most 0 (c ∷ cs) n (omega arith) (rw sign at e)
  | inr digit ↦ parse_digits-le most 0 (b ∷ c ∷ cs) n (omega arith) (rw digit at e)
]

given_or-lt :
    (parsed : Option ℕ)
    → ((n : ℕ) → parsed ≡ some n → n ≤ 0xffff_ffff)
    → elim parsed [ none ↦ default_uart_baud | some b ↦ if ltb 0 b then b else default_uart_baud ]
      < 2 ^ 32
given_or-lt none h = omega arith
given_or-lt (some n) h = let small : n ≤ 0xffff_ffff = h n refl in ground arith

-- The bitrate of the form is a word.
pub baud_value-lt : (is_utf8 : Bytes → Bool) (text : Bytes) → baud_value is_utf8 text < 2 ^ 32
unfolding baud_value
baud_value-lt is_utf8 text =
    given_or-lt (if is_utf8 text then parse_unsigned 0xffff_ffff (trim text) else none)
      (parsed-le (is_utf8 text))
  where
    parsed-le :
        (b : Bool) (n : ℕ)
        → (if b then parse_unsigned 0xffff_ffff (trim text) else none) ≡ some n
        → n ≤ 0xffff_ffff
    parsed-le true n e = parse_unsigned-le 0xffff_ffff (trim text) n e
    parsed-le false n e = (let bad : none ≡ some n = e in cc)
