-- ===== src/Http/Form.antt =====
-- src/http.rs: `url_decode_into` undoes the encoding of form fields.
pub mod Pairs
use espcan_br.Base.{
  ℕ, zero, suc, ◌+◌, ◌*◌, ◌/◌, ◌%◌, ◌^◌, ◌<◌, ◌≡◌, refl, sym, ◌∙◌, ap, ap₂, arith, bit_or,
  bit_or_nibble, u8, min, Bool, true, false, Bool-cases, inl, inr, ◌==◌, ==_iff, if◌then◌else◌,
  some, [], ◌∷◌, ◌++◌, append_assoc, Bytes, length, length-append, take, drop, All, ok,
  write_at-append,
}
use espcan_br.Slcan.{hex_digit}
use espcan_br.Http.{hex_nibble, escape, plain, url_char, url_from, url_decode_into}

hex_nibble-hex_digit : (v : ℕ) → hex_nibble (hex_digit v) ≡ some (v % 16)
unfolding hex_nibble hex_digit
hex_nibble-hex_digit v = ground arith

whole_byte : (b : ℕ) → b < 256 → bit_or (u8 (b / 16 % 16 * 2 ^ 4)) (b % 16) ≡ b
whole_byte b small = rw high (bit_or_nibble (b / 16) (b % 16) (omega arith) ∙ omega arith)
  where
    high : u8 (b / 16 % 16 * 2 ^ 4) ≡ b / 16 * 16
    high = omega arith

-- The encoding of a form field by a client that sends the characters of `keep` as they are, a space as
-- `+`, and every other byte as `%` and two digits.
module _ (keep : ℕ → Bool) where
  abbrev pub url_encode : Bytes → Bytes
  url_encode [] = []
  url_encode (b ∷ text) =
      (if keep b
        then b ∷ []
        else if b == b' '
        then b'+' ∷ []
        else b'%' ∷ hex_digit (b / 16) ∷ hex_digit b ∷ [])
      ++ url_encode text

  module _ (kept : (b : ℕ) → keep b ≡ true → ((b == b'%') ≡ false) × ((b == b'+') ≡ false)) where
    -- One round reads back one byte.
    url_char-url_encode :
        (b : ℕ) (text : Bytes)
        → b < 256
        → (c : ℕ) × (more : Bytes) × (url_encode (b ∷ text) ≡ c ∷ more)
          × (url_char c more ≡ (b, url_encode text))
    unfolding url_char plain escape
    url_char-url_encode b text small = elim (Bool-cases (keep b)) [
      | inl as_is ↦
          let (no_percent, no_plus) = kept b as_is in
          (b, url_encode text, (rw as_is refl), (rw (no_percent, no_plus) refl))
      | inr changed ↦ elim (Bool-cases (b == b' ')) [
        | inl space ↦ (
          b'+',
          url_encode text,
          (rw (changed, space) refl),
          ap (λ k. (k, url_encode text)) (sym ((==_iff b b' ').0 space)),
        )
        | inr coded ↦ (
          b'%',
          hex_digit (b / 16) ∷ hex_digit b ∷ url_encode text,
          (rw (changed, coded) refl),
          (rw (hex_nibble-hex_digit (b / 16), hex_nibble-hex_digit b)
              (ap (λ k. (k, url_encode text)) (whole_byte b small))),
        )
      ]
    ]

    url_from-url_encode :
        (n : ℕ) (text before rest : Bytes)
        → All (λ b. b < 256) text
        → length rest ≡ n
        → url_from n (url_encode text) (length before) (before ++ rest)
          ≡ ok (
            length before + min (length text) n,
            before ++ (take n text ++ drop (length text) rest),
          )
    unfolding url_from
    url_from-url_encode zero [] before [] bytes e = ap (λ k. ok (k, before ++ [])) (omega arith)
    url_from-url_encode zero (b ∷ text) before [] bytes e =
        ap (λ k. ok (k, before ++ [])) (omega arith)
    url_from-url_encode zero text before (r ∷ rest) bytes e = absurd (omega arith)
    url_from-url_encode (suc n) [] before rest bytes e =
        ap (λ k. ok (k, before ++ rest)) (omega arith)
    url_from-url_encode (suc n) (b ∷ text) before [] bytes e = absurd (omega arith)
    url_from-url_encode (suc n) (b ∷ text) before (r ∷ rest) bytes e =
        let (c, more, sent, read) = url_char-url_encode b text bytes.0 in
        let later = url_from-url_encode n text (before ++ b ∷ []) rest bytes.1 (omega arith) in
        ap (λ src. url_from (suc n) src (length before) (before ++ r ∷ rest)) sent
        ∙ (rw (read, write_at-append before rest r b (length before) refl)
            ((λ j.
                url_from n (url_encode text) (longer j) (sym (append_assoc before (b ∷ []) rest) j))
              ∙ later
              ∙ ap₂ (λ k bs. ok (k, bs)) total
                  (append_assoc before (b ∷ []) (take n text ++ drop (length text) rest))))
      where
        longer : length before + 1 ≡ length (before ++ b ∷ [])
        longer = omega (arith, length-append before (b ∷ []))

        total :
            length (before ++ b ∷ []) + min (length text) n
            ≡ length before + min (suc (length text)) (suc n)
        total = omega (arith, longer)

    -- For a client that sends some characters, neither `%` nor `+`, as they are, a space as `+` and every
    -- other byte as `%` and two digits: an encoded field decodes to its bytes, cut off at the end of the
    -- buffer, and the rest of the buffer stays.
    pub url_decode_into-url_encode :
        (text dst : Bytes)
        → All (λ b. b < 256) text
        → url_decode_into (url_encode text) dst
          ≡ ok (min (length text) (length dst), take (length dst) text ++ drop (length text) dst)
    unfolding url_decode_into
    url_decode_into-url_encode text dst bytes =
        url_from-url_encode (length dst) text [] dst bytes refl
        ∙ ap (λ k. ok (k, take (length dst) text ++ drop (length text) dst)) (omega arith)
