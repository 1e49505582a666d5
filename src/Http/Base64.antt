-- ===== src/Http/Base64.antt =====
-- src/http.rs: `base64_decode` stays within its buffer.
pub mod RoundTrip
use espcan_br.Base.{
  ℕ, ◌+◌, ◌*◌, ◌≤◌, ◌<◌, ◌≡◌, refl, ◌∙◌, arith, Bool-cases, inl, inr, ◌==◌, leb, [], ◌∷◌, Bytes,
  length, length-set, try, refuse_if, write_at, Yields, Yields-bind, Yields-mono, Yields-try,
  Yields-refuse_if, Yields-write_at,
}
use espcan_br.Http.{base64_value, Decoder, base64_step, base64_from, base64_decode}

-- After `n` characters: eight bits for each byte written and the rest kept, within the buffer.
record Decodes (room n : ℕ) (s : Decoder) : Type 0 where
  count : s.di * 8 + s.bits ≡ 6 * n
  few : s.bits < 8
  within : s.di ≤ room
  size : length s.dst ≡ room

base64_step-Yields :
    (room n v : ℕ) (s : Decoder)
    → Decodes room n s
    → Yields (Decodes room (n + 1)) (base64_step v s)
unfolding base64_step
base64_step-Yields room n v s k = elim (Bool-cases (leb 8 (s.bits + 6))) [
  | inl whole ↦ rw whole (
      Yields-bind _ (Decodes room (n + 1)) (refuse_if (leb (length s.dst) s.di)) _
        (Yields-refuse_if (leb (length s.dst) s.di))
        λ _ free.
          let inside : s.di < length s.dst = ground arith in
          Yields-bind _ (Decodes room (n + 1)) (write_at s.dst s.di _) _
            (Yields-write_at s.dst s.di _ inside)
            λ dst e.
              let enough : 8 ≤ s.bits + 6 = ground arith in
              record {
                count = omega (arith, k.count);
                few = omega (arith, k.few);
                within = omega (arith, k.size);
                size = rw e (length-set s.dst s.di _) ∙ k.size;
              })
  | inr part ↦ rw part (record {
    count = omega (arith, k.count);
    few = ground arith;
    within = k.within;
    size = k.size;
  })
]

-- What is left when the loop ends.
record Ends (room most : ℕ) (s : Decoder) : Type 0 where
  within : s.di ≤ room
  size : length s.dst ≡ room
  short : s.di * 8 ≤ 6 * most

base64_from-Yields :
    (room n : ℕ) (src : Bytes) (s : Decoder)
    → Decodes room n s
    → Yields (Ends room (n + length src)) (base64_from src s)
unfolding base64_from
base64_from-Yields room n [] s k = record {
  within = k.within;
  size = k.size;
  short = omega (arith, k.count);
}
base64_from-Yields room n (c ∷ cs) s k = elim (Bool-cases (c == b'=')) [
  | inl padding ↦
      rw padding (record { within = k.within; size = k.size; short = omega (arith, k.count) })
  | inr more ↦ rw more (
      Yields-bind (λ _. Unit) (Ends room (n + length (c ∷ cs))) (try (base64_value c)) _
        (Yields-try (λ _. Unit) (base64_value c) (λ _ _. tt))
        λ v _.
          Yields-bind (Decodes room (n + 1)) (Ends room (n + length (c ∷ cs))) (base64_step v s) _
            (base64_step-Yields room n v s k)
            λ s' k'.
              Yields-mono (Ends room (n + 1 + length cs)) _ (base64_from cs s')
                (base64_from-Yields room (n + 1) cs s' k')
                λ t e. record { within = e.within; size = e.size; short = omega (arith, e.short) })
]

-- What `base64_decode` answers for a text of `most` characters and a buffer of `room` bytes.
pub record Within (room most : ℕ) (r : ℕ × Bytes) : Type 0 where
  pub fits : r.0 ≤ room
  pub size : length r.1 ≡ room
  pub short : r.0 * 8 ≤ 6 * most

-- Decoding never panics, whatever the text and the buffer; a length that it returns is within the
-- buffer, which keeps its size, and has at most six bits for each character of the text.
pub base64_decode-Yields :
    (src dst : Bytes) → Yields (Within (length dst) (length src)) (base64_decode src dst)
unfolding base64_decode
base64_decode-Yields src dst =
    Yields-bind (Ends (length dst) (0 + length src)) (Within (length dst) (length src))
      (base64_from src _) _
      (base64_from-Yields (length dst) 0 src _
        (record { count = refl; few = omega arith; within = omega arith; size = refl }))
      λ s e. record { fits = e.within; size = e.size; short = omega (arith, e.short) }
