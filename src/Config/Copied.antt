-- ===== src/Config/Copied.antt =====
-- A text copied to the front of a field of a fixed size, cut off at that size.
use espcan_br.Base.{
  ℕ, zero, suc, ◌-◌, ◌≡◌, refl, sym, ◌∙◌, ap, arith, min, false, ◌==◌, le→leb, if◌then◌else◌, [],
  ◌∷◌, ◌++◌, Bytes, length, length-append, length-take, length-drop, take, take-append, drop, ok,
  slice, slice-ok,
}
use espcan_br.Config.{copy_front}

take-min : (cap : ℕ) (src : Bytes) → take (min (length src) cap) src ≡ take cap src
take-min zero src = let e : min (length src) 0 ≡ 0 = omega arith in rw e refl
take-min (suc cap) [] = let e : min 0 (suc cap) ≡ 0 = omega arith in rw e refl
take-min (suc cap) (b ∷ src) =
    let e : min (suc (length src)) (suc cap) ≡ suc (min (length src) cap) = omega arith in
    rw e (ap (◌∷◌ b) (take-min cap src))

pub record Copied (dst src : Bytes) (cap n : ℕ) : Type 0 where
  pub out : Bytes
  pub made : copy_front dst n src ≡ ok out
  pub size : length out ≡ cap
  pub front : slice out 0 n ≡ ok (take cap src)

pub copy_front-Copied :
    (dst src : Bytes) (cap n : ℕ)
    → length dst ≡ cap
    → n ≡ min (length src) cap
    → Copied dst src cap n
copy_front-Copied dst src cap n whole fits = record {
  out = take n src ++ drop n dst;
  made =
      rw (le→leb n (length dst) (omega (arith, whole)), le→leb n (length src) (omega arith)) refl;
  size =
      omega (arith, length-append (take n src) (drop n dst), front_size, length-drop n dst, whole);
  front =
      slice-ok (take n src ++ drop n dst) 0 n (omega arith)
        (omega (arith, length-append (take n src) (drop n dst), front_size))
      ∙ ap ok (
          ap (λ k. take k (take n src ++ drop n dst)) same
          ∙ take-append (take n src) (drop n dst) n (sym front_size)
          ∙ ap (λ k. take k src) fits
          ∙ take-min cap src);
}
  where
    front_size : length (take n src) ≡ n
    front_size = omega (arith, length-take n src)

    same : n - 0 ≡ n
    same = omega arith

-- A getter that answers the empty text for length 0.
pub text_lem :
    (field : Bytes) (n : ℕ) → (if n == 0 then ok [] else slice field 0 n) ≡ slice field 0 n
text_lem field zero = sym (slice-ok field 0 0 (omega arith) (omega arith))
text_lem field (suc n) = let long : (suc n == 0) ≡ false = ground arith in rw long refl
