-- ===== src/Tick/Ring.antt =====
-- src/main.rs: the ring of buckets of the LED tick, against the differences of the last ten counts.
use espcan_br.Base.{
  ℕ, zero, suc, ◌+◌, ◌%◌, ◌^◌, ◌<◌, ◌≡◌, refl, sym, ◌∙◌, ap, arith, u32, List, [], ◌∷◌, ◌++◌,
  append_assoc, append-nil, length, length-append, set, set-append, All,
}
use espcan_br.Tick.{sum, wrapping_sub}

-- The value `k` samples ago, the newest first; 0 before the first one.
abbrev pub ago : ℕ → List ℕ → ℕ
ago k [] = 0
ago zero (c ∷ cs) = c
ago (suc k) (c ∷ cs) = ago k cs

abbrev tail : List ℕ → List ℕ
tail [] = []
tail (c ∷ cs) = cs

ago-tail : (k : ℕ) (cs : List ℕ) → ago k (tail cs) ≡ ago (suc k) cs
ago-tail k [] = refl
ago-tail k (c ∷ cs) = refl

-- The last `n` differences, the oldest first.
abbrev recent : ℕ → List ℕ → List ℕ
recent zero cs = []
recent (suc n) cs = recent n (tail cs) ++ wrapping_sub (ago 0 cs) (ago 1 cs) ∷ []

length-recent : (n : ℕ) (cs : List ℕ) → length (recent n cs) ≡ n
length-recent zero cs = refl
length-recent (suc n) cs = omega (
  arith,
  length-recent n (tail cs),
  length-append (recent n (tail cs)) (wrapping_sub (ago 0 cs) (ago 1 cs) ∷ []),
)

tail-append : (xs ys : List ℕ) → 0 < length xs → tail (xs ++ ys) ≡ tail xs ++ ys
tail-append [] ys h = absurd (omega arith)
tail-append (x ∷ xs) ys h = refl

tail-recent : (n : ℕ) (cs : List ℕ) → tail (recent (suc n) cs) ≡ recent n cs
tail-recent zero cs = refl
tail-recent (suc n) cs =
    tail-append (recent (suc n) (tail cs)) _ (omega (arith, length-recent (suc n) (tail cs)))
    ∙ ap (λ xs. xs ++ wrapping_sub (ago 0 cs) (ago 1 cs) ∷ []) (tail-recent n (tail cs))

sum-append : (xs ys : List ℕ) → sum (xs ++ ys) ≡ sum xs + sum ys
sum-append [] ys = omega arith
sum-append (x ∷ xs) ys = omega (arith, sum-append xs ys)

ago-lt : (k : ℕ) (cs : List ℕ) → All (λ c. c < 2 ^ 32) cs → ago k cs < 2 ^ 32
ago-lt k [] h = omega arith
ago-lt zero (c ∷ cs) h = h.0
ago-lt (suc k) (c ∷ cs) h = ago-lt k cs h.1

tail-All : (cs : List ℕ) → All (λ c. c < 2 ^ 32) cs → All (λ c. c < 2 ^ 32) (tail cs)
tail-All [] h = tt
tail-All (c ∷ cs) h = h.1

sum-recent :
    (n : ℕ) (cs : List ℕ)
    → All (λ c. c < 2 ^ 32) cs
    → u32 (sum (recent n cs)) ≡ wrapping_sub (ago 0 cs) (ago n cs)
sum-recent zero cs h = omega (arith, ago-lt 0 cs h)
sum-recent (suc n) cs h = omega (
  arith,
  sum-append (recent n (tail cs)) (wrapping_sub (ago 0 cs) (ago 1 cs) ∷ []),
  sum-recent n (tail cs) (tail-All cs h),
  ago-tail 0 cs,
  ago-tail n cs,
  ago-lt 0 cs h,
  ago-lt 1 cs h,
  ago-lt (suc n) cs h,
)

-- The buckets are a ring: those from `idx` on are older than those before it.
pub record Ring (cs buckets : List ℕ) (idx : ℕ) : Type 0 where
  pub before : List ℕ
  pub after : List ℕ
  pub parts : buckets ≡ before ++ after
  pub at : idx ≡ length before
  pub left : 0 < length after
  pub order : after ++ before ≡ recent 10 cs

module _ (cs buckets : List ℕ) (idx : ℕ) where
  pub Ring-length : Ring cs buckets idx → length buckets ≡ 10
  Ring-length r =
      ap length r.parts
      ∙ omega (
        arith,
        length-append r.before r.after,
        length-append r.after r.before,
        ap length r.order,
        length-recent 10 cs,
      )

  pub Ring-idx : Ring cs buckets idx → idx < 10
  Ring-idx r =
      omega (arith, r.at, r.left, ap length r.parts, Ring-length r, length-append r.before r.after)

  pub Ring-sum :
      Ring cs buckets idx
      → All (λ c. c < 2 ^ 32) cs
      → u32 (sum buckets) ≡ wrapping_sub (ago 0 cs) (ago 10 cs)
  Ring-sum r h = ap u32 (ap sum r.parts ∙ same ∙ ap sum r.order) ∙ sum-recent 10 cs h
    where
      same : sum (r.before ++ r.after) ≡ sum (r.after ++ r.before)
      same = omega (arith, sum-append r.before r.after, sum-append r.after r.before)

  pub Ring-write :
      (c : ℕ)
      → Ring cs buckets idx
      → Ring (c ∷ cs) (set buckets idx (wrapping_sub c (ago 0 cs))) ((idx + 1) % 10)
  Ring-write c r = go r.after r.parts r.left r.order
    where
      v : ℕ
      v = wrapping_sub c (ago 0 cs)

      size : length buckets ≡ 10
      size = Ring-length r

      go :
          (after : List ℕ)
          → buckets ≡ r.before ++ after
          → 0 < length after
          → after ++ r.before ≡ recent 10 cs
          → Ring (c ∷ cs) (set buckets idx v) ((idx + 1) % 10)
      go [] e k o = absurd (omega arith)
      go (y ∷ []) e k o = record {
        before = [];
        after = r.before ++ v ∷ [];
        parts = ap (λ b. set b idx v) e ∙ set-append r.before [] y v idx r.at;
        at = omega (arith, r.at, size, ap length e, length-append r.before (y ∷ []));
        left = omega (arith, length-append r.before (v ∷ []));
        order =
            append-nil (r.before ++ v ∷ [])
            ∙ ap (λ xs. xs ++ v ∷ []) (ap tail o ∙ tail-recent 9 cs);
      }
      go (y ∷ z ∷ zs) e k o = record {
        before = r.before ++ v ∷ [];
        after = z ∷ zs;
        parts =
            ap (λ b. set b idx v) e
            ∙ set-append r.before (z ∷ zs) y v idx r.at
            ∙ sym (append_assoc r.before (v ∷ []) (z ∷ zs));
        at = omega (
          arith,
          r.at,
          size,
          ap length e,
          length-append r.before (y ∷ z ∷ zs),
          length-append r.before (v ∷ []),
        );
        left = omega arith;
        order =
            sym (append_assoc (z ∷ zs) r.before (v ∷ []))
            ∙ ap (λ xs. xs ++ v ∷ []) (ap tail o ∙ tail-recent 9 cs);
      }
