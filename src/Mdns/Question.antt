-- ===== src/Mdns/Question.antt =====
-- src/mdns.rs: which questions are answered.
use espcan_br.Base.{
  slice-append, ℕ, zero, suc, ◌+◌, ◌*◌, ◌^◌, ◌≤◌, ◌<◌, ◌≡◌, refl, sym, ◌∙◌, ap, arith, Bool, true,
  false, ◌&&◌, ◌||◌, ◌==◌, ltb, List, [], ◌∷◌, ◌++◌, append_assoc, Bytes, eq_bytes, length,
  length-append, map, All, Outcome, ok, ◌>>=◌, ◌>>◌, index, index-at, lt→ltb, slice, refuse_if,
}
use espcan_br.Mdns.{
  local, same_letters, label_matches, walk, be_word, answer_question, answer_from, build_response,
}
use espcan_br.Mdns as Mdns

-- A name: each label behind its length, and the empty label.
abbrev pub name_text : List Bytes → Bytes
name_text [] = 0 ∷ []
name_text (l ∷ ls) = length l ∷ (l ++ name_text ls)

-- A label has 1 to 63 bytes.
abbrev pub IsLabel : Bytes → Type 0
IsLabel l = (0 < length l) × (length l ≤ 63)

-- Equal but for the case of the letters.
abbrev pub same_label : Bytes → Bytes → Bool
same_label a b = eq_bytes (map Mdns.lower a) (map Mdns.lower b)

abbrev pub is_host_name : Bytes → List Bytes → Bool
is_host_name host (a ∷ b ∷ []) = same_label a host && same_label b local
is_host_name host _ = false

suc_both : (m n : ℕ) (p q r : Bool) → (m == n && q) ≡ r → (suc m == suc n && (p && q)) ≡ (p && r)
suc_both m n p q r h = ground arith

different_sizes : (n : ℕ) (q : Bool) → (zero == suc n && q) ≡ false
different_sizes n q = ground arith

sizes_differ : (n : ℕ) (q : Bool) → (suc n == zero && q) ≡ false
sizes_differ n q = ground arith

same_label_lem : (a b : Bytes) → (length a == length b && same_letters a b) ≡ same_label a b
same_label_lem [] [] = refl
same_label_lem [] (y ∷ ys) = different_sizes (length ys) true
same_label_lem (x ∷ xs) [] = sizes_differ (length xs) true
same_label_lem (x ∷ xs) (y ∷ ys) =
    suc_both (length xs) (length ys) (Mdns.lower x == Mdns.lower y) (same_letters xs ys)
      (same_label xs ys) (same_label_lem xs ys)

-- The labels from the `idx`-th on match.
abbrev pub all_match : Bytes → ℕ → List Bytes → Bool
all_match host idx [] = true
all_match host idx (l ∷ ls) = label_matches host idx l && all_match host (idx + 1) ls

not_one : (p : Bool) → (p && (1 == 2)) ≡ false
not_one true = refl
not_one false = refl

pair_only : (p q r s : Bool) → p ≡ r → q ≡ s → ((p && (q && true)) && (2 == 2)) ≡ (r && s)
pair_only p q r s h k = ground (arith, h, k)

never_many : (p : Bool) (n : ℕ) → (p && (suc (suc (suc n)) == 2)) ≡ false
never_many p n = ground arith

pub two_labels :
    (host : Bytes) (labels : List Bytes)
    → (all_match host 0 labels && length labels == 2) ≡ is_host_name host labels
unfolding label_matches
two_labels host [] = refl
two_labels host (a ∷ []) = not_one (all_match host 0 (a ∷ []))
two_labels host (a ∷ b ∷ []) =
    pair_only _ _ (same_label a host) (same_label b local) (same_label_lem a host)
      (same_label_lem b local)
two_labels host (a ∷ b ∷ c ∷ ls) = never_many (all_match host 0 (a ∷ b ∷ c ∷ ls)) (length ls)

-- A query with a word in it.
index-append :
    (query before : Bytes) (c : ℕ) (rest : Bytes) (a : ℕ)
    → query ≡ before ++ c ∷ rest
    → a ≡ length before
    → index query a ≡ ok c
index-append query before c rest a e h = ap (λ q. index q a) e ∙ index-at before rest c a h

pub be_word-append :
    (query before : Bytes) (x y : ℕ) (rest : Bytes) (a : ℕ)
    → query ≡ before ++ x ∷ y ∷ rest
    → a ≡ length before
    → be_word query a ≡ ok (x * 2 ^ 8 + y)
unfolding be_word
be_word-append query before x y rest a e h =
    rw
      (
        index-append query before x (y ∷ rest) a e h,
        index-append query (before ++ x ∷ []) y rest (a + 1)
            (e ∙ sym (append_assoc before (x ∷ []) (y ∷ rest)))
            (omega (arith, length-append before (x ∷ []))),
      )
      refl

fits_lem : (c n p : ℕ) → c ≤ 63 → p ≤ n → (ltb 63 c || ltb n p) ≡ false
fits_lem c n p h k = ground arith

label_nonzero : (n : ℕ) → 0 < n → (n == 0) ≡ false
label_nonzero n h = ground arith

and_true : (b : Bool) → b ≡ (b && true)
and_true true = refl
and_true false = refl

pub and_assoc : (a b c : Bool) → ((a && b) && c) ≡ (a && (b && c))
and_assoc true b c = refl
and_assoc false b c = refl

joined_end :
    (l : Bytes) (ls : List Bytes) (pos idx : ℕ) (a b c : Bool)
    → Path
        (Outcome (ℕ × ℕ × Bool))
        (ok (pos + 1 + length l + length (name_text ls), idx + 1 + length ls, (a && b) && c))
        (ok (pos + length (name_text (l ∷ ls)), idx + suc (length ls), a && (b && c)))
joined_end l ls pos idx a b c = λ i. ok (p i, q i, and_assoc a b c i)
  where
    p : pos + 1 + length l + length (name_text ls) ≡ pos + length (name_text (l ∷ ls))
    p = omega (arith, length-append l (name_text ls))

    q : idx + 1 + length ls ≡ idx + suc (length ls)
    q = omega arith

module _ (query host : Bytes) where
  label_step :
      (n c pos idx : ℕ) (matches : Bool) (label : Bytes)
      → (c == 0) ≡ false
      → (ltb 63 c || ltb (length query) (pos + 1 + c)) ≡ false
      → slice query (pos + 1) (pos + 1 + c) ≡ ok label
      → Path
          (Outcome (ℕ × ℕ × Bool))
          (elim (c == 0) [
            | true ↦ ok (pos + 1, idx, matches)
            | false ↦ (do
              refuse_if (ltb 63 c || ltb (length query) (pos + 1 + c))
              text ← slice query (pos + 1) (pos + 1 + c)
              walk n query host (pos + 1 + c) (idx + 1) (matches && label_matches host idx text))
          ])
          (walk n query host (pos + 1 + c) (idx + 1) (matches && label_matches host idx label))
  label_step n c pos idx matches label e h k = rw (e, h, k) refl

  pub walk-name_text :
      (labels : List Bytes) (n : ℕ) (before rest : Bytes) (pos idx : ℕ) (matches : Bool)
      → query ≡ before ++ (name_text labels ++ rest)
      → pos ≡ length before
      → length labels < n
      → All IsLabel labels
      → walk n query host pos idx matches
        ≡ ok (
          pos + length (name_text labels),
          idx + length labels,
          matches && all_match host idx labels,
        )
  unfolding walk
  walk-name_text labels zero before rest pos idx matches e h k v = absurd (omega arith)
  walk-name_text [] (suc n) before rest pos idx matches e h k v =
      let within : pos < length query =
        omega (arith, ap length e, length-append before (0 ∷ rest)) in
      rw (lt→ltb pos (length query) within, index-append query before 0 rest pos e h, walk)
        (λ i. ok (pos + 1, (let z : idx ≡ idx + 0 = omega arith in z) i, and_true matches i))
  walk-name_text (l ∷ ls) (suc n) before rest pos idx matches e h k v =
      let within : pos < length query =
        omega
          (arith, ap length e, length-append before (length l ∷ ((l ++ name_text ls) ++ rest))) in
      let nonzero : (length l == 0) ≡ false = label_nonzero (length l) v.0.0 in
      let here : query ≡ before ++ length l ∷ (l ++ (name_text ls ++ rest)) =
        e ∙ ap (λ t. before ++ length l ∷ t) (append_assoc l (name_text ls) rest) in
      let room : pos + 1 + length l ≤ length query = omega (
        arith,
        ap length here,
        length-append before (length l ∷ (l ++ (name_text ls ++ rest))),
        length-append l (name_text ls ++ rest),
      ) in
      rw
        (
          lt→ltb pos (length query) within,
          index-append query before (length l) (l ++ (name_text ls ++ rest)) pos here h,
          walk,
        )
        (label_step n (length l) pos idx matches l nonzero
            (fits_lem (length l) (length query) (pos + 1 + length l) v.0.1 room)
            (slice-append query (before ++ length l ∷ []) l (name_text ls ++ rest) (pos + 1)
              (pos + 1 + length l)
              (here ∙ sym (append_assoc before (length l ∷ []) (l ++ (name_text ls ++ rest))))
              (omega (arith, length-append before (length l ∷ []))) refl)
          ∙ walk-name_text ls n (before ++ length l ∷ l) rest (pos + 1 + length l) (idx + 1)
              (matches && label_matches host idx l)
              (here ∙ sym (append_assoc before (length l ∷ l) (name_text ls ++ rest)))
              (omega (arith, length-append before (length l ∷ l))) (omega arith) v.1
          ∙ joined_end l ls pos idx matches (label_matches host idx l)
              (all_match host (idx + 1) ls))
