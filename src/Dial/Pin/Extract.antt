-- ===== src/Dial/Pin/Extract.antt =====
-- src/autoconnect.rs: where the key that is read from a certificate stands.
use espcan_br.Base.{
  ℕ, ◌+◌, ◌-◌, ◌≤◌, ◌≡◌, sym, ◌∙◌, ap, subst, arith, true, Bool-cases, Option-cases, ==_iff, ◌==◌,
  ◌&&◌, leb, inl, inr, none, some, [], ◌∷◌, ◌++◌, append_assoc, Bytes, position, strip_prefix,
  length, take, drop, length-append, length-take, take-append-drop, drop-append, try, Yields,
  Yields-bind, Yields-try,
}
use mathlib.Core.Option.{some-injective}
use espcan_br.Dial.Pin.{get_range, marker, extract_p256_pubkey}

strip_prefix-append : (pat xs rest : Bytes) → strip_prefix pat xs ≡ some rest → xs ≡ pat ++ rest
strip_prefix-append [] xs rest h = some-injective _ _ h
strip_prefix-append (p ∷ ps) [] rest h = cc
strip_prefix-append (p ∷ ps) (x ∷ xs) rest h = elim (Bool-cases (x == p)) [
  | inl same ↦
      let e = (==_iff x p).0 same in
      let k : strip_prefix ps xs ≡ some rest = rw same at h in
      (let ih = strip_prefix-append ps xs rest k in cc)
  | inr other ↦ (let k : none ≡ some rest = rw other at h in cc)
]

record Found (pat xs : Bytes) (i : ℕ) : Type 0 where
  before : Bytes
  behind : Bytes
  place : xs ≡ before ++ (pat ++ behind)
  at_i : length before ≡ i

position-Found : (pat xs : Bytes) (i : ℕ) → position pat xs ≡ some i → Found pat xs i
position-Found pat [] i h = cc
position-Found pat (x ∷ xs) i h = elim (Option-cases (strip_prefix pat (x ∷ xs))) [
  | inr (rest, here) ↦
      let k : some 0 ≡ some i = rw (here, position) at h in
      record {
        before = [];
        behind = rest;
        place = strip_prefix-append pat (x ∷ xs) rest here;
        at_i = some-injective _ _ k;
      }
  | inl away ↦ elim (Option-cases (position pat xs)) [
    | inl lacks ↦ (let k : none ≡ some i = rw (away, lacks, position) at h in cc)
    | inr (j, found) ↦
        let k : some (j + 1) ≡ some i = rw (away, found, position) at h in
        let f = position-Found pat xs j found in
        record {
          before = x ∷ f.before;
          behind = f.behind;
          place = ap (λ ys. x ∷ ys) f.place;
          at_i = (let e = some-injective _ _ k in let l = f.at_i in omega arith);
        }
  ]
]

-- A key of 65 bytes, an uncompressed point, behind the tag of a bit string in the certificate.
pub record Subject (der key : Bytes) : Type 0 where
  pub before : Bytes
  pub behind : Bytes
  pub x_and_y : Bytes
  pub place : der ≡ before ++ (0x03 ∷ 0x42 ∷ 0x00 ∷ (key ++ behind))
  pub point : key ≡ 0x04 ∷ x_and_y
  pub size : length key ≡ 65

-- What stands in the place of a key, with its size.
subject_lem :
    (before behind key : Bytes)
    → 65 ≤ length (4 ∷ behind)
    → take 65 (4 ∷ behind) ≡ key
    → Subject (before ++ (marker ++ behind)) key
subject_lem before behind key room e = record {
  before = before;
  behind = drop 64 behind;
  x_and_y = take 64 behind;
  place =
      ap (λ ys. before ++ (0x03 ∷ 0x42 ∷ 0x00 ∷ ys))
        (sym (ap (λ k. k ++ drop 64 behind) (sym e) ∙ take-append-drop 65 (4 ∷ behind)));
  point = sym e;
  size = (let l = ap length (sym e) ∙ length-take 65 (4 ∷ behind) in omega arith);
}

range_room : (a b n : ℕ) → leb a b && leb b n ≡ true → b ≤ n
range_room a b n h = ground arith

get_range-Subject :
    (der : Bytes) (i : ℕ)
    → Found marker der i
    → (key : Bytes) → get_range der (i + 3) (i + 3 + 65) ≡ some key
    → Subject der key
get_range-Subject der i f key h =
    elim (Bool-cases (leb (i + 3) (i + 3 + 65) && leb (i + 3 + 65) (length der))) [
      | inr short ↦ (let k : none ≡ some key = rw (short, get_range) at h in cc)
      | inl room ↦
          let k : some (take (i + 3 + 65 - (i + 3)) (drop (i + 3) der)) ≡ some key =
            rw (room, get_range) at h in
          let at_key : drop (i + 3) der ≡ 4 ∷ f.behind =
            ap (drop (i + 3))
              (f.place ∙ sym (append_assoc f.before (0x03 ∷ 0x42 ∷ 0x00 ∷ []) (4 ∷ f.behind)))
            ∙ drop-append (f.before ++ (0x03 ∷ 0x42 ∷ 0x00 ∷ [])) (4 ∷ f.behind) (i + 3) (
                let a = f.at_i in
                let l = length-append f.before (0x03 ∷ 0x42 ∷ 0x00 ∷ []) in omega arith) in
          let n65 : i + 3 + 65 - (i + 3) ≡ 65 = omega arith in
          let read : take 65 (4 ∷ f.behind) ≡ key =
            sym (ap (λ n. take n (4 ∷ f.behind)) n65)
            ∙ sym (ap (take (i + 3 + 65 - (i + 3))) at_key)
            ∙ some-injective _ _ k in
          let room' : 65 ≤ length (4 ∷ f.behind) =
            let l : length der ≡ length f.before + length (marker ++ f.behind) =
              ap length f.place ∙ length-append f.before (marker ++ f.behind) in
            let a = f.at_i in
            (let b : i + 3 + 65 ≤ length der = range_room (i + 3) (i + 3 + 65) (length der) room in
              omega arith) in
          subst (λ d. Subject d key) (sym f.place) (subject_lem f.before f.behind key room' read)
    ]

-- No certificate makes the search panic, and a key that it finds is an uncompressed point of 65
-- bytes, which stands in the certificate behind the bytes `03 42 00` of a bit string of its size.
pub extract_p256_pubkey-Subject : (der : Bytes) → Yields (Subject der) (extract_p256_pubkey der)
unfolding extract_p256_pubkey
extract_p256_pubkey-Subject der =
    Yields-bind (λ i. position marker der ≡ some i) (Subject der) (try (position marker der))
      (λ i. try (get_range der (i + 3) (i + 3 + 65)))
      (Yields-try (λ i. position marker der ≡ some i) _ (λ i e. e))
      (λ i e.
        Yields-try (Subject der) _
          (λ key h. get_range-Subject der i (position-Found marker der i e) key h))
