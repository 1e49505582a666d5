-- ===== src/Http/Fetch/Segments.antt =====
-- src/http.rs: what is read does not depend on how the connection cuts the request into segments.
use espcan_br.Base.{
  ℕ, zero, suc, ◌+◌, ◌-◌, ◌≤◌, ◌<◌, ◌≡◌, refl, sym, ◌∙◌, ap, arith, ◌⊎◌, inl, inr, Bool, true,
  false, Option-cases, leb, Option, none, some, List, [], ◌∷◌, ◌++◌, append_assoc, append-nil, map,
  Bytes, All, length, length-append, take, take_all, position-lt, position-append,
}
use espcan_br.Config.Codec.{joined}
use espcan_br.Http.Request.{find_subslice}
use espcan_br.Http.Fetch.{
  Arrival, segment, closed, failed, request, buffer_len, blank_line, is_done, need_of, refresh,
  fetch_from, fetch,
}

take-prefix : (n : ℕ) (xs ys : Bytes) → n ≤ length xs → take n (xs ++ ys) ≡ take n xs
take-prefix zero [] ys h = refl
take-prefix zero (x ∷ xs) ys h = refl
take-prefix (suc n) [] ys h = absurd (omega arith)
take-prefix (suc n) (x ∷ xs) ys h = ap (λ zs. x ∷ zs) (take-prefix n xs ys (omega arith))

module _ (is_utf8 : Bytes → Bool) where
  -- Once a part of the request shows what is needed, the whole shows the same.
  need_of-append :
      (got rest : Bytes)
      → (need_of is_utf8 got ≡ none) ⊎ (need_of is_utf8 got ≡ need_of is_utf8 (got ++ rest))
  unfolding need_of find_subslice
  need_of-append got rest = elim (Option-cases (find_subslice got blank_line)) [
    | inl unseen ↦ inl (rw (need_of, unseen) refl)
    | inr (i, seen) ↦
        let still = position-append blank_line got rest i seen in
        let headers = take-prefix (i + 4) got rest (position-lt blank_line got i seen) in
        inr (rw (need_of, seen, still, headers) refl)
  ]

  need_of-nil : need_of is_utf8 [] ≡ none
  unfolding need_of find_subslice
  need_of-nil = refl

  fetch_from-done :
      (arrivals : List Arrival) (need : Option ℕ) (got : Bytes)
      → is_done need got ≡ true
      → fetch_from is_utf8 arrivals need got ≡ request got
  unfolding fetch_from
  fetch_from-done [] need got h = rw h refl
  fetch_from-done (failed ∷ more) need got h = rw h refl
  fetch_from-done (closed ∷ more) need got h = rw h refl
  fetch_from-done (segment bs ∷ more) need got h = rw (fetch_from, h) refl

  -- What is needed of a request, when a part of it has been read.
  abbrev Knows : Bytes → Option ℕ → Bytes → Type 0
  Knows whole need got =
      (need ≡ some (length whole)) ⊎ ((need ≡ none) × (need_of is_utf8 got ≡ none))

  at_most : (n m : ℕ) → m < n → leb n m ≡ false
  at_most n m h = ground arith

  reached : (n : ℕ) → leb n n ≡ true
  reached n = ground arith

  is_done-Knows :
      (whole : Bytes) (need : Option ℕ) (got : Bytes)
      → length got < length whole
      → length whole ≤ buffer_len
      → Knows whole need got
      → is_done need got ≡ false
  unfolding is_done
  is_done-Knows whole need got less room (inl e) =
      rw
        (
          e,
          is_done,
          at_most (length whole) (length got) less,
          at_most buffer_len (length got) (omega arith),
        )
        refl
  is_done-Knows whole need got less room (inr (e, _)) =
      rw (e, is_done, at_most buffer_len (length got) (omega arith)) refl

  refresh-Knows :
      (whole : Bytes) (need : Option ℕ) (got more rest : Bytes)
      → got ++ (more ++ rest) ≡ whole
      → need_of is_utf8 whole ≡ some (length whole)
      → Knows whole need got
      → Knows whole (refresh is_utf8 need (got ++ more)) (got ++ more)
  unfolding refresh
  refresh-Knows whole need got more rest e full (inl k) = rw (k, refresh) (inl refl)
  refresh-Knows whole need got more rest e full (inr (k, _)) =
      elim (need_of-append (got ++ more) rest) [
        | inl unseen ↦ rw (k, refresh, unseen) (inr (refl, refl))
        | inr seen ↦
            let same : need_of is_utf8 (got ++ more) ≡ some (length whole) =
              seen ∙ ap (need_of is_utf8) (append_assoc got more rest ∙ e) ∙ full in
            rw (k, refresh, same) (inl refl)
      ]

  fetch_from-segments :
      (whole : Bytes) (segments : List Bytes) (after : List Arrival) (need : Option ℕ) (got : Bytes)
      → need_of is_utf8 whole ≡ some (length whole)
      → length whole ≤ buffer_len
      → All (λ s. 0 < length s) segments
      → got ++ joined segments ≡ whole
      → Knows whole need got
      → fetch_from is_utf8 (map segment segments ++ after) need got ≡ request whole
  unfolding fetch_from is_done
  fetch_from-segments whole [] after need got full room some_bytes e k =
      let all : got ≡ whole = sym (append-nil got) ∙ e in
      fetch_from-done after need got (complete need got all k) ∙ ap request all
    where
      complete :
          (need : Option ℕ) (got : Bytes)
          → got ≡ whole
          → Knows whole need got
          → is_done need got ≡ true
      complete need got all (inl k) = rw (k, is_done, ap length all, reached (length whole)) refl
      complete need got all (inr (_, unseen)) =
          let bad : none ≡ some (length whole) = sym unseen ∙ ap (need_of is_utf8) all ∙ full in cc
  fetch_from-segments whole (s ∷ segments) after need got full room some_bytes e k =
      let size : length got + length (s ++ joined segments) ≡ length whole =
        sym (length-append got (s ++ joined segments)) ∙ ap length e in
      let parts = length-append s (joined segments) in
      let some_byte = some_bytes.0 in
      let more = is_done-Knows whole need got (omega arith) room k in
      let kept : take (buffer_len - length got) s ≡ s =
        take_all (buffer_len - length got) s (omega arith) in
      let later =
        fetch_from-segments whole segments after (refresh is_utf8 need (got ++ s)) (got ++ s) full
          room some_bytes.1 (append_assoc got s (joined segments) ∙ e)
          (refresh-Knows whole need got s (joined segments) e full k) in
      rw (fetch_from, more, kept) later

  -- A request that fits into the buffer, with its headers and a body of the length that they declare,
  -- is read as a whole, however the connection cuts it into segments that are not empty, and whatever
  -- comes after it.
  pub fetch-segments :
      (whole : Bytes) (segments : List Bytes) (after : List Arrival)
      → need_of is_utf8 whole ≡ some (length whole)
      → length whole ≤ buffer_len
      → All (λ s. 0 < length s) segments
      → joined segments ≡ whole
      → fetch is_utf8 (map segment segments ++ after) ≡ request whole
  fetch-segments whole segments after full room some_bytes e =
      fetch_from-segments whole segments after none [] full room some_bytes e
        (inr (refl, need_of-nil))
