-- ===== src/Mdns/Answer.antt =====
-- src/mdns.rs: no datagram makes the responder panic, and every answer is the same record.
use espcan_br.Base.{
  ℕ, zero, suc, ◌+◌, ◌/◌, ◌%◌, ◌^◌, ◌≤◌, ◌<◌, ◌≡◌, refl, subst, arith, u8, Bool, true, not, ◌&&◌,
  ◌||◌, ◌==◌, ltb, ltb→lt, leb, Bool-cases, inl, inr, List, [], ◌∷◌, ◌++◌, Bytes, length,
  length-append, take, Outcome, ok, ◌>>=◌, le→leb, refuse_if, index, slice, Yields, Yields-bind,
  Yields-index, Yields-refuse_if, Yields-slice,
}
use espcan_br.Mdns.{
  extend, local, append_a_record, answer_from, label_matches, walk, be_word, answer_question,
  build_response,
}

-- `extend` by each of some texts.
abbrev extends : Bytes → List Bytes → Bytes → Outcome Bytes
extends b [] r = extend b r
extends b (c ∷ cs) r = do r' ← extend b r; extends c cs r'

abbrev appended : Bytes → Bytes → List Bytes → Bytes
appended r b [] = r ++ b
appended r b (c ∷ cs) = appended (r ++ b) c cs

abbrev total : Bytes → List Bytes → ℕ
total b [] = length b
total b (c ∷ cs) = length b + total c cs

-- It is not out of capacity if all of them fit.
extends-appended :
    (b : Bytes) (bs : List Bytes) (r : Bytes)
    → length r + total b bs ≤ 512
    → extends b bs r ≡ ok (appended r b bs)
extends-appended b [] r room = rw (le→leb (length r + length b) 512 (omega arith)) refl
extends-appended b (c ∷ cs) r room =
    rw (le→leb (length r + length b) 512 (omega arith))
      (extends-appended c cs (r ++ b) (omega (arith, length-append r b)))

extends-Yields :
    (b : Bytes) (bs : List Bytes) (r : Bytes) → Yields (λ t. t ≡ appended r b bs) (extends b bs r)
extends-Yields b [] r = elim (Bool-cases (leb (length r + length b) 512)) [
  | inl room ↦ rw room refl
  | inr full ↦ rw full tt
]
extends-Yields b (c ∷ cs) r = elim (Bool-cases (leb (length r + length b) 512)) [
  | inl room ↦ rw room (extends-Yields c cs (r ++ b))
  | inr full ↦ rw full tt
]

-- Behind the id: an authoritative response with one record, of class IN with the cache flushed, that lives
-- for 120 seconds.
abbrev pieces : Bytes → Bytes → List Bytes
pieces ip host =
    (0x84 ∷ 0x00 ∷ [])
    ∷ (0x00 ∷ 0x00 ∷ [])
    ∷ (0x00 ∷ 0x01 ∷ [])
    ∷ (0x00 ∷ 0x00 ∷ [])
    ∷ (0x00 ∷ 0x00 ∷ [])
    ∷ (u8 (length host) ∷ [])
    ∷ host
    ∷ (5 ∷ [])
    ∷ local
    ∷ (0 ∷ [])
    ∷ (0x00 ∷ 0x01 ∷ [])
    ∷ (0x80 ∷ 0x01 ∷ [])
    ∷ (0x00 ∷ 0x00 ∷ 0x00 ∷ 0x78 ∷ [])
    ∷ (0x00 ∷ 0x04 ∷ [])
    ∷ ip
    ∷ []

abbrev pub answer : Bytes → Bytes → Bytes → Bytes
answer id ip host = appended [] id (pieces ip host)

pub answer_from-Yields :
    (id ip host : Bytes) → Yields (λ r. r ≡ answer id ip host) (answer_from id ip host)
unfolding answer_from append_a_record
answer_from-Yields id ip host = extends-Yields id (pieces ip host) []

pub answer_from-ok :
    (id ip host : Bytes)
    → length id ≡ 2
    → length ip ≡ 4
    → length host ≤ 400
    → answer_from id ip host ≡ ok (answer id ip host)
unfolding answer_from append_a_record
answer_from-ok id ip host h k small =
    extends-appended id (pieces ip host) [] (omega (arith, h, k, small))

be_word-Yields :
    (query : Bytes) (pos : ℕ) → pos + 1 < length query → Yields (λ _. Unit) (be_word query pos)
unfolding be_word
be_word-Yields query pos k =
    Yields-bind _ _ (index query pos) _ (Yields-index query pos (omega arith)) λ high _.
      Yields-bind _ _ (index query (pos + 1)) _ (Yields-index query (pos + 1) k) λ low _. tt

module _ (query host : Bytes) where
  walk-Yields :
      (n pos idx : ℕ) (matches : Bool)
      → length query < n + pos
      → pos ≤ length query
      → Yields (λ _. Unit) (walk n query host pos idx matches)
  unfolding walk
  walk-Yields zero pos idx matches k within = absurd (omega arith)
  walk-Yields (suc n) pos idx matches k within = elim (Bool-cases (ltb pos (length query))) [
    | inr done ↦ rw (done, walk) tt
    | inl more ↦
        rw (more, walk)
          (Yields-bind _ _ (index query pos) _
            (Yields-index query pos (ltb→lt pos (length query) more))
            λ c _. elim (Bool-cases (c == 0)) [
              | inl last ↦ rw (last, walk) tt
              | inr label ↦
                  rw (label, walk)
                    (Yields-bind _ _ (refuse_if (ltb 63 c || ltb (length query) (pos + 1 + c))) _
                      (Yields-refuse_if _)
                      λ _ fits.
                        Yields-bind _ _ (slice query (pos + 1) (pos + 1 + c)) _
                          (Yields-slice query (pos + 1) (pos + 1 + c) (omega arith) (ground arith))
                          λ l _.
                            walk-Yields n (pos + 1 + c) (idx + 1)
                              (matches && label_matches host idx l) (omega arith) (ground arith))
            ])
  ]

-- No datagram makes the responder panic or run out of rounds. If it answers, it answers with the id of
-- the query and one A record of the host's name and address, behind the header of a response.
pub build_response-Yields :
    (query ip host : Bytes)
    → Yields (λ r. r ≡ answer (take 2 query) ip host) (build_response query ip host)
unfolding build_response answer_question
build_response-Yields query ip host =
    Yields-bind _ _ (refuse_if (ltb (length query) 12)) _ (Yields-refuse_if (ltb (length query) 12))
      λ _ long.
        let enough : 12 ≤ length query = ground arith in
        Yields-bind _ _ (be_word query 2) _ (be_word-Yields query 2 (omega arith)) λ flags _.
          Yields-bind _ _ (refuse_if (not (flags / 2 ^ 15 % 2 == 0))) _ (Yields-refuse_if _) λ _ _.
            Yields-bind _ _ (be_word query 4) _ (be_word-Yields query 4 (omega arith))
              λ questions _.
                Yields-bind _ _ (refuse_if (questions == 0)) _ (Yields-refuse_if _) λ _ _.
                  Yields-bind _ _ (walk (length query) query host 12 0 true) _
                    (walk-Yields query host (length query) 12 0 true (omega arith) enough)
                    λ (pos, idx, matches) _.
                      Yields-bind _ _
                        (refuse_if
                          (not matches || (not (idx == 2) || ltb (length query) (pos + 4))))
                        _ (Yields-refuse_if _)
                        λ _ asked.
                          let room : pos + 4 ≤ length query = ground arith in
                          Yields-bind _ _ (be_word query pos) _
                            (be_word-Yields query pos (omega arith))
                            λ qtype _.
                              Yields-bind _ _ (be_word query (pos + 2)) _
                                (be_word-Yields query (pos + 2) (omega arith))
                                λ qclass _.
                                  Yields-bind _ _
                                    (refuse_if (
                                      (not (qtype == 1) && not (qtype == 255))
                                      || not (qclass % 2 ^ 15 == 1)))
                                    _ (Yields-refuse_if _)
                                    λ _ _.
                                      Yields-bind _ _ (slice query 0 2) _
                                        (Yields-slice query 0 2 (omega arith) (omega arith))
                                        λ id e.
                                          subst
                                            (λ i.
                                              Yields (λ r. r ≡ answer i ip host)
                                                (answer_from id ip host))
                                            e (answer_from-Yields id ip host)
