-- ===== src/Tests/Names.antt =====
-- The mDNS responder of src/mdns.rs, at a query for `ab.local`.
use espcan_br.Base.{◌≡◌, refl, [], ◌∷◌, ◌++◌, Bytes, ok}
use espcan_br.Mdns.{
  append_a_record, answer_from, label_matches, walk, be_word, answer_question, build_response,
}
use espcan_br.Mdns.Answer.{answer}

abbrev host : Bytes
host = b'a' ∷ b'b' ∷ []

abbrev ip : Bytes
ip = 192 ∷ 168 ∷ 4 ∷ 7 ∷ []

abbrev query : Bytes
query =
    (1 ∷ 2 ∷ 0 ∷ 0 ∷ 0 ∷ 1 ∷ 0 ∷ 0 ∷ 0 ∷ 0 ∷ 0 ∷ 0 ∷ [])
    ++ ((2 ∷ b'a' ∷ b'B' ∷ 5 ∷ b'l' ∷ b'o' ∷ b'c' ∷ b'a' ∷ b'l' ∷ 0 ∷ []) ++ (0 ∷ 1 ∷ 0 ∷ 1 ∷ []))

build_response_answered : build_response query ip host ≡ ok (answer (1 ∷ 2 ∷ []) ip host)
unfolding build_response be_word walk label_matches answer_question answer_from append_a_record
build_response_answered = refl
