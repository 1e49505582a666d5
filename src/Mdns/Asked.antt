-- ===== src/Mdns/Asked.antt =====
-- src/mdns.rs: `build_response` on the queries that clients send.
use espcan_br.Base.{
  slice-append, ℕ, ◌+◌, ◌/◌, ◌%◌, ◌^◌, ◌≤◌, ◌<◌, ◌≡◌, refl, sym, ◌∙◌, ap, arith, Bool, true, false,
  not, ◌&&◌, ◌||◌, ◌==◌, ltb, if◌then◌else◌, List, [], ◌∷◌, ◌++◌, append_assoc, Bytes, length,
  length-append, All, Outcome, ok, absent, ◌>>=◌, slice, refuse_if, refuse_if-ltb,
}
use espcan_br.Mdns.{walk, be_word, answer_question, build_response}
use espcan_br.Mdns.Answer.{answer, answer_from-ok}
use espcan_br.Mdns.Question.{
  name_text, IsLabel, is_host_name, all_match, two_labels, be_word-append, walk-name_text,
}

-- A word in the order of the network.
abbrev pub word_text : ℕ → Bytes
word_text w = w / 2 ^ 8 ∷ w % 2 ^ 8 ∷ []

-- A message with a question at its start, whatever follows: the other three counts, and further records.
abbrev pub message :
    (id flags count : ℕ)
    → (counts : Bytes) → (labels : List Bytes) → (qtype qclass : ℕ) → (rest : Bytes) → Bytes
message id flags count counts labels qtype qclass rest =
    word_text id
    ++ (word_text flags
        ++ (word_text count
            ++ (counts ++ (name_text labels ++ (word_text qtype ++ (word_text qclass ++ rest))))))

refuse_then :
    (b p q : Bool) (r : Bytes) (m : Outcome Bytes)
    → b ≡ not p
    → m ≡ (if q then ok r else absent)
    → (refuse_if b >>= λ _. m) ≡ (if p && q then ok r else absent)
refuse_then b true q r m h k = rw (h, k) refl
refuse_then b false q r m h k = rw h refl

refuse_last :
    (b q : Bool) (r : Bytes)
    → b ≡ not q
    → (refuse_if b >>= λ _. ok r) ≡ (if q then ok r else absent)
refuse_last b true r h = rw h refl
refuse_last b false r h = rw h refl

twice_negated : (b : Bool) → b ≡ not (not b)
twice_negated true = refl
twice_negated false = refl

refused_name :
    (m i : Bool) (n len end : ℕ)
    → end ≤ len
    → (m && n == 2) ≡ i
    → (not m || (not (0 + n == 2) || ltb len end)) ≡ not i
refused_name m i n len end h k = ground (arith, h, k)

or_type : (a b c : Bool) → ((not a && not b) || not c) ≡ not ((a || b) && c)
or_type true b c = ground arith
or_type false b c = ground arith

module _ (id flags count : ℕ) (counts : Bytes) (labels : List Bytes) (qtype qclass : ℕ)
    (rest ip host : Bytes) (six : length counts ≡ 6) (are_labels : All IsLabel labels) where
  query : Bytes
  query = message id flags count counts labels qtype qclass rest

  head : Bytes
  head = word_text id ++ (word_text flags ++ (word_text count ++ counts))

  length-head : length head ≡ 12
  unfolding head
  length-head = omega (arith, six)

  named : Bytes
  named = head ++ name_text labels

  tail : Bytes
  tail = word_text qtype ++ (word_text qclass ++ rest)

  length-query : length query ≡ 12 + length (name_text labels) + 4 + length rest
  unfolding query tail
  length-query = omega (
    arith,
    six,
    length-append counts (name_text labels ++ tail),
    length-append (name_text labels) tail,
  )

  at_head : query ≡ head ++ (name_text labels ++ tail)
  unfolding query head tail
  at_head = refl

  at_named : query ≡ named ++ tail
  unfolding named
  at_named = at_head ∙ sym (append_assoc head (name_text labels) tail)

  length-named : length named ≡ 12 + length (name_text labels)
  unfolding named
  length-named = omega (arith, length-append head (name_text labels), length-head)

  few_labels : (ls : List Bytes) → length ls ≤ length (name_text ls)
  few_labels [] = omega arith
  few_labels (l ∷ ls) = omega (arith, few_labels ls, length-append l (name_text ls))

  -- The words of the header, the name, and the words behind it.
  flags_read : flags < 2 ^ 16 → be_word query 2 ≡ ok flags
  unfolding query
  flags_read small =
      be_word-append query (word_text id) (flags / 2 ^ 8) (flags % 2 ^ 8) _ 2 refl refl
      ∙ ap ok (omega arith)

  count_read : count < 2 ^ 16 → be_word query 4 ≡ ok count
  unfolding query
  count_read small =
      be_word-append query (word_text id ++ word_text flags) (count / 2 ^ 8) (count % 2 ^ 8) _ 4
        refl refl
      ∙ ap ok (omega arith)

  name_read :
      walk (length query) query host 12 0 true
      ≡ ok (12 + length (name_text labels), 0 + length labels, all_match host 0 labels)
  name_read =
      walk-name_text query host labels (length query) head tail 12 0 true at_head (sym length-head)
        (omega (arith, length-query, few_labels labels)) are_labels

  qtype_read : qtype < 2 ^ 16 → be_word query (12 + length (name_text labels)) ≡ ok qtype
  qtype_read small =
      be_word-append query named (qtype / 2 ^ 8) (qtype % 2 ^ 8) (word_text qclass ++ rest) _
        (unfold tail in at_named) (sym length-named)
      ∙ ap ok (omega arith)

  at_class : named ++ tail ≡ (named ++ word_text qtype) ++ (word_text qclass ++ rest)
  unfolding tail
  at_class = sym (append_assoc named (word_text qtype) (word_text qclass ++ rest))

  qclass_read : qclass < 2 ^ 16 → be_word query (12 + length (name_text labels) + 2) ≡ ok qclass
  qclass_read small =
      be_word-append query (named ++ word_text qtype) (qclass / 2 ^ 8) (qclass % 2 ^ 8) rest _
        (at_named ∙ at_class) (omega (arith, length-named, length-append named (word_text qtype)))
      ∙ ap ok (omega arith)

  id_read : slice query 0 2 ≡ ok (word_text id)
  unfolding query tail
  id_read =
      slice-append query [] (word_text id)
        (word_text flags ++ (word_text count ++ (counts ++ (name_text labels ++ tail)))) 0 2 refl
        refl refl

  -- The part behind the labels.
  question_read :
      qtype < 2 ^ 16
      → qclass < 2 ^ 16
      → length ip ≡ 4
      → length host ≤ 400
      → answer_question query ip host
          (12 + length (name_text labels), 0 + length labels, all_match host 0 labels)
        ≡ (if is_host_name host labels && ((qtype == 1 || qtype == 255) && qclass % 2 ^ 15 == 1)
            then ok (answer (word_text id) ip host)
            else absent)
  unfolding answer_question
  question_read t c k h =
      rw (qtype_read t, qclass_read c, id_read, answer_from-ok (word_text id) ip host refl k h)
        (refuse_then _ (is_host_name host labels)
          ((qtype == 1 || qtype == 255) && qclass % 2 ^ 15 == 1) (answer (word_text id) ip host) _
          (refused_name (all_match host 0 labels) (is_host_name host labels) (length labels)
            (length query) (12 + length (name_text labels) + 4) (omega (arith, length-query))
            (two_labels host labels))
          (refuse_last _ ((qtype == 1 || qtype == 255) && qclass % 2 ^ 15 == 1)
            (answer (word_text id) ip host)
            (or_type (qtype == 1) (qtype == 255) (qclass % 2 ^ 15 == 1))))

  response_read :
      flags < 2 ^ 16
      → count < 2 ^ 16
      → qtype < 2 ^ 16
      → qclass < 2 ^ 16
      → length ip ≡ 4
      → length host ≤ 400
      → build_response query ip host ≡ (
          if flags / 2 ^ 15 % 2 == 0
            && (not (count == 0)
                && (is_host_name host labels
                    && ((qtype == 1 || qtype == 255) && qclass % 2 ^ 15 == 1)))
          then ok (answer (word_text id) ip host)
          else absent)
  unfolding build_response
  response_read f n t c k h =
      rw
        (
          refuse_if-ltb (length query) 12 (omega (arith, length-query)),
          flags_read f,
          count_read n,
          name_read,
        )
        (refuse_then _ (flags / 2 ^ 15 % 2 == 0) _ (answer (word_text id) ip host) _ refl (
          refuse_then _ (not (count == 0)) _ (answer (word_text id) ip host) _
            (twice_negated (count == 0)) (question_read t c k h)))

-- A client's query, with its words of 16 bits, three more counts and a question of a name of labels of 1 to
-- 63 bytes, whatever follows: it is answered exactly if it is a query, its count of questions is not 0, its
-- first name is the host's in `local`, in any case, and its type is A or ANY and its class IN. The answer has
-- its id. The address has four bytes and the host at most 400.
pub build_response-message :
    (id flags count : ℕ) (counts : Bytes) (labels : List Bytes) (qtype qclass : ℕ)
    (rest ip host : Bytes)
    → flags < 2 ^ 16
    → count < 2 ^ 16
    → length counts ≡ 6
    → All IsLabel labels
    → qtype < 2 ^ 16
    → qclass < 2 ^ 16
    → length ip ≡ 4
    → length host ≤ 400
    → build_response (message id flags count counts labels qtype qclass rest) ip host ≡ (
        if flags / 2 ^ 15 % 2 == 0
          && (not (count == 0)
              && (is_host_name host labels
                  && ((qtype == 1 || qtype == 255) && qclass % 2 ^ 15 == 1)))
        then ok (answer (word_text id) ip host)
        else absent)
unfolding query
build_response-message id flags count counts labels qtype qclass rest ip host f n six are_labels t c
      k h =
    response_read id flags count counts labels qtype qclass rest ip host six are_labels f n t c k h
