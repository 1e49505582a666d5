-- ===== src/Mdns.antt =====
-- src/mdns.rs: the answers of the mDNS responder. Queries and answers are bytes; a `Vec<u8, 512>` is a
-- list, and a call that would go past its capacity answers `None`.
pub mod Answer
pub mod Question
pub mod Asked
pub mod Responder
use espcan_br.Base.{
  ℕ, zero, suc, ◌+◌, ◌*◌, ◌/◌, ◌%◌, ◌^◌, u8, Bool, true, false, if◌then◌else◌, not, ◌&&◌, ◌||◌,
  ◌==◌, ltb, leb, within, Option, none, some, [], ◌∷◌, ◌++◌, Bytes, length, get_elem?, Outcome, ok,
  absent, panic, ◌>>=◌, ◌>>◌, refuse_if, index, slice,
}

-- `extend_from_slice(..).ok()?` and `push(..).ok()?`
abbrev pub extend : Bytes → Bytes → Outcome Bytes
extend bs r = if leb (length r + length bs) 512 then ok (r ++ bs) else absent

abbrev pub local : Bytes
local = b'l' ∷ b'o' ∷ b'c' ∷ b'a' ∷ b'l' ∷ []

unfoldable pub append_a_record : Bytes → Bytes → Bytes → Outcome Bytes
append_a_record ip host r0 = do
  r1 ← extend (u8 (length host) ∷ []) r0
  r2 ← extend host r1
  r3 ← extend (5 ∷ []) r2
  r4 ← extend local r3
  r5 ← extend (0 ∷ []) r4
  r6 ← extend (0x00 ∷ 0x01 ∷ []) r5
  r7 ← extend (0x80 ∷ 0x01 ∷ []) r6
  r8 ← extend (0x00 ∷ 0x00 ∷ 0x00 ∷ 0x78 ∷ []) r7
  r9 ← extend (0x00 ∷ 0x04 ∷ []) r8
  extend ip r9

-- The header behind an id, and the record.
unfoldable pub answer_from : Bytes → Bytes → Bytes → Outcome Bytes
answer_from id ip host = do
  r0 ← extend id []
  r1 ← extend (0x84 ∷ 0x00 ∷ []) r0
  r2 ← extend (0x00 ∷ 0x00 ∷ []) r1
  r3 ← extend (0x00 ∷ 0x01 ∷ []) r2
  r4 ← extend (0x00 ∷ 0x00 ∷ []) r3
  r5 ← extend (0x00 ∷ 0x00 ∷ []) r4
  append_a_record ip host r5

unfoldable pub build_announcement : Bytes → Bytes → Outcome Bytes
build_announcement ip host = answer_from (0x00 ∷ 0x00 ∷ []) ip host

-- `u8::to_ascii_lowercase`
abbrev pub lower : ℕ → ℕ
lower c = if within b'A' b'Z' c then c + 32 else c

abbrev pub same_letters : Bytes → Bytes → Bool
same_letters (a ∷ xs) (b ∷ ys) = lower a == lower b && same_letters xs ys
same_letters _ _ = true

-- Whether a label is the `idx`-th that is expected.
unfoldable pub label_matches : Bytes → ℕ → Bytes → Bool
label_matches host idx label = elim (get_elem? (host ∷ local ∷ []) idx) [
  | none ↦ false
  | some e ↦ length label == length e && same_letters label e
]

-- The loop over the labels: `pos`, `idx` and `matches`. It panics when it is out of rounds.
unfoldable pub walk : ℕ → Bytes → Bytes → ℕ → ℕ → Bool → Outcome (ℕ × ℕ × Bool)
walk zero query host pos idx matches = panic
walk (suc n) query host pos idx matches = elim (ltb pos (length query)) [
  | false ↦ ok (pos, idx, matches)
  | true ↦ (do
    c ← index query pos
    elim (c == 0) [
      | true ↦ ok (pos + 1, idx, matches)
      | false ↦ (do
        refuse_if (ltb 63 c || ltb (length query) (pos + 1 + c))
        label ← slice query (pos + 1) (pos + 1 + c)
        walk n query host (pos + 1 + c) (idx + 1) (matches && label_matches host idx label))
    ])
]

-- `u16::from_be_bytes([query[pos], query[pos + 1]])`
unfoldable pub be_word : Bytes → ℕ → Outcome ℕ
be_word query pos = do high ← index query pos; low ← index query (pos + 1); ok (high * 2 ^ 8 + low)

-- Behind the labels: the question's type and class, and the answer.
unfoldable pub answer_question : Bytes → Bytes → Bytes → ℕ × ℕ × Bool → Outcome Bytes
answer_question query ip host (pos, idx, matches) = do
  refuse_if (not matches || (not (idx == 2) || ltb (length query) (pos + 4)))
  qtype ← be_word query pos
  qclass ← be_word query (pos + 2)
  refuse_if ((not (qtype == 1) && not (qtype == 255)) || not (qclass % 2 ^ 15 == 1))
  id ← slice query 0 2
  answer_from id ip host

unfoldable pub build_response : Bytes → Bytes → Bytes → Outcome Bytes
build_response query ip host = do
  refuse_if (ltb (length query) 12)
  flags ← be_word query 2
  refuse_if (not (flags / 2 ^ 15 % 2 == 0))
  questions ← be_word query 4
  refuse_if (questions == 0)
  found ← walk (length query) query host 12 0 true
  answer_question query ip host found
