-- ===== src/Http/Escape/Json.antt =====
-- src/http.rs: a script reads an escaped text back from the JSON.
use espcan_br.Base.{
  ℕ, zero, suc, ◌+◌, ◌*◌, ◌/◌, ◌%◌, ◌≡◌, ◌<◌, refl, ◌∙◌, ap, arith, true, false, Bool-cases, ◌==◌,
  ==_iff, ◌&&◌, ltb, ltb→lt, lt→ltb, if◌then◌else◌, inl, inr, Option, none, some, [], ◌∷◌, ◌++◌,
  append_assoc, Bytes, codes,
}
use espcan_br.Http.Escape.{json_char, json_escape, hex_lower}
use espcan_br.Http.{hex_nibble}

-- What a string of JSON goes on with: its end, or a character and how many bytes that takes beyond the first,
-- or nothing that is one.
pub data Token : Type 0 where
  closing : Token
  char : (c more : ℕ) → Token
  bad : Token

-- Four digits; only the code points of ASCII are read here.
unfoldable pub code_point : Bytes → Token
code_point (a ∷ b ∷ c ∷ d ∷ cs) = elim (a == b'0' && b == b'0') [
  | false ↦ bad
  | true ↦ elim (hex_nibble c) [
    | none ↦ bad
    | some h ↦ elim (hex_nibble d) [
      | none ↦ bad
      | some l ↦ if ltb (h * 16 + l) 128 then char (h * 16 + l) 5 else bad
    ]
  ]
]
code_point _ = bad

unfoldable pub escaped : Bytes → Token
escaped [] = bad
escaped (e ∷ cs) =
    if e == b'"'
    then char b'"' 1
    else if e == b'\\'
    then char b'\\' 1
    else if e == b'/'
    then char b'/' 1
    else if e == b'b'
    then char 8 1
    else if e == b'f'
    then char 12 1
    else if e == b'n'
    then char b'\n' 1
    else if e == b'r'
    then char b'\r' 1
    else if e == b't'
    then char b'\t' 1
    else if e == b'u'
    then code_point cs
    else bad

unfoldable pub token : Bytes → Token
token [] = bad
token (c ∷ cs) =
    if c == b'"'
    then closing
    else if c == b'\\'
    then escaped cs
    else if ltb c 0x20
    then bad
    else char c 0

abbrev pub push : ℕ → Option (Bytes × Bytes) → Option (Bytes × Bytes)
push c none = none
push c (some (text, rest)) = some (c ∷ text, rest)

-- The string behind its opening quote, behind `n` bytes to skip: its text, and what follows its end.
unfoldable pub json_text : ℕ → Bytes → Option (Bytes × Bytes)
json_text n [] = none
json_text (suc n) (c ∷ cs) = json_text n cs
json_text zero (c ∷ cs) = elim (token (c ∷ cs)) [
  | closing ↦ some ([], cs)
  | char x more ↦ push x (json_text more cs)
  | bad ↦ none
]

hex_nibble-hex_lower : (n : ℕ) → n < 16 → hex_nibble (hex_lower n) ≡ some n
unfolding hex_nibble
hex_nibble-hex_lower n h = ground arith

-- A character is one of those with a short escape, another control character, or left as it is.
data Kind (c : ℕ) : Type 0 where
  quote : c ≡ b'"' → Kind c
  backslash : c ≡ b'\\' → Kind c
  line_feed : c ≡ b'\n' → Kind c
  return : c ≡ b'\r' → Kind c
  tab : c ≡ b'\t' → Kind c
  control :
      c < 0x20
      → json_char c ≡ codes "\\u00" ++ hex_lower (c / 16) ∷ hex_lower (c % 16) ∷ []
      → Kind c
  other : ((rest : Bytes) → token (c ∷ rest) ≡ char c 0) → json_char c ≡ c ∷ [] → Kind c

kind_lem : (c : ℕ) → Kind c
unfolding json_char token
kind_lem c = elim (Bool-cases (c == b'"')) [
  | inl e ↦ quote ((==_iff _ _).0 e)
  | inr q ↦ elim (Bool-cases (c == b'\\')) [
    | inl e ↦ backslash ((==_iff _ _).0 e)
    | inr b ↦ elim (Bool-cases (c == b'\n')) [
      | inl e ↦ line_feed ((==_iff _ _).0 e)
      | inr n ↦ elim (Bool-cases (c == b'\r')) [
        | inl e ↦ return ((==_iff _ _).0 e)
        | inr r ↦ elim (Bool-cases (c == b'\t')) [
          | inl e ↦ tab ((==_iff _ _).0 e)
          | inr t ↦ elim (Bool-cases (ltb c 0x20)) [
            | inl low ↦ control (ltb→lt c 0x20 low) (rw (q, b, n, r, t, low) refl)
            | inr high ↦ other (λ rest. rw (q, b, high) refl) (rw (q, b, n, r, t, high) refl)
          ]
        ]
      ]
    ]
  ]
]

code_point_lem :
    (h l a b : ℕ) (rest : Bytes)
    → hex_nibble h ≡ some a
    → hex_nibble l ≡ some b
    → a * 16 + b < 128
    → code_point (b'0' ∷ b'0' ∷ h ∷ l ∷ rest) ≡ char (a * 16 + b) 5
unfolding code_point
code_point_lem h l a b rest e f low = rw (e, f, lt→ltb (a * 16 + b) 128 low, code_point) refl

control_read :
    (c : ℕ) (rest : Bytes)
    → c < 0x20
    → code_point (b'0' ∷ b'0' ∷ hex_lower (c / 16) ∷ hex_lower (c % 16) ∷ rest) ≡ char c 5
control_read c rest low =
    code_point_lem (hex_lower (c / 16)) (hex_lower (c % 16)) (c / 16) (c % 16) rest
      (hex_nibble-hex_lower (c / 16) (omega arith)) (hex_nibble-hex_lower (c % 16) (omega arith))
      (omega arith)
    ∙ ap (λ v. char v 5) (omega arith)

json_char-read :
    (c : ℕ) (rest : Bytes) → json_text 0 (json_char c ++ rest) ≡ push c (json_text 0 rest)
unfolding json_char token escaped json_text
json_char-read c rest = elim (kind_lem c) [
  | quote e ↦ rw e refl
  | backslash e ↦ rw e refl
  | line_feed e ↦ rw e refl
  | return e ↦ rw e refl
  | tab e ↦ rw e refl
  | control low e ↦ rw e (rw (control_read c rest low, json_text, token, escaped) refl)
  | other plain e ↦ rw e (rw (plain rest, json_text) refl)
]

-- Whatever the text: a reader of JSON that meets the escaped text behind an opening quote, and a closing quote
-- behind it, reads the text, and goes on behind that quote.
pub json_escape-json_text :
    (text rest : Bytes) → json_text 0 (json_escape text ++ b'"' ∷ rest) ≡ some (text, rest)
unfolding json_escape json_text token
json_escape-json_text [] rest = refl
json_escape-json_text (c ∷ cs) rest =
    ap (json_text 0) (append_assoc (json_char c) (json_escape cs) (b'"' ∷ rest))
    ∙ json_char-read c (json_escape cs ++ b'"' ∷ rest)
    ∙ ap (push c) (json_escape-json_text cs rest)
