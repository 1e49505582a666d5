-- ===== src/Http/Escape.antt =====
-- src/http.rs: user text in the pages, `html_escape` and `json_escape`. Their argument is a
-- `&str`, so UTF-8; where it comes from `from_utf8_unchecked`, the caller (Http/Pages) has the case that it
-- is not. A character beyond ASCII is its bytes, which both leave as they are.
pub mod Html
pub mod Json
use espcan_br.Base.{
  ℕ, ◌+◌, ◌/◌, ◌%◌, ◌-◌, Bool, true, false, ◌==◌, ltb, if◌then◌else◌, [], ◌∷◌, ◌++◌, Bytes, codes,
}

unfoldable pub html_char : ℕ → Bytes
html_char c =
    if c == b'&'
    then codes "&amp;"
    else if c == b'<'
    then codes "&lt;"
    else if c == b'>'
    then codes "&gt;"
    else if c == b'"'
    then codes "&quot;"
    else if c == b'\''
    then codes "&#39;"
    else c ∷ []

unfoldable pub html_escape : Bytes → Bytes
html_escape [] = []
html_escape (c ∷ cs) = html_char c ++ html_escape cs

abbrev pub hex_lower : ℕ → ℕ
hex_lower n = if ltb n 10 then b'0' + n else b'a' + (n - 10)

unfoldable pub json_char : ℕ → Bytes
json_char c =
    if c == b'"'
    then codes "\\\""
    else if c == b'\\'
    then codes "\\\\"
    else if c == b'\n'
    then codes "\\n"
    else if c == b'\r'
    then codes "\\r"
    else if c == b'\t'
    then codes "\\t"
    else if ltb c 0x20
    then codes "\\u00" ++ hex_lower (c / 16) ∷ hex_lower (c % 16) ∷ []
    else c ∷ []

unfoldable pub json_escape : Bytes → Bytes
json_escape [] = []
json_escape (c ∷ cs) = json_char c ++ json_escape cs
