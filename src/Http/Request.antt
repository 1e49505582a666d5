-- ===== src/Http/Request.antt =====
-- src/http.rs: a request's line, its headers and its form, and who may proceed. A text is its bytes, and
-- white space is that of ASCII.
pub mod Login
use espcan_br.Base.{
  ℕ, ◌+◌, Bool, true, false, ◌==◌, ◌||◌, ◌&&◌, within, lower, if◌then◌else◌, Option, none, some,
  List, [], ◌∷◌, ◌++◌, Bytes, codes, eq_bytes, length, replicate, split, split_once, split_once_at,
  strip_prefix, parse_unsigned, push_char, position, map, Outcome, ok, absent, panic, ◌>>=◌, slice,
}
use espcan_br.Http.{base64_decode}
use espcan_br.Config.Auth.{AuthConfig, is_set, verify}

abbrev pub is_white : ℕ → Bool
is_white c = within 9 13 c || c == b' '

abbrev pub trim_start : Bytes → Bytes
trim_start [] = []
trim_start (x ∷ xs) = elim (is_white x) [ true ↦ trim_start xs | false ↦ x ∷ xs ]

abbrev pub trim_white_end : Bytes → Bytes
trim_white_end [] = []
trim_white_end (x ∷ xs) = elim (trim_white_end xs) [
  | [] ↦ if is_white x then [] else x ∷ []
  | y ∷ ys ↦ x ∷ y ∷ ys
]

abbrev pub trim : Bytes → Bytes
trim xs = trim_white_end (trim_start xs)

-- `split_whitespace`, one step: the next word and what follows it.
abbrev pub word : Bytes → Bytes × Bytes
word [] = ([], [])
word (x ∷ xs) = elim (is_white x) [ true ↦ ([], xs) | false ↦ (x ∷ (word xs).0, (word xs).1) ]

abbrev pub next_word : Bytes → Option (Bytes × Bytes)
next_word xs = elim (trim_start xs) [ [] ↦ none | y ∷ ys ↦ some (word (y ∷ ys)) ]

abbrev pub eq_ignore_ascii_case : Bytes → Bytes → Bool
eq_ignore_ascii_case a b = eq_bytes (map lower a) (map lower b)

-- `lines`: a line loses its line feed, and a carriage return in front of that.
abbrev pub strip_return : Bytes → Bytes
strip_return [] = []
strip_return (x ∷ []) = if x == b'\r' then [] else x ∷ []
strip_return (x ∷ y ∷ ys) = x ∷ strip_return (y ∷ ys)

abbrev pub close_lines : List Bytes → List Bytes
close_lines [] = []
close_lines (last ∷ []) = if length last == 0 then [] else last ∷ []
close_lines (line ∷ next ∷ more) = strip_return line ∷ close_lines (next ∷ more)

abbrev pub lines : Bytes → List Bytes
lines xs = close_lines (split b'\n' xs)

-- On a `&str`, so UTF-8; `respond` of Http/Serve has the case of another request.
unfoldable pub parse_request_line : Bytes → Bytes × Bytes
parse_request_line request =
    let line : Bytes = elim (lines request) [ [] ↦ [] | l ∷ ls ↦ l ] in
    elim (next_word line) [
      | none ↦ ([], codes "/")
      | some (method, rest) ↦
          (method, elim (next_word rest) [ none ↦ codes "/" | some (path, _) ↦ path ])
    ]

-- The closure of `basic_auth_token`.
unfoldable pub auth_line : Bytes → Option Bytes
auth_line line = elim (split_once b':' line) [
  | none ↦ none
  | some (k, v) ↦
      if eq_ignore_ascii_case (trim k) (codes "authorization")
      then elim (strip_prefix (codes "Basic ") (trim v)) [
        | some blob ↦ some blob
        | none ↦ strip_prefix (codes "basic ") (trim v)
      ]
      else none
]

-- `take_while` and `find_map`
unfoldable pub find_auth : List Bytes → Option Bytes
find_auth [] = none
find_auth (line ∷ more) =
    if length line == 0
    then none
    else elim (auth_line line) [ some blob ↦ some blob | none ↦ find_auth more ]

unfoldable pub basic_auth_token : Bytes → Option Bytes
basic_auth_token request = find_auth (lines request)

-- `split("\r\n")`
abbrev pub crlf_parts : Bytes → Bytes × List Bytes
crlf_parts [] = ([], [])
crlf_parts (x ∷ []) = (x ∷ [], [])
crlf_parts (x ∷ y ∷ ys) = elim (x == b'\r' && y == b'\n') [
  | true ↦ ([], (crlf_parts ys).0 ∷ (crlf_parts ys).1)
  | false ↦ (x ∷ (crlf_parts (y ∷ ys)).0, (crlf_parts (y ∷ ys)).1)
]

-- The closure of `content_length`; `usize` has 32 bits.
unfoldable pub length_line : Bytes → Option ℕ
length_line line = elim (split_once b':' line) [
  | none ↦ none
  | some (k, v) ↦
      if eq_ignore_ascii_case (trim k) (codes "content-length")
      then parse_unsigned 0xffff_ffff (trim v)
      else none
]

unfoldable pub find_length : List Bytes → Option ℕ
find_length [] = none
find_length (line ∷ more) = elim (length_line line) [ some n ↦ some n | none ↦ find_length more ]

unfoldable pub find_subslice : Bytes → Bytes → Option ℕ
find_subslice hay needle = position needle hay

-- What stands behind the first blank line, up to the next one: `split(..).nth(1)`.
unfoldable pub body_of : Bytes → Bytes
body_of request = elim (split_once_at (codes "\r\n\r\n") request) [
  | none ↦ []
  | some (_, rest) ↦ elim (split_once_at (codes "\r\n\r\n") rest) [
    | none ↦ rest
    | some (body, _) ↦ body
  ]
]

unfoldable pub find_pair : List Bytes → Bytes → Option Bytes
find_pair [] key = none
find_pair (pair ∷ more) key = elim (split_once b'=' pair) [
  | none ↦ find_pair more key
  | some (k, v) ↦ elim (eq_bytes k key) [ true ↦ some v | false ↦ find_pair more key ]
]

unfoldable pub find_form_value : Bytes → Bytes → Option Bytes
find_form_value body key = find_pair (split b'&' body) key

module _ (is_utf8 : Bytes → Bool) where
  unfoldable pub content_length : Bytes → Option ℕ
  content_length headers =
      let parts = crlf_parts headers in
      if is_utf8 headers then find_length (parts.0 ∷ parts.1) else none

  module _ (sha256 : Bytes → Bytes) where
    -- The decoded credentials against the login.
    unfoldable pub verify_creds : AuthConfig → Bytes → Outcome Bool
    verify_creds cfg creds =
        if is_utf8 creds
        then elim (split_once b':' creds) [
          | none ↦ ok false
          | some (user, pass) ↦ verify sha256 user pass cfg
        ]
        else ok false

    unfoldable pub verify_token : AuthConfig → Bytes → Outcome Bool
    verify_token cfg token = elim (base64_decode token (replicate 128 0)) [
      | absent ↦ ok false
      | panic ↦ panic
      | ok (n, decoded) ↦ (do creds ← slice decoded 0 n; verify_creds cfg creds)
    ]

    -- `held` is `GPIO0_HELD`, and `cfg` is `AUTH_CONFIG`.
    unfoldable pub authorized : Bool → AuthConfig → Bytes → Outcome Bool
    authorized held cfg request =
        if held
        then ok true
        else if is_set cfg
        then elim (basic_auth_token request) [
          | none ↦ ok false
          | some token ↦ verify_token cfg token
        ]
        else ok true
