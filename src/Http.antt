-- ===== src/Http.antt =====
-- src/http.rs: the decoders of credentials and of form fields. Texts are their bytes.
pub mod Base64
pub mod Form
pub mod Request
pub mod Fetch
pub mod Save
pub mod Escape
pub mod Pages
pub mod Serve
use espcan_br.Base.{
  ℕ, zero, suc, ◌+◌, ◌-◌, ◌*◌, ◌/◌, ◌^◌, bit_or, u8, u32, Bool, true, false, ◌==◌, leb, within,
  if◌then◌else◌, Option, none, some, List, [], ◌∷◌, Bytes, eq_bytes, length, take, Outcome, ok,
  absent, panic, ◌>>=◌, ◌>>◌, try, refuse_if, write_at,
}

unfoldable pub base64_value : ℕ → Option ℕ
base64_value c =
    if within b'A' b'Z' c
    then some (c - b'A')
    else if within b'a' b'z' c
    then some (c - b'a' + 26)
    else if within b'0' b'9' c
    then some (c - b'0' + 52)
    else if c == b'+'
    then some 62
    else if c == b'/'
    then some 63
    else none

-- The locals of `base64_decode`, with `dst`.
pub record Decoder : Type 0 where
  pub acc : ℕ
  pub bits : ℕ
  pub di : ℕ
  pub dst : Bytes

-- One round, behind the test for padding; `v` is the value of the character.
unfoldable pub base64_step : ℕ → Decoder → Outcome Decoder
base64_step v s = do
  let acc = bit_or (u32 (s.acc * 2 ^ 6)) v
  let bits = s.bits + 6
  if leb 8 bits
      then (do
        refuse_if (leb (length s.dst) s.di)
        dst ← write_at s.dst s.di (u8 (acc / 2 ^ (bits - 8)))
        ok (record { acc = acc; bits = bits - 8; di = s.di + 1; dst = dst }))
      else ok (record s { acc = acc; bits = bits })

unfoldable pub base64_from : Bytes → Decoder → Outcome Decoder
base64_from [] s = ok s
base64_from (c ∷ cs) s =
    if c == b'='
    then ok s
    else (do v ← try (base64_value c); s' ← base64_step v s; base64_from cs s')

unfoldable pub base64_decode : Bytes → Bytes → Outcome (ℕ × Bytes)
base64_decode src dst = do
  s ← base64_from src (record { acc = 0; bits = 0; di = 0; dst = dst })
  ok (s.di, s.dst)

unfoldable pub hex_nibble : ℕ → Option ℕ
hex_nibble c =
    if within b'0' b'9' c
    then some (c - b'0')
    else if within b'a' b'f' c
    then some (c - b'a' + 10)
    else if within b'A' b'F' c
    then some (c - b'A' + 10)
    else none

-- The byte that the two characters behind `%` stand for, and what follows them.
unfoldable pub escape : Bytes → Option (ℕ × Bytes)
escape (h ∷ l ∷ rest) = elim (hex_nibble h) [
  | some hi ↦ elim (hex_nibble l) [
    | some lo ↦ some (bit_or (u8 (hi * 2 ^ 4)) lo, rest)
    | none ↦ none
  ]
  | none ↦ none
]
escape (h ∷ []) = none
escape [] = none

unfoldable pub plain : ℕ → Bytes → ℕ × Bytes
plain b rest = (if b == b'+' then b' ' else b, rest)

-- The byte that one round of `url_decode_into` writes, and the rest of `src`.
unfoldable pub url_char : ℕ → Bytes → ℕ × Bytes
url_char b rest =
    if b == b'%' then elim (escape rest) [ some r ↦ r | none ↦ plain b rest ] else plain b rest

-- The loop of `url_decode_into`, with `n` places left in `dst` and `src` from `si` on.
unfoldable pub url_from : ℕ → Bytes → ℕ → Bytes → Outcome (ℕ × Bytes)
url_from zero rest di dst = ok (di, dst)
url_from (suc n) [] di dst = ok (di, dst)
url_from (suc n) (b ∷ rest) di dst = do
  let (v, rest') = url_char b rest
  dst' ← write_at dst di v
  url_from n rest' (di + 1) dst'

unfoldable pub url_decode_into : Bytes → Bytes → Outcome (ℕ × Bytes)
url_decode_into src dst = url_from (length dst) src 0 dst
