-- ===== src/Slcan.antt =====
-- src/slcan.rs: the SLCAN line format. `CanFrame.payload` is the source's `data`.
pub mod Hex
pub mod Frame
pub mod Format
pub mod RoundTrip
pub mod Parsed
use espcan_br.Base.{
  ℕ, zero, suc, ◌+◌, ◌-◌, ◌*◌, ◌/◌, ◌%◌, ◌^◌, bit_or, u8, u32, Bool, true, false, ◌==◌, ltb, leb,
  within, if◌then◌else◌, Option, none, some, List, [], ◌∷◌, Bytes, length, take, drop, get_elem?,
  set, replicate, Outcome, ok, absent, panic, ◌>>=◌, ◌>>◌, try, refuse_if, index, write_at, slice,
}

pub record CanFrame : Type 0 where
  pub id : ℕ
  pub ext : Bool
  pub rtr : Bool
  pub dlc : ℕ
  pub payload : Bytes

abbrev pub bell : ℕ
bell = 0x07

abbrev pub cr : ℕ
cr = b'\r'

abbrev pub max_frame_ascii : ℕ
max_frame_ascii = 32

unfoldable pub nibble : ℕ → Option ℕ
nibble c =
    if within b'0' b'9' c
    then some (c - b'0')
    else if within b'a' b'f' c
    then some (c - b'a' + 10)
    else if within b'A' b'F' c
    then some (c - b'A' + 10)
    else none

-- `v & 0x0f` is `v % 16`.
unfoldable pub hex_digit : ℕ → ℕ
hex_digit v = let low = v % 16 in if ltb low 10 then b'0' + low else b'A' + (low - 10)

unfoldable pub parse_hex_from : ℕ → Bytes → Outcome ℕ
parse_hex_from v [] = ok v
parse_hex_from v (b ∷ bytes) = do
  d ← try (nibble b)
  parse_hex_from (bit_or (u32 (v * 2 ^ 4)) d) bytes

unfoldable pub parse_hex : Bytes → Outcome ℕ
parse_hex bytes = parse_hex_from 0 bytes

-- The loop over `k` in `parse_tx`, with `n` rounds left.
unfoldable pub parse_data : ℕ → ℕ → ℕ → Bytes → Bytes → Outcome Bytes
parse_data zero k i line payload = ok payload
parse_data (suc n) k i line payload = do
  h ← index line i
  hi ← try (nibble h)
  l ← index line (i + 1)
  lo ← try (nibble l)
  payload' ← write_at payload k (bit_or (u8 (hi * 2 ^ 4)) lo)
  parse_data n (k + 1) (i + 2) line payload'

-- (ext, rtr, idlen)
unfoldable pub kind_of : ℕ → Option (Bool × Bool × ℕ)
kind_of c =
    if c == b't'
    then some (false, false, 3)
    else if c == b'T'
    then some (true, false, 8)
    else if c == b'r'
    then some (false, true, 3)
    else if c == b'R'
    then some (true, true, 8)
    else none

abbrev pub no_data : Bytes
no_data = replicate 8 0

unfoldable pub data_field : Bool → ℕ → ℕ → Bytes → Outcome Bytes
data_field true dlc i line = ok no_data
data_field false dlc i line = do
  refuse_if (ltb (length line) (i + dlc * 2))
  parse_data dlc 0 i line no_data

unfoldable pub parse_tx : Bytes → Outcome CanFrame
parse_tx line = do
  c ← try (get_elem? line 0)
  (ext, rtr, idlen) ← try (kind_of c)
  refuse_if (ltb (length line) (1 + idlen + 1))
  digits ← slice line 1 (1 + idlen)
  id ← parse_hex digits
  b ← index line (1 + idlen)
  dlc ← try (nibble b)
  refuse_if (ltb 8 dlc)
  payload ← data_field rtr dlc (1 + idlen + 1) line
  ok (record { id = id; ext = ext; rtr = rtr; dlc = dlc; payload = payload })

-- `n` and `out` of `format_frame`.
abbrev pub Cursor : Type 0
Cursor = ℕ × Bytes

-- `out[n] = b; n += 1;`
unfoldable pub put : ℕ → Cursor → Outcome Cursor
put b (n, out) = do out' ← write_at out n b; ok (n + 1, out')

-- `for shift in [..] { out[n] = hex_digit((v >> shift) as u8); n += 1; }`
unfoldable pub put_hex : ℕ → List ℕ → Cursor → Outcome Cursor
put_hex v [] c = ok c
put_hex v (shift ∷ shifts) c = do c' ← put (hex_digit (u8 (v / 2 ^ shift))) c; put_hex v shifts c'

unfoldable pub put_data : ℕ → ℕ → Bytes → Cursor → Outcome Cursor
put_data zero k payload c = ok c
put_data (suc n) k payload c = do
  b ← index payload k
  high ← put (hex_digit (b / 2 ^ 4)) c
  low ← put (hex_digit b) high
  put_data n (k + 1) payload low

unfoldable pub letter : Bool → Bool → ℕ
letter false false = b't'
letter true false = b'T'
letter false true = b'r'
letter true true = b'R'

abbrev pub id_shifts : Bool → List ℕ
id_shifts true = 28 ∷ 24 ∷ 20 ∷ 16 ∷ 12 ∷ 8 ∷ 4 ∷ 0 ∷ []
id_shifts false = 8 ∷ 4 ∷ 0 ∷ []

abbrev pub stamp_shifts : List ℕ
stamp_shifts = 12 ∷ 8 ∷ 4 ∷ 0 ∷ []

unfoldable pub put_payload : CanFrame → Cursor → Outcome Cursor
put_payload f c = if f.rtr then ok c else put_data f.dlc 0 f.payload c

unfoldable pub put_stamp : Option ℕ → Cursor → Outcome Cursor
put_stamp none c = ok c
put_stamp (some ts) c = put_hex ts stamp_shifts c

unfoldable pub format_frame : CanFrame → Option ℕ → Bytes → Outcome Cursor
format_frame f timestamp out = do
  kind ← put (letter f.ext f.rtr) (0, out)
  id ← put_hex f.id (id_shifts f.ext) kind
  size ← put (hex_digit f.dlc) id
  body ← put_payload f size
  stamped ← put_stamp timestamp body
  put cr stamped
