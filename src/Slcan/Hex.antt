-- ===== src/Slcan/Hex.antt =====
-- src/slcan.rs: hexadecimal digits that are read back.
use espcan_br.Base.{
  ℕ, ◌*◌, ◌/◌, ◌%◌, ◌^◌, ◌<◌, ◌≡◌, ◌∙◌, ap, u8, u32, Bytes, List, [], ◌∷◌, Bool, true, false, some,
  ok, arith, bit_or_nibble, if◌then◌else◌,
}
use espcan_br.Slcan.{nibble, hex_digit, parse_hex_from, parse_hex, id_shifts}

pub nibble-hex_digit : (v : ℕ) → nibble (hex_digit v) ≡ some (v % 16)
unfolding nibble hex_digit
nibble-hex_digit v = ground arith

pub nibble-lt : (c : ℕ) {d : ℕ} → nibble c ≡ some d → d < 16
unfolding nibble
nibble-lt c h = ground arith

-- The digits of `v` at the given shifts.
abbrev pub digits : ℕ → List ℕ → Bytes
digits v [] = []
digits v (shift ∷ shifts) = hex_digit (u8 (v / 2 ^ shift)) ∷ digits v shifts

-- One digit of `x`, once the digits of `x / 16` have been read.
parse_hex_from-digit :
    (a x : ℕ) (rest : Bytes)
    → x < 2 ^ 32
    → a ≡ x / 16
    → parse_hex_from a (hex_digit (u8 x) ∷ rest) ≡ parse_hex_from x rest
unfolding parse_hex_from
parse_hex_from-digit a x rest h e =
    rw (nibble-hex_digit (u8 x))
      (ap (λ v. parse_hex_from v rest) (rw small (bit_or_nibble a _ (omega arith) ∙ omega arith)))
  where
    small : u32 (a * 2 ^ 4) ≡ a * 16
    small = omega arith

-- The identifier of a standard and of an extended frame.
pub parse_hex-digits :
    (ext : Bool) (v : ℕ)
    → v < 2 ^ (if ext then 32 else 12)
    → parse_hex (digits v (id_shifts ext)) ≡ ok v
unfolding parse_hex parse_hex_from
parse_hex-digits false v h =
    parse_hex_from-digit 0 (v / 2 ^ 8) (digits v (4 ∷ 0 ∷ [])) (omega arith) (omega arith)
    ∙ parse_hex_from-digit (v / 2 ^ 8) (v / 2 ^ 4) (digits v (0 ∷ [])) (omega arith) (omega arith)
    ∙ parse_hex_from-digit (v / 2 ^ 4) (v / 2 ^ 0) [] (omega arith) (omega arith)
    ∙ last
  where
    last : ok (v / 2 ^ 0) ≡ ok v
    last = ap ok (omega arith)
parse_hex-digits true v h =
    read 0 28 (24 ∷ 20 ∷ 16 ∷ 12 ∷ 8 ∷ 4 ∷ 0 ∷ []) (omega arith) (omega arith)
    ∙ read (v / 2 ^ 28) 24 (20 ∷ 16 ∷ 12 ∷ 8 ∷ 4 ∷ 0 ∷ []) (omega arith) (omega arith)
    ∙ read (v / 2 ^ 24) 20 (16 ∷ 12 ∷ 8 ∷ 4 ∷ 0 ∷ []) (omega arith) (omega arith)
    ∙ read (v / 2 ^ 20) 16 (12 ∷ 8 ∷ 4 ∷ 0 ∷ []) (omega arith) (omega arith)
    ∙ read (v / 2 ^ 16) 12 (8 ∷ 4 ∷ 0 ∷ []) (omega arith) (omega arith)
    ∙ read (v / 2 ^ 12) 8 (4 ∷ 0 ∷ []) (omega arith) (omega arith)
    ∙ read (v / 2 ^ 8) 4 (0 ∷ []) (omega arith) (omega arith)
    ∙ read (v / 2 ^ 4) 0 [] (omega arith) (omega arith)
    ∙ last
  where
    read :
        (a s : ℕ) (rest : List ℕ)
        → v / 2 ^ s < 2 ^ 32
        → a ≡ v / 2 ^ s / 16
        → parse_hex_from a (digits v (s ∷ rest)) ≡ parse_hex_from (v / 2 ^ s) (digits v rest)
    read a s rest p e = parse_hex_from-digit a (v / 2 ^ s) (digits v rest) p e

    last : ok (v / 2 ^ 0) ≡ ok v
    last = ap ok (omega arith)
