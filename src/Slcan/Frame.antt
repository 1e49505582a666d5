-- ===== src/Slcan/Frame.antt =====
-- src/slcan.rs: the frames of the protocol, and the line that stands for one.
use espcan_br.Base.{
  ℕ, ◌/◌, ◌-◌, ◌^◌, ◌≤◌, ◌<◌, ◌≡◌, if◌then◌else◌, Option, none, some, [], ◌∷◌, ◌++◌, Bytes, length,
  take, drop, replicate, All, Bool-cases, inl, inr, arith,
}
use espcan_br.Slcan.{CanFrame, hex_digit, letter, id_shifts, stamp_shifts, cr}
use espcan_br.Slcan.Hex.{digits}

-- The bytes of the payload that a frame carries.
abbrev pub used : CanFrame → ℕ
used f = if f.rtr then 0 else f.dlc

-- The frames of CAN 2.0. What a frame does not carry of its payload is zero.
pub record IsFrame (f : CanFrame) : Type 0 where
  pub id_fits : f.id < 2 ^ (if f.ext then 29 else 11)
  pub dlc_le : f.dlc ≤ 8
  pub whole : length f.payload ≡ 8
  pub bytes : All (λ b. b < 256) f.payload
  pub rest_zero : drop (used f) f.payload ≡ replicate (8 - used f) 0

-- The frames that the parser returns: the id has at most 3 or 8 digits, and is not yet held to 11
-- or 29 bits.
pub record IsParsed (f : CanFrame) : Type 0 where
  pub id_fits : f.id < 2 ^ (if f.ext then 32 else 12)
  pub dlc_le : f.dlc ≤ 8
  pub whole : length f.payload ≡ 8
  pub bytes : All (λ b. b < 256) f.payload
  pub rest_zero : drop (used f) f.payload ≡ replicate (8 - used f) 0

pub IsFrame-IsParsed : (f : CanFrame) → IsFrame f → IsParsed f
IsFrame-IsParsed f v = record {
  id_fits = elim (Bool-cases f.ext) [
    | inl long ↦ rw long (omega (arith, rw long at v.id_fits))
    | inr short ↦ rw short (omega (arith, rw short at v.id_fits))
  ];
  dlc_le = v.dlc_le;
  whole = v.whole;
  bytes = v.bytes;
  rest_zero = v.rest_zero;
}

pub IsParsed-IsFrame :
    (f : CanFrame) → IsParsed f → f.id < 2 ^ (if f.ext then 29 else 11) → IsFrame f
IsParsed-IsFrame f v fits = record {
  id_fits = fits;
  dlc_le = v.dlc_le;
  whole = v.whole;
  bytes = v.bytes;
  rest_zero = v.rest_zero;
}

abbrev pub data_digits : Bytes → Bytes
data_digits [] = []
data_digits (b ∷ bs) = hex_digit (b / 2 ^ 4) ∷ hex_digit b ∷ data_digits bs

abbrev pub stamp_digits : Option ℕ → Bytes
stamp_digits none = []
stamp_digits (some ts) = digits ts stamp_shifts

-- The line of a frame.
abbrev pub render : CanFrame → Option ℕ → Bytes
render f timestamp =
    letter f.ext f.rtr
    ∷ (digits f.id (id_shifts f.ext)
        ++ (hex_digit f.dlc
            ∷ (data_digits (take (used f) f.payload) ++ (stamp_digits timestamp ++ cr ∷ []))))
