-- ===== src/Config.antt =====
-- src/config.rs: the persistent configuration in memory: what each setter stores and each getter
-- returns. Texts are their bytes. `is_utf8` (core::str), the SHA-256 digest and the random words of the
-- hardware are parameters.
mod Copied
pub mod Codec
pub mod Layout
pub mod Setters
pub mod Flash
pub mod Wifi
pub mod Device
pub mod AutoConnect
pub mod Auth
pub mod Login
use espcan_br.Base.{
  ℕ, ◌+◌, ◌-◌, ◌/◌, ◌%◌, ◌^◌, u8, min, Bool, ◌&&◌, leb, if◌then◌else◌, [], ◌∷◌, ◌++◌, Bytes, length,
  take, drop, Outcome, ok, panic,
}

-- `dst[..n].copy_from_slice(&src[..n])`
abbrev pub copy_front : Bytes → ℕ → Bytes → Outcome Bytes
copy_front dst n src =
    if leb n (length dst) && leb n (length src) then ok (take n src ++ drop n dst) else panic

-- `u32::to_le_bytes`
abbrev pub le_bytes : ℕ → Bytes
le_bytes w = w % 2 ^ 8 ∷ w / 2 ^ 8 % 2 ^ 8 ∷ w / 2 ^ 16 % 2 ^ 8 ∷ w / 2 ^ 24 % 2 ^ 8 ∷ []
