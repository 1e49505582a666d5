-- ===== src/Base/Words.antt =====
-- Words of a fixed width.
use Prim.Native.Nat.{ℕ, ◌%◌, ◌^◌}

-- A cast to `u8`, `u16` or `u32`, or wrapping arithmetic.
abbrev pub u8 : ℕ → ℕ
u8 n = n % 2 ^ 8

abbrev pub u16 : ℕ → ℕ
u16 n = n % 2 ^ 16

abbrev pub u32 : ℕ → ℕ
u32 n = n % 2 ^ 32
