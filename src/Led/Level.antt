-- ===== src/Led/Level.antt =====
-- src/led.rs: brightness.
use espcan_br.Base.{ℕ, ◌≤◌, ◌<◌, ◌≡◌, ◌↔◌, arith}
use espcan_br.Led.{level_from_count}

-- The level is 0 exactly without frames, 64 exactly from 50 frames on, at least 4 if there are frames,
-- at most 64, and it does not fall when the count grows.
pub record Shows (count : ℕ) : Type 0 where
  pub dark : (level_from_count count ≡ 0) ↔ (count ≡ 0)
  pub full : (level_from_count count ≡ 64) ↔ (50 ≤ count)
  pub visible : 0 < count → 4 ≤ level_from_count count
  pub capped : level_from_count count ≤ 64
  pub grows : (more : ℕ) → count ≤ more → level_from_count count ≤ level_from_count more

-- The level of a count is 0 exactly for no frames, at least 4 for any, 64 exactly from 50 frames on,
-- never more, and never lower for a larger count.
pub level_from_count-Shows : (count : ℕ) → Shows count
unfolding level_from_count
level_from_count-Shows count = record {
  dark = ground arith;
  full = ground arith;
  visible = λ some_frames. ground arith;
  capped = ground arith;
  grows = λ more le. ground arith;
}
