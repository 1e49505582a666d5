-- ===== src/Led/Pulses.antt =====
-- src/led.rs: what is sent to the LED.
use espcan_br.Base.{
  ℕ, ◌+◌, ◌*◌, ◌/◌, ◌%◌, ◌^◌, ◌<◌, ◌≡◌, refl, arith, Bool, true, false, not, ◌==◌, Option, some,
  List, [], ◌∷◌, ◌++◌, length, map, Returns,
}
use espcan_br.Led.{Rmt, pulse, put_bits, put_bytes, set_rgb}

-- The bits of a byte, the highest first, and the number that bits stand for.
abbrev pub bits_of : ℕ → List Bool
bits_of b = map (λ k. not (b / 2 ^ k % 2 == 0)) (7 ∷ 6 ∷ 5 ∷ 4 ∷ 3 ∷ 2 ∷ 1 ∷ 0 ∷ [])

abbrev bit : Bool → ℕ
bit true = 1
bit false = 0

abbrev pub number : ℕ → List Bool → ℕ
number n [] = n
number n (b ∷ bs) = number (2 * n + bit b) bs

bit_lem : (n : ℕ) → bit (not (n % 2 == 0)) ≡ n % 2
bit_lem n = ground arith

-- The bits of a byte stand for it.
number-bits_of : (b : ℕ) → b < 256 → number 0 (bits_of b) ≡ b
number-bits_of b small =
    rw
      (
        bit_lem (b / 128),
        bit_lem (b / 64),
        bit_lem (b / 32),
        bit_lem (b / 16),
        bit_lem (b / 8),
        bit_lem (b / 4),
        bit_lem (b / 2),
        bit_lem (b / 1),
      )
      (omega arith)

-- Setting a colour keeps the channel. What is sent is 24 pulses, one for each bit, and the end marker;
-- the bits are three bytes, green, red and blue, of eight bits each, the highest bit first.
pub record Sends (rmt : Rmt) (r g b : ℕ) (sent : Option rmt.Channel × List rmt.PulseCode)
    : Type 0 where
  pub channel : rmt.Channel
  pub kept : sent.0 ≡ some channel
  pub green : List Bool
  pub red : List Bool
  pub blue : List Bool
  pub pulses : sent.1 ≡ map (pulse rmt) (green ++ (red ++ blue)) ++ rmt.end_marker ∷ []
  pub eight : (length green ≡ 8) × (length red ≡ 8) × (length blue ≡ 8)
  pub greens : number 0 green ≡ g
  pub reds : number 0 red ≡ r
  pub blues : number 0 blue ≡ b

-- Setting a colour of three bytes returns, keeps the channel, and sends 25 pulses: one for each bit of
-- the green, the red and the blue byte, in this order and the highest bit first, and the end marker.
pub set_rgb-Sends :
    (rmt : Rmt) (r g b : ℕ) (ch : rmt.Channel)
    → r < 256
    → g < 256
    → b < 256
    → Returns (Sends rmt r g b) (set_rgb rmt r g b (some ch))
unfolding set_rgb put_bytes put_bits
set_rgb-Sends rmt r g b ch r_lt g_lt b_lt = record {
  channel = _;
  kept = refl;
  green = bits_of g;
  red = bits_of r;
  blue = bits_of b;
  pulses = refl;
  eight = (refl, refl, refl);
  greens = number-bits_of g g_lt;
  reds = number-bits_of r r_lt;
  blues = number-bits_of b b_lt;
}
