-- ===== src/Tick.antt =====
-- src/main.rs: the LED tick, the loop at the end of `main`. The sum of the buckets wraps, as it does in a
-- release build.
pub mod Ring
pub mod Window
use espcan_br.Base.{
  ℕ, ◌+◌, ◌-◌, ◌%◌, ◌^◌, u32, Bool, true, false, ◌==◌, ltb, ◌||◌, if◌then◌else◌, Option, List, [],
  ◌∷◌, replicate, Outcome, ok, absent, panic, ◌>>=◌, write_at,
}
use espcan_br.Led.{Rmt, level_from_count, set_rgb}

abbrev pub led_buckets : ℕ
led_buckets = 10

abbrev pub status_blue : ℕ
status_blue = 10

abbrev pub wrapping_sub : ℕ → ℕ → ℕ
wrapping_sub a b = (a + (2 ^ 32 - b)) % 2 ^ 32

abbrev pub sum : List ℕ → ℕ
sum [] = 0
sum (n ∷ ns) = n + sum ns

-- The locals of the loop.
pub record Ticker : Type 0 where
  pub rx_buckets : List ℕ
  pub tx_buckets : List ℕ
  pub idx : ℕ
  pub last_rx : ℕ
  pub last_tx : ℕ

abbrev pub first_tick : Ticker
first_tick = record {
  rx_buckets = replicate led_buckets 0;
  tx_buckets = replicate led_buckets 0;
  idx = 0;
  last_rx = 0;
  last_tx = 0;
}

-- What one tick reads.
pub record Sample : Type 0 where
  pub rx : ℕ
  pub tx : ℕ
  pub tcp_clients : ℕ
  pub config_mode : Bool
  pub wifi_connected : Bool

unfoldable pub blue : ℕ → Sample → ℕ
blue idx s =
    if ltb 0 s.tcp_clients
    then (if idx == 0 then 0 else status_blue)
    else if s.config_mode || s.wifi_connected
    then (if idx == 0 then status_blue else 0)
    else 0

pub record Rgb : Type 0 where
  pub r : ℕ
  pub g : ℕ
  pub b : ℕ

-- One round of the loop, up to `led.set_rgb(r, g, b)`.
unfoldable pub tick : Sample → Ticker → Outcome (Ticker × Rgb)
tick s t = do
  rx_buckets ← write_at t.rx_buckets t.idx (wrapping_sub s.rx t.last_rx)
  tx_buckets ← write_at t.tx_buckets t.idx (wrapping_sub s.tx t.last_tx)
  ok (
    record {
      rx_buckets = rx_buckets;
      tx_buckets = tx_buckets;
      idx = (t.idx + 1) % led_buckets;
      last_rx = s.rx;
      last_tx = s.tx;
    },
    record {
      r = level_from_count (u32 (sum tx_buckets));
      g = level_from_count (u32 (sum rx_buckets));
      b = blue t.idx s;
    },
  )
