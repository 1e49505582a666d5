-- ===== src/Tests/Settings.antt =====
-- The LED, its tick, the configuration and the decoders of the web interface, at concrete inputs.
use espcan_br.Base.{
  ℕ, ◌+◌, ◌≡◌, refl, arith, true, false, some, [], ◌∷◌, replicate, ok, ◌>>=◌, Returns, inl,
}
use espcan_br.Led.{Rmt, level_from_count, set_rgb}
use espcan_br.Led.Level.{Shows, level_from_count-Shows}
use espcan_br.Led.Pulses.{Sends, set_rgb-Sends}
use espcan_br.Tick.{Sample, Ticker, Rgb, tick}
use espcan_br.Tick.Window.{ticks, Shown, tick-Shown}
use espcan_br.Http.{base64_decode, base64_value, base64_from, base64_step}

level_one : level_from_count 1 ≡ 5
unfolding level_from_count
level_one = refl

level_from_count-Shows_example : Shows 7
level_from_count-Shows_example = level_from_count-Shows 7

-- A pulse is its two durations; the channel counts the transmissions, and each one succeeds.
abbrev strip : Rmt
strip = record {
  PulseCode = ℕ × ℕ;
  end_marker = (0, 0);
  high_low = λ high low. (high, low);
  Channel = ℕ;
  Txn = ℕ;
  transmit = λ ch ps. inl (ch + 1);
  wait = λ txn. inl txn;
}

set_rgb-Sends_example : Returns (Sends strip 64 4 10) (set_rgb strip 64 4 10 (some 0))
set_rgb-Sends_example = set_rgb-Sends strip 64 4 10 0 (omega arith) (omega arith) (omega arith)

abbrev sample : ℕ → ℕ → Sample
sample rx tx = record {
  rx = rx;
  tx = tx;
  tcp_clients = 1;
  config_mode = false;
  wifi_connected = true;
}

tick-Shown_example :
    Returns
      (λ (r : Ticker × Rgb). Shown (sample 60 9) (sample 20 4 ∷ sample 4_294_967_290 1 ∷ []) r.1)
      (ticks (sample 20 4 ∷ sample 4_294_967_290 1 ∷ []) >>= tick (sample 60 9))
tick-Shown_example =
    tick-Shown (sample 60 9) (sample 20 4 ∷ sample 4_294_967_290 1 ∷ [])
      ((omega arith, omega arith), ((omega arith, omega arith), ((omega arith, omega arith), tt)))

decoded_hi :
    base64_decode (b'a' ∷ b'G' ∷ b'k' ∷ b'=' ∷ []) (replicate 2 0) ≡ ok (2, b'h' ∷ b'i' ∷ [])
unfolding base64_decode base64_from base64_step base64_value
decoded_hi = refl
