-- ===== src/Tick/Window.antt =====
-- src/main.rs: the buckets of the LED tick are a window over the last ten ticks.
use espcan_br.Base.{
  ℕ, ◌+◌, ◌%◌, ◌^◌, ◌<◌, ◌≡◌, refl, ap, arith, List, [], ◌∷◌, length, set, map, replicate, All,
  Outcome, ok, ◌>>=◌, Returns, Returns-bind, Returns-mono, lt→ltb,
}
use espcan_br.Led.{level_from_count}
use espcan_br.Tick.{Sample, Ticker, first_tick, Rgb, tick, blue, wrapping_sub, led_buckets}
use espcan_br.Tick.Ring.{ago, Ring, Ring-length, Ring-idx, Ring-sum, Ring-write}

abbrev pub rxs : List Sample → List ℕ
rxs = map (λ s. s.rx)

abbrev pub txs : List Sample → List ℕ
txs = map (λ s. s.tx)

-- The loop after the samples of a list, the newest first.
pub ticks : List Sample → Outcome Ticker
ticks [] = ok first_tick
ticks (s ∷ past) = do t ← ticks past; (t', rgb) ← tick s t; ok t'

abbrev pub Fits : Sample → Type 0
Fits s = (s.rx < 2 ^ 32) × (s.tx < 2 ^ 32)

rxs-All : (ss : List Sample) → All Fits ss → All (λ c. c < 2 ^ 32) (rxs ss)
rxs-All [] h = tt
rxs-All (s ∷ ss) h = (h.0.0, rxs-All ss h.1)

txs-All : (ss : List Sample) → All Fits ss → All (λ c. c < 2 ^ 32) (txs ss)
txs-All [] h = tt
txs-All (s ∷ ss) h = (h.0.1, txs-All ss h.1)

record Ticks (past : List Sample) (t : Ticker) : Type 0 where
  rx_ring : Ring (rxs past) t.rx_buckets t.idx
  tx_ring : Ring (txs past) t.tx_buckets t.idx
  last_rx : t.last_rx ≡ ago 0 (rxs past)
  last_tx : t.last_tx ≡ ago 0 (txs past)
  phase : t.idx ≡ length past % 10

-- What a tick shows: the frames of the last ten ticks, as levels, and the status in blue.
pub record Shown (s : Sample) (past : List Sample) (rgb : Rgb) : Type 0 where
  pub green : rgb.g ≡ level_from_count (wrapping_sub s.rx (ago 10 (rxs (s ∷ past))))
  pub red : rgb.r ≡ level_from_count (wrapping_sub s.tx (ago 10 (txs (s ∷ past))))
  pub status : rgb.b ≡ blue (length past % 10) s

record Stepped (s : Sample) (past : List Sample) (r : Ticker × Rgb) : Type 0 where
  next : Ticks (s ∷ past) r.0
  shown : Shown s past r.1

Ticks-first : Ticks [] first_tick
Ticks-first = record {
  rx_ring = record {
    before = [];
    after = replicate led_buckets 0;
    parts = refl;
    at = refl;
    left = omega arith;
    order = refl;
  };
  tx_ring = record {
    before = [];
    after = replicate led_buckets 0;
    parts = refl;
    at = refl;
    left = omega arith;
    order = refl;
  };
  last_rx = refl;
  last_tx = refl;
  phase = refl;
}

tick-Stepped :
    (s : Sample) (past : List Sample) (t : Ticker)
    → All Fits (s ∷ past)
    → Ticks past t
    → Returns (Stepped s past) (tick s t)
unfolding tick
tick-Stepped s past t h k =
    rw
      (
        lt→ltb t.idx (length t.rx_buckets) (omega (arith, rx_size, in_range)),
        lt→ltb t.idx (length t.tx_buckets) (omega (arith, tx_size, in_range)),
      )
      (record {
        next = record {
          rx_ring = rx_next;
          tx_ring = tx_next;
          last_rx = refl;
          last_tx = refl;
          phase = omega (arith, k.phase);
        };
        shown = record {
          green = ap level_from_count (Ring-sum _ _ _ rx_next (rxs-All (s ∷ past) h));
          red = ap level_from_count (Ring-sum _ _ _ tx_next (txs-All (s ∷ past) h));
          status = ap (λ i. blue i s) k.phase;
        };
      })
  where
    in_range : t.idx < 10
    in_range = Ring-idx (rxs past) t.rx_buckets t.idx k.rx_ring

    rx_size : length t.rx_buckets ≡ 10
    rx_size = Ring-length (rxs past) t.rx_buckets t.idx k.rx_ring

    tx_size : length t.tx_buckets ≡ 10
    tx_size = Ring-length (txs past) t.tx_buckets t.idx k.tx_ring

    rx_next :
        Ring
          (rxs (s ∷ past))
          (set t.rx_buckets t.idx (wrapping_sub s.rx t.last_rx))
          ((t.idx + 1) % 10)
    rx_next = rw k.last_rx (Ring-write (rxs past) t.rx_buckets t.idx s.rx k.rx_ring)

    tx_next :
        Ring
          (txs (s ∷ past))
          (set t.tx_buckets t.idx (wrapping_sub s.tx t.last_tx))
          ((t.idx + 1) % 10)
    tx_next = rw k.last_tx (Ring-write (txs past) t.tx_buckets t.idx s.tx k.tx_ring)

ticks-Ticks : (past : List Sample) → All Fits past → Returns (Ticks past) (ticks past)
unfolding ticks
ticks-Ticks [] h = Ticks-first
ticks-Ticks (s ∷ past) h =
    Returns-bind (Ticks past) (Ticks (s ∷ past)) (ticks past) _ (ticks-Ticks past h.1) λ t k.
      Returns-bind (Stepped s past) (Ticks (s ∷ past)) (tick s t) _ (tick-Stepped s past t h k)
        λ r st. st.next

-- After any number of ticks, the next one returns: green is the level of the frames received and red
-- of those transmitted since ten ticks ago or the start, the 32-bit counters' wrap-around included;
-- blue depends on the status and on the number of ticks modulo 10. The counters are of 32 bits.
pub tick-Shown :
    (s : Sample) (past : List Sample)
    → All Fits (s ∷ past)
    → Returns (λ (r : Ticker × Rgb). Shown s past r.1) (ticks past >>= tick s)
tick-Shown s past h =
    Returns-bind (Ticks past) _ (ticks past) (tick s) (ticks-Ticks past h.1)
      λ t k. Returns-mono (Stepped s past) _ (tick s t) (tick-Stepped s past t h k) λ r st. st.shown
