-- ===== src/Tests/Bench.antt =====
-- A controller that satisfies what the driver's documentation says: it holds a number of attempts that
-- still find its queue full, and the frames that it has received.
use espcan_br.Base.{
  ℕ, zero, suc, ◌≤◌, ◌<◌, ◌≡◌, refl, ap, arith, Bool, true, false, Option, none, some, List, [],
  ◌∷◌, Bytes, length, All, if◌then◌else◌, dec_lt, ltb, ltb→lt, ◌&&◌, Bool-cases, inl, inr,
}
use espcan_br.Twai.{Twai, Documented, FrameId, Sent, sent, would_block}

abbrev Below : ℕ → Type 0
Below n = (k : ℕ) × (k < n)

abbrev pub below : (n k : ℕ) → Dec (k < n) → Option (Below n)
below n k (yes p) = some (k, p)
below n k (no _) = none

below-fits :
    (n k : ℕ) (d : Dec (k < n)) → k < n → (b : Below n) × (below n k d ≡ some b) × (b.0 ≡ k)
below-fits n k (yes p) h = ((k, p), refl, refl)
below-fits n k (no q) h = elim (q h) [ ]

below-large : (n k : ℕ) (d : Dec (k < n)) → n ≤ k → below n k d ≡ none
below-large n k (yes p) h = absurd (omega arith)
below-large n k (no q) h = refl

abbrev BenchId : Type 0
BenchId = FrameId (Below 0x800) (Below 0x2000_0000)

pub record BenchFrame : Type 0 where
  pub id : BenchId
  pub remote : Bool
  pub dlc : ℕ
  pub content : Bytes
  pub small : dlc ≤ 8
  pub bytes : All (λ b. b < 256) content
  pub size : length content ≡ (if remote then 0 else dlc)

abbrev pub is_bytes : Bytes → Bool
is_bytes [] = true
is_bytes (b ∷ bs) = ltb b 256 && is_bytes bs

pub is_bytes-All : (bs : Bytes) → is_bytes bs ≡ true → All (λ b. b < 256) bs
is_bytes-All [] h = tt
is_bytes-All (b ∷ bs) h = elim (Bool-cases (ltb b 256)) [
  | inl small ↦ (ltb→lt b 256 small, is_bytes-All bs (rw small at h))
  | inr large ↦ ground arith
]

abbrev all_bytes : (bs : Bytes) → Option (All (λ b. b < 256) bs)
all_bytes [] = some tt
all_bytes (b ∷ bs) = elim (dec_lt b 256) [
  | yes p ↦ elim (all_bytes bs) [ some ps ↦ some (p, ps) | none ↦ none ]
  | no _ ↦ none
]

all_bytes-some :
    (bs : Bytes) → All (λ b. b < 256) bs → (ps : All (λ b. b < 256) bs) × (all_bytes bs ≡ some ps)
all_bytes-some [] h = (tt, refl)
all_bytes-some (b ∷ bs) h =
    elim (dec_lt b 256)
      as (λ d.
        (ps : All (λ b. b < 256) (b ∷ bs)) × ((elim d [
          | yes p ↦ elim (all_bytes bs) [ some qs ↦ some (p, qs) | none ↦ none ]
          | no _ ↦ none
        ])
          ≡ some ps)) [
            | yes p ↦ (let (qs, e) = all_bytes-some bs h.1 in ((p, qs), rw e))
            | no q ↦ elim (q h.0) [ ]
          ]

abbrev remote_of : BenchId → (n : ℕ) → Dec (n < 9) → Option BenchFrame
remote_of id n (yes p) = some (record {
  id = id;
  remote = true;
  dlc = n;
  content = [];
  small = omega arith;
  bytes = tt;
  size = refl;
})
remote_of id n (no _) = none

abbrev data_of :
    BenchId
    → (bs : Bytes) → Dec (length bs < 9)
    → Option (All (λ b. b < 256) bs)
    → Option BenchFrame
data_of id bs (yes p) (some ps) = some (record {
  id = id;
  remote = false;
  dlc = length bs;
  content = bs;
  small = omega arith;
  bytes = ps;
  size = refl;
})
data_of id bs _ _ = none

-- How many attempts will still block, and what is in the receive queue.
pub record Queue : Type 0 where
  pub busy : ℕ
  pub waiting : List BenchFrame

abbrev attempt : ℕ → List BenchFrame → Queue × Sent
attempt zero w = (record { busy = 0; waiting = w }, sent)
attempt (suc k) w = (record { busy = k; waiting = w }, would_block)

abbrev take_one : ℕ → List BenchFrame → Queue × Option BenchFrame
take_one k [] = (record { busy = k; waiting = [] }, none)
take_one k (e ∷ es) = (record { busy = k; waiting = es }, some e)

abbrev pub bench : Twai
bench = record {
  StandardId = Below 0x800;
  standard_new = λ k. below 0x800 k (dec_lt k 0x800);
  standard_raw = λ s. s.0;
  ExtendedId = Below 0x2000_0000;
  extended_new = λ k. below 0x2000_0000 k (dec_lt k 0x2000_0000);
  extended_raw = λ e. e.0;
  EspFrame = BenchFrame;
  new_remote = λ id n. remote_of id n (dec_lt n 9);
  new_frame = λ id bs. data_of id bs (dec_lt (length bs) 9) (all_bytes bs);
  frame_id = λ e. e.id;
  is_remote_frame = λ e. e.remote;
  frame_dlc = λ e. e.dlc;
  frame_data = λ e. e.content;
  Driver = Queue;
  start = λ b m. record { busy = 2; waiting = [] };
  transmit_once = λ q e. attempt q.busy q.waiting;
  receive = λ q. take_one q.busy q.waiting;
  receive_error_count = λ q. 100;
  transmit_error_count = λ q. 0;
  is_bus_off = λ q. false;
}

remote_holds :
    (id : BenchId) (n : ℕ) (d : Dec (n < 9))
    → n ≤ 8
    → (e : BenchFrame) × (remote_of id n d ≡ some e)
      × (e.id ≡ id)
      × (e.remote ≡ true)
      × (e.dlc ≡ n)
      × (e.content ≡ [])
remote_holds id n (yes p) h = (_, refl, refl, refl, refl, refl)
remote_holds id n (no q) h = elim (q (omega arith)) [ ]

frame_holds :
    (id : BenchId) (bs : Bytes) (d : Dec (length bs < 9))
    → length bs ≤ 8
    → All (λ b. b < 256) bs
    → (e : BenchFrame) × (data_of id bs d (all_bytes bs) ≡ some e)
      × (e.id ≡ id)
      × (e.remote ≡ false)
      × (e.dlc ≡ length bs)
      × (e.content ≡ bs)
frame_holds id bs (yes p) h k =
    let (ps, e) = all_bytes-some bs k in (_, ap (data_of id bs (yes p)) e, refl, refl, refl, refl)
frame_holds id bs (no q) h k = elim (q (omega arith)) [ ]

pub bench_laws : Documented bench
bench_laws = record {
  standard_fits = λ n h. below-fits 0x800 n (dec_lt n 0x800) (omega arith);
  standard_large = λ n h. below-large 0x800 n (dec_lt n 0x800) (omega arith);
  extended_fits = λ n h. below-fits 0x2000_0000 n (dec_lt n 0x2000_0000) (omega arith);
  extended_large = λ n h. below-large 0x2000_0000 n (dec_lt n 0x2000_0000) (omega arith);
  remote_holds = λ id n h. remote_holds id n (dec_lt n 9) h;
  frame_holds = λ id bs h k. frame_holds id bs (dec_lt (length bs) 9) h k;
  standard_raw_le = λ s. let fits = s.1 in omega arith;
  extended_raw_le = λ e. let fits = e.1 in omega arith;
  dlc_le = λ e. e.small;
  data_bytes = λ e. e.bytes;
  data_length = λ e. e.size;
}
