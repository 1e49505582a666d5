-- ===== src/Can/Convert.antt =====
-- src/can.rs: `to_esp` and `from_esp`, over the documented behaviour of the driver's types.
use espcan_br.Base.{
  ℕ, zero, suc, ◌-◌, ◌^◌, ◌<◌, ◌≤◌, ◌≡◌, refl, sym, ◌∙◌, ap, arith, Bool, true, false,
  if◌then◌else◌, u8, u16, le→leb, some, [], Bytes, length, take, drop, replicate, All, All-append,
  take-append-drop, length-take, length-append, length-drop, drop-append, slice-ok, ok, absent,
  ◌>>=◌, ◌++◌,
}
use espcan_br.Slcan.{CanFrame, no_data}
use espcan_br.Slcan.Frame.{IsFrame, IsParsed}
use espcan_br.Slcan.RoundTrip.{drop-replicate, AreBytes-take}
use espcan_br.Twai.{Twai, Documented, FrameId, standard, extended}
use espcan_br.Can.{id_of, to_esp, from_esp, raw_id, copy_data}

copy_data-ok :
    (h : Twai) (d : Bytes) → length d ≤ 8 → copy_data h d ≡ ok (d ++ drop (length d) no_data)
unfolding copy_data
copy_data-ok h d k = rw (le→leb (length d) 8 k)

carried_le : (b : Bool) {d : ℕ} → d ≤ 8 → (if b then 0 else d) ≤ 8
carried_le true k = omega arith
carried_le false k = k

module _ (h : Twai) (laws : Documented h) where
  open h use {
    StandardId, ExtendedId, EspFrame, is_remote_frame, frame_dlc, frame_data, frame_id, new_remote,
    new_frame, extended_new, standard_new, extended_raw, standard_raw,
  }

  -- An id that fits is converted, and the converted id stands for it.
  abbrev Converts : CanFrame → Type 0
  Converts f =
      (i : FrameId StandardId ExtendedId) × (id_of h f ≡ ok i) × (raw_id h i ≡ (f.ext, f.id))

  id_of-fits :
      (ext rtr : Bool) (n dlc : ℕ) (payload : Bytes)
      → n < 2 ^ (if ext then 29 else 11)
      → Converts (record { id = n; ext = ext; rtr = rtr; dlc = dlc; payload = payload })
  unfolding id_of raw_id
  id_of-fits true rtr n dlc payload k = go (laws.extended_fits n (omega arith))
    where
      go :
          (e : ExtendedId) × (extended_new n ≡ some e) × (extended_raw e ≡ n)
          → Converts (record { id = n; ext = true; rtr = rtr; dlc = dlc; payload = payload })
      go (e, new, raw) = (extended e, rw new, rw raw)
  id_of-fits false rtr n dlc payload k = go (laws.standard_fits n (omega arith))
    where
      same : u16 n ≡ n
      same = omega arith

      go :
          (s : StandardId) × (standard_new n ≡ some s) × (standard_raw s ≡ n)
          → Converts (record { id = n; ext = false; rtr = rtr; dlc = dlc; payload = payload })
      go (s, new, raw) = (standard s, rw (same, new), rw raw)

  -- A driver's frame that agrees with `f` in every part converts to `f`.
  pub record Agrees (e : EspFrame) (f : CanFrame) : Type 0 where
    pub same_id : raw_id h (frame_id e) ≡ (f.ext, f.id)
    pub same_rtr : is_remote_frame e ≡ f.rtr
    pub same_dlc : frame_dlc e ≡ f.dlc
    pub short : f.dlc ≤ 8
    pub room : length (frame_data e) ≤ 8
    pub same_data : frame_data e ++ drop (length (frame_data e)) no_data ≡ f.payload

  Agrees-from_esp : (e : EspFrame) (f : CanFrame) → Agrees e f → from_esp h e ≡ ok f
  unfolding from_esp
  Agrees-from_esp e f a = rw (copy_data-ok h (frame_data e) a.room) (λ j. ok (record {
    id = (a.same_id j).1;
    ext = (a.same_id j).0;
    rtr = a.same_rtr j;
    dlc = kept j;
    payload = a.same_data j;
  }))
    where
      kept : u8 (frame_dlc e) ≡ f.dlc
      kept = omega (arith, a.same_dlc, a.short)

  -- `f` is converted, and its converted form agrees with it.
  abbrev pub Enters : CanFrame → Type 0
  Enters f = (e : EspFrame) × (to_esp h f ≡ ok e) × Agrees e f

  Enters-of_id :
      (rtr ext : Bool) (id dlc : ℕ) (payload : Bytes) (i : FrameId StandardId ExtendedId)
      → IsFrame (record { id = id; ext = ext; rtr = rtr; dlc = dlc; payload = payload })
      → id_of h (record { id = id; ext = ext; rtr = rtr; dlc = dlc; payload = payload }) ≡ ok i
      → raw_id h i ≡ (ext, id)
      → Enters (record { id = id; ext = ext; rtr = rtr; dlc = dlc; payload = payload })
  unfolding to_esp
  Enters-of_id true ext id dlc payload i v converted raw = go (laws.remote_holds i dlc v.dlc_le)
    where
      go :
          (e : EspFrame) × (new_remote i dlc ≡ some e)
            × (frame_id e ≡ i)
            × (is_remote_frame e ≡ true)
            × (frame_dlc e ≡ dlc)
            × (frame_data e ≡ [])
          → Enters (record { id = id; ext = ext; rtr = true; dlc = dlc; payload = payload })
      go (e, new, same, remote, size, bytes) = (
        e,
        rw (converted, new),
        record {
          same_id = ap (raw_id h) same ∙ raw;
          same_rtr = remote;
          same_dlc = size;
          short = v.dlc_le;
          room = rw bytes (omega arith);
          same_data = rw bytes (sym v.rest_zero);
        },
      )
  Enters-of_id false ext id dlc payload i v converted raw = go (
      laws.frame_holds i (take dlc payload) (omega (arith, v.dlc_le, count))
        (AreBytes-take dlc payload v.bytes))
    where
      count : length (take dlc payload) ≡ dlc
      count = omega (arith, v.dlc_le, v.whole, length-take dlc payload)

      whole : dlc - 0 ≡ dlc
      whole = omega arith

      go :
          (e : EspFrame) × (new_frame i (take dlc payload) ≡ some e)
            × (frame_id e ≡ i)
            × (is_remote_frame e ≡ false)
            × (frame_dlc e ≡ length (take dlc payload))
            × (frame_data e ≡ take dlc payload)
          → Enters (record { id = id; ext = ext; rtr = false; dlc = dlc; payload = payload })
      go (e, new, same, remote, size, bytes) = (
        e,
        rw (converted, slice-ok payload 0 dlc (omega arith) (omega (arith, v.dlc_le, v.whole)))
            (rw (whole, new)),
        record {
          same_id = ap (raw_id h) same ∙ raw;
          same_rtr = remote;
          same_dlc = size ∙ count;
          short = v.dlc_le;
          room = rw bytes (omega (arith, v.dlc_le, count));
          same_data =
              rw (bytes, count, drop-replicate dlc 8)
                (ap (◌++◌ (take dlc payload)) (sym v.rest_zero) ∙ take-append-drop dlc payload);
        },
      )

  pub IsFrame-Enters : (f : CanFrame) → IsFrame f → Enters f
  IsFrame-Enters f v =
      let (i, converted, raw) = id_of-fits f.ext f.rtr f.id f.dlc f.payload v.id_fits in
      Enters-of_id f.rtr f.ext f.id f.dlc f.payload i v converted raw

  -- A frame of CAN 2.0 comes through the driver's form as it was, if the driver does what its
  -- documentation says.
  pub from_esp-to_esp : (f : CanFrame) → IsFrame f → (to_esp h f >>= from_esp h) ≡ ok f
  from_esp-to_esp f v =
      let (e, entered, agrees) = IsFrame-Enters f v in
      ap (λ m. m >>= from_esp h) entered ∙ Agrees-from_esp e f agrees

  -- A frame whose id does not fit in 11 or 29 bits is not converted.
  pub to_esp_large :
      (f : CanFrame) → IsParsed f → 2 ^ (if f.ext then 29 else 11) ≤ f.id → to_esp h f ≡ absent
  to_esp_large f v k = go f.ext f.rtr f.id f.dlc f.payload v.id_fits k
    where
      go :
          (ext rtr : Bool) (id dlc : ℕ) (payload : Bytes)
          → id < 2 ^ (if ext then 32 else 12)
          → 2 ^ (if ext then 29 else 11) ≤ id
          → to_esp h (record { id = id; ext = ext; rtr = rtr; dlc = dlc; payload = payload })
            ≡ absent
      go true rtr id dlc payload fits k =
          unfold to_esp id_of in rw (laws.extended_large id (omega arith))
      go false rtr id dlc payload fits k =
          let same : u16 id ≡ id = omega arith in
          unfold to_esp id_of in rw (same, laws.standard_large id (omega arith))

  All-drop_zero : (n m : ℕ) → All (λ b. b < 256) (drop n (replicate m 0))
  All-drop_zero zero zero = tt
  All-drop_zero zero (suc m) = (omega arith, All-drop_zero zero m)
  All-drop_zero (suc n) zero = tt
  All-drop_zero (suc n) (suc m) = All-drop_zero n m

  -- Whatever the driver has received is converted, to a frame of CAN 2.0.
  pub from_esp-IsFrame : (e : EspFrame) → (f : CanFrame) × (from_esp h e ≡ ok f) × IsFrame f
  from_esp-IsFrame e = (
    made,
    (unfold from_esp in rw (copy_data-ok h (frame_data e) room)),
    record {
      id_fits = id_fits (frame_id e);
      dlc_le = omega (arith, laws.dlc_le e);
      whole = omega (
        arith,
        length-append (frame_data e) (drop (length (frame_data e)) no_data),
        length-drop {A = ℕ} (length (frame_data e)) no_data,
        room,
      );
      bytes =
          All-append (λ b. b < 256) (frame_data e) _ (laws.data_bytes e)
            (All-drop_zero (length (frame_data e)) 8);
      rest_zero =
          rw
            (
              carried,
              drop-append (frame_data e) (drop (length (frame_data e)) no_data)
                  (length (frame_data e)) refl,
            )
            (drop-replicate (length (frame_data e)) 8);
    },
  )
    where
      room : length (frame_data e) ≤ 8
      room = rw (laws.data_length e) (carried_le (is_remote_frame e) (laws.dlc_le e))

      kept : u8 (frame_dlc e) ≡ frame_dlc e
      kept = omega (arith, laws.dlc_le e)

      carried : (if is_remote_frame e then 0 else u8 (frame_dlc e)) ≡ length (frame_data e)
      carried = rw kept (sym (laws.data_length e))

      made : CanFrame
      made = record {
        id = (raw_id h (frame_id e)).1;
        ext = (raw_id h (frame_id e)).0;
        rtr = is_remote_frame e;
        dlc = u8 (frame_dlc e);
        payload = frame_data e ++ drop (length (frame_data e)) no_data;
      }

      id_fits :
          (i : FrameId StandardId ExtendedId)
          → (raw_id h i).1 < 2 ^ (if (raw_id h i).0 then 29 else 11)
      id_fits (standard s) = unfold raw_id in omega (arith, laws.standard_raw_le s)
      id_fits (extended x) = unfold raw_id in omega (arith, laws.extended_raw_le x)
