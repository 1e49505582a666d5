-- ===== src/Slcan/Parsed.antt =====
-- src/slcan.rs: `parse_tx` returns on every input, and what it returns is a frame that fits its fields.
use espcan_br.Base.{
  ℕ, zero, suc, ◌+◌, ◌*◌, ◌^◌, ◌-◌, ◌≤◌, ◌<◌, ◌≡◌, refl, ◌∙◌, ap, Bool, true, false, if◌then◌else◌,
  some, [], ◌∷◌, Bytes, length, drop, set, length-set, drop-set, get_elem?, replicate, All, All-set,
  u8, u32, bit_or, index, write_at, slice, refuse_if, try, arith, ltb, ltb-false→le, bit_or_nibble,
  Yields, Yields-bind, Yields-mono, Yields-try, Yields-index, Yields-refuse_if, Yields-slice,
  Yields-write_at, length-take, length-drop,
}
use espcan_br.Slcan.{
  nibble, no_data, parse_tx, parse_data, data_field, kind_of, parse_hex, parse_hex_from,
}
use espcan_br.Slcan.Hex.{nibble-lt}
use espcan_br.Slcan.Frame.{IsParsed}
use espcan_br.Slcan.RoundTrip.{drop-replicate}

grow : ℕ → ℕ → ℕ
grow bound zero = bound
grow bound (suc n) = grow (bound * 16) n

le-grow : (n bound : ℕ) → bound ≤ grow bound n
unfolding grow
le-grow zero bound = omega arith
le-grow (suc n) bound = omega (arith, le-grow n (bound * 16))

parse_hex_from-Yields :
    (digits : Bytes) (v bound : ℕ)
    → v < bound
    → grow bound (length digits) ≤ 2 ^ 32
    → Yields (λ r. r < grow bound (length digits)) (parse_hex_from v digits)
unfolding parse_hex_from grow
parse_hex_from-Yields [] v bound h p = h
parse_hex_from-Yields (b ∷ digits) v bound h p =
    Yields-bind _ _ (try (nibble b)) _ (Yields-try (λ d. d < 16) (nibble b) (λ d. nibble-lt b))
      λ d d_lt.
        parse_hex_from-Yields digits (bit_or (u32 (v * 2 ^ 4)) d) (bound * 16) (next d d_lt) p
  where
    fits : u32 (v * 2 ^ 4) ≡ v * 16
    fits = omega (arith, le-grow (length digits) (bound * 16))

    next : (d : ℕ) → d < 16 → bit_or (u32 (v * 2 ^ 4)) d < bound * 16
    next d d_lt = rw fits (omega (arith, bit_or_nibble v d d_lt))

byte-lt : (hi lo : ℕ) → hi < 16 → lo < 16 → bit_or (u8 (hi * 2 ^ 4)) lo < 256
byte-lt hi lo h l = rw small (omega (arith, bit_or_nibble hi lo l))
  where
    small : u8 (hi * 2 ^ 4) ≡ hi * 16
    small = omega arith

record Filled (n : ℕ) (payload result : Bytes) : Type 0 where
  size : length result ≡ length payload
  bytes : All (λ b. b < 256) result
  kept : drop n result ≡ drop n payload

Filled-set :
    (k n b : ℕ) (payload result : Bytes)
    → Filled (k + 1 + n) (set payload k b) result
    → Filled (k + suc n) payload result
Filled-set k n b payload result f = record {
  size = omega (arith, f.size, length-set payload k b);
  bytes = f.bytes;
  kept = rw count (f.kept ∙ drop-set payload k b (k + 1 + n) (omega arith));
}
  where
    count : k + suc n ≡ k + 1 + n
    count = omega arith

parse_data-Yields :
    (n k i : ℕ) (line payload : Bytes)
    → i + n * 2 ≤ length line
    → k + n ≤ length payload
    → All (λ b. b < 256) payload
    → Yields (Filled (k + n) payload) (parse_data n k i line payload)
unfolding parse_data
parse_data-Yields zero k i line payload h p b = record { size = refl; bytes = b; kept = refl }
parse_data-Yields (suc n) k i line payload h p b =
    Yields-bind _ _ (index line i) _ (Yields-index line i (omega arith)) λ c _.
      Yields-bind _ _ (try (nibble c)) _ (Yields-try (λ d. d < 16) (nibble c) (λ d. nibble-lt c))
        λ hi hi_lt.
          Yields-bind _ _ (index line (i + 1)) _ (Yields-index line (i + 1) (omega arith)) λ c' _.
            Yields-bind _ _ (try (nibble c')) _
              (Yields-try (λ d. d < 16) (nibble c') (λ d. nibble-lt c'))
              λ lo lo_lt.
                let b' = bit_or (u8 (hi * 2 ^ 4)) lo in
                let later =
                  parse_data-Yields n (k + 1) (i + 2) line (set payload k b') (omega arith)
                    (omega (arith, length-set payload k b'))
                    (All-set (λ b. b < 256) payload k b' b (byte-lt hi lo hi_lt lo_lt)) in
                Yields-bind (λ ys. ys ≡ set payload k b') _ (write_at payload k b') _
                  (Yields-write_at payload k b' (omega arith))
                  λ payload' e.
                    rw e (Yields-mono _ _ _ later (λ result. Filled-set k n b' payload result))

-- The three parts of the frame that depend on the dlc.
record HasData (rtr : Bool) (dlc : ℕ) (payload : Bytes) : Type 0 where
  whole : length payload ≡ 8
  bytes : All (λ b. b < 256) payload
  rest_zero : drop (if rtr then 0 else dlc) payload ≡ replicate (8 - (if rtr then 0 else dlc)) 0

Filled-HasData :
    (dlc : ℕ) (payload : Bytes)
    → dlc ≤ 8
    → Filled (0 + dlc) no_data payload
    → HasData false dlc payload
Filled-HasData dlc payload d f = record {
  whole = f.size;
  bytes = f.bytes;
  rest_zero = let e : 0 + dlc ≡ dlc = omega arith in rw (← e) (f.kept ∙ drop-replicate (0 + dlc) 8);
}

data_field-Yields :
    (rtr : Bool) (dlc i : ℕ) (line : Bytes)
    → dlc ≤ 8
    → Yields (HasData rtr dlc) (data_field rtr dlc i line)
unfolding data_field
data_field-Yields true dlc i line d = record { whole = refl; bytes = omega arith; rest_zero = refl }
data_field-Yields false dlc i line d =
    Yields-bind _ _ (refuse_if (ltb (length line) (i + dlc * 2))) _
      (Yields-refuse_if (ltb (length line) (i + dlc * 2)))
      λ _ enough.
        Yields-mono _ _ _
          (parse_data-Yields dlc 0 i line no_data (ltb-false→le _ _ enough) (omega arith)
            (omega arith))
          (λ payload. Filled-HasData dlc payload d)

abbrev IsKind : Bool × Bool × ℕ → Type 0
IsKind (ext, rtr, idlen) = idlen ≡ (if ext then 8 else 3)

kind_of-IsKind : (c : ℕ) {k : Bool × Bool × ℕ} → kind_of c ≡ some k → IsKind k
unfolding kind_of
kind_of-IsKind c h = ground arith

parse_hex-Yields :
    (ext : Bool) (digits : Bytes)
    → length digits ≡ (if ext then 8 else 3)
    → Yields (λ id. id < 2 ^ (if ext then 32 else 12)) (parse_hex digits)
unfolding parse_hex grow
parse_hex-Yields true digits e =
    rw e at (parse_hex_from-Yields digits 0 1 (omega arith) (rw e (omega arith)))
parse_hex-Yields false digits e =
    rw e at (parse_hex_from-Yields digits 0 1 (omega arith) (rw e (omega arith)))

-- `parse_tx` returns on every line, without a panic; the id of a frame that it returns fits in the
-- 12 or 32 bits of its digits, its dlc is at most 8, its payload is of 8 bytes, and zero past the dlc.
pub parse_tx-Yields : (line : Bytes) → Yields IsParsed (parse_tx line)
unfolding parse_tx
parse_tx-Yields line =
    Yields-bind _ _ (try (get_elem? line 0)) _
      (Yields-try (λ _. Unit) (get_elem? line 0) (λ _ _. tt))
      λ c _.
        Yields-bind _ _ (try (kind_of c)) _ (Yields-try IsKind (kind_of c) (λ k. kind_of-IsKind c))
          λ (ext, rtr, idlen) width.
            Yields-bind _ _ (refuse_if (ltb (length line) (1 + idlen + 1))) _
              (Yields-refuse_if (ltb (length line) (1 + idlen + 1)))
              λ _ enough.
                let room = ltb-false→le (length line) (1 + idlen + 1) enough in
                Yields-bind _ _ (slice line 1 (1 + idlen)) _
                  (Yields-slice line 1 (1 + idlen) (omega arith) (omega arith))
                  λ digits e.
                    let size : length digits ≡ idlen = omega (
                      arith,
                      ap length e,
                      length-take (1 + idlen - 1) (drop 1 line),
                      length-drop 1 line,
                    ) in
                    Yields-bind _ _ (parse_hex digits) _
                      (parse_hex-Yields ext digits (size ∙ width))
                      λ id id_lt.
                        Yields-bind _ _ (index line (1 + idlen)) _
                          (Yields-index line (1 + idlen) (omega arith))
                          λ b _.
                            Yields-bind _ _ (try (nibble b)) _
                              (Yields-try (λ d. d < 16) (nibble b) (λ d. nibble-lt b))
                              λ dlc _.
                                Yields-bind _ _ (refuse_if (ltb 8 dlc)) _
                                  (Yields-refuse_if (ltb 8 dlc))
                                  λ _ small.
                                    let dlc_le = ltb-false→le 8 dlc small in
                                    Yields-bind _ _ (data_field rtr dlc (1 + idlen + 1) line) _
                                      (data_field-Yields rtr dlc (1 + idlen + 1) line dlc_le)
                                      λ payload d. record {
                                        id_fits = id_lt;
                                        dlc_le = dlc_le;
                                        whole = d.whole;
                                        bytes = d.bytes;
                                        rest_zero = d.rest_zero;
                                      }
