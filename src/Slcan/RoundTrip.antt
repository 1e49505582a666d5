-- ===== src/Slcan/RoundTrip.antt =====
-- src/slcan.rs: `parse_tx` reads back the line of every frame, whatever follows it.
use espcan_br.Base.{
  ℕ, zero, suc, ◌+◌, ◌*◌, ◌/◌, ◌%◌, ◌^◌, ◌-◌, ◌≤◌, ◌<◌, ◌≡◌, refl, subst, sym, ◌∙◌, ap, Bool, true,
  false, if◌then◌else◌, Option, some, [], ◌∷◌, ◌++◌, Bytes, length, take, drop, replicate, All, u8,
  bit_or, index-at, write_at-append, slice-ok, refuse_if-ltb, append_assoc, length-append,
  length-take, take-append-drop, take-append, append-nil, ok, ◌>>=◌, arith, bit_or_nibble,
}
use espcan_br.Slcan.{
  CanFrame, hex_digit, letter, id_shifts, cr, no_data, parse_tx, parse_data, data_field, kind_of,
  format_frame, max_frame_ascii,
}
use espcan_br.Slcan.Hex.{digits, nibble-hex_digit, parse_hex-digits}
use espcan_br.Slcan.Frame.{IsFrame, IsParsed, IsFrame-IsParsed, data_digits, stamp_digits, render}
use espcan_br.Slcan.Format.{format_frame-render, data_digits-length}

abbrev pub AreBytes : Bytes → Type 0
AreBytes = All (λ b. b < 256)

pub AreBytes-take : (n : ℕ) (bs : Bytes) → AreBytes bs → AreBytes (take n bs)
AreBytes-take zero bs h = tt
AreBytes-take (suc n) [] h = tt
AreBytes-take (suc n) (b ∷ bs) h = (h.0, AreBytes-take n bs h.1)

byte_digits : (b : ℕ) → b < 256 → bit_or (u8 (b / 2 ^ 4 % 16 * 2 ^ 4)) (b % 16) ≡ b
byte_digits b h = rw small (bit_or_nibble (b / 16) (b % 16) (omega arith) ∙ omega arith)
  where
    small : u8 (b / 2 ^ 4 % 16 * 2 ^ 4) ≡ b / 16 * 16
    small = omega arith

pub parse_data-data_digits :
    (bs : Bytes) (k i : ℕ) (before rest done free : Bytes)
    → AreBytes bs
    → i ≡ length before
    → k ≡ length done
    → length bs ≤ length free
    → parse_data (length bs) k i (before ++ (data_digits bs ++ rest)) (done ++ free)
      ≡ ok (done ++ (bs ++ drop (length bs) free))
unfolding parse_data
parse_data-data_digits [] k i before rest done free h p q r = refl
parse_data-data_digits (b ∷ bs) k i before rest done [] h p q r = absurd (omega arith)
parse_data-data_digits (b ∷ bs) k i before rest done (x ∷ free) h p q r =
    rw
      (
        index-at before (hex_digit b ∷ (data_digits bs ++ rest)) (hex_digit (b / 2 ^ 4)) i p,
        nibble-hex_digit (b / 2 ^ 4),
        shifted (hex_digit (b / 2 ^ 4)) (hex_digit b ∷ (data_digits bs ++ rest)),
        index-at (before ++ hex_digit (b / 2 ^ 4) ∷ []) (data_digits bs ++ rest) (hex_digit b)
            (i + 1) p',
        nibble-hex_digit b,
        byte_digits b h.0,
        write_at-append done free x b k q,
      )
      (rw
        (
          ← append_assoc (before ++ hex_digit (b / 2 ^ 4) ∷ []) (hex_digit b ∷ [])
              (data_digits bs ++ rest),
          ← append_assoc done (b ∷ []) free,
          ← append_assoc done (b ∷ []) (bs ++ drop (length bs) free),
        )
        (parse_data-data_digits bs (k + 1) (i + 2) _ rest (done ++ b ∷ []) free h.1 p'' q'
          (omega arith)))
  where
    shifted : (c : ℕ) (cs : Bytes) → before ++ c ∷ cs ≡ (before ++ c ∷ []) ++ cs
    shifted c cs = sym (append_assoc before (c ∷ []) cs)

    p' : i + 1 ≡ length (before ++ hex_digit (b / 2 ^ 4) ∷ [])
    p' = omega (arith, length-append before (hex_digit (b / 2 ^ 4) ∷ []))

    p'' : i + 2 ≡ length ((before ++ hex_digit (b / 2 ^ 4) ∷ []) ++ hex_digit b ∷ [])
    p'' = omega (arith, p', length-append (before ++ hex_digit (b / 2 ^ 4) ∷ []) (hex_digit b ∷ []))

    q' : k + 1 ≡ length (done ++ b ∷ [])
    q' = omega (arith, length-append done (b ∷ []))

pub drop-replicate : (n m : ℕ) → drop {A = ℕ} n (replicate m 0) ≡ replicate (m - n) 0
drop-replicate zero m = let e : m ≡ m - 0 = omega arith in ap (λ k. replicate k 0) e
drop-replicate (suc n) zero = let e : 0 ≡ 0 - suc n = omega arith in ap (λ k. replicate k 0) e
drop-replicate (suc n) (suc m) =
    let e : m - n ≡ suc m - suc n = omega arith in drop-replicate n m ∙ ap (λ k. replicate k 0) e

data_field_lem :
    (rtr : Bool) (dlc : ℕ) (payload before rest : Bytes) (i : ℕ)
    → dlc ≤ 8
    → length payload ≡ 8
    → AreBytes payload
    → drop (if rtr then 0 else dlc) payload ≡ replicate (8 - (if rtr then 0 else dlc)) 0
    → i ≡ length before
    → data_field rtr dlc i (before ++ (data_digits (take (if rtr then 0 else dlc) payload) ++ rest))
      ≡ ok payload
unfolding data_field
data_field_lem true dlc payload before rest i d w b z p = ap ok (sym z)
data_field_lem false dlc payload before rest i d w b z p =
    rw (refuse_if-ltb (length (before ++ (data_digits sent ++ rest))) (i + dlc * 2) room) (
      subst
        (λ n.
          parse_data n 0 i (before ++ (data_digits sent ++ rest)) no_data
          ≡ ok (sent ++ drop n no_data))
        size
        (parse_data-data_digits sent 0 i before rest [] no_data (AreBytes-take dlc payload b) p refl
          (omega (arith, size)))
      ∙ ap (λ bs. ok (sent ++ bs)) (drop-replicate dlc 8 ∙ sym z)
      ∙ ap ok (take-append-drop dlc payload))
  where
    sent : Bytes
    sent = take dlc payload

    size : length sent ≡ dlc
    size = omega (arith, length-take dlc payload)

    room : i + dlc * 2 ≤ length (before ++ (data_digits sent ++ rest))
    room = omega (
      arith,
      length-append before (data_digits sent ++ rest),
      length-append (data_digits sent) rest,
      data_digits-length sent,
      size,
    )

kind_of-letter : (ext rtr : Bool) → kind_of (letter ext rtr) ≡ some (ext, rtr, if ext then 8 else 3)
unfolding kind_of letter
kind_of-letter true true = refl
kind_of-letter true false = refl
kind_of-letter false true = refl
kind_of-letter false false = refl

-- What stands behind the dlc, and is read.
abbrev data_of : Bool → ℕ → Bytes → Bytes
data_of rtr dlc payload = data_digits (take (if rtr then 0 else dlc) payload)

module _ (rtr : Bool) (id dlc : ℕ) (payload more : Bytes) (d : dlc ≤ 8) (w : length payload ≡ 8)
    (b : AreBytes payload)
    (z : drop (if rtr then 0 else dlc) payload ≡ replicate (8 - (if rtr then 0 else dlc)) 0) where
  dlc_small : dlc % 16 ≡ dlc
  dlc_small = omega arith

  parse_tx_line :
      (ext : Bool)
      → id < 2 ^ (if ext then 32 else 12)
      → parse_tx (
          letter ext rtr
          ∷ (digits id (id_shifts ext) ++ (hex_digit dlc ∷ (data_of rtr dlc payload ++ more))))
        ≡ ok (record { id = id; ext = ext; rtr = rtr; dlc = dlc; payload = payload })
  unfolding parse_tx
  parse_tx_line true h =
      rw
        (
          kind_of-letter true rtr,
          refuse_if-ltb (length (before ++ (data_of rtr dlc payload ++ more))) 10 (omega arith),
          slice-ok (before ++ (data_of rtr dlc payload ++ more)) 1 9 (omega arith) (omega arith),
          parse_hex-digits true id h,
          nibble-hex_digit dlc,
          dlc_small,
          refuse_if-ltb 8 dlc d,
        )
        (ap
          (λ field.
            field >>= λ p. ok (record { id = id; ext = true; rtr = rtr; dlc = dlc; payload = p }))
          (data_field_lem rtr dlc payload before more 10 d w b z refl))
    where
      before : Bytes
      before = letter true rtr ∷ (digits id (id_shifts true) ++ hex_digit dlc ∷ [])
  parse_tx_line false h =
      rw
        (
          kind_of-letter false rtr,
          refuse_if-ltb (length (before ++ (data_of rtr dlc payload ++ more))) 5 (omega arith),
          slice-ok (before ++ (data_of rtr dlc payload ++ more)) 1 4 (omega arith) (omega arith),
          parse_hex-digits false id h,
          nibble-hex_digit dlc,
          dlc_small,
          refuse_if-ltb 8 dlc d,
        )
        (ap
          (λ field.
            field >>= λ p. ok (record { id = id; ext = false; rtr = rtr; dlc = dlc; payload = p }))
          (data_field_lem rtr dlc payload before more 5 d w b z refl))
    where
      before : Bytes
      before = letter false rtr ∷ (digits id (id_shifts false) ++ hex_digit dlc ∷ [])

-- `parse_tx` reads back the line of a frame, with or without a timestamp, whatever follows it.
pub parse_tx-render :
    (f : CanFrame) (timestamp : Option ℕ) (rest : Bytes)
    → IsParsed f
    → parse_tx (render f timestamp ++ rest) ≡ ok f
parse_tx-render f timestamp rest v =
    ap parse_tx regroup
    ∙ parse_tx_line f.rtr f.id f.dlc f.payload ((stamp_digits timestamp ++ cr ∷ []) ++ rest)
        v.dlc_le v.whole v.bytes v.rest_zero f.ext v.id_fits
  where
    tail : Bytes
    tail = stamp_digits timestamp ++ cr ∷ []

    regroup :
        render f timestamp ++ rest
        ≡ letter f.ext f.rtr
          ∷ (digits f.id (id_shifts f.ext)
              ++ (hex_digit f.dlc ∷ (data_of f.rtr f.dlc f.payload ++ (tail ++ rest))))
    regroup = simp append_assoc

-- A frame that `format_frame` has written, with or without a timestamp, into a buffer of
-- `MAX_FRAME_ASCII` bytes or more is read back by `parse_tx` from the written part.
pub parse_tx-format_frame :
    (f : CanFrame) (timestamp : Option ℕ) (out : Bytes)
    → IsFrame f
    → max_frame_ascii ≤ length out
    → (format_frame f timestamp out >>= λ c. parse_tx (take c.0 c.1)) ≡ ok f
parse_tx-format_frame f timestamp out v room =
    rw
      (
        format_frame-render f timestamp out v.dlc_le v.whole room,
        take-append (render f timestamp) (drop (length (render f timestamp)) out)
            (length (render f timestamp)) refl,
        ← append-nil (render f timestamp),
      )
      (parse_tx-render f timestamp [] (IsFrame-IsParsed f v))
