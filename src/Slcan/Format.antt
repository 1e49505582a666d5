-- ===== src/Slcan/Format.antt =====
-- src/slcan.rs: `format_frame` writes the line of its frame at the start of `out`, and no more.
use espcan_br.Base.{
  ℕ, zero, suc, ◌+◌, ◌≤◌, ◌<◌, ◌≡◌, refl, sym, ◌∙◌, ap, ap₂, fun_ext, Bool, true, false, Option,
  none, some, List, [], ◌∷◌, ◌++◌, Bytes, length, take, drop, index, write_at-append, append_assoc,
  length-append, length-take, Outcome, ok, absent, panic, ◌>>=◌, arith, inl, inr, Bool-cases,
}
use espcan_br.Slcan.{
  CanFrame, hex_digit, id_shifts, stamp_shifts, cr, max_frame_ascii, Cursor, put, put_hex, put_data,
  put_payload, put_stamp, format_frame,
}
use espcan_br.Slcan.Hex.{digits}
use espcan_br.Slcan.Frame.{used, data_digits, stamp_digits, render}

put_all : Bytes → Cursor → Outcome Cursor
put_all [] c = ok c
put_all (b ∷ bs) c = put b c >>= put_all bs

>>=-assoc {ℓ} :
    {A : Type ℓ} (m : Outcome A) {B : Type ℓ} (f : A → Outcome B) {C : Type ℓ} (g : B → Outcome C)
    → ((m >>= f) >>= g) ≡ (m >>= λ a. f a >>= g)
>>=-assoc (ok a) f g = refl
>>=-assoc absent f g = refl
>>=-assoc panic f g = refl

put_all-append : (xs ys : Bytes) (c : Cursor) → put_all (xs ++ ys) c ≡ (put_all xs c >>= put_all ys)
unfolding put_all
put_all-append [] ys c = refl
put_all-append (x ∷ xs) ys c = simp (put_all-append xs ys, >>=-assoc)

put_hex-digits :
    (v : ℕ) (shifts : List ℕ) (c : Cursor) → put_hex v shifts c ≡ put_all (digits v shifts) c
unfolding put_all put_hex
put_hex-digits v [] c = refl
put_hex-digits v (s ∷ shifts) c = simp (put_hex-digits v shifts)

drop-lt :
    (xs : Bytes) (k : ℕ)
    → k < length xs
    → (b : ℕ) × (drop k xs ≡ b ∷ drop (suc k) xs) × (index xs k ≡ ok b)
drop-lt [] k h = elim h [ ]
drop-lt (x ∷ xs) zero h = (x, refl, refl)
drop-lt (x ∷ xs) (suc k) h = drop-lt xs k (omega arith)

put_data-digits :
    (n k : ℕ) (payload : Bytes) (c : Cursor)
    → k + n ≤ length payload
    → put_data n k payload c ≡ put_all (data_digits (take n (drop k payload))) c
unfolding put_all put_data
put_data-digits zero k payload c h = refl
put_data-digits (suc n) k payload c h =
    let (b, dropped, read) = drop-lt payload k (omega arith) in
    let step : k + 1 ≡ suc k = omega arith in
    rw (read, dropped, step)
      (simp (λ (low : Cursor). put_data-digits n (suc k) payload low (omega arith)))

put_payload-digits :
    (f : CanFrame) (c : Cursor)
    → f.dlc ≤ length f.payload
    → put_payload f c ≡ put_all (data_digits (take (used f) f.payload)) c
unfolding put_payload put_all
put_payload-digits f c h = elim (Bool-cases f.rtr) [
  | inl remote ↦ rw remote
  | inr carries ↦ rw carries (put_data-digits f.dlc 0 f.payload c (omega arith))
]

put_stamp-digits :
    (timestamp : Option ℕ) (c : Cursor) → put_stamp timestamp c ≡ put_all (stamp_digits timestamp) c
unfolding put_stamp put_all
put_stamp-digits none c = refl
put_stamp-digits (some ts) c = put_hex-digits ts stamp_shifts c

put_all-cons : (b : ℕ) (bs : Bytes) → put_all (b ∷ bs) ≡ λ c. put b c >>= put_all bs
unfolding put_all
put_all-cons b bs = refl

put_all-join : (xs ys : Bytes) → put_all (xs ++ ys) ≡ λ c. put_all xs c >>= put_all ys
put_all-join xs ys = fun_ext (put_all-append xs ys)

>>=-put_all_nil : (m : Outcome Cursor) → (m >>= put_all []) ≡ m
unfolding put_all
>>=-put_all_nil (ok c) = refl
>>=-put_all_nil absent = refl
>>=-put_all_nil panic = refl

-- The writes of `format_frame`, in one list.
format_frame-put_all :
    (f : CanFrame) (timestamp : Option ℕ) (out : Bytes)
    → f.dlc ≤ length f.payload
    → format_frame f timestamp out ≡ put_all (render f timestamp) (0, out)
unfolding format_frame put put_all
format_frame-put_all f timestamp out h = simp (
  put_hex-digits,
  λ (c : Cursor). put_payload-digits f c h,
  put_stamp-digits,
  put_all-cons,
  put_all-join,
  >>=-put_all_nil,
  >>=-assoc,
)

-- What a run of writes does to the rest of the buffer.
put_all-fits :
    (bs w free : Bytes) (n : ℕ)
    → n ≡ length w
    → length bs ≤ length free
    → put_all bs (n, w ++ free) ≡ ok (n + length bs, w ++ (bs ++ drop (length bs) free))
unfolding put_all put
put_all-fits [] w free n e h = ap (λ m. ok (m, w ++ free)) (omega arith)
put_all-fits (b ∷ bs) w [] n e h = absurd (omega arith)
put_all-fits (b ∷ bs) w (x ∷ free) n e h = rw (write_at-append w free x b n e) (
    rw (regroup free) (
      put_all-fits bs (w ++ b ∷ []) free (n + 1) longer (omega arith)
      ∙ ap₂ (λ m xs. ok (m, xs)) (omega arith)
          (append_assoc w (b ∷ []) (bs ++ drop (length bs) free))))
  where
    regroup : (rest : Bytes) → w ++ b ∷ rest ≡ (w ++ b ∷ []) ++ rest
    regroup rest = sym (append_assoc w (b ∷ []) rest)

    longer : n + 1 ≡ length (w ++ b ∷ [])
    longer = omega (arith, length-append w (b ∷ []))

pub data_digits-length : (bs : Bytes) → length (data_digits bs) ≡ length bs + length bs
data_digits-length [] = omega arith
data_digits-length (b ∷ bs) = omega (arith, data_digits-length bs)

used-le : (f : CanFrame) → f.dlc ≤ 8 → used f ≤ 8
used-le f h = ground arith

-- A line takes at most 31 bytes, the CR included.
pub length-render :
    (f : CanFrame) (timestamp : Option ℕ) → f.dlc ≤ 8 → length (render f timestamp) ≤ 31
length-render f timestamp h = omega (
  arith,
  length-append (digits f.id (id_shifts f.ext)) (hex_digit f.dlc ∷ behind),
  length-append (data_digits (take (used f) f.payload)) (stamp_digits timestamp ++ cr ∷ []),
  length-append (stamp_digits timestamp) (cr ∷ []),
  id_length f.ext,
  stamp_length timestamp,
  data_digits-length (take (used f) f.payload),
  length-take (used f) f.payload,
  used-le f h,
)
  where
    behind : Bytes
    behind = data_digits (take (used f) f.payload) ++ (stamp_digits timestamp ++ cr ∷ [])

    id_length : (ext : Bool) → length (digits f.id (id_shifts ext)) ≤ 8
    id_length true = omega arith
    id_length false = omega arith

    stamp_length : (timestamp : Option ℕ) → length (stamp_digits timestamp) ≤ 4
    stamp_length none = omega arith
    stamp_length (some ts) = omega arith

-- With a buffer of `MAX_FRAME_ASCII` bytes, `format_frame` returns: the line of the frame stands at
-- the start of the buffer, its length is returned, and the rest of the buffer is as it was.
pub format_frame-render :
    (f : CanFrame) (timestamp : Option ℕ) (out : Bytes)
    → f.dlc ≤ 8
    → length f.payload ≡ 8
    → max_frame_ascii ≤ length out
    → format_frame f timestamp out
      ≡ ok (
        length (render f timestamp),
        render f timestamp ++ drop (length (render f timestamp)) out,
      )
format_frame-render f timestamp out d p room =
    format_frame-put_all f timestamp out (omega arith)
    ∙ put_all-fits (render f timestamp) [] out 0 refl (omega (arith, length-render f timestamp d))
    ∙ ap (λ n. ok (n, render f timestamp ++ drop (length (render f timestamp)) out)) (omega arith)
