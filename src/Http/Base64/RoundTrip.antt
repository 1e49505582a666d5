-- ===== src/Http/Base64/RoundTrip.antt =====
-- src/http.rs: `base64_decode` reads back what RFC 4648 makes of any bytes.
use espcan_br.Base.{
  ℕ, suc, ◌+◌, ◌-◌, ◌*◌, ◌/◌, ◌%◌, ◌^◌, ◌≤◌, ◌<◌, ◌≡◌, refl, sym, ◌∙◌, ap, arith, u8, u32, bit_or,
  bit_or-shift, true, false, ◌==◌, ltb, leb, if◌then◌else◌, some, [], ◌∷◌, ◌++◌, append_assoc,
  append-nil, Bytes, All, length, length-append, drop, ok, ◌>>=◌, write_at-append,
}
use espcan_br.Http.{base64_value, Decoder, base64_step, base64_from, base64_decode}

-- The character of a value below 64.
abbrev pub base64_char : ℕ → ℕ
base64_char v =
    if ltb v 26
    then b'A' + v
    else if ltb v 52
    then b'a' + (v - 26)
    else if ltb v 62
    then b'0' + (v - 52)
    else if v == 62
    then b'+'
    else b'/'

-- Four characters for three bytes, with padding.
unfoldable pub base64_text : Bytes → Bytes
base64_text [] = []
base64_text (a ∷ []) = base64_char (a / 4) ∷ base64_char (a % 4 * 16) ∷ b'=' ∷ b'=' ∷ []
base64_text (a ∷ b ∷ []) =
    base64_char (a / 4) ∷ base64_char (a % 4 * 16 + b / 16) ∷ base64_char (b % 16 * 4) ∷ b'=' ∷ []
base64_text (a ∷ b ∷ c ∷ cs) =
    base64_char (a / 4)
    ∷ base64_char (a % 4 * 16 + b / 16)
    ∷ base64_char (b % 16 * 4 + c / 64)
    ∷ base64_char (c % 64)
    ∷ base64_text cs

base64_value-base64_char : (v : ℕ) → v < 64 → base64_value (base64_char v) ≡ some v
unfolding base64_value
base64_value-base64_char v h = ground arith

base64_char-padding : (v : ℕ) → v < 64 → (base64_char v == b'=') ≡ false
base64_char-padding v h = ground arith

-- The decoder behind `done`, with `bits` bits of `acc` pending.
abbrev at : ℕ → Bytes → Bytes → ℕ → Decoder
at acc done rest bits = record { acc = acc; bits = bits; di = length done; dst = done ++ rest }

abbrev next : ℕ → ℕ → ℕ
next acc v = u32 (acc * 64) + v

base64_from-char :
    (v : ℕ) (cs : Bytes) (s : Decoder)
    → v < 64
    → base64_from (base64_char v ∷ cs) s ≡ (base64_step v s >>= base64_from cs)
unfolding base64_from
base64_from-char v cs s h =
    rw (base64_from, base64_char-padding v h, base64_value-base64_char v h) refl

acc_lem : (acc v : ℕ) → v < 64 → bit_or (u32 (acc * 2 ^ 6)) v ≡ u32 (acc * 64) + v
acc_lem acc v h =
    let shifted : u32 (acc * 2 ^ 6) ≡ acc % 2 ^ 26 * 2 ^ 6 = omega arith in
    rw (shifted, bit_or-shift 6 (acc % 2 ^ 26) v h) (omega arith)

room_lem : (n m k : ℕ) → n ≡ m + suc k → leb n m ≡ false
room_lem n m k h = ground arith

-- Six more bits: none of them makes a byte, or the first of them complete one.
step_keep :
    (acc : ℕ) (done rest : Bytes) (v : ℕ)
    → v < 64
    → base64_step v (at acc done rest 0) ≡ ok (at (next acc v) done rest 6)
unfolding base64_step
step_keep acc done rest v h = rw (acc_lem acc v h) refl

step_byte :
    (acc : ℕ) (done : Bytes) (z : ℕ) (zs : Bytes) (k v : ℕ)
    → v < 64
    → base64_step v (at acc done (z ∷ zs) (k + 2))
      ≡ ok (at (next acc v) (done ++ u8 (next acc v / 2 ^ k) ∷ []) zs k)
unfolding base64_step
step_byte acc done z zs k v h =
    let enough : leb 8 (k + 2 + 6) ≡ true = ground arith in
    let left : k + 2 + 6 - 8 ≡ k = omega arith in
    let more = length-append done (z ∷ zs) in
    let room : leb (length (done ++ z ∷ zs)) (length done) ≡ false = room_lem _ _ _ more in
    rw
      (
        acc_lem acc v h,
        enough,
        left,
        room,
        write_at-append done zs z (u8 (next acc v / 2 ^ k)) (length done) refl,
      )
      (λ j. ok (record {
        acc = next acc v;
        bits = k;
        di = sym (length-append done (u8 (next acc v / 2 ^ k) ∷ [])) j;
        dst = sym (append_assoc done (u8 (next acc v / 2 ^ k) ∷ []) zs) j;
      }))

byte_a :
    (acc a x v : ℕ)
    → a < 256
    → x < 16
    → v ≡ a % 4 * 16 + x
    → u8 (next (next acc (a / 4)) v / 2 ^ 4) ≡ a
byte_a acc a x v ha hx e = omega arith

byte_b :
    (acc a b x v : ℕ)
    → b < 256
    → x < 4
    → v ≡ b % 16 * 4 + x
    → u8 (next (next acc (a % 4 * 16 + b / 16)) v / 2 ^ 2) ≡ b
byte_b acc a b x v hb hx e = omega arith

byte_c : (acc b c : ℕ) → c < 256 → u8 (next (next acc (b % 16 * 4 + c / 64)) (c % 64) / 2 ^ 0) ≡ c
byte_c acc b c hc = omega arith

run_char :
    (v : ℕ) (cs : Bytes) (s t : Decoder)
    → v < 64
    → base64_step v s ≡ ok t
    → base64_from (base64_char v ∷ cs) s ≡ base64_from cs t
run_char v cs s t h e = base64_from-char v cs s h ∙ ap (λ m. m >>= base64_from cs) e

step_to :
    (acc : ℕ) (done : Bytes) (z : ℕ) (zs : Bytes) (k v byte : ℕ)
    → v < 64
    → u8 (next acc v / 2 ^ k) ≡ byte
    → base64_step v (at acc done (z ∷ zs) (k + 2)) ≡ ok (at (next acc v) (done ++ byte ∷ []) zs k)
step_to acc done z zs k v byte h e =
    step_byte acc done z zs k v h ∙ ap (λ b. ok (at (next acc v) (done ++ b ∷ []) zs k)) e

-- The first two characters of a group.
run_two :
    (acc a x v : ℕ) (done : Bytes) (z : ℕ) (zs cs : Bytes)
    → a < 256
    → x < 16
    → v ≡ a % 4 * 16 + x
    → base64_from (base64_char (a / 4) ∷ base64_char v ∷ cs) (at acc done (z ∷ zs) 0)
      ≡ base64_from cs (at (next (next acc (a / 4)) v) (done ++ a ∷ []) zs 4)
run_two acc a x v done z zs cs ha hx e =
    run_char (a / 4) _ _ _ (omega arith) (step_keep acc done (z ∷ zs) (a / 4) (omega arith))
    ∙ run_char v cs _ _ (omega arith)
        (step_to (next acc (a / 4)) done z zs 4 v a (omega arith) (byte_a acc a x v ha hx e))

-- The third one.
run_third :
    (acc a b x v : ℕ) (done : Bytes) (z : ℕ) (zs cs : Bytes)
    → b < 256
    → x < 4
    → v ≡ b % 16 * 4 + x
    → base64_from (base64_char v ∷ cs) (at (next acc (a % 4 * 16 + b / 16)) done (z ∷ zs) 4)
      ≡ base64_from cs (at (next (next acc (a % 4 * 16 + b / 16)) v) (done ++ b ∷ []) zs 2)
run_third acc a b x v done z zs cs hb hx e = run_char v cs _ _ (omega arith) (
    step_to (next acc (a % 4 * 16 + b / 16)) done z zs 2 v b (omega arith)
      (byte_b acc a b x v hb hx e))

padding_ends : (cs : Bytes) (s : Decoder) → base64_from (b'=' ∷ cs) s ≡ ok s
unfolding base64_from
padding_ends cs s = refl

no_more :
    (acc : ℕ) (done rest : Bytes) → base64_from [] (at acc done rest 0) ≡ ok (at acc done rest 0)
unfolding base64_from
no_more acc done rest = refl

base64_from-base64_text :
    (bs : Bytes) (acc : ℕ) (done rest : Bytes)
    → All (λ b. b < 256) bs
    → length bs ≤ length rest
    → (acc' : ℕ) × (bits : ℕ) × (base64_from (base64_text bs) (at acc done rest 0)
        ≡ ok (at acc' (done ++ bs) (drop (length bs) rest) bits))
unfolding base64_text
base64_from-base64_text [] acc done rest h room =
    (acc, 0, no_more acc done rest ∙ λ j. ok (at acc (sym (append-nil done) j) rest 0))
base64_from-base64_text (a ∷ bs) acc done [] h room = absurd (omega arith)
base64_from-base64_text (a ∷ []) acc done (z ∷ zs) h room = (
  next (next acc (a / 4)) (a % 4 * 16),
  4,
  run_two acc a 0 (a % 4 * 16) done z zs _ h.0 (omega arith) (omega arith) ∙ padding_ends _ _,
)
base64_from-base64_text (a ∷ b ∷ bs) acc done (z ∷ []) h room = absurd (omega arith)
base64_from-base64_text (a ∷ b ∷ []) acc done (z ∷ y ∷ zs) h room = (
  next (next (next acc (a / 4)) (a % 4 * 16 + b / 16)) (b % 16 * 4),
  2,
  run_two acc a (b / 16) (a % 4 * 16 + b / 16) done z (y ∷ zs) _ h.0 (let hb = h.1.0 in omega arith)
        refl
      ∙ run_third (next acc (a / 4)) a b 0 (b % 16 * 4) (done ++ a ∷ []) y zs _ h.1.0 (omega arith)
          (omega arith)
      ∙ padding_ends _ _
      ∙ λ j. ok (
          at (next (next (next acc (a / 4)) (a % 4 * 16 + b / 16)) (b % 16 * 4))
            (append_assoc done (a ∷ []) (b ∷ []) j) zs 2),
)
base64_from-base64_text (a ∷ b ∷ c ∷ cs) acc done (z ∷ y ∷ []) h room = absurd (omega arith)
base64_from-base64_text (a ∷ b ∷ c ∷ cs) acc done (z ∷ y ∷ x ∷ zs) h room =
    let acc₁ = next acc (a / 4) in
    let acc₂ = next acc₁ (a % 4 * 16 + b / 16) in
    let acc₃ = next acc₂ (b % 16 * 4 + c / 64) in
    let acc₄ = next acc₃ (c % 64) in
    let done₃ = ((done ++ a ∷ []) ++ b ∷ []) ++ c ∷ [] in
    let (acc', bits, e) = base64_from-base64_text cs acc₄ done₃ zs h.1.1.1 (omega arith) in
    let whole : done₃ ++ cs ≡ done ++ a ∷ b ∷ c ∷ cs =
      append_assoc ((done ++ a ∷ []) ++ b ∷ []) (c ∷ []) cs
      ∙ append_assoc (done ++ a ∷ []) (b ∷ []) (c ∷ cs)
      ∙ append_assoc done (a ∷ []) (b ∷ c ∷ cs) in
    (
      acc',
      bits,
      run_two acc a (b / 16) (a % 4 * 16 + b / 16) done z (y ∷ x ∷ zs) _ h.0
            (let hb = h.1.0 in omega arith) refl
          ∙ run_third acc₁ a b (c / 64) (b % 16 * 4 + c / 64) (done ++ a ∷ []) y (x ∷ zs) _ h.1.0
              (let hc = h.1.1.0 in omega arith) refl
          ∙ run_char (c % 64) (base64_text cs) _ _ (omega arith) (
              step_to acc₃ ((done ++ a ∷ []) ++ b ∷ []) x zs 0 (c % 64) c (omega arith)
                (byte_c acc₂ b c h.1.1.0))
          ∙ e
          ∙ λ j. ok (at acc' (whole j) (drop (length cs) zs) bits),
    )

-- Any bytes that fit into the buffer are read back from their base64 text: the length is theirs, and
-- they stand at the start of the buffer.
pub base64_decode-base64_text :
    (bs dst : Bytes)
    → All (λ b. b < 256) bs
    → length bs ≤ length dst
    → base64_decode (base64_text bs) dst ≡ ok (length bs, bs ++ drop (length bs) dst)
unfolding base64_decode
base64_decode-base64_text bs dst h room =
    let (acc, bits, e) = base64_from-base64_text bs 0 [] dst h room in
    ap (λ m. m >>= λ s. ok (s.di, s.dst)) e
