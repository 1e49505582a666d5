-- ===== src/Http/Form/Pairs.antt =====
-- src/http.rs: `find_form_value` and the fields of a form, on the forms that browsers send.
use espcan_br.Base.{
  ℕ, zero, suc, ◌/◌, ◌<◌, ◌≡◌, refl, ◌∙◌, ap, arith, min, Bool, true, false, Bool-cases, inl, inr,
  ◌==◌, Option, none, some, List, [], ◌∷◌, ◌++◌, Bytes, eq_bytes, has, has-append, split,
  split-append, split-lacks, split_once-append, length, length-take, slice-append, take, drop,
  replicate, length-replicate, All, ok, ◌>>=◌, slice,
}
use espcan_br.Slcan.{hex_digit}
use espcan_br.Http.{url_decode_into}
use espcan_br.Http.Form.{url_encode, url_decode_into-url_encode}
use espcan_br.Http.Request.{find_form_value, find_pair}
use espcan_br.Http.Save.{field}

-- A field by its name and its value.
abbrev pub Entry : Type 0
Entry = Bytes × Bytes

-- A name has no separator.
abbrev pub IsKey : Bytes → Type 0
IsKey k = (has b'=' k ≡ false) × (has b'&' k ≡ false)

-- The value of the first field of a name.
abbrev pub lookup : List Entry → Bytes → Option Bytes
lookup [] key = none
lookup ((k, v) ∷ more) key = elim (eq_bytes k key) [ true ↦ some v | false ↦ lookup more key ]

-- What a field comes to: nothing if there is none.
abbrev pub value_or : Option Bytes → Bytes
value_or none = []
value_or (some v) = v

-- The characters `keep` are sent as they are.
module _ (keep : ℕ → Bool) where
  abbrev pub pair_text : Entry → Bytes
  pair_text (k, v) = k ++ b'=' ∷ url_encode keep v

  abbrev pub form_text : List Entry → Bytes
  form_text [] = []
  form_text (e ∷ []) = pair_text e
  form_text (e ∷ f ∷ es) = pair_text e ++ b'&' ∷ form_text (f ∷ es)

  abbrev pub encoded : Option Bytes → Option Bytes
  encoded none = none
  encoded (some v) = some (url_encode keep v)

  module _ (apart : (b : ℕ) → keep b ≡ true → (b == b'&') ≡ false) where
    no_digit : (v : ℕ) → (hex_digit v == b'&') ≡ false
    unfolding hex_digit
    no_digit v = ground arith

    url_encode-lacks : (v : Bytes) → has b'&' (url_encode keep v) ≡ false
    url_encode-lacks [] = refl
    url_encode-lacks (b ∷ bs) = elim (Bool-cases (keep b)) [
      | inl as_is ↦ rw as_is (rw (apart b as_is, url_encode-lacks bs) refl)
      | inr changed ↦ elim (Bool-cases (b == b' ')) [
        | inl space ↦ rw (changed, space) (rw (url_encode-lacks bs) refl)
        | inr coded ↦
            rw (changed, coded) (rw (no_digit (b / 16), no_digit b, url_encode-lacks bs) refl)
      ]
    ]

    pair_text-lacks : (e : Entry) → IsKey e.0 → has b'&' (pair_text e) ≡ false
    pair_text-lacks (k, v) h =
        has-append b'&' k (b'=' ∷ url_encode keep v) ∙ (rw (h.1, url_encode-lacks v) refl)

    find_pair-pair_text :
        (e : Entry) (more : List Bytes) (key : Bytes)
        → IsKey e.0
        → find_pair (pair_text e ∷ more) key ≡ elim (eq_bytes e.0 key) [
          | true ↦ some (url_encode keep e.1)
          | false ↦ find_pair more key
        ]
    unfolding find_pair
    find_pair-pair_text (k, v) more key h =
        rw (split_once-append b'=' k (url_encode keep v) h.0, find_pair) refl

    found :
        (b : Bool) (v : Bytes) (rest : Option Bytes)
        → elim b [ true ↦ some (url_encode keep v) | false ↦ encoded rest ]
          ≡ encoded (elim b [ true ↦ some v | false ↦ rest ])
    found true v rest = refl
    found false v rest = refl

    find_pair-form_text :
        (es : List Entry) (key : Bytes)
        → All (λ e. IsKey e.0) es
        → find_pair (split b'&' (form_text es)) key ≡ encoded (lookup es key)
    unfolding find_pair split
    find_pair-form_text [] key h = refl
    find_pair-form_text (e ∷ []) key h =
        ap (λ parts. find_pair parts key) (split-lacks b'&' (pair_text e) (pair_text-lacks e h.0))
        ∙ find_pair-pair_text e [] key h.0
        ∙ found (eq_bytes e.0 key) e.1 none
    find_pair-form_text (e ∷ f ∷ es) key h =
        ap (λ parts. find_pair parts key)
          (split-append b'&' (pair_text e) (form_text (f ∷ es)) (pair_text-lacks e h.0))
        ∙ find_pair-pair_text e (split b'&' (form_text (f ∷ es))) key h.0
        ∙ ap (λ rest. elim (eq_bytes e.0 key) [ true ↦ some (url_encode keep e.1) | false ↦ rest ])
            (find_pair-form_text (f ∷ es) key h.1)
        ∙ found (eq_bytes e.0 key) e.1 (lookup (f ∷ es) key)

    module _ (kept : (b : ℕ) → keep b ≡ true → ((b == b'%') ≡ false) × ((b == b'+') ≡ false)) where
      decoded :
          (v : Bytes) (room : ℕ)
          → All (λ b. b < 256) v
          → (url_decode_into (url_encode keep v) (replicate room 0) >>= λ r. slice r.1 0 r.0)
            ≡ ok (take room v)
      decoded v room h =
          let e : url_decode_into (url_encode keep v) (replicate room 0)
              ≡ ok (min (length v) room, take room v ++ drop (length v) (replicate room 0)) =
            url_decode_into-url_encode keep kept v (replicate room 0) h
            ∙ ap (λ n. ok (min (length v) n, take n v ++ drop (length v) (replicate room 0)))
                (length-replicate {A = ℕ} room 0) in
          ap (λ m. m >>= λ r. slice r.1 0 r.0) e
          ∙ slice-append (take room v ++ drop (length v) (replicate room 0)) [] (take room v)
              (drop (length v) (replicate room 0)) 0 (min (length v) room) refl refl
              (omega (arith, length-take room v))

      take_none : (room : ℕ) → [] ≡ take {A = ℕ} room []
      take_none zero = refl
      take_none (suc n) = refl

      read_encoded :
          (o : Option Bytes) (room : ℕ)
          → All (λ b. b < 256) (value_or o)
          → elim (encoded o) [
            | none ↦ ok []
            | some v ↦ (do (n, buf) ← url_decode_into v (replicate room 0); slice buf 0 n)
          ]
            ≡ ok (take room (value_or o))
      read_encoded none room h = ap ok (take_none room)
      read_encoded (some v) room h = decoded v room h

      keys :
          (es : List Entry)
          → All (λ e. IsKey e.0 × All (λ b. b < 256) e.1) es
          → All (λ e. IsKey e.0) es
      keys [] h = tt
      keys (e ∷ es) h = (h.0.0, keys es h.1)

      lookup-bytes :
          (es : List Entry) (key : Bytes)
          → All (λ e. IsKey e.0 × All (λ b. b < 256) e.1) es
          → All (λ b. b < 256) (value_or (lookup es key))
      lookup-bytes [] key h = tt
      lookup-bytes ((k, v) ∷ es) key h = elim (Bool-cases (eq_bytes k key)) [
        | inl same ↦ rw (same, lookup) h.0.1
        | inr differs ↦ rw (differs, lookup) (lookup-bytes es key h.1)
      ]

      -- A form as browsers send it, with fields whose names have neither `=` nor `&`, in the encoding of forms with
      -- characters kept that are none of `%`, `+` and `&`: a field is read by its name as the first value that was
      -- sent under it, cut off at the end of the buffer; it is empty if there is none.
      pub field-form_text :
          (es : List Entry) (key : Bytes) (room : ℕ)
          → All (λ e. IsKey e.0 × All (λ b. b < 256) e.1) es
          → field (form_text es) key room ≡ ok (take room (value_or (lookup es key)))
      unfolding field find_form_value
      field-form_text es key room h =
          ap
            (λ o. elim o [
              | none ↦ ok []
              | some v ↦ (do (n, buf) ← url_decode_into v (replicate room 0); slice buf 0 n)
            ])
            (find_pair-form_text es key (keys es h))
          ∙ read_encoded (lookup es key) room (lookup-bytes es key h)
