-- ===== src/Http/Escape/Html.antt =====
-- src/http.rs: an escaped text cannot leave its place in the page, and a browser reads it back.
use espcan_br.Base.{
  ℕ, zero, suc, ◌-◌, ◌≡◌, ◌≢◌, refl, ◌∙◌, ap, arith, false, Bool-cases, ◌==◌, ==_iff, inl, inr,
  Option, none, some, [], ◌∷◌, ◌++◌, Bytes, codes, strip_prefix, All, All-append, length,
}
use espcan_br.Http.Escape.{html_char, html_escape}

-- A byte that does not open or close a tag or an attribute's value.
pub record IsInert (c : ℕ) : Type 0 where
  pub no_open : c ≢ b'<'
  pub no_close : c ≢ b'>'
  pub no_quote : c ≢ b'"'
  pub no_apostrophe : c ≢ b'\''

-- What a browser reads: the character of the reference in front, if one is there, and how many more
-- bytes that takes.
abbrev reference : Bytes → Bytes → ℕ → Option (ℕ × ℕ) → Option (ℕ × ℕ)
reference name text c others = elim (strip_prefix name text) [
  | some rest ↦ some (c, length name - 1)
  | none ↦ others
]

unfoldable pub entity : Bytes → Option (ℕ × ℕ)
entity text = reference (codes "&amp;") text b'&' (
    reference (codes "&lt;") text b'<' (
      reference (codes "&gt;") text b'>'
        (reference (codes "&quot;") text b'"' (reference (codes "&#39;") text b'\'' none))))

-- The text that a browser shows, behind `n` bytes to skip.
unfoldable pub shown_text : ℕ → Bytes → Bytes
shown_text n [] = []
shown_text (suc n) (c ∷ cs) = shown_text n cs
shown_text zero (c ∷ cs) = elim (entity (c ∷ cs)) [
  | some (char, more) ↦ char ∷ shown_text more cs
  | none ↦ c ∷ shown_text zero cs
]

-- A character is one of the five, or it is left as it is.
data Kind (c : ℕ) : Type 0 where
  amp : c ≡ b'&' → Kind c
  less : c ≡ b'<' → Kind c
  greater : c ≡ b'>' → Kind c
  quote : c ≡ b'"' → Kind c
  apostrophe : c ≡ b'\'' → Kind c
  other : (c == b'&') ≡ false → IsInert c → html_char c ≡ c ∷ [] → Kind c

differs : (c d : ℕ) → (c == d) ≡ false → c ≢ d
differs c d h e = (let t = (==_iff c d).1 e in cc)

kind_lem : (c : ℕ) → Kind c
unfolding html_char
kind_lem c = elim (Bool-cases (c == b'&')) [
  | inl e ↦ amp ((==_iff _ _).0 e)
  | inr a ↦ elim (Bool-cases (c == b'<')) [
    | inl e ↦ less ((==_iff _ _).0 e)
    | inr l ↦ elim (Bool-cases (c == b'>')) [
      | inl e ↦ greater ((==_iff _ _).0 e)
      | inr g ↦ elim (Bool-cases (c == b'"')) [
        | inl e ↦ quote ((==_iff _ _).0 e)
        | inr q ↦ elim (Bool-cases (c == b'\'')) [
          | inl e ↦ apostrophe ((==_iff _ _).0 e)
          | inr p ↦
              other a
                (record {
                  no_open = differs c b'<' l;
                  no_close = differs c b'>' g;
                  no_quote = differs c b'"' q;
                  no_apostrophe = differs c b'\'' p;
                })
                (rw (a, l, g, q, p) refl)
        ]
      ]
    ]
  ]
]

html_char-IsInert : (c : ℕ) → All IsInert (html_char c)
unfolding html_char
html_char-IsInert c = elim (kind_lem c) [
  | amp e ↦ rw e (omega arith)
  | less e ↦ rw e (omega arith)
  | greater e ↦ rw e (omega arith)
  | quote e ↦ rw e (omega arith)
  | apostrophe e ↦ rw e (omega arith)
  | other a h e ↦ rw e (h, tt)
]

no_reference :
    (name : Bytes) (c : ℕ) (rest : Bytes) (d : ℕ) (others : Option (ℕ × ℕ))
    → (c == b'&') ≡ false
    → reference (b'&' ∷ name) (c ∷ rest) d others ≡ others
no_reference name c rest d others h = rw (reference, strip_prefix, h) refl

no_entity : (c : ℕ) (rest : Bytes) → (c == b'&') ≡ false → entity (c ∷ rest) ≡ none
unfolding entity
no_entity c rest h =
    no_reference (codes "amp;") c rest b'&' _ h
    ∙ no_reference (codes "lt;") c rest b'<' _ h
    ∙ no_reference (codes "gt;") c rest b'>' _ h
    ∙ no_reference (codes "quot;") c rest b'"' _ h
    ∙ no_reference (codes "#39;") c rest b'\'' _ h

shown_char : (c : ℕ) (rest : Bytes) → shown_text 0 (html_char c ++ rest) ≡ c ∷ shown_text 0 rest
unfolding html_char entity shown_text
shown_char c rest = elim (kind_lem c) [
  | amp e ↦ rw e refl
  | less e ↦ rw e refl
  | greater e ↦ rw e refl
  | quote e ↦ rw e refl
  | apostrophe e ↦ rw e refl
  | other a h e ↦ rw e (rw (no_entity c rest a, shown_text) refl)
]

html_escape-shown_text : (text : Bytes) → shown_text 0 (html_escape text) ≡ text
unfolding html_escape shown_text
html_escape-shown_text [] = refl
html_escape-shown_text (c ∷ cs) =
    shown_char c (html_escape cs) ∙ ap (λ rest. c ∷ rest) (html_escape-shown_text cs)

html_escape-IsInert : (text : Bytes) → All IsInert (html_escape text)
unfolding html_escape
html_escape-IsInert [] = tt
html_escape-IsInert (c ∷ cs) =
    All-append IsInert (html_char c) (html_escape cs) (html_char-IsInert c) (html_escape-IsInert cs)

-- Whatever the text, its escaped form has no byte that opens or closes a tag or ends an attribute's
-- value, in either kind of quotes, and what a browser reads in it is the text.
pub html_escape-shown :
    (text : Bytes) → All IsInert (html_escape text) × (shown_text 0 (html_escape text) ≡ text)
html_escape-shown text = (html_escape-IsInert text, html_escape-shown_text text)
