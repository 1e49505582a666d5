-- ===== src/Dial/Url/Safety.antt =====
-- src/autoconnect.rs: no URL and no key makes the parsers panic.
use espcan_br.Base.{
  ℕ, zero, suc, ◌+◌, ◌*◌, ◌^◌, ◌≤◌, ◌≡◌, refl, ◌∙◌, arith, bit_or, u8, Bool, true, false, not,
  Bool-cases, inl, inr, ◌==◌, ==_iff, Option, none, some, Bytes, codes, length, replicate,
  length-set, eq_bytes, split_once_at, rsplit_once, parse_unsigned, trim_end, index, write_at, set,
  Outcome, ok, ◌>>=◌, ◌>>◌, try, refuse_if, Yields, Yields-bind, Yields-index, Yields-write_at,
}
use espcan_br.Dial.Url.{scheme_tls, cut_query, parse_url, hexval, key_from, parse_pubkey}

abbrev Returning {ℓ} : {A : Type ℓ} → Outcome A → Type 0
Returning m = Yields (λ _. Unit) m

try-Returning {ℓ} : {A : Type ℓ} (o : Option A) → Returning (try o)
try-Returning none = tt
try-Returning (some a) = tt

scheme_tls-Returning : (scheme : Bytes) → Returning (scheme_tls scheme)
unfolding scheme_tls
scheme_tls-Returning scheme = elim (Bool-cases (eq_bytes scheme (codes "tls"))) [
  | inl tls ↦ rw tls tt
  | inr other ↦ elim (Bool-cases (eq_bytes scheme (codes "tcp"))) [
    | inl tcp ↦ rw (other, tcp) tt
    | inr neither ↦ rw (other, neither) tt
  ]
]

refuse_if_then-Yields {ℓ} :
    {A : Type ℓ} (P : A → Type 0) (b : Bool) (m : Outcome A)
    → Yields P m
    → Yields P (refuse_if b >> m)
refuse_if_then-Yields P true m h = tt
refuse_if_then-Yields P false m h = h

bind-Returning {ℓ κ} :
    {A : Type ℓ} {B : Type κ} (m : Outcome A) (f : A → Outcome B)
    → Returning m
    → ((a : A) → Returning (f a))
    → Returning (m >>= f)
bind-Returning m f h k = Yields-bind (λ _. Unit) (λ _. Unit) m f h (λ a _. k a)

pub parse_url-Returning : (url : Bytes) → Yields (λ _. Unit) (parse_url url)
unfolding parse_url
parse_url-Returning url =
    bind-Returning (try (split_once_at (codes "://") url)) _ (try-Returning _) λ p.
      bind-Returning (scheme_tls p.0) _ (scheme_tls-Returning p.0) λ tls.
        bind-Returning (try (rsplit_once b':' (trim_end b'/' (cut_query p.1).0))) _
          (try-Returning _)
          λ q.
            bind-Returning (try (parse_unsigned 65_535 q.1)) _ (try-Returning _)
              λ port. refuse_if_then-Yields (λ _. Unit) (length q.0 == 0) (ok _) tt

key_from-Yields :
    (n i : ℕ) (b out : Bytes)
    → length b ≡ 130
    → length out ≡ 65
    → n + i ≤ 65
    → Yields (λ key. length key ≡ 65) (key_from n i b out)
unfolding key_from
key_from-Yields zero i b out lb lo h = lo
key_from-Yields (suc n) i b out lb lo h =
    Yields-bind _ _ (index b (2 * i)) _ (Yields-index b (2 * i) (omega arith)) λ c _.
      Yields-bind (λ _. Unit) _ (try (hexval c)) _ (try-Returning (hexval c))
        λ hi _.
          Yields-bind _ _ (index b (2 * i + 1)) _ (Yields-index b (2 * i + 1) (omega arith)) λ c' _.
            Yields-bind (λ _. Unit) _ (try (hexval c')) _ (try-Returning (hexval c'))
              λ d _.
                let v = bit_or (u8 (hi * 2 ^ 4)) d in
                Yields-bind (λ ys. ys ≡ set out i v) _ (write_at out i v) _
                  (Yields-write_at out i v (omega arith))
                  λ out' e. rw e (
                    key_from-Yields n (i + 1) b (set out i v) lb (length-set out i v ∙ lo)
                      (omega arith))

pub parse_pubkey-Yields : (hex : Bytes) → Yields (λ key. length key ≡ 65) (parse_pubkey hex)
unfolding parse_pubkey
parse_pubkey-Yields hex = elim (Bool-cases (length hex == 130)) [
  | inr other ↦ rw other tt
  | inl size ↦ rw size (
      Yields-bind (λ key. length key ≡ 65) (λ key. length key ≡ 65)
        (key_from 65 0 hex (replicate 65 0)) _
        (key_from-Yields 65 0 hex (replicate 65 0) ((==_iff _ _).0 size) refl (omega arith))
        λ out whole.
          Yields-bind _ (λ key. length key ≡ 65) (index out 0) _ (Yields-index out 0 (omega arith))
            λ c _. refuse_if_then-Yields (λ key. length key ≡ 65) (not (c == 0x04)) (ok out) whole)
]
