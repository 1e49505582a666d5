-- ===== src/Http/Request/Login.antt =====
-- src/http.rs: the login of a browser's request.
use espcan_br.Base.{
  ℕ, ◌+◌, ◌-◌, ◌/◌, ◌%◌, ◌*◌, ◌≤◌, ◌<◌, ◌≡◌, refl, sym, ◌∙◌, ap, subst, arith, Bool, true, false,
  Bool-cases, inl, inr, ◌==◌, ◌||◌, ◌&&◌, if◌then◌else◌, Option, none, some, [], ◌∷◌, ◌++◌,
  append_assoc, Bytes, codes, eq_bytes, has, has-append, All, length, length-append, replicate,
  take, take-append, drop, split, split-append, split_once-append, split_once-lacks, strip_prefix,
  ok, ◌>>=◌, slice, slice-ok,
}
use espcan_br.Config.Auth.{AuthConfig, is_set, verify, set_auth, draw_salt}
use espcan_br.Config.Login.{verify-set_auth}
use espcan_br.Http.Base64.RoundTrip.{base64_char, base64_text, base64_decode-base64_text}
use espcan_br.Http.Request.{
  is_white, trim_white_end, strip_return, close_lines, lines, auth_line, find_auth,
  basic_auth_token, verify_creds, verify_token, authorized,
}

abbrev pub Solid : ℕ → Type 0
Solid c = is_white c ≡ false

base64_char-Solid : (v : ℕ) → v < 64 → Solid (base64_char v)
base64_char-Solid v h = ground arith

base64_text-Solid : (bs : Bytes) → All (λ b. b < 256) bs → All Solid (base64_text bs)
unfolding base64_text
base64_text-Solid [] h = tt
base64_text-Solid (a ∷ []) h = (
  base64_char-Solid (a / 4) (let ha = h.0 in omega arith),
  (base64_char-Solid (a % 4 * 16) (omega arith), (refl, (refl, tt))),
)
base64_text-Solid (a ∷ b ∷ []) h =
    let first = base64_char-Solid (a / 4) (let ha = h.0 in omega arith) in
    let second = base64_char-Solid (a % 4 * 16 + b / 16) (let hb = h.1.0 in omega arith) in
    let third = base64_char-Solid (b % 16 * 4) (omega arith) in
    (first, (second, (third, (refl, tt))))
base64_text-Solid (a ∷ b ∷ c ∷ cs) h =
    let first = base64_char-Solid (a / 4) (let ha = h.0 in omega arith) in
    let second = base64_char-Solid (a % 4 * 16 + b / 16) (let hb = h.1.0 in omega arith) in
    let third = base64_char-Solid (b % 16 * 4 + c / 64) (let hc = h.1.1.0 in omega arith) in
    let fourth = base64_char-Solid (c % 64) (omega arith) in
    (first, (second, (third, (fourth, base64_text-Solid cs h.1.1.1))))

no_line_feed : (xs : Bytes) → All Solid xs → has b'\n' xs ≡ false
no_line_feed [] h = refl
no_line_feed (x ∷ xs) h =
    let rest = no_line_feed xs h.1 in
    let first : (x == b'\n') ≡ false = (let s = h.0 in ground arith) in rw (first, rest) refl

pub trim_white_end-Solid : (xs : Bytes) → All Solid xs → trim_white_end xs ≡ xs
trim_white_end-Solid [] h = refl
trim_white_end-Solid (x ∷ []) h = rw h.0 refl
trim_white_end-Solid (x ∷ y ∷ ys) h = rw (trim_white_end-Solid (y ∷ ys) h.1) refl

strip_return-append : (xs : Bytes) → strip_return (xs ++ b'\r' ∷ []) ≡ xs
strip_return-append [] = refl
strip_return-append (x ∷ []) = refl
strip_return-append (x ∷ y ∷ ys) = ap (λ zs. x ∷ zs) (strip_return-append (y ∷ ys))

-- A line, and what follows it.
lines-line :
    (a rest : Bytes) → has b'\n' a ≡ false → lines (a ++ b'\r' ∷ b'\n' ∷ rest) ≡ a ∷ lines rest
unfolding split
lines-line a rest h =
    let free : has b'\n' (a ++ b'\r' ∷ []) ≡ false = rw (has-append b'\n' a (b'\r' ∷ []), h) refl in
    ap lines (sym (append_assoc a (b'\r' ∷ []) (b'\n' ∷ rest)))
    ∙ ap close_lines (split-append b'\n' (a ++ b'\r' ∷ []) rest free)
    ∙ ap (λ l. l ∷ lines rest) (strip_return-append a)

-- `Authorization: Basic ..`
abbrev header : Bytes → Bytes
header blob = codes "Authorization: Basic " ++ blob

trim_white_end-ahead :
    (before : Bytes) (c : ℕ) (cs : Bytes)
    → trim_white_end (c ∷ cs) ≡ c ∷ cs
    → trim_white_end (before ++ c ∷ cs) ≡ before ++ c ∷ cs
trim_white_end-ahead [] c cs e = e
trim_white_end-ahead (x ∷ []) c cs e = rw (trim_white_end, e) refl
trim_white_end-ahead (x ∷ y ∷ ys) c cs e =
    rw (trim_white_end, trim_white_end-ahead (y ∷ ys) c cs e) refl

-- The value of the header, when it has been trimmed.
scheme_of : Bytes → Option Bytes
scheme_of v = elim (strip_prefix (codes "Basic ") v) [
  | some blob ↦ some blob
  | none ↦ strip_prefix (codes "basic ") v
]

auth_line-header :
    (c : ℕ) (cs : Bytes) → All Solid (c ∷ cs) → auth_line (header (c ∷ cs)) ≡ some (c ∷ cs)
unfolding auth_line scheme_of
auth_line-header c cs h =
    ap scheme_of (trim_white_end-ahead (codes "Basic ") c cs (trim_white_end-Solid (c ∷ cs) h))

-- A browser's request: a first line, the login, and the rest.
abbrev pub login_request : Bytes → Bytes → Bytes → Bytes → Bytes
login_request first user pass rest =
    first ++ b'\r' ∷ b'\n' ∷ (header (base64_text (user ++ b':' ∷ pass)) ++ b'\r' ∷ b'\n' ∷ rest)

base64_text-cons : (a : ℕ) (bs : Bytes) → (c : ℕ) × (cs : Bytes) × (base64_text (a ∷ bs) ≡ c ∷ cs)
unfolding base64_text
base64_text-cons a [] = (_, _, refl)
base64_text-cons a (b ∷ []) = (_, _, refl)
base64_text-cons a (b ∷ c ∷ cs) = (_, _, refl)

nonempty_lem : (user pass : Bytes) → (a : ℕ) × (bs : Bytes) × (user ++ b':' ∷ pass ≡ a ∷ bs)
nonempty_lem [] pass = (b':', pass, refl)
nonempty_lem (x ∷ xs) pass = (x, xs ++ b':' ∷ pass, refl)

auth_line-login :
    (user pass : Bytes)
    → All (λ b. b < 256) (user ++ b':' ∷ pass)
    → auth_line (header (base64_text (user ++ b':' ∷ pass)))
      ≡ some (base64_text (user ++ b':' ∷ pass))
auth_line-login user pass h =
    let (a, bs, e) = nonempty_lem user pass in
    let (c, cs, f) = base64_text-cons a bs in
    let whole : base64_text (user ++ b':' ∷ pass) ≡ c ∷ cs = ap base64_text e ∙ f in
    let solid : All Solid (c ∷ cs) =
      subst (All Solid) whole (base64_text-Solid (user ++ b':' ∷ pass) h) in
    ap (λ t. auth_line (header t)) whole ∙ auth_line-header c cs solid ∙ ap some (sym whole)

-- The first line is not empty, and no header: it has no colon and no line feed.
pub record IsFirst (first : Bytes) : Type 0 where
  pub starts : 0 < length first
  pub no_colon : has b':' first ≡ false
  pub one_line : has b'\n' first ≡ false

no_login : (line : Bytes) → has b':' line ≡ false → auth_line line ≡ none
unfolding auth_line
no_login line h = rw (auth_line, split_once-lacks b':' line h) refl

not_empty : (n : ℕ) → 0 < n → (n == 0) ≡ false
not_empty n h = ground arith

basic_auth_token-login_request :
    (first user pass rest : Bytes)
    → IsFirst first
    → All (λ b. b < 256) (user ++ b':' ∷ pass)
    → basic_auth_token (login_request first user pass rest)
      ≡ some (base64_text (user ++ b':' ∷ pass))
unfolding basic_auth_token find_auth
basic_auth_token-login_request first user pass rest k h =
    let blob = base64_text (user ++ b':' ∷ pass) in
    let one_line : has b'\n' (header blob) ≡ false = no_line_feed blob (base64_text-Solid _ h) in
    let read : lines (login_request first user pass rest) ≡ first ∷ header blob ∷ lines rest =
      lines-line first _ k.one_line
      ∙ ap (λ ls. first ∷ ls) (lines-line (header blob) rest one_line) in
    let some_first : (length first == 0) ≡ false = not_empty (length first) k.starts in
    let some_header : (length (header blob) == 0) ≡ false =
      not_empty (length (header blob)) (omega arith) in
    let not_auth : auth_line first ≡ none = no_login first k.no_colon in
    ap find_auth read
    ∙ rw (find_auth, some_first, not_auth, some_header, auth_line-login user pass h) refl

module _ (is_utf8 : Bytes → Bool) (sha256 : Bytes → Bytes) where
  verify_token-base64_text :
      (cfg : AuthConfig) (user pass : Bytes)
      → has b':' user ≡ false
      → All (λ b. b < 256) (user ++ b':' ∷ pass)
      → length (user ++ b':' ∷ pass) ≤ 128
      → is_utf8 (user ++ b':' ∷ pass) ≡ true
      → verify_token is_utf8 sha256 cfg (base64_text (user ++ b':' ∷ pass))
        ≡ verify sha256 user pass cfg
  unfolding verify_token verify_creds
  verify_token-base64_text cfg user pass free h room text =
      let creds = user ++ b':' ∷ pass in
      let decoded = creds ++ drop (length creds) (replicate 128 0) in
      let read = base64_decode-base64_text creds (replicate 128 0) h room in
      let cut : slice decoded 0 (length creds) ≡ ok creds =
        slice-ok decoded 0 (length creds) (omega arith)
          (omega (arith, length-append creds (drop (length creds) (replicate 128 0))))
        ∙ ap ok (
            take-append creds (drop (length creds) (replicate 128 0)) (length creds - 0)
              (omega arith)) in
      rw (verify_token, read, cut, verify_creds, text, split_once-append b':' user pass free) refl

  verify_open :
      (cfg : AuthConfig) (user pass : Bytes)
      → is_set cfg ≡ false
      → verify sha256 user pass cfg ≡ ok true
  unfolding verify
  verify_open cfg user pass h = rw h refl

  pub authorized-login_request :
      (cfg : AuthConfig) (first user pass rest : Bytes)
      → IsFirst first
      → has b':' user ≡ false
      → All (λ b. b < 256) (user ++ b':' ∷ pass)
      → length (user ++ b':' ∷ pass) ≤ 128
      → is_utf8 (user ++ b':' ∷ pass) ≡ true
      → authorized is_utf8 sha256 false cfg (login_request first user pass rest)
        ≡ verify sha256 user pass cfg
  unfolding authorized
  authorized-login_request cfg first user pass rest k free h room text =
      elim (Bool-cases (is_set cfg)) [
        | inr open_access ↦ rw open_access (sym (verify_open cfg user pass open_access))
        | inl set ↦
            rw (set, basic_auth_token-login_request first user pass rest k h)
              (verify_token-base64_text cfg user pass free h room text)
      ]

  module _ (digest : (bs : Bytes) → length (sha256 bs) ≡ 32) where
    -- After a login is set, by a user and a password, and with the button up: a request with a login in
    -- its `Authorization` header is let in if the user or the password was empty, and otherwise exactly
    -- if its user is the new one, up to the 32nd byte, and its password has the salted hash of the new
    -- one. The header stands behind a first line with some character and without a colon, and is the
    -- base64 text of the user, a colon and the password, which are at most 128 bytes of UTF-8 together,
    -- with no colon in the user. The digest has 32 bytes, and so has the field of the user.
    pub authorized-set_auth :
        (random : ℕ → ℕ) (user password : Bytes) (c : AuthConfig) (first u p rest : Bytes)
        → length c.user ≡ 32
        → IsFirst first
        → has b':' u ≡ false
        → All (λ b. b < 256) (u ++ b':' ∷ p)
        → length (u ++ b':' ∷ p) ≤ 128
        → is_utf8 (u ++ b':' ∷ p) ≡ true
        → (set_auth sha256 random user password c >>= λ cfg.
            authorized is_utf8 sha256 false cfg (login_request first u p rest))
          ≡ ok (
              if length user == 0 || length password == 0
              then true
              else eq_bytes u (take 32 user)
                && eq_bytes
                    (sha256 (draw_salt random ++ p))
                    (sha256 (draw_salt random ++ password)))
    authorized-set_auth random user password c first u p rest whole k free h room text =
        (λ j. set_auth sha256 random user password c >>= λ cfg.
        authorized-login_request cfg first u p rest k free h room text j)
        ∙ verify-set_auth sha256 digest random user password c whole u p
