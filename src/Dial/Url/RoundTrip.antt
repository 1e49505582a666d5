-- ===== src/Dial/Url/RoundTrip.antt =====
-- src/autoconnect.rs: URLs and keys are read back as they are written.
use espcan_br.Base.{
  ℕ, zero, suc, ◌+◌, ◌*◌, ◌^◌, ◌≤◌, ◌<◌, ◌≡◌, refl, sym, ◌∙◌, ap, ap₂, arith, bit_or, u8, Bool,
  true, false, ==_iff, ◌==◌, if◌then◌else◌, Option, none, some, [], ◌∷◌, ◌++◌, append-nil,
  append_assoc, Bytes, codes, has, has-append, length, replicate, drop, split-lacks, split-append,
  split_once-append, split_once-lacks, split_once_at, rsplit_once-append, trim_end, trim_end-skip,
  trim_end-keep, decimal, decimal-IsDigit, parse_unsigned-decimal, has-IsDigit, inl, inr, ok, ◌>>=◌,
  try, index, write_at,
}
use espcan_br.Slcan.{nibble, parse_data}
use espcan_br.Slcan.Frame.{data_digits}
use espcan_br.Slcan.Format.{data_digits-length}
use espcan_br.Slcan.RoundTrip.{AreBytes, parse_data-data_digits}
use espcan_br.Dial.Url.{
  ParsedUrl, scheme_tls, cut_query, Params, put_param, take_param, take_params, query_params,
  parse_url, hexval, key_from, parse_pubkey,
}

abbrev pub pubkey_param : Bytes → Bytes
pubkey_param p = codes "pubkey" ++ b'=' ∷ p

abbrev pub token_param : Bytes → Bytes
token_param t = codes "token" ++ b'=' ∷ t

abbrev pub query_text : Option Bytes → Option Bytes → Bytes
query_text none none = []
query_text (some p) none = b'?' ∷ pubkey_param p
query_text none (some t) = b'?' ∷ token_param t
query_text (some p) (some t) = b'?' ∷ (pubkey_param p ++ b'&' ∷ token_param t)

abbrev pub scheme_text : Bool → Bytes
scheme_text tls = if tls then codes "tls" else codes "tcp"

-- `tls://host:port/?pubkey=..&token=..`
abbrev pub url_text : ParsedUrl → Bytes
url_text u =
    scheme_text u.tls
    ++ (codes "://" ++ (u.host ++ b':' ∷ (decimal u.port ++ b'/' ∷ query_text u.pubkey u.token)))

-- A value that does not end its part of the URL.
abbrev pub Free : ℕ → Option Bytes → Type 0
Free c none = Unit
Free c (some v) = has c v ≡ false

pub record IsUrl (u : ParsedUrl) : Type 0 where
  pub host_some : 0 < length u.host
  pub host_free : has b'?' u.host ≡ false
  pub port_le : u.port ≤ 65_535
  pub pubkey_free : Free b'&' u.pubkey
  pub token_free : Free b'&' u.token

take_param-pubkey : (p : Bytes) (old : Params) → take_param (pubkey_param p) old ≡ (some p, old.1)
unfolding take_param put_param
take_param-pubkey p (a, b) = refl

take_param-token : (t : Bytes) (old : Params) → take_param (token_param t) old ≡ (old.0, some t)
unfolding take_param put_param
take_param-token t (a, b) = refl

query_params-query_text :
    (pubkey token : Option Bytes) (before : Bytes)
    → Free b'&' pubkey
    → Free b'&' token
    → has b'?' before ≡ false
    → ((cut_query (before ++ query_text pubkey token)).0 ≡ before)
      × (query_params (cut_query (before ++ query_text pubkey token)).1 ≡ (pubkey, token))
unfolding cut_query query_params take_params
query_params-query_text none none before p t h =
    rw (append-nil before, split_once-lacks b'?' before h, cut_query) (append-nil before, refl)
query_params-query_text (some p) none before f t h =
    rw
      (
        split_once-append b'?' before (pubkey_param p) h,
        split-lacks b'&' (pubkey_param p) f,
        cut_query,
        query_params,
      )
      (refl, take_param-pubkey p (none, none))
query_params-query_text none (some t) before p f h =
    rw
      (
        split_once-append b'?' before (token_param t) h,
        split-lacks b'&' (token_param t) f,
        cut_query,
        query_params,
      )
      (refl, take_param-token t (none, none))
query_params-query_text (some p) (some t) before f g h =
    rw
      (
        split_once-append b'?' before (pubkey_param p ++ b'&' ∷ token_param t) h,
        split-append b'&' (pubkey_param p) (token_param t) f,
        split-lacks b'&' (token_param t) g,
        cut_query,
      )
      (
        refl,
        ap (take_param (token_param t)) (take_param-pubkey p (none, none))
            ∙ take_param-token t (some p, none),
      )

scheme-url_text :
    (tls : Bool) (rest : Bytes)
    → (split_once_at (codes "://") (scheme_text tls ++ (codes "://" ++ rest))
        ≡ some (scheme_text tls, rest))
      × (scheme_tls (scheme_text tls) ≡ ok tls)
unfolding scheme_tls
scheme-url_text true rest = (refl, refl)
scheme-url_text false rest = (refl, refl)

-- A URL of the documented form is read back: the scheme, the host, the port and, each if it is given,
-- the key and the token. The host is not empty and has no `?`, the port is of 16 bits, and neither
-- value has a `&`.
pub parse_url-url_text : (u : ParsedUrl) → IsUrl u → parse_url (url_text u) ≡ ok u
unfolding parse_url
parse_url-url_text u v =
    rw
      (
        schemes.0,
        schemes.1,
        regroup,
        query.0,
        query.1,
        trimmed,
        rsplit_once-append b':' u.host (decimal u.port) colon,
        parse_unsigned-decimal 65_535 u.port v.port_le,
        named,
      )
      refl
  where
    port : Bytes
    port = decimal u.port

    before : Bytes
    before = u.host ++ b':' ∷ (port ++ b'/' ∷ [])

    schemes :
        (split_once_at (codes "://") (url_text u)
          ≡ some (scheme_text u.tls, u.host ++ b':' ∷ (port ++ b'/' ∷ query_text u.pubkey u.token)))
        × (scheme_tls (scheme_text u.tls) ≡ ok u.tls)
    schemes = scheme-url_text u.tls (u.host ++ b':' ∷ (port ++ b'/' ∷ query_text u.pubkey u.token))

    regroup :
        u.host ++ b':' ∷ (port ++ b'/' ∷ query_text u.pubkey u.token)
        ≡ before ++ query_text u.pubkey u.token
    regroup = simp append_assoc

    question : has b'?' port ≡ false
    question = has-IsDigit b'?' port (inr (omega arith)) (decimal-IsDigit u.port)

    colon : has b':' port ≡ false
    colon = has-IsDigit b':' port (inr (omega arith)) (decimal-IsDigit u.port)

    slash : has b'/' port ≡ false
    slash = has-IsDigit b'/' port (inl (omega arith)) (decimal-IsDigit u.port)

    no_question : has b'?' before ≡ false
    no_question =
        rw
          (
            has-append b'?' u.host (b':' ∷ (port ++ b'/' ∷ [])),
            has-append b'?' port (b'/' ∷ []),
            v.host_free,
            question,
          )
          refl

    query :
        ((cut_query (before ++ query_text u.pubkey u.token)).0 ≡ before)
        × (query_params (cut_query (before ++ query_text u.pubkey u.token)).1 ≡ (u.pubkey, u.token))
    query = query_params-query_text u.pubkey u.token before v.pubkey_free v.token_free no_question

    trimmed : trim_end b'/' before ≡ u.host ++ b':' ∷ port
    trimmed =
        ap (trim_end b'/') (sym (append_assoc u.host (b':' ∷ port) (b'/' ∷ [])))
        ∙ trim_end-skip b'/' (u.host ++ b':' ∷ port)
        ∙ trim_end-keep b'/' u.host b':' port slash

    named : (length u.host == 0) ≡ false
    named = let some_host = v.host_some in ground arith

hexval-nibble : (c : ℕ) → hexval c ≡ nibble c
unfolding hexval nibble
hexval-nibble c = refl

-- The loop over a key is the loop over the data of a frame.
key_from-parse_data : (n i : ℕ) (b out : Bytes) → key_from n i b out ≡ parse_data n i (2 * i) b out
unfolding key_from parse_data
key_from-parse_data zero i b out = refl
key_from-parse_data (suc n) i b out =
    let later : (out' : Bytes)
        → key_from n (i + 1) b out' ≡ parse_data n (i + 1) (2 * i + 2) b out' =
      λ out'.
        key_from-parse_data n (i + 1) b out'
        ∙ ap (λ k. parse_data n (i + 1) k b out') (omega arith) in
    λ j. do
      h ← index b (2 * i)
      hi ← try (hexval-nibble h j)
      l ← index b (2 * i + 1)
      lo ← try (hexval-nibble l j)
      out' ← write_at out i (bit_or (u8 (hi * 2 ^ 4)) lo)
      later out' j

-- The 130 digits of an uncompressed point, 65 bytes of which the first is 4, are read as that point.
pub parse_pubkey-data_digits :
    (key : Bytes)
    → length (4 ∷ key) ≡ 65
    → AreBytes key
    → parse_pubkey (data_digits (4 ∷ key)) ≡ ok (4 ∷ key)
unfolding parse_pubkey
parse_pubkey-data_digits key whole bytes = rw (long, read) refl
  where
    size : length (data_digits (4 ∷ key)) ≡ 130
    size = omega (arith, data_digits-length (4 ∷ key), whole)

    long : (length (data_digits (4 ∷ key)) == 130) ≡ true
    long = (==_iff (length (data_digits (4 ∷ key))) 130).1 size

    read : key_from 65 0 (data_digits (4 ∷ key)) (replicate 65 0) ≡ ok (4 ∷ key)
    read =
        key_from-parse_data 65 0 (data_digits (4 ∷ key)) (replicate 65 0)
        ∙ ap₂ (λ n b. parse_data n 0 0 b (replicate 65 0)) (sym whole)
            (sym (append-nil (data_digits (4 ∷ key))))
        ∙ parse_data-data_digits (4 ∷ key) 0 0 [] [] [] (replicate 65 0) (omega arith, bytes) refl
            refl (omega (arith, whole))
        ∙ ap (λ n. ok ((4 ∷ key) ++ drop n (replicate 65 0))) whole
        ∙ ap ok (append-nil (4 ∷ key))
