-- ===== src/Dial/Url.antt =====
-- src/autoconnect.rs: the target's URL and the pinned key in it.
pub mod RoundTrip
pub mod Safety
use espcan_br.Base.{
  ℕ, zero, suc, ◌+◌, ◌*◌, ◌^◌, bit_or, u8, Bool, true, false, not, ◌==◌, within, ◌-◌, if◌then◌else◌,
  Option, none, some, List, [], ◌∷◌, Bytes, codes, eq_bytes, length, replicate, split, split_once,
  split_once_at, rsplit_once, trim_end, parse_unsigned, Outcome, ok, absent, panic, ◌>>=◌, ◌>>◌,
  try, refuse_if, index, write_at,
}

pub record ParsedUrl : Type 0 where
  pub tls : Bool
  pub host : Bytes
  pub port : ℕ
  pub pubkey : Option Bytes
  pub token : Option Bytes

unfoldable pub scheme_tls : Bytes → Outcome Bool
scheme_tls scheme =
    if eq_bytes scheme (codes "tls")
    then ok true
    else if eq_bytes scheme (codes "tcp")
    then ok false
    else absent

unfoldable pub cut_query : Bytes → Bytes × Option Bytes
cut_query rest = elim (split_once b'?' rest) [ some (b, q) ↦ (b, some q) | none ↦ (rest, none) ]

-- `pubkey` and `token`, the values so far.
abbrev pub Params : Type 0
Params = Option Bytes × Option Bytes

unfoldable pub put_param : Bytes × Bytes → Params → Params
put_param (k, v) (pubkey, token) =
    if eq_bytes k (codes "pubkey")
    then (some v, token)
    else if eq_bytes k (codes "token")
    then (pubkey, some v)
    else (pubkey, token)

unfoldable pub take_param : Bytes → Params → Params
take_param kv p = elim (split_once b'=' kv) [ none ↦ p | some found ↦ put_param found p ]

unfoldable pub take_params : List Bytes → Params → Params
take_params [] p = p
take_params (kv ∷ kvs) p = take_params kvs (take_param kv p)

unfoldable pub query_params : Option Bytes → Params
query_params none = (none, none)
query_params (some q) = take_params (split b'&' q) (none, none)

unfoldable pub parse_url : Bytes → Outcome ParsedUrl
parse_url url = do
  (scheme, rest) ← try (split_once_at (codes "://") url)
  tls ← scheme_tls scheme
  let cut = cut_query rest
  let authority = trim_end b'/' cut.0
  (host, port_str) ← try (rsplit_once b':' authority)
  port ← try (parse_unsigned 65_535 port_str)
  refuse_if (length host == 0)
  let params = query_params cut.1
  ok (record { tls = tls; host = host; port = port; pubkey = params.0; token = params.1 })

unfoldable pub hexval : ℕ → Option ℕ
hexval c =
    if within b'0' b'9' c
    then some (c - b'0')
    else if within b'a' b'f' c
    then some (c - b'a' + 10)
    else if within b'A' b'F' c
    then some (c - b'A' + 10)
    else none

-- The loop of `parse_pubkey` from `i` on, with `n` rounds left.
unfoldable pub key_from : ℕ → ℕ → Bytes → Bytes → Outcome Bytes
key_from zero i b out = ok out
key_from (suc n) i b out = do
  h ← index b (2 * i)
  hi ← try (hexval h)
  l ← index b (2 * i + 1)
  lo ← try (hexval l)
  out' ← write_at out i (bit_or (u8 (hi * 2 ^ 4)) lo)
  key_from n (i + 1) b out'

unfoldable pub parse_pubkey : Bytes → Outcome Bytes
parse_pubkey hex = do
  refuse_if (not (length hex == 130))
  out ← key_from 65 0 hex (replicate 65 0)
  first ← index out 0
  refuse_if (not (first == 0x04))
  ok out
