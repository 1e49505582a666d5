-- ===== src/Dial/Task.antt =====
-- src/autoconnect.rs: `autoconnect_task`, one round of its loop, with `resolve` and `send_token`.
-- `Network` is what `embassy-net` and `embedded-tls` do: the answers of the resolver, whether a TCP
-- connection is made, and `TlsConnection::open`, which is given the verifier and the published state.
pub mod Course
pub mod Rounds
pub mod Session
pub mod Links
use espcan_br.Base.{
  ℕ, ◌+◌, ◌-◌, ◌^◌, u32, Bool, true, false, not, ◌==◌, ◌&&◌, leb, ltb, if◌then◌else◌, Option, none,
  some, List, [], ◌∷◌, Bytes, codes, length, split, parse_digits, Outcome, ok, absent, panic, ◌>>=◌,
}
use espcan_br.Config.AutoConnect.{AutoConnectConfig, enabled, url_str}
use espcan_br.Transport.{Effect, write_all, flush}
use espcan_br.Dial.State
use espcan_br.Dial.Url.{ParsedUrl, parse_url, parse_pubkey}
use espcan_br.Dial.Pin.{Crypto, PinnedVerifier, Published, new_verifier, set_state}

abbrev pub pin_mismatch_backoff_s : ℕ
pin_mismatch_backoff_s = 90

-- `TCP_CLIENTS`, a counter of 32 bits that wraps around.
unfoldable pub client_up : Published → Published
client_up p = record p { tcp_clients = u32 (p.tcp_clients + 1) }

unfoldable pub client_down : Published → Published
client_down p = record p { tcp_clients = u32 (p.tcp_clients + 2 ^ 32 - 1) }

-- `IpAddress`: an IPv4 address by its four bytes.
pub data IpAddress : Type 0 where
  ipv4 : Bytes → IpAddress
  ipv6 : IpAddress

-- `parse::<Ipv4Addr>()`: four numbers of one to three digits, without a leading zero.
unfoldable pub octet : Bytes → Option ℕ
octet [] = none
octet (d ∷ ds) =
    if leb (length ds) 2 && not (d == b'0' && ltb 0 (length ds))
    then parse_digits 255 0 (d ∷ ds)
    else none

unfoldable pub octets : List Bytes → Option Bytes
octets [] = some []
octets (part ∷ parts) = elim (octet part) [
  | none ↦ none
  | some n ↦ elim (octets parts) [ none ↦ none | some ns ↦ some (n ∷ ns) ]
]

unfoldable pub parse_ip : Bytes → Option Bytes
parse_ip host = let parts = split b'.' host in if length parts == 4 then octets parts else none

unfoldable pub first_v4 : List IpAddress → Option Bytes
first_v4 [] = none
first_v4 (ipv4 ip ∷ answers) = some ip
first_v4 (ipv6 ∷ answers) = first_v4 answers

unfoldable pub send_token : Option Bytes → List Effect
send_token none = []
send_token (some tok) = write_all (codes "H") ∷ write_all tok ∷ write_all (codes "\r") ∷ flush ∷ []

-- The start of `run_port`: over TLS or not, what went ahead of it, and the published state.
pub record Link : Type 0 where
  pub secure : Bool
  pub sent : List Effect
  pub published : Published

-- A round: the state when it ends, the link that it bridged, and the seconds until the next one.
pub record Round : Type 0 where
  pub published : Published
  pub bridged : Option Link
  pub wait : ℕ

module _ (crypto : Crypto) where
  -- `place` is whether `can::rx_subscriber` gets a subscriber of the channel, or panics.
  pub record Network : Type 0 where
    pub dns_query : Bytes → Option (List IpAddress)
    pub connects : Bytes → ℕ → Bool
    pub open_tls : Bytes → PinnedVerifier crypto → Published → Published × Bool
    pub place : Bool

module _ (crypto : Crypto) (net : Network crypto) where
  open net use {dns_query, connects, open_tls, place}

  unfoldable pub resolve : Bytes → Option Bytes
  resolve host = elim (parse_ip host) [
    | some ip ↦ some ip
    | none ↦ elim (dns_query host) [ none ↦ none | some answers ↦ first_v4 answers ]
  ]

  -- The key to pin, if any; `absent` is the answer to a bad one, or to one without TLS.
  unfoldable pub pin_of : ParsedUrl → Outcome (Option Bytes)
  pin_of url = elim url.pubkey [
    | none ↦ ok none
    | some h ↦ do key ← parse_pubkey h; if url.tls then ok (some key) else absent
  ]

  abbrev pub ends : ℕ → Published → Round
  ends wait p = record { published = p; bridged = none; wait = wait }

  -- The link is up: the token, and `run_port`.
  abbrev pub bridge : ParsedUrl → Published → Round
  bridge url p =
      let q = set_state State.connected p in
      record {
        published = q;
        bridged = some (record { secure = url.tls; sent = send_token url.token; published = q });
        wait = 0;
      }

  -- The TLS and the TCP branch.
  unfoldable pub session : ParsedUrl → Option Bytes → Published → Round
  session url pin p =
      if url.tls
      then (let r = open_tls url.host (new_verifier crypto pin) p in
          if r.1
          then bridge url r.0
          else if not (r.0.state == State.pin_mismatch)
          then ends 0 (set_state State.tls_fail r.0)
          else ends 0 r.0)
      else bridge url p

  -- The end of the loop's body.
  unfoldable pub back_off : Round → Round
  back_off r = record {
    published = client_down r.published;
    bridged = r.bridged;
    wait = if r.published.state == State.pin_mismatch then pin_mismatch_backoff_s else 3;
  }

  -- From `CONNECTING` on.
  unfoldable pub dial : ParsedUrl → Option Bytes → Published → Outcome Round
  dial url pin p = elim (resolve url.host) [
    | none ↦ ok (ends 5 (set_state State.dns_fail p))
    | some ip ↦
        if connects ip url.port
        then (if place then ok (back_off (session url pin (client_up p))) else panic)
        else ok (ends 5 (set_state State.tcp_fail p))
  ]

  -- The URL and its key.
  unfoldable pub target : Bytes → Outcome (ParsedUrl × Option Bytes)
  target text = do url ← parse_url text; pin ← pin_of url; ok (url, pin)

  unfoldable pub round :
      (is_utf8 : Bytes → Bool) → Bool → AutoConnectConfig → Published → Outcome Round
  round is_utf8 wifi c p =
      if not (enabled c)
      then ok (ends 3 (set_state State.disabled p))
      else if not wifi
      then ok (ends 3 p)
      else (do
        text ← url_str is_utf8 c
        elim (target text) [
          | absent ↦ ok (ends 30 (set_state State.bad_config p))
          | panic ↦ panic
          | ok (url, pin) ↦ dial url pin (set_state State.connecting p)
        ])
