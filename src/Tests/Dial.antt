-- ===== src/Tests/Dial.antt =====
-- The outbound connection at concrete inputs: a server whose key is pinned.
use espcan_br.Slcan.{hex_digit}
use espcan_br.Base.{
  decimal, ◌-◌, split, ◌≡◌, refl, arith, Bool, true, ◌==◌, eq_bytes, none, some, [], ◌∷◌, ◌++◌,
  Bytes, codes, length, replicate, inr, ok, Yields, ◌↔◌,
}
use espcan_br.Slcan.Frame.{data_digits}
use espcan_br.Config.AutoConnect.{AutoConnectConfig, autoconn_config_magic, url_str, enabled}
use espcan_br.Transport.{write_all, flush}
use espcan_br.Dial.State
use espcan_br.Dial.Url.{
  ParsedUrl, parse_url, parse_pubkey, scheme_tls, cut_query, query_params, take_params, take_param,
  put_param, key_from, hexval,
}
use espcan_br.Dial.Url.RoundTrip.{IsUrl, url_text, parse_url-url_text, parse_pubkey-data_digits}
use espcan_br.Dial.Pin.{
  Crypto, Published, new_verifier, certificate_key, extract_p256_pubkey, verify_certificate,
  verify_signature, ecdsa_secp256r1_sha256, accepted, set_state, verify_under, mismatch,
  check_signature,
}
use espcan_br.Dial.Pin.Verdicts.{Acceptable, verify_signature-Acceptable}
use espcan_br.Dial.Task.{
  Network, Round, Link, round, client_up, client_down, resolve, target, pin_of, dial, session,
  back_off, send_token, parse_ip, octets, octet,
}
use espcan_br.Dial.Task.Course.{Course, signed, after, opens, Documented, Shown}
use espcan_br.Dial.Task.Rounds.{Sound, round-Sound}
use espcan_br.Dial.Task.Session.{pinned, IsLink}
use espcan_br.Dial.Task.Links.{Reaches, round-Reaches, round-bridged}

abbrev rest_of_key : Bytes
rest_of_key = replicate 64 7

abbrev key : Bytes
key = 4 ∷ rest_of_key

-- A certificate with the key between other bytes.
abbrev der : Bytes
der = 0x30 ∷ 0x03 ∷ (0x03 ∷ 0x42 ∷ 0x00 ∷ (key ++ 0xa3 ∷ []))

abbrev url : ParsedUrl
url = record {
  tls = true;
  host = codes "10.0.0.1";
  port = 443;
  pubkey = some (data_digits key);
  token = some (codes "a1");
}

url-IsUrl : IsUrl url
unfolding hex_digit
url-IsUrl = record {
  host_some = omega arith;
  host_free = refl;
  port_le = omega arith;
  pubkey_free = refl;
  token_free = refl;
}

parse_url-url_text_example : parse_url (url_text url) ≡ ok url
parse_url-url_text_example = parse_url-url_text url url-IsUrl

found_key : extract_p256_pubkey der ≡ ok key
unfolding extract_p256_pubkey
found_key = refl

-- A toy: a signature is good if it is the key.
abbrev crypto : Crypto
crypto = record {
  Transcript = Bytes;
  finalize = λ t. t;
  VerifyingKey = Bytes;
  from_sec1_bytes = λ k. some k;
  Signature = Bytes;
  from_der = λ s. some s;
  verify = λ vk msg s. eq_bytes s vk;
}

abbrev before : Published
before = record { state = State.disabled; server_pubkey = none; tcp_clients = 0 }

abbrev hash : Bytes
hash = replicate 32 1

verify_signature-Acceptable_example :
    ((verify_signature crypto ecdsa_secp256r1_sha256 key
        (verify_certificate crypto hash (some der) (new_verifier crypto (some key)) before).0
        (verify_certificate crypto hash (some der) (new_verifier crypto (some key)) before).1).1
      ≡ accepted)
    ↔ Acceptable crypto
        (some key)
        (certificate_key crypto (some der))
        hash
        ecdsa_secp256r1_sha256
        key
verify_signature-Acceptable_example =
    verify_signature-Acceptable crypto hash ecdsa_secp256r1_sha256 key (some key) (some der) before

-- A server that presents the certificate and signs with its key.
abbrev course : Course crypto
course = signed hash (some der) ecdsa_secp256r1_sha256 key true

abbrev net : Network crypto
net = record {
  dns_query = λ host. none;
  connects = λ ip port. port == 443;
  open_tls = λ host v p. after crypto course v p;
  place = true;
}

abbrev laws : Documented crypto net
laws = record { course = λ host v p. course; follows = λ host v p. refl }

abbrev text : Bytes
text = url_text url

abbrev config : AutoConnectConfig
config = record {
  magic = autoconn_config_magic;
  enable = 1;
  padding = 0;
  url_len = length text;
  url = text ++ replicate (256 - length text) 0;
}

abbrev any_text : Bytes → Bool
any_text bs = true

round-Sound_example : Yields (Sound 0) (round crypto net any_text true config before)
unfolding decimal
round-Sound_example =
    round-Sound crypto net laws any_text true config before refl refl (omega arith)

shown_lem : Shown crypto (some key) course
unfolding certificate_key extract_p256_pubkey
shown_lem = record {
  transcript = hash;
  entry = some der;
  scheme = ecdsa_secp256r1_sha256;
  signature = key;
  heard = refl;
  acceptable = (
    inr refl,
    record {
      by_ecdsa = refl;
      vk = key;
      reads_key = refl;
      sig = key;
      reads_signature = refl;
      valid = refl;
    },
  );
}

reaches : Reaches crypto net laws any_text true config before
unfolding enabled url_str resolve parse_ip octets octet split decimal
reaches = record {
  on = refl;
  up = refl;
  text = text;
  configured = refl;
  url = url;
  parsed = parse_url-url_text url url-IsUrl;
  pin = some key;
  asked =
      pinned (data_digits key) key refl (parse_pubkey-data_digits rest_of_key refl (omega arith))
        refl;
  ip = 10 ∷ 0 ∷ 0 ∷ 1 ∷ [];
  known = refl;
  connected = refl;
  place = refl;
  secured = λ tls. shown_lem;
}

round-bridged_example :
    (r : Round) × (l : Link) × (round crypto net any_text true config before ≡ ok r)
    × (r.bridged ≡ some l)
    × IsLink crypto net laws reaches.url l
    × (r.wait ≡ 3)
round-bridged_example = round-bridged crypto net laws any_text true config before reaches

abbrev up : Published
up = record { state = State.connected; server_pubkey = some key; tcp_clients = 1 }

abbrev link : Link
link = record {
  secure = true;
  sent = write_all (codes "H") ∷ write_all (codes "a1") ∷ write_all (codes "\r") ∷ flush ∷ [];
  published = up;
}

abbrev bridged_round : Round
bridged_round = record { published = record up { tcp_clients = 0 }; bridged = some link; wait = 3 }

-- The whole round, as it runs.
returned : round crypto net any_text true config before ≡ ok bridged_round
unfolding enabled url_str resolve parse_ip octets octet split decimal round target pin_of parse_url
    scheme_tls cut_query query_params take_params take_param put_param parse_pubkey key_from hexval
    hex_digit dial session back_off set_state client_up client_down send_token after opens
    verify_certificate certificate_key extract_p256_pubkey verify_signature verify_under mismatch
    check_signature
returned = refl

round-Reaches_example :
    (reached : Reaches crypto net laws any_text true config before) × IsLink crypto net laws
      reached.url link
round-Reaches_example =
    round-Reaches crypto net laws any_text true config before bridged_round link returned refl
