-- ===== src/Tests/Web.antt =====
-- The web interface and the flash at concrete inputs.
use espcan_br.Base.{
  ℕ, take, drop, zero, suc, ◌+◌, ◌≤◌, ◌<◌, ◌≡◌, ◌⊎◌, inl, inr, refl, arith, ==_iff, Bool, true,
  false, Bool-cases, ◌==◌, ◌&&◌, Option, none, some, List, [], ◌∷◌, ◌++◌, Bytes, codes, All, length,
  map, replicate, ok, ◌>>=◌,
}
use espcan_br.Config.Auth as Auth
use espcan_br.Config.Device as Device
use espcan_br.Config.Wifi as Wifi
use espcan_br.Config.AutoConnect as AutoConnect
use espcan_br.Http.Base64.RoundTrip.{base64_text}
use espcan_br.Http.Save.{Site, response}
use espcan_br.Http.Serve.{Around, unauthorized, handle_request}
use espcan_br.Http.Serve.Guard.{handle_request-login}
use espcan_br.Config.Flash.{Nvs, DocumentedNvs, device, save_slot, Saved, save_slot-Saved}
use espcan_br.Http.Escape.{html_escape}
use espcan_br.Http.Escape.Html.{IsInert, shown_text, html_escape-shown}
use espcan_br.Http.Request.{authorized, find_subslice, content_length, find_length, length_line}
use espcan_br.Http.Request.Login.{login_request, authorized-set_auth}
use espcan_br.Http.Fetch.{segment, closed, request, need_of, fetch}
use espcan_br.Http.Fetch.Segments.{fetch-segments}

html_escape-shown_example :
    All IsInert (html_escape (codes "<b>\"&amp;'"))
    × (shown_text 0 (html_escape (codes "<b>\"&amp;'")) ≡ codes "<b>\"&amp;'")
html_escape-shown_example = html_escape-shown (codes "<b>\"&amp;'")

abbrev pub any_text : Bytes → Bool
any_text bs = true

abbrev head : Bytes
head = codes "POST /api/auth HTTP/1.1\r\ncontent-length:  3\r\n\r"

abbrev whole : Bytes
whole = head ++ codes "\na=b"

fetch-segments_example :
    fetch any_text (map segment (head ∷ codes "\na" ∷ codes "=b" ∷ []) ++ closed ∷ [])
    ≡ request whole
unfolding need_of find_subslice content_length find_length length_line
fetch-segments_example =
    fetch-segments any_text whole (head ∷ codes "\na" ∷ codes "=b" ∷ []) (closed ∷ []) refl
      (omega arith) (omega arith) refl

-- A digest that keeps the length of its input.
abbrev pub measure : Bytes → Bytes
measure bs = length bs ∷ replicate 31 0

-- The login is admin with secret; a request with another password is not let in.
authorized-set_auth_example :
    (Auth.set_auth measure (λ i. i) (codes "admin") (codes "secret") Auth.new >>= λ cfg.
    authorized any_text measure false cfg
      (login_request (codes "GET / HTTP/1.1") (codes "admin") (codes "nope") (codes "\r\n")))
    ≡ ok false
authorized-set_auth_example =
    authorized-set_auth any_text measure (λ bs. refl) (λ i. i) (codes "admin") (codes "secret")
      Auth.new (codes "GET / HTTP/1.1") (codes "admin") (codes "nope") (codes "\r\n") refl
      (record { starts = omega arith; no_colon = refl; one_line = refl }) refl (omega arith)
      (omega arith) refl

-- A store that keeps every write, the last one first, and is read only where it was written.
abbrev log_read : List (ℕ × Bytes) → ℕ → ℕ → Option Bytes
log_read log j zero = some []
log_read [] j (suc n) = none
log_read ((i, bs) ∷ log) j (suc n) = elim (i == j && length bs == suc n) [
  | true ↦ some bs
  | false ↦ log_read log j (suc n)
]

abbrev pub flash : Nvs
flash = record {
  Store = List (ℕ × Bytes);
  found = λ log. true;
  read = log_read;
  write = λ log i bs. ((i, bs) ∷ log, true);
}

same_place : (i n : ℕ) → (i == i && n == n) ≡ true
same_place i n = rw ((==_iff i i).1 refl, (==_iff n n).1 refl) refl

log_read-own :
    (log : List (ℕ × Bytes)) (i : ℕ) (bs : Bytes) → log_read ((i, bs) ∷ log) i (length bs) ≡ some bs
log_read-own log i [] = refl
log_read-own log i (b ∷ bs) = rw (log_read, same_place i (length (b ∷ bs))) refl

both : (i j m n : ℕ) → (i == j && m == n) ≡ true → (i ≡ j) × (m ≡ n)
both i j m n h = ground arith

log_read-apart :
    (log : List (ℕ × Bytes)) (i : ℕ) (bs : Bytes) (j n : ℕ)
    → (i + length bs ≤ j) ⊎ (j + n ≤ i)
    → log_read ((i, bs) ∷ log) j n ≡ log_read log j n
log_read-apart log i bs j zero h = refl
log_read-apart log i bs j (suc n) h = elim (Bool-cases (i == j && length bs == suc n)) [
  | inr apart ↦ rw (log_read, apart) refl
  | inl same ↦
      absurd (meets i j (length bs) (suc n) (both i j (length bs) (suc n) same) (omega arith) h)
]
  where
    meets : (i j m n : ℕ) → (i ≡ j) × (m ≡ n) → 0 < n → (i + m ≤ j) ⊎ (j + n ≤ i) → ⊥
    meets i j m n (e, f) some_bytes (inl g) = omega arith
    meets i j m n (e, f) some_bytes (inr g) = omega arith

pub flash_laws : DocumentedNvs flash
flash_laws = record {
  found-write = λ s i bs h. refl;
  read-write = λ s i bs h. log_read-own s i bs;
  read-write_apart = λ s i bs j n h apart. log_read-apart s i bs j n apart;
}

abbrev named : Device.DeviceConfig
named = record {
  magic = Device.device_config_magic;
  name = codes "bus" ++ replicate 29 0;
  name_len = 3;
  padding = replicate 3 0;
  baud = 230_400;
}

save_slot-Saved_example : Saved flash flash_laws device named [] (save_slot flash device named []).0
unfolding save_slot
save_slot-Saved_example =
    save_slot-Saved flash flash_laws device named []
      (record { magic = omega arith; name = refl; padding = refl; baud = omega arith }) refl

-- The login admin with secret, as it is stored.
abbrev login : Auth.AuthConfig
login = record {
  magic = Auth.auth_config_magic;
  user = codes "admin" ++ replicate 27 0;
  user_len = 5;
  has_pass = 1;
  padding = replicate 2 0;
  salt = replicate 16 0;
  pass_hash = 22 ∷ replicate 31 0;
}

abbrev site : Site flash.Store
site = record {
  wifi = Wifi.new;
  device = named;
  autoconnect = AutoConnect.new;
  auth = login;
  flash = [];
}

abbrev pub around : Around
around = record {
  held = false;
  live = record {
    config_mode = false;
    wifi_connected = true;
    sta_ip = some (192 ∷ 168 ∷ 1 ∷ 7 ∷ []);
    counters = record {
      rx_count = 0;
      tx_count = 0;
      ser_in = 0;
      ser_out = 0;
      tcp_in = 0;
      tcp_out = 0;
    };
    published = record { state = 0; server_pubkey = none; tcp_clients = 0 };
  };
  random = λ i. i;
}

abbrev wrong : Bytes
wrong = login_request (codes "GET / HTTP/1.1") (codes "admin") (codes "nope") (codes "\r\n")

handle_request-login_example :
    handle_request any_text measure flash around
      (map segment (take 20 wrong ∷ drop 20 wrong ∷ []) ++ [])
      site
    ≡ ok (site, response unauthorized ∷ [])
unfolding Auth.verify Auth.is_set Auth.is_valid Auth.ct_eq Auth.ct_from Auth.salted_hash need_of
    find_subslice content_length find_length length_line base64_text
handle_request-login_example =
    handle_request-login any_text measure flash around (take 20 wrong ∷ drop 20 wrong ∷ []) [] site
      (codes "GET / HTTP/1.1") (codes "admin") (codes "nope") (codes "\r\n") false refl
      (record { starts = omega arith; no_colon = refl; one_line = refl }) refl (omega arith)
      (omega arith) refl refl refl (omega arith) (omega arith) refl
