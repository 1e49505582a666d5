-- ===== src/Http/Save.antt =====
-- src/http.rs: the handlers that store a form, from its fields to the configuration in memory and on
-- flash. `software_reset` does not return, so that no response is sent.
pub mod Kept
pub mod Fields
use espcan_br.Base.{
  ℕ, Bool, true, false, not, ◌==◌, ◌||◌, ◌&&◌, ltb, within, has, if◌then◌else◌, none, some, [], ◌∷◌,
  ◌++◌, Bytes, codes, decimal, length, replicate, parse_unsigned, Outcome, ok, ◌>>=◌, slice,
}
use espcan_br.Http.{url_decode_into}
use espcan_br.Http.Request.{find_form_value, trim}
use espcan_br.Config.Wifi.{WifiConfig, set_credentials}
use espcan_br.Config.Wifi
use espcan_br.Config.Device.{DeviceConfig, set_device, defaults, default_uart_baud}
use espcan_br.Config.AutoConnect.{AutoConnectConfig, set_autoconnect, url_max}
use espcan_br.Config.AutoConnect
use espcan_br.Config.Auth.{AuthConfig, set_auth}
use espcan_br.Config.Auth
use espcan_br.Config.Flash.{Nvs, save, save_device, save_autoconnect, save_auth}

-- The configurations in memory, with the flash.
pub record Site (Store : Type 0) : Type 0 where
  pub wifi : WifiConfig
  pub device : DeviceConfig
  pub autoconnect : AutoConnectConfig
  pub auth : AuthConfig
  pub flash : Store

pub data Answer : Type 0 where
  response : Bytes → Answer
  software_reset : Answer

-- A plain text with its length.
abbrev pub plain_text : Bytes → Bytes → Bytes
plain_text status msg =
    codes "HTTP/1.1 "
    ++ (status
        ++ (codes "\r\nContent-Type: text/plain\r\nContent-Length: "
            ++ (decimal (length msg) ++ (codes "\r\nConnection: close\r\n\r\n" ++ msg))))

abbrev pub bad_request : Bytes
bad_request = codes "HTTP/1.1 400 Bad Request\r\nContent-Length: 0\r\n\r\n"

abbrev pub bad_name : Bytes
bad_name =
    codes
      "HTTP/1.1 400 Bad Request\r\nContent-Type: text/plain\r\nContent-Length: 9\r\n\r\nbad name\n"

abbrev pub save_failed : Bytes
save_failed = codes "HTTP/1.1 500 Internal Server Error\r\nContent-Length: 12\r\n\r\nsave failed\n"

-- `find_form_value(..).map(url_decode_into).unwrap_or(0)`, and the bytes decoded.
unfoldable pub field : Bytes → Bytes → ℕ → Outcome Bytes
field body key room = elim (find_form_value body key) [
  | none ↦ ok []
  | some v ↦ (do (n, buf) ← url_decode_into v (replicate room 0); slice buf 0 n)
]

abbrev pub is_name_char : ℕ → Bool
is_name_char c = within b'0' b'9' c || within b'A' b'Z' c || within b'a' b'z' c || c == b'-'

abbrev pub all_name_chars : Bytes → Bool
all_name_chars [] = true
all_name_chars (c ∷ cs) = is_name_char c && all_name_chars cs

unfoldable pub baud_value : (is_utf8 : Bytes → Bool) → Bytes → ℕ
baud_value is_utf8 text =
    elim (if is_utf8 text then parse_unsigned 0xffff_ffff (trim text) else none) [
      | none ↦ default_uart_baud
      | some b ↦ if ltb 0 b then b else default_uart_baud
    ]

module _ (nvs : Nvs) where
  open nvs use {Store}

  -- The end of a handler: the flash, and the device resets if it was written.
  abbrev pub stored : Store × Bool → Site Store → Site Store × Answer
  stored w s = (record s { flash = w.0 }, if w.1 then software_reset else response save_failed)

  unfoldable pub save_wifi : Bytes → Site Store → Outcome (Site Store × Answer)
  save_wifi body s = do
    ssid ← field body (codes "ssid") 32
    pass ← field body (codes "password") 64
    if length ssid == 0 then ok (s, response bad_request) else (do
      cfg ← set_credentials ssid pass Wifi.new
      ok (stored (save nvs cfg s.flash) (record s { wifi = cfg })))

  unfoldable pub save_device_form :
      (is_utf8 : Bytes → Bool) → Bytes → Site Store → Outcome (Site Store × Answer)
  save_device_form is_utf8 body s = do
    name ← field body (codes "name") 32
    if not (ltb 0 (length name) && all_name_chars name) then ok (s, response bad_name) else (do
      baud ← field body (codes "baud") 16
      cfg₀ ← defaults
      cfg ← set_device name (baud_value is_utf8 baud) cfg₀
      ok (stored (save_device nvs cfg s.flash) (record s { device = cfg })))

  unfoldable pub save_autoconnect_form :
      (is_utf8 : Bytes → Bool) → Bytes → Site Store → Outcome (Site Store × Answer)
  save_autoconnect_form is_utf8 body s = do
    let enable : Bool = elim (find_form_value body (codes "enable")) [
      | none ↦ false
      | some v ↦ true
    ]
    text ← field body (codes "url") url_max
    cfg ← set_autoconnect enable (if is_utf8 text then text else []) AutoConnect.new
    ok (stored (save_autoconnect nvs cfg s.flash) (record s { autoconnect = cfg }))

  -- `random` is the hardware's, for the salt.
  unfoldable pub save_auth_form :
      (sha256 : Bytes → Bytes)
      → (random : ℕ → ℕ) → Bytes
      → Site Store
      → Outcome (Site Store × Answer)
  save_auth_form sha256 random body s = do
    user ← field body (codes "user") 32
    pass ← field body (codes "pass") 64
    if has b':' user
        then ok (
          s,
          response (plain_text (codes "400 Bad Request") (codes "username may not contain ':'\n")),
        )
        else (do
          cfg ← set_auth sha256 random user pass Auth.new
          let w = save_auth nvs cfg s.flash
          let msg =
              if length user == 0 || length pass == 0
              then codes "Web login disabled.\n"
              else codes "Web login updated.\n"
          ok (
            record s { auth = cfg; flash = w.0 },
            response (if w.1 then plain_text (codes "200 OK") msg else save_failed),
          ))
