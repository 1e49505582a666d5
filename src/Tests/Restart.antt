-- ===== src/Tests/Restart.antt =====
-- A device that boots from an empty flash, is given a Wi-Fi network, and resets.
use espcan_br.Base.{
  ℕ, Bool, true, false, within, ◌==◌, decimal, ◌≡◌, refl, arith, List, [], ◌∷◌, ◌++◌, Bytes, codes,
  replicate, split, ok, Returns, Ends,
}
use espcan_br.Config.Flash.{
  wifi, device, autoconnect, auth, load_slot, save, save_slot, save_device,
}
use espcan_br.Config.Codec.{encode, decode}
use espcan_br.Config.Wifi as Wifi
use espcan_br.Config.Device as Device
use espcan_br.Config.AutoConnect as AutoConnect
use espcan_br.Config.Auth as Auth
use espcan_br.Http.{url_decode_into, url_from, url_char, escape, plain, hex_nibble}
use espcan_br.Http.Request.{
  find_form_value, find_pair, find_subslice, content_length, find_length, length_line,
  parse_request_line, authorized, body_of,
}
use espcan_br.Http.Fetch.{Arrival, segment, fetch, fetch_from, refresh, need_of, is_done}
use espcan_br.Http.Save.{Site, software_reset, save_wifi, field}
use espcan_br.Http.Serve.{handle_request, respond, route}
use espcan_br.Boot.{load_all, boot}
use espcan_br.Boot.Restart.{SaneFlash, BoundedFlash, AllBounded}
use espcan_br.Boot.Answers.{Connected}
use espcan_br.Boot.Life.{
  after, Reach, booted, served, power_cycled, Reach-load_all, Reach-AllBounded,
  handle_request-Reach,
}
use espcan_br.Boot.Serving.{Meets, Serves, http_server-Serves}
use espcan_br.Boot.Station.{AsStation, boot-wifi_form}
use espcan_br.Http.Serve.Server.{Accepted, accept_error, connection, http_server}
use espcan_br.Boot.Renamed.{Renamed}
use espcan_br.Http.Form.Pairs.{Entry, form_text, field-form_text}
use espcan_br.Slcan.{hex_digit}
use espcan_br.Tests.Web.{any_text, measure, flash, flash_laws, around}

SaneFlash-empty : SaneFlash flash []
unfolding load_slot
SaneFlash-empty wifi c e = cc
SaneFlash-empty device c e = cc
SaneFlash-empty autoconnect c e = cc
SaneFlash-empty auth c e = cc

BoundedFlash-empty : BoundedFlash flash []
unfolding load_slot
BoundedFlash-empty wifi c e = cc
BoundedFlash-empty device c e = cc
BoundedFlash-empty autoconnect c e = cc
BoundedFlash-empty auth c e = cc

abbrev new_site : Site flash.Store
new_site = record {
  wifi = Wifi.new;
  device = record {
    magic = Device.device_config_magic;
    name = Device.default_name ++ replicate 23 0;
    name_len = 9;
    padding = replicate 3 0;
    baud = Device.default_uart_baud;
  };
  autoconnect = AutoConnect.new;
  auth = Auth.new;
  flash = [];
}

started : load_all flash [] ≡ ok new_site
unfolding load_all load_slot Device.defaults Device.set_device
started = refl

abbrev home : Wifi.WifiConfig
home = record {
  magic = Wifi.wifi_config_magic;
  ssid = codes "my net" ++ replicate 26 0;
  ssid_len = 6;
  password = codes "p@ss" ++ replicate 60 0;
  password_len = 4;
  padding = replicate 2 0;
}

abbrev form : Bytes
form = codes "ssid=my+net&password=p%40ss"

abbrev at_home : Site flash.Store
at_home = record {
  wifi = home;
  device = new_site.device;
  autoconnect = new_site.autoconnect;
  auth = new_site.auth;
  flash = (save flash home []).0;
}

abbrev post : Bytes
post = codes "POST /api/wifi HTTP/1.1\r\nContent-Length: 27\r\n\r\n"

saved_home : save_wifi flash form new_site ≡ ok (at_home, software_reset)
unfolding save_wifi field find_form_value find_pair split url_decode_into url_from url_char escape
    plain hex_nibble Wifi.set_credentials save_slot
saved_home = refl

-- The form arrives in two segments.
abbrev arrivals : List Arrival
arrivals = segment post ∷ segment form ∷ []

posted :
    handle_request any_text measure flash around arrivals new_site
    ≡ ok (at_home, software_reset ∷ [])
unfolding handle_request fetch fetch_from refresh need_of is_done find_subslice content_length
    find_length length_line respond route parse_request_line authorized Auth.is_set Auth.is_valid
    body_of save_wifi field find_form_value find_pair split url_decode_into url_from url_char escape
    plain hex_nibble Wifi.set_credentials save_slot
posted = refl

restarted : after flash (at_home, software_reset ∷ []) ≡ ok at_home
unfolding after load_all load_slot Wifi.is_valid decode save_slot encode Device.defaults
    Device.set_device
restarted = refl

-- It loses its power before the form, and again behind it.
at_home-Reach : Reach any_text measure flash [] at_home
at_home-Reach =
    power_cycled at_home at_home
      (served new_site at_home around arrivals (at_home, software_reset ∷ [])
        (power_cycled new_site new_site (booted new_site started) started) posted ((λ e. cc), tt)
        restarted)
      (unfold after in restarted)

Reach-load_all_example : load_all flash at_home.flash ≡ ok at_home
Reach-load_all_example =
    Reach-load_all any_text measure flash (λ bs. refl) flash_laws [] SaneFlash-empty at_home
      at_home-Reach

Reach-AllBounded_example : AllBounded flash at_home
Reach-AllBounded_example =
    Reach-AllBounded any_text measure flash (λ bs. refl) flash_laws [] BoundedFlash-empty at_home
      at_home-Reach

handle_request-Reach_example :
    Returns
      (Connected flash at_home)
      (handle_request any_text measure flash around arrivals at_home)
handle_request-Reach_example =
    handle_request-Reach any_text measure flash (λ bs. refl) flash_laws [] SaneFlash-empty at_home
      around arrivals at_home-Reach
      (record { ssid = λ t h. refl; name = λ t h. refl; user = λ t h. refl }) (λ req h. refl)

-- A browser that sends letters as they are.
abbrev letter : ℕ → Bool
letter = within b'a' b'z'

letter-apart : (b : ℕ) → letter b ≡ true → (b == b'&') ≡ false
letter-apart b h = ground arith

letter_plain : (b : ℕ) → letter b ≡ true → ((b == b'%') ≡ false) × ((b == b'+') ≡ false)
letter_plain b h = (ground arith, ground arith)

abbrev entries : List Entry
entries = (codes "ssid", codes "my net") ∷ (codes "password", codes "p@ss") ∷ []

boot-wifi_form_example :
    Returns (AsStation flash (codes "my net") (codes "p@ss") at_home) (boot flash at_home.flash)
unfolding hex_digit
boot-wifi_form_example =
    boot-wifi_form any_text measure flash (λ bs. refl) flash_laws letter letter-apart letter_plain
      [] SaneFlash-empty new_site at_home entries (codes "my net") (codes "p@ss")
      (booted new_site started) (((refl, refl), omega arith), (((refl, refl), omega arith), tt))
      refl refl (omega arith) (omega arith) (omega arith) saved_home

-- The form of the device, and what it leaves.
abbrev renamed : Site flash.Store
renamed = record {
  wifi = Wifi.new;
  device = bus;
  autoconnect = new_site.autoconnect;
  auth = new_site.auth;
  flash = (save_device flash bus []).0;
}
  where
    bus : Device.DeviceConfig
    bus = record {
      magic = Device.device_config_magic;
      name = codes "buscan-br" ++ replicate 23 0;
      name_len = 3;
      padding = replicate 3 0;
      baud = 9600;
    }

abbrev device_entries : List Entry
device_entries = (codes "name", codes "bus") ∷ (codes "baud", decimal 9600) ∷ []

-- A buffer of three bytes cuts the password off.
field-form_text_example : field (form_text letter entries) (codes "password") 3 ≡ ok (codes "p@s")
field-form_text_example =
    field-form_text letter letter-apart letter_plain entries (codes "password") 3
      (((refl, refl), omega arith), (((refl, refl), omega arith), tt))

-- The server of one network, on a failed accept, the form, and a client that comes too late.
abbrev clients : List Accepted
clients = accept_error ∷ connection around arrivals ∷ connection around arrivals ∷ []

http_server-Serves_example :
    Ends
      (Meets any_text measure flash clients new_site)
      (Serves any_text measure flash)
      (http_server any_text measure flash clients new_site)
http_server-Serves_example =
    http_server-Serves any_text measure flash (λ bs. refl) clients new_site
      (Reach-AllBounded any_text measure flash (λ bs. refl) flash_laws [] BoundedFlash-empty
        new_site (booted new_site started))
