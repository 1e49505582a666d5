-- ===== src/Http/Pages.antt =====
-- src/http.rs: the page and the JSON snapshot, from what they read of the device; and src/autoconnect.rs:
-- `state_str`.
use espcan_br.Base.{
  ℕ, ◌/◌, ◌%◌, Bool, ◌==◌, if◌then◌else◌, Option, none, some, [], ◌∷◌, ◌++◌, Bytes, codes, decimal,
  length, Outcome, ok, ◌>>=◌, from_utf8_unchecked,
}
use espcan_br.Can.{Counters}
use espcan_br.Config.Codec.{joined}
use espcan_br.Transport.{hex_nibble}
use espcan_br.Config.Wifi.{ssid_str}
use espcan_br.Config.Device.{DeviceConfig, name_str, baud_of}
use espcan_br.Config.AutoConnect.{AutoConnectConfig, enable_set, url_str}
use espcan_br.Config.Auth.{AuthConfig, is_set, user_str}
use espcan_br.Dial.Pin.{Published}
use espcan_br.Dial.State
use espcan_br.Http.Escape.{html_escape, json_escape}
use espcan_br.Http.Save.{Site}

unfoldable pub state_str : ℕ → Bytes
state_str code =
    if code == State.disabled
    then codes "disabled"
    else if code == State.connecting
    then codes "connecting"
    else if code == State.connected
    then codes "connected"
    else if code == State.dns_fail
    then codes "DNS lookup failed"
    else if code == State.tcp_fail
    then codes "TCP connect failed"
    else if code == State.tls_fail
    then codes "TLS failed (cert/handshake)"
    else if code == State.bad_config
    then codes "bad URL or pubkey"
    else if code == State.pin_mismatch
    then codes "server pubkey mismatch"
    else codes "?"

-- What the pages show of the device beside its configurations.
pub record Live : Type 0 where
  pub config_mode : Bool
  pub wifi_connected : Bool
  pub sta_ip : Option Bytes
  pub counters : Counters
  pub published : Published

unfoldable pub mode_text : Live → Bytes
mode_text v = if v.config_mode then codes "Configuration (AP)" else codes "Station"

abbrev pub bool_text : Bool → Bytes
bool_text b = if b then codes "true" else codes "false"

abbrev pub yes_no : Bool → Bytes
yes_no b = if b then codes "yes" else codes "no"

-- An IPv4 address, its numbers with dots between them.
abbrev pub dotted : Bytes → Bytes
dotted [] = []
dotted (n ∷ []) = decimal n
dotted (n ∷ m ∷ ms) = decimal n ++ b'.' ∷ dotted (m ∷ ms)

abbrev pub sta_ip_text : Option Bytes → Bytes
sta_ip_text none = codes "not connected"
sta_ip_text (some addr) = dotted addr

-- `{:02X}` of each byte.
abbrev pub hex_text : Bytes → Bytes
hex_text [] = []
hex_text (b ∷ bs) = hex_nibble (b / 16) ∷ hex_nibble (b % 16) ∷ hex_text bs

abbrev pub key_text : Option Bytes → Bytes
key_text none = []
key_text (some key) = hex_text key

abbrev pub shown_key : Option Bytes → Bytes
shown_key none = codes "(none yet)"
shown_key (some key) = hex_text key

abbrev pub checked : Bool → Bytes
checked en = if en then codes "checked" else []

abbrev pub auth_state : Bool → Bytes
auth_state set =
    if set then codes "enabled" else codes "disabled (anyone on the network can read this page)"

unfoldable pub status_script : Bytes
status_script = joined (
    codes "<script>async function upd(){try{const s=await(await fetch('/api/status')).j"
    ∷ codes "son();const g=(i,v)=>{const e=document.getElementById(i);if(e)e.textContent="
    ∷ codes "v;};g('mode',s.mode);g('wifi',s.wifi?'yes':'no');g('staip',s.sta_ip);g('ssid"
    ∷ codes "',s.ssid);g('can_rx',s.can_rx);g('can_tx',s.can_tx);g('ser_in',s.ser_in);g('"
    ∷ codes "ser_out',s.ser_out);g('tcp_in',s.tcp_in);g('tcp_out',s.tcp_out);g('acstatus'"
    ∷ codes ",s.ac_status);g('srvkey',s.server_key||'(none yet)');}catch(e){}}setInterval"
    ∷ codes "(upd,2000);upd();</script></body></html>"
    ∷ [])

unfoldable pub json_body : Live → Bytes → Bytes
json_body v ssid = joined (
    codes "{\"mode\":\""
    ∷ mode_text v
    ∷ codes "\",\"wifi\":"
    ∷ bool_text v.wifi_connected
    ∷ codes ",\"sta_ip\":\""
    ∷ sta_ip_text v.sta_ip
    ∷ codes "\",\"ssid\":\""
    ∷ json_escape ssid
    ∷ codes "\",\"can_rx\":"
    ∷ decimal v.counters.rx_count
    ∷ codes ",\"can_tx\":"
    ∷ decimal v.counters.tx_count
    ∷ codes ",\"ser_in\":"
    ∷ decimal v.counters.ser_in
    ∷ codes ",\"ser_out\":"
    ∷ decimal v.counters.ser_out
    ∷ codes ",\"tcp_in\":"
    ∷ decimal v.counters.tcp_in
    ∷ codes ",\"tcp_out\":"
    ∷ decimal v.counters.tcp_out
    ∷ codes ",\"ac_status\":\""
    ∷ state_str v.published.state
    ∷ codes "\",\"server_key\":\""
    ∷ key_text v.published.server_pubkey
    ∷ codes "\"}"
    ∷ [])

unfoldable pub json_response : Bytes → Bytes
json_response body = joined (
    codes "HTTP/1.1 200 OK\r\nContent-Type: application/json\r\nContent-Length: "
    ∷ decimal (length body)
    ∷ codes "\r\nConnection: close\r\n\r\n"
    ∷ body
    ∷ [])

unfoldable pub html_response : Bytes → Bytes
html_response body = joined (
    codes "HTTP/1.1 200 OK\r\nContent-Type: text/html\r\nContent-Length: "
    ∷ decimal (length body)
    ∷ codes "\r\nConnection: close\r\n\r\n"
    ∷ body
    ∷ [])

unfoldable pub main_body : Live → DeviceConfig → AutoConnectConfig → (ssid name url : Bytes) → Bytes
main_body v device autoconnect ssid name url = joined (
    codes "<!doctype html><html><head><meta name=viewport content=\"width=device-width,"
    ∷ codes "initial-scale=1\"><title>espcan_br</title></head><body style=\"font-family:s"
    ∷ codes "ans-serif;max-width:30em;margin:2em auto\"><h2>espcan_br CAN bridge</h2><p>M"
    ∷ codes "ode: <b id=mode>"
    ∷ mode_text v
    ∷ codes "</b><br>WiFi connected: <b id=wifi>"
    ∷ yes_no v.wifi_connected
    ∷ codes "</b><br>STA IP: <b id=staip>"
    ∷ sta_ip_text v.sta_ip
    ∷ codes "</b><br>SSID: <b id=ssid>"
    ∷ html_escape ssid
    ∷ codes "</b></p><h3>Frame counters</h3><table border=1 cellpadding=4 style=border-co"
    ∷ codes "llapse:collapse><tr><th>Interface</th><th>in</th><th>out</th></tr><tr><td>CA"
    ∷ codes "N bus</td><td id=can_rx>"
    ∷ decimal v.counters.rx_count
    ∷ codes "</td><td id=can_tx>"
    ∷ decimal v.counters.tx_count
    ∷ codes "</td></tr><tr><td>Serial (USB)</td><td id=ser_in>"
    ∷ decimal v.counters.ser_in
    ∷ codes "</td><td id=ser_out>"
    ∷ decimal v.counters.ser_out
    ∷ codes "</td></tr><tr><td>TCP</td><td id=tcp_in>"
    ∷ decimal v.counters.tcp_in
    ∷ codes "</td><td id=tcp_out>"
    ∷ decimal v.counters.tcp_out
    ∷ codes "</td></tr></table><p style=color:#888>CAN in = received from bus, out = tran"
    ∷ codes "smitted to bus; serial/TCP in = host&rarr;adapter, out = adapter&rarr;host.<"
    ∷ codes "/p><h3>Device</h3><form method=POST action=/api/device>Name (mDNS <i>"
    ∷ html_escape name
    ∷ codes ".local</i> / AP SSID):<br><input name=name maxlength=32 value=\""
    ∷ html_escape name
    ∷ codes "\" style=width:100%><br>UART (USB) baud:<br><input name=baud type=number val"
    ∷ codes "ue=\""
    ∷ decimal (baud_of device)
    ∷ codes "\" style=width:100%><br><br><button type=submit>Save &amp; reboot</button></"
    ∷ codes "form><h3>WiFi setup</h3><form method=POST action=/api/wifi>SSID:<br><input n"
    ∷ codes "ame=ssid maxlength=32 style=width:100%><br>Password:<br><input name=password"
    ∷ codes " type=password maxlength=64 style=width:100%><br><br><button type=submit>Sav"
    ∷ codes "e &amp; reboot</button></form><h3>Auto-connect (outbound)</h3><p>Status: <b "
    ∷ codes "id=acstatus>"
    ∷ state_str v.published.state
    ∷ codes "</b></p><p style=font-size:smaller>Server key (last TLS connection):<br><cod"
    ∷ codes "e id=srvkey style=word-break:break-all>"
    ∷ shown_key v.published.server_pubkey
    ∷ codes "</code></p><form method=POST action=/api/autoconnect><label><input type=chec"
    ∷ codes "kbox name=enable "
    ∷ checked (enable_set autoconnect)
    ∷ codes "> Enable (dial out, works behind NAT)</label><br>URL:<br><input name=url max"
    ∷ codes "length=256 value=\""
    ∷ html_escape url
    ∷ codes "\" placeholder=\"tls://host:port/?pubkey=..&amp;token=..\" style=width:100%>"
    ∷ codes "<br><small style=color:#888>tcp:// or tls://; optional <b>pubkey</b> (pin se"
    ∷ codes "rver key) and <b>token</b> (auth).</small><br><br><button type=submit>Save &"
    ∷ codes "amp; reboot</button></form>"
    ∷ [])

unfoldable pub login_body : AuthConfig → Bytes → Bytes
login_body auth user = joined (
    codes "<h3>Web login</h3><p>Status: <b>"
    ∷ auth_state (is_set auth)
    ∷ codes "</b></p><form method=POST action=/api/auth>Login:<br><input name=user maxlen"
    ∷ codes "gth=31 value=\""
    ∷ html_escape user
    ∷ codes "\" style=width:100%><br>Password:<br><input name=pass type=password maxlengt"
    ∷ codes "h=63 style=width:100%><br><small style=color:#888>Leave both blank to disabl"
    ∷ codes "e login. Forgot the password? Hold the BOOT (GPIO0) button while opening thi"
    ∷ codes "s page to bypass login and reset it.</small><br><br><button type=submit>Save"
    ∷ codes " login</button></form>"
    ∷ [])

module _ (is_utf8 : Bytes → Bool) where
  -- A text of a configuration whose characters a page reads, from an accessor that does not check it.
  abbrev pub unchecked : Outcome Bytes → Outcome Bytes
  unchecked text = text >>= from_utf8_unchecked is_utf8

  unfoldable pub status_json : {Store : Type 0} → Live → Site Store → Outcome Bytes
  status_json v s = do ssid ← unchecked (ssid_str s.wifi); ok (json_response (json_body v ssid))

  unfoldable pub index_page : {Store : Type 0} → Live → Site Store → Outcome Bytes
  index_page v s = do
    ssid ← unchecked (ssid_str s.wifi)
    name ← unchecked (name_str s.device)
    url ← url_str is_utf8 s.autoconnect
    user ← unchecked (user_str s.auth)
    ok (
        html_response (
          main_body v s.device s.autoconnect ssid name url
          ++ (login_body s.auth user ++ status_script)))
