-- ===== src/Boot.antt =====
-- src/main.rs: what `main` does with the stored configurations, up to the start of the tasks. The set-up of
-- the peripherals and of the network stacks is left out.
pub mod Restart
pub mod Forms
pub mod Answers
pub mod Life
pub mod Serving
pub mod Station
pub mod Renamed
use espcan_br.Base.{
  ℕ, Bool, true, false, not, if◌then◌else◌, Option, none, some, List, [], ◌∷◌, ◌++◌, Bytes, Outcome,
  ok, ◌>>=◌,
}
use espcan_br.Config.Wifi.{WifiConfig, ssid_str, password_str}
use espcan_br.Config.Wifi
use espcan_br.Config.Device.{DeviceConfig, name_str, baud_of, defaults}
use espcan_br.Config.AutoConnect
use espcan_br.Config.Auth
use espcan_br.Config.Flash.{Nvs, load, load_device, load_autoconnect, load_auth}
use espcan_br.Http.Save.{Site}

-- The configuration of the radio: an open access point with an SSID, or a station.
pub data Radio : Type 0 where
  access_point : (ssid : Bytes) → Radio
  station : (ssid password : Bytes) → Radio

-- What `main` spawns.
pub data Task : Type 0 where
  gpio0_monitor can_rx_task uart_port tcp_port_ap tcp_port_sta net_task_ap net_task_sta : Task
  sta_ip_monitor dhcp_server http_server_ap http_server_sta responder_task : Task
  autoconnect_task connection_task : Task

pub record Started (Store : Type 0) : Type 0 where
  pub site : Site Store
  pub config_mode : Bool
  pub baud : ℕ
  pub radio : Radio
  pub tasks : List Task

abbrev pub unwrap_or {ℓ} : {A : Type ℓ} → A → Option A → A
unwrap_or a none = a
unwrap_or a (some b) = b

-- `!saved.map(|c| c.is_valid()).unwrap_or(false)`
unfoldable pub config_mode_of : Option WifiConfig → Bool
config_mode_of none = true
config_mode_of (some c) = not (Wifi.is_valid c)

abbrev pub device_or_defaults : Option DeviceConfig → Outcome DeviceConfig
device_or_defaults none = defaults
device_or_defaults (some d) = ok d

unfoldable pub radio_of : Bool → DeviceConfig → WifiConfig → Outcome Radio
radio_of true dev cfg = do name ← name_str dev; ok (access_point name)
radio_of false dev cfg = do
  ssid ← ssid_str cfg
  password ← password_str cfg
  ok (station ssid password)

unfoldable pub tasks_of : Bool → List Task
tasks_of config_mode =
    (gpio0_monitor ∷ can_rx_task ∷ uart_port ∷ tcp_port_ap ∷ tcp_port_sta ∷ net_task_ap
      ∷ net_task_sta ∷ sta_ip_monitor ∷ dhcp_server ∷ http_server_ap ∷ http_server_sta
      ∷ responder_task ∷ autoconnect_task ∷ [])
    ++ (if config_mode then [] else connection_task ∷ [])

module _ (nvs : Nvs) where
  open nvs use {Store}

  -- The configurations in memory behind the loads; the flash is as it was.
  unfoldable pub load_all : Store → Outcome (Site Store)
  load_all flash = do
    dev ← device_or_defaults (load_device nvs flash)
    ok (record {
      wifi = unwrap_or Wifi.new (load nvs flash);
      device = dev;
      autoconnect = unwrap_or AutoConnect.new (load_autoconnect nvs flash);
      auth = unwrap_or Auth.new (load_auth nvs flash);
      flash = flash;
    })

  unfoldable pub boot : Store → Outcome (Started Store)
  boot flash = do
    site ← load_all flash
    let config_mode = config_mode_of (load nvs flash)
    radio ← radio_of config_mode site.device site.wifi
    ok (record {
      site = site;
      config_mode = config_mode;
      baud = baud_of site.device;
      radio = radio;
      tasks = tasks_of config_mode;
    })
