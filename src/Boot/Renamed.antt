-- ===== src/Boot/Renamed.antt =====
-- src/http.rs and src/main.rs: the boot behind the form of the device.
use espcan_br.Base.{ℕ, ◌≡◌, ◌⊎◌, false, Bytes}
use espcan_br.Config.Flash.{Nvs}
use espcan_br.Http.Save.{Site}
use espcan_br.Boot.{Started, access_point}

module _ (nvs : Nvs) where
  open nvs use {Store}

  -- A device that came up with a name and a bitrate: the name is the SSID of its access point, if it opens one.
  pub record Renamed (name : Bytes) (baud : ℕ) (s : Site Store) (d : Started Store) : Type 0 where
    pub site : d.site ≡ s
    pub rate : d.baud ≡ baud
    pub radio : (d.radio ≡ access_point name) ⊎ (d.config_mode ≡ false)
