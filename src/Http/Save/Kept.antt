-- ===== src/Http/Save/Kept.antt =====
-- src/http.rs: what the form of the Wi-Fi leaves for the next boot.
use espcan_br.Base.{
  ◌<◌, ◌≡◌, refl, ◌∙◌, ap, arith, ◌⊎◌, inl, inr, ◌≢◌, false, Bool-cases, lt→ltb, ◌==◌, some, Bytes,
  codes, length, Outcome, ok, absent, panic, Returns, Returns-ok,
}
use espcan_br.Config.Wifi.{
  WifiConfig, wifi_config_magic, set_credentials, is_valid, IsWifi, Stored, set_credentials-Stored,
  set_credentials-marks,
}
use espcan_br.Config.Wifi
use espcan_br.Config.Layout.{WifiFits}
use espcan_br.Config.Flash.{Nvs, DocumentedNvs, Slot, wifi, load, load_slot, save, save_slot-Saved}
use espcan_br.Http.Save.{
  Site, Answer, response, software_reset, save_failed, field, stored, save_wifi,
}

pub Returns-both :
    {A : Type 0} (P Q : A → Type 0) (m : Outcome A)
    → Returns P m
    → Returns Q m
    → Returns (λ a. P a × Q a) m
Returns-both P Q (ok a) h k = (h, k)
Returns-both P Q absent h k = h
Returns-both P Q panic h k = h

module _ (nvs : Nvs) (laws : DocumentedNvs nvs) where
  open nvs use {Store}

  -- The configuration in memory has the credentials, and so has the flash if the device resets.
  pub record Kept (ssid pass : Bytes) (s : Site Store) (r : Site Store × Answer) : Type 0 where
    pub memory : Stored ssid pass r.0.wifi
    pub others : (r.0.device ≡ s.device) × ((r.0.autoconnect ≡ s.autoconnect) × (r.0.auth ≡ s.auth))
    pub ends : (r.1 ≡ software_reset) ⊎ (r.1 ≡ response save_failed)
    pub boots : r.1 ≡ software_reset → load nvs r.0.flash ≡ some r.0.wifi
    pub kept_slots :
        r.1 ≡ software_reset
        → (j : Slot) → j ≢ wifi
        → load_slot nvs j r.0.flash ≡ load_slot nvs j s.flash

  stored-Kept :
      (ssid pass : Bytes) (s : Site Store) (c : WifiConfig)
      → 0 < length ssid
      → Stored ssid pass c
      → (c.magic ≡ wifi_config_magic) × (c.padding ≡ Wifi.new.padding)
      → Kept ssid pass s (stored nvs (save nvs c s.flash) (record s { wifi = c }))
  stored-Kept ssid pass s c some_ssid k (m, p) = elim (Bool-cases (save nvs c s.flash).1) [
    | inr failed ↦ rw failed (record {
      memory = k;
      others = (refl, (refl, refl));
      ends = inr refl;
      boots = λ e. cc;
      kept_slots = λ e. cc;
    })
    | inl done ↦
        let fits : WifiFits c = record {
          magic = omega (arith, m);
          ssid = k.sizes.ssid_size;
          password = k.sizes.password_size;
          padding = ap length p;
        } in
        let saved = save_slot-Saved nvs laws wifi c s.flash fits done in
        rw done (record {
          memory = k;
          others = (refl, (refl, refl));
          ends = inl refl;
          boots = λ e. saved.own ∙ rw (k.valid, lt→ltb 0 (length ssid) some_ssid) refl;
          kept_slots = λ e. saved.others;
        })
  ]

  -- The form of the Wi-Fi, with an SSID that is not empty: the handler returns, the credentials of the
  -- form are in memory, and the other configurations are as they were. The device resets, or the answer
  -- is that saving failed. If it resets, the next boot loads these credentials from the flash, and every
  -- other configuration as before. The flash does what its documentation says.
  pub save_wifi-Kept :
      (body ssid pass : Bytes) (s : Site Store)
      → field body (codes "ssid") 32 ≡ ok ssid
      → field body (codes "password") 64 ≡ ok pass
      → 0 < length ssid
      → Returns (Kept ssid pass s) (save_wifi nvs body s)
  unfolding save_wifi
  save_wifi-Kept body ssid pass s e f some_ssid =
      let (c, made, (kept, marks)) =
        Returns-ok
          (λ c.
            Stored ssid pass c × ((c.magic ≡ wifi_config_magic) × (c.padding ≡ Wifi.new.padding)))
          (set_credentials ssid pass Wifi.new)
          (Returns-both (Stored ssid pass)
            (λ c. (c.magic ≡ wifi_config_magic) × (c.padding ≡ Wifi.new.padding))
            (set_credentials ssid pass Wifi.new) (set_credentials-Stored ssid pass Wifi.new sizes)
            (set_credentials-marks ssid pass Wifi.new sizes)) in
      let named : (length ssid == 0) ≡ false = ground arith in
      rw (e, f, named, made) (stored-Kept ssid pass s c some_ssid kept marks)
    where
      sizes : IsWifi Wifi.new
      sizes = record { ssid_size = refl; password_size = refl }
