-- ===== src/Boot/Forms.antt =====
-- src/http.rs: what the handlers of the forms leave in memory and on flash.
use espcan_br.Base.{
  ℕ, ◌^◌, ◌≤◌, ◌<◌, ◌≡◌, refl, ◌∙◌, arith, ◌⊎◌, inl, inr, Bool, true, false, not, ◌&&◌, ◌==◌, ltb,
  lt→ltb, has, if◌then◌else◌, none, some, [], Bytes, codes, length, Outcome, ok, ◌>>=◌, Returns,
  Returns-bind, Returns-mono, Returns-if,
}
use espcan_br.Config.Wifi.{WifiConfig, set_credentials, Stored, set_credentials-Stored}
use espcan_br.Config.Wifi as Wifi
use espcan_br.Config.Device.{
  DeviceConfig, set_device, defaults, default_uart_baud, Named, set_device-Named,
}
use espcan_br.Config.AutoConnect.{
  AutoConnectConfig, set_autoconnect, url_max, Dials, set_autoconnect-Dials,
}
use espcan_br.Config.AutoConnect as AutoConnect
use espcan_br.Config.Auth.{AuthConfig, set_auth}
use espcan_br.Config.Auth as Auth
use espcan_br.Config.Layout.{AuthFits}
use espcan_br.Config.Device as Device
use espcan_br.Config.Setters.{
  WifiSane, DeviceSane, AutoConnectBounded, AuthBounded, set_credentials-WifiSane,
  set_device-DeviceSane, defaults-DeviceSane, set_autoconnect-AutoConnectBounded,
  set_auth-AuthBounded, set_auth-is_valid,
}
use espcan_br.Config.Flash.{Nvs, Slot, wifi, device, autoconnect, auth, Config, codec, save_slot}
use espcan_br.Http.Request.{find_form_value}
use espcan_br.Http.Save.{
  Site, Answer, response, software_reset, save_failed, bad_request, bad_name, stored, field,
  all_name_chars, baud_value, save_wifi, save_device_form, save_autoconnect_form, save_auth_form,
}
use espcan_br.Http.Save.Fields.{field-Returns, baud_value-lt}
use espcan_br.Http.Save.Kept.{Returns-both}
use espcan_br.Boot.Restart.{Bounded, put, flashed}

module _ (nvs : Nvs) where
  open nvs use {Store}

  -- A handler leaves all as it was and answers, or puts a valid configuration in memory and saves it; unless
  -- that succeeds, the answer is that saving failed.
  pub data Handled (s : Site Store) : Site Store × Answer → Type 0 where
    unchanged : (text : Bytes) → Handled s (s, response text)
    saved :
        (k : Slot) (c : Config k) (a : Answer)
        → Bounded k c
        → (codec k).is_valid c ≡ true
        → ((save_slot nvs k c s.flash).1 ≡ true) ⊎ (a ≡ response save_failed)
        → Handled s (flashed (save_slot nvs k c s.flash).0 (put k c s), a)

  nonempty-lt : (n : ℕ) → (n == 0) ≡ false → 0 < n
  nonempty-lt n h = ground arith

  some_name : (n : ℕ) (b : Bool) → not (ltb 0 n && b) ≡ false → 0 < n
  some_name n b h = ground arith

  ends-save :
      (b : Bool) (a : Answer)
      → (b ≡ true) ⊎ ((if b then a else response save_failed) ≡ response save_failed)
  ends-save true a = inl refl
  ends-save false a = inr refl

  stored-Handled :
      (k : Slot) (c : Config k) (s : Site Store)
      → Bounded k c
      → (codec k).is_valid c ≡ true
      → Handled s (stored nvs (save_slot nvs k c s.flash) (put k c s))
  stored-Handled wifi c s v valid =
      saved wifi c _ v valid (ends-save (save_slot nvs wifi c s.flash).1 software_reset)
  stored-Handled device c s v valid =
      saved device c _ v valid (ends-save (save_slot nvs device c s.flash).1 software_reset)
  stored-Handled autoconnect c s v valid =
      saved autoconnect c _ v valid
        (ends-save (save_slot nvs autoconnect c s.flash).1 software_reset)
  stored-Handled auth c s v valid =
      saved auth c _ v valid (ends-save (save_slot nvs auth c s.flash).1 software_reset)

  ends-text :
      (b : Bool) (text : Bytes)
      → (b ≡ true) ⊎ (response (if b then text else save_failed) ≡ response save_failed)
  ends-text true text = inl refl
  ends-text false text = inr refl

  texted-Handled :
      (c : AuthConfig) (s : Site Store) (text : Bytes)
      → AuthBounded c
      → Auth.is_valid c ≡ true
      → Handled s (
        flashed (save_slot nvs auth c s.flash).0 (put auth c s),
        response (if (save_slot nvs auth c s.flash).1 then text else save_failed),
      )
  texted-Handled c s text v valid =
      saved auth c _ v valid (ends-text (save_slot nvs auth c s.flash).1 text)

  -- The configuration that a setter makes, saved.
  set-Handled :
      (k : Slot) (m : Outcome (Config k)) (s : Site Store)
      → Returns (λ c. Bounded k c × ((codec k).is_valid c ≡ true)) m
      → Returns (Handled s) (m >>= λ c. ok (stored nvs (save_slot nvs k c s.flash) (put k c s)))
  set-Handled k m s h =
      Returns-bind (λ c. Bounded k c × ((codec k).is_valid c ≡ true)) (Handled s) m
        (λ c. ok (stored nvs (save_slot nvs k c s.flash) (put k c s))) h
        (λ c (v, valid). stored-Handled k c s v valid)

  -- The form of the Wi-Fi.
  pub save_wifi-Handled :
      (body : Bytes) (s : Site Store) → Returns (Handled s) (save_wifi nvs body s)
  unfolding save_wifi
  save_wifi-Handled body s =
      Returns-bind (λ t. length t ≤ 32) (Handled s) (field body (codes "ssid") 32) _
        (field-Returns body (codes "ssid") 32)
        (λ ssid _.
          Returns-bind (λ t. length t ≤ 64) (Handled s) (field body (codes "password") 64) _
            (field-Returns body (codes "password") 64)
            (λ pass _.
              Returns-if (Handled s) (length ssid == 0) _ _ (λ _. unchanged bad_request)
                (λ named.
                  set-Handled wifi (set_credentials ssid pass Wifi.new) s (made ssid pass named))))
    where
      made :
          (ssid pass : Bytes)
          → (length ssid == 0) ≡ false
          → Returns
              (λ c. WifiSane c × (Wifi.is_valid c ≡ true))
              (set_credentials ssid pass Wifi.new)
      made ssid pass named =
          Returns-both WifiSane (λ c. Wifi.is_valid c ≡ true) (set_credentials ssid pass Wifi.new)
            (set_credentials-WifiSane ssid pass Wifi.new
              (record { magic = omega arith; ssid = refl; password = refl; padding = refl }))
            (Returns-mono (Stored ssid pass) (λ c. Wifi.is_valid c ≡ true)
              (set_credentials ssid pass Wifi.new)
              (set_credentials-Stored ssid pass Wifi.new
                (record { ssid_size = refl; password_size = refl }))
              (λ c k. k.valid ∙ lt→ltb 0 (length ssid) (nonempty-lt (length ssid) named)))

  pub save_device_form-Handled :
      (is_utf8 : Bytes → Bool) (body : Bytes) (s : Site Store)
      → Returns (Handled s) (save_device_form nvs is_utf8 body s)
  unfolding save_device_form
  save_device_form-Handled is_utf8 body s =
      Returns-bind (λ t. length t ≤ 32) (Handled s) (field body (codes "name") 32) _
        (field-Returns body (codes "name") 32)
        (λ name _.
          Returns-if (Handled s) (not (ltb 0 (length name) && all_name_chars name)) _ _
            (λ _. unchanged bad_name)
            (λ named.
              Returns-bind (λ t. length t ≤ 16) (Handled s) (field body (codes "baud") 16) _
                (field-Returns body (codes "baud") 16)
                (λ baud _.
                  Returns-bind DeviceSane (Handled s) defaults _ defaults-DeviceSane (λ cfg₀ v.
                    set-Handled device (set_device name (baud_value is_utf8 baud) cfg₀) s (
                      made name (baud_value is_utf8 baud) cfg₀
                        (some_name (length name) (all_name_chars name) named)
                        (baud_value-lt is_utf8 baud) v)))))
    where
      made :
          (name : Bytes) (baud : ℕ) (c₀ : DeviceConfig)
          → 0 < length name
          → baud < 2 ^ 32
          → DeviceSane c₀
          → Returns (λ c. DeviceSane c × (Device.is_valid c ≡ true)) (set_device name baud c₀)
      made name baud c₀ named small v =
          Returns-both DeviceSane (λ c. Device.is_valid c ≡ true) (set_device name baud c₀)
            (set_device-DeviceSane name baud c₀ v.fits small)
            (Returns-mono (Named name baud) (λ c. Device.is_valid c ≡ true)
              (set_device name baud c₀) (set_device-Named name baud c₀ v.fits.name)
              (λ c k. k.valid ∙ lt→ltb 0 (length name) named))

  pub save_autoconnect_form-Handled :
      (is_utf8 : Bytes → Bool) (body : Bytes) (s : Site Store)
      → Returns (Handled s) (save_autoconnect_form nvs is_utf8 body s)
  unfolding save_autoconnect_form
  save_autoconnect_form-Handled is_utf8 body s =
      Returns-bind (λ t. length t ≤ url_max) (Handled s) (field body (codes "url") url_max) _
        (field-Returns body (codes "url") url_max)
        (λ text _.
          set-Handled autoconnect
            (set_autoconnect
              (elim (find_form_value body (codes "enable")) [ none ↦ false | some v ↦ true ])
              (if is_utf8 text then text else []) AutoConnect.new)
            s (made _ (if is_utf8 text then text else [])))
    where
      made :
          (enable : Bool) (url : Bytes)
          → Returns
              (λ c. AutoConnectBounded c × (AutoConnect.is_valid c ≡ true))
              (set_autoconnect enable url AutoConnect.new)
      made enable url =
          Returns-both AutoConnectBounded (λ c. AutoConnect.is_valid c ≡ true)
            (set_autoconnect enable url AutoConnect.new)
            (set_autoconnect-AutoConnectBounded enable url AutoConnect.new
              (record { magic = omega arith; url_len = omega arith; url = refl }) (omega arith))
            (Returns-mono (Dials is_utf8 enable url) (λ c. AutoConnect.is_valid c ≡ true)
              (set_autoconnect enable url AutoConnect.new)
              (set_autoconnect-Dials is_utf8 enable url AutoConnect.new refl) (λ c k. k.valid))

  module _ (sha256 : Bytes → Bytes) (digest : (bs : Bytes) → length (sha256 bs) ≡ 32) where
    pub save_auth_form-Handled :
        (random : ℕ → ℕ) (body : Bytes) (s : Site Store)
        → Returns (Handled s) (save_auth_form nvs sha256 random body s)
    unfolding save_auth_form
    save_auth_form-Handled random body s =
        Returns-bind (λ t. length t ≤ 32) (Handled s) (field body (codes "user") 32) _
          (field-Returns body (codes "user") 32)
          (λ user _.
            Returns-bind (λ t. length t ≤ 64) (Handled s) (field body (codes "pass") 64) _
              (field-Returns body (codes "pass") 64)
              (λ pass _.
                Returns-if (Handled s) (has b':' user) _ _ (λ _. unchanged _)
                  (λ _.
                    Returns-bind (λ c. AuthBounded c × (Auth.is_valid c ≡ true)) (Handled s)
                      (set_auth sha256 random user pass Auth.new) _ (made user pass)
                      (λ c (v, valid). texted-Handled c s _ v valid))))
      where
        blank : AuthFits Auth.new
        blank = record {
          magic = omega arith;
          user = refl;
          padding = refl;
          salt = refl;
          pass_hash = refl;
        }

        made :
            (user pass : Bytes)
            → Returns
                (λ c. AuthBounded c × (Auth.is_valid c ≡ true))
                (set_auth sha256 random user pass Auth.new)
        made user pass =
            Returns-both AuthBounded (λ c. Auth.is_valid c ≡ true)
              (set_auth sha256 random user pass Auth.new)
              (set_auth-AuthBounded sha256 digest random user pass Auth.new blank)
              (set_auth-is_valid sha256 digest random user pass Auth.new blank)
