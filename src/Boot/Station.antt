-- ===== src/Boot/Station.antt =====
-- src/http.rs and src/main.rs: the boot behind the form of the Wi-Fi.
use espcan_br.Base.{
  ℕ, true, ◌==◌, List, All, ◌<◌, ◌≤◌, ◌≡◌, refl, ◌∙◌, ap, subst, Bool, false, lt→ltb, some, take,
  take_all, Bytes, codes, length, ok, Returns,
}
use espcan_br.Http.Form.Pairs.{Entry, IsKey, lookup, form_text, value_or, field-form_text}
use espcan_br.Config.Wifi.{Stored}
use espcan_br.Config.Flash.{Nvs, DocumentedNvs, load}
use espcan_br.Http.Save.{Site, software_reset, field, save_wifi}
use espcan_br.Http.Save.Fields.{field-Returns}
use espcan_br.Http.Save.Kept.{Kept, save_wifi-Kept}
use espcan_br.Boot.{Started, station, tasks_of, load_all, config_mode_of, radio_of, boot}
use espcan_br.Boot.Restart.{SaneFlash, Synced-load_all}
use espcan_br.Boot.Forms.{Handled, save_wifi-Handled}
use espcan_br.Boot.Life.{Reach, Good, Handled-Good, Reach-Good}

pub field-le :
    (body key text : Bytes) (room : _) → field body key room ≡ ok text → length text ≤ room
field-le body key text room e =
    subst (Returns (λ t. length t ≤ room)) e (field-Returns body key room)

module _ (nvs : Nvs) where
  open nvs use {Store}

  -- A device that came up as a station with some credentials, and with some configurations.
  pub record AsStation (ssid pass : Bytes) (s : Site Store) (d : Started Store) : Type 0 where
    pub site : d.site ≡ s
    pub no_config_mode : d.config_mode ≡ false
    pub radio : d.radio ≡ station ssid pass
    pub tasks : d.tasks ≡ tasks_of false

  boot-AsStation :
      (ssid pass : Bytes) (s : Site Store)
      → load_all nvs s.flash ≡ ok s
      → load nvs s.flash ≡ some s.wifi
      → 0 < length ssid
      → length ssid ≤ 32
      → length pass ≤ 64
      → Stored ssid pass s.wifi
      → Returns (AsStation ssid pass s) (boot nvs s.flash)
  unfolding boot config_mode_of radio_of
  boot-AsStation ssid pass s e f some_ssid short small k =
      rw (e, f, k.valid, lt→ltb 0 (length ssid) some_ssid, k.name, k.secret)
        (record {
          site = refl;
          no_config_mode = refl;
          radio =
              ap (λ t. station t (take 64 pass)) (take_all 32 ssid short)
              ∙ ap (station ssid) (take_all 64 pass small);
          tasks = refl;
        })

module _ (is_utf8 : Bytes → Bool) (sha256 : Bytes → Bytes) (nvs : Nvs)
    (digest : (bs : Bytes) → length (sha256 bs) ≡ 32) (laws : DocumentedNvs nvs) where
  open nvs use {Store}

  -- A device that booted from a sane flash, without a failed save since, handles the form of the Wi-Fi, with an
  -- SSID that is not empty, and resets: the boot that follows comes up as a station, not in configuration
  -- mode, with the SSID and the password of the form, with the task that associates, and with the
  -- configurations that the handler left in memory. The digest has 32 bytes, and the flash does what its
  -- documentation says.
  pub boot-save_wifi :
      (flash : Store)
      → SaneFlash nvs flash
      → (s s' : Site Store) (body ssid pass : Bytes) → Reach is_utf8 sha256 nvs flash s
      → field body (codes "ssid") 32 ≡ ok ssid
      → field body (codes "password") 64 ≡ ok pass
      → 0 < length ssid
      → save_wifi nvs body s ≡ ok (s', software_reset)
      → Returns (AsStation nvs ssid pass s') (boot nvs s'.flash)
  boot-save_wifi flash sane s s' body ssid pass reached e f some_ssid saves =
      let h : Handled nvs s (s', software_reset) =
        subst (Returns (Handled nvs s)) saves (save_wifi-Handled nvs body s) in
      let k : Kept nvs laws ssid pass s (s', software_reset) =
        subst (Returns (Kept nvs laws ssid pass s)) saves
          (save_wifi-Kept nvs laws body ssid pass s e f some_ssid) in
      let g : Good nvs s' =
        Handled-Good nvs laws s s' software_reset
          (Reach-Good is_utf8 sha256 nvs digest laws flash sane s reached) h (λ e. cc) in
      boot-AsStation nvs ssid pass s' (Synced-load_all nvs s' g.synced) (k.boots refl) some_ssid
        (field-le body (codes "ssid") ssid 32 e) (field-le body (codes "password") pass 64 f)
        k.memory

module _ (is_utf8 : Bytes → Bool) (sha256 : Bytes → Bytes) (nvs : Nvs)
    (digest : (bs : Bytes) → length (sha256 bs) ≡ 32) (laws : DocumentedNvs nvs) where
  open nvs use {Store}

  -- A device that booted from a sane flash, without a failed save since, gets the form of the Wi-Fi from a
  -- browser: fields whose names have neither `=` nor `&`, in the encoding of forms, among them an SSID of 1 to
  -- 32 bytes and a password of at most 64. If it resets, the boot that follows comes up as a station, not in
  -- configuration mode, with this SSID and this password, with the task that associates, and with the
  -- configurations that the handler left in memory. The digest has 32 bytes, the flash does what its
  -- documentation says, and the browser sends none of `%`, `+` and `&` of a value as it is.
  pub boot-wifi_form :
      (keep : ℕ → Bool)
      → ((b : ℕ) → keep b ≡ true → (b == b'&') ≡ false)
      → ((b : ℕ) → keep b ≡ true → ((b == b'%') ≡ false) × ((b == b'+') ≡ false))
      → (flash : Store) → SaneFlash nvs flash
      → (s s' : Site Store) (entries : List Entry) (ssid pass : Bytes)
      → Reach is_utf8 sha256 nvs flash s
      → All (λ e. IsKey e.0 × All (λ b. b < 256) e.1) entries
      → lookup entries (codes "ssid") ≡ some ssid
      → lookup entries (codes "password") ≡ some pass
      → 0 < length ssid
      → length ssid ≤ 32
      → length pass ≤ 64
      → save_wifi nvs (form_text keep entries) s ≡ ok (s', software_reset)
      → Returns (AsStation nvs ssid pass s') (boot nvs s'.flash)
  boot-wifi_form keep apart kept flash sane s s' entries ssid pass reached typed e f some_ssid short
        small saves =
      boot-save_wifi is_utf8 sha256 nvs digest laws flash sane s s' (form_text keep entries) ssid
        pass reached
        (field-form_text keep apart kept entries (codes "ssid") 32 typed
          ∙ ap (λ o. ok (take 32 (value_or o))) e
          ∙ ap ok (take_all 32 ssid short))
        (field-form_text keep apart kept entries (codes "password") 64 typed
          ∙ ap (λ o. ok (take 64 (value_or o))) f
          ∙ ap ok (take_all 64 pass small))
        some_ssid saves
