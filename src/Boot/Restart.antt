-- ===== src/Boot/Restart.antt =====
-- src/main.rs and src/config.rs: the configurations in memory against those that the next boot loads.
use espcan_br.Base.{
  ◌≡◌, refl, sym, ◌∙◌, ap, subst, arith, ◌⊎◌, inl, inr, ◌≢◌, true, Option, none, some, Outcome, ok,
  ok-injective, Returns, Returns-mono, Returns-ok,
}
use espcan_br.Config.Wifi as Wifi
use espcan_br.Config.AutoConnect as AutoConnect
use espcan_br.Config.Auth as Auth
use espcan_br.Config.Device.{DeviceConfig}
use espcan_br.Config.Setters.{
  WifiSane, DeviceSane, AutoConnectSane, AutoConnectBounded, AuthSane, AuthBounded,
  defaults-DeviceSane,
}
use espcan_br.Config.Flash.{
  Nvs, DocumentedNvs, Slot, wifi, device, autoconnect, auth, Config, codec, Fits, load_slot,
  save_slot, save_slot-Saved,
}
use espcan_br.Http.Save.{Site}
use espcan_br.Boot.{unwrap_or, device_or_defaults, load_all}

-- A configuration of the types of its fields, its texts within their fields.
abbrev pub Sane : (k : Slot) → Config k → Type 0
Sane wifi = WifiSane
Sane device = DeviceSane
Sane autoconnect = AutoConnectSane
Sane auth = AuthSane

-- The words and the one-byte fields of a configuration within their width, its arrays of their length, and
-- all its texts, the URL among them, within their arrays.
abbrev pub Bounded : (k : Slot) → Config k → Type 0
Bounded wifi = WifiSane
Bounded device = DeviceSane
Bounded autoconnect = AutoConnectBounded
Bounded auth = AuthBounded

pub Bounded-Sane : (k : Slot) (c : Config k) → Bounded k c → Sane k c
Bounded-Sane wifi c v = v
Bounded-Sane device c v = v
Bounded-Sane autoconnect c v = v.sane
Bounded-Sane auth c v = v.sane

pub Sane-Fits : (k : Slot) (c : Config k) → Sane k c → Fits k c
Sane-Fits wifi c v = v.fits
Sane-Fits device c v = v.fits
Sane-Fits autoconnect c v = v.fits
Sane-Fits auth c v = v.fits

abbrev pub memory : {Store : Type 0} → (k : Slot) → Site Store → Config k
memory wifi s = s.wifi
memory device s = s.device
memory autoconnect s = s.autoconnect
memory auth s = s.auth

abbrev pub put : {Store : Type 0} → (k : Slot) → Config k → Site Store → Site Store
put wifi c s = record s { wifi = c }
put device c s = record s { device = c }
put autoconnect c s = record s { autoconnect = c }
put auth c s = record s { auth = c }

abbrev pub flashed : {Store : Type 0} → Store → Site Store → Site Store
flashed t s = record s { flash = t }

-- Two slots are one or differ.
slot-cases : (j k : Slot) → (j ≡ k) ⊎ (j ≢ k)
slot-cases wifi wifi = inl refl
slot-cases wifi device = inr (λ e. cc)
slot-cases wifi autoconnect = inr (λ e. cc)
slot-cases wifi auth = inr (λ e. cc)
slot-cases device wifi = inr (λ e. cc)
slot-cases device device = inl refl
slot-cases device autoconnect = inr (λ e. cc)
slot-cases device auth = inr (λ e. cc)
slot-cases autoconnect wifi = inr (λ e. cc)
slot-cases autoconnect device = inr (λ e. cc)
slot-cases autoconnect autoconnect = inl refl
slot-cases autoconnect auth = inr (λ e. cc)
slot-cases auth wifi = inr (λ e. cc)
slot-cases auth device = inr (λ e. cc)
slot-cases auth autoconnect = inr (λ e. cc)
slot-cases auth auth = inl refl

-- What holds of the stored configuration, and of every other one before, holds of each afterwards.
put-each :
    {Store : Type 0} (P : (j : Slot) → Config j → Type 0) (k : Slot) (c : Config k) (s : Site Store)
    (t : Store)
    → P k c
    → ((j : Slot) → j ≢ k → P j (memory j s))
    → (j : Slot) → P j (memory j (flashed t (put k c s)))
put-each P wifi c s t own others wifi = own
put-each P wifi c s t own others device = others device (λ e. cc)
put-each P wifi c s t own others autoconnect = others autoconnect (λ e. cc)
put-each P wifi c s t own others auth = others auth (λ e. cc)
put-each P device c s t own others wifi = others wifi (λ e. cc)
put-each P device c s t own others device = own
put-each P device c s t own others autoconnect = others autoconnect (λ e. cc)
put-each P device c s t own others auth = others auth (λ e. cc)
put-each P autoconnect c s t own others wifi = others wifi (λ e. cc)
put-each P autoconnect c s t own others device = others device (λ e. cc)
put-each P autoconnect c s t own others autoconnect = own
put-each P autoconnect c s t own others auth = others auth (λ e. cc)
put-each P auth c s t own others wifi = others wifi (λ e. cc)
put-each P auth c s t own others device = others device (λ e. cc)
put-each P auth c s t own others autoconnect = others autoconnect (λ e. cc)
put-each P auth c s t own others auth = own

-- The configuration that a boot has behind a load.
abbrev pub boot_slot : (k : Slot) → Option (Config k) → Outcome (Config k)
boot_slot wifi o = ok (unwrap_or Wifi.new o)
boot_slot device o = device_or_defaults o
boot_slot autoconnect o = ok (unwrap_or AutoConnect.new o)
boot_slot auth o = ok (unwrap_or Auth.new o)

boot_slot-some : (k : Slot) (c : Config k) → boot_slot k (some c) ≡ ok c
boot_slot-some wifi c = refl
boot_slot-some device c = refl
boot_slot-some autoconnect c = refl
boot_slot-some auth c = refl

boot_slot-none : (k : Slot) → Returns (Bounded k) (boot_slot k none)
boot_slot-none wifi = record {
  fits = record { magic = omega arith; ssid = refl; password = refl; padding = refl };
  ssid_len = omega arith;
  password_len = omega arith;
}
boot_slot-none device = defaults-DeviceSane
boot_slot-none autoconnect = record {
  sane = record { fits = record { magic = omega arith; url_len = omega arith; url = refl } };
  enable = omega arith;
  padding = omega arith;
  url_len = omega arith;
}
boot_slot-none auth = record {
  sane = record {
    fits = record {
      magic = omega arith;
      user = refl;
      padding = refl;
      salt = refl;
      pass_hash = refl;
    };
    user_len = omega arith;
  };
  has_pass = omega arith;
}

module _ (nvs : Nvs) where
  open nvs use {Store}

  -- What a boot loads is what is in memory.
  abbrev pub Synced : Site Store → Type 0
  Synced s = (k : Slot) → boot_slot k (load_slot nvs k s.flash) ≡ ok (memory k s)

  abbrev pub AllSane : Site Store → Type 0
  AllSane s = (k : Slot) → Sane k (memory k s)

  abbrev pub AllBounded : Site Store → Type 0
  AllBounded s = (k : Slot) → Bounded k (memory k s)

  -- Every slot of the flash is empty or has a configuration with its texts within their fields.
  abbrev pub SaneFlash : Store → Type 0
  SaneFlash flash = (k : Slot) (c : Config k) → load_slot nvs k flash ≡ some c → Sane k c

  -- The same with every one-byte field within its width, and the URL within its array.
  abbrev pub BoundedFlash : Store → Type 0
  BoundedFlash flash = (k : Slot) (c : Config k) → load_slot nvs k flash ≡ some c → Bounded k c

  pub BoundedFlash-SaneFlash : (flash : Store) → BoundedFlash flash → SaneFlash flash
  BoundedFlash-SaneFlash flash h k c e = Bounded-Sane k c (h k c e)

  pub Synced-load_all : (s : Site Store) → Synced s → load_all nvs s.flash ≡ ok s
  unfolding load_all
  Synced-load_all s h = rw (h device) (λ i. ok (record {
    wifi = ok-injective (h wifi) i;
    device = s.device;
    autoconnect = ok-injective (h autoconnect) i;
    auth = ok-injective (h auth) i;
    flash = s.flash;
  }))

  boot_slot-Sane :
      (k : Slot) (flash : Store)
      → SaneFlash flash
      → (o : Option (Config k)) → load_slot nvs k flash ≡ o
      → Returns (Sane k) (boot_slot k o)
  boot_slot-Sane k flash h none e =
      Returns-mono (Bounded k) (Sane k) (boot_slot k none) (boot_slot-none k) (Bounded-Sane k)
  boot_slot-Sane k flash h (some c) e =
      subst (Returns (Sane k)) (sym (boot_slot-some k c)) (h k c e)

  boot_slot-Bounded :
      (k : Slot) (flash : Store)
      → BoundedFlash flash
      → (o : Option (Config k)) → load_slot nvs k flash ≡ o
      → Returns (Bounded k) (boot_slot k o)
  boot_slot-Bounded k flash h none e = boot_slot-none k
  boot_slot-Bounded k flash h (some c) e =
      subst (Returns (Bounded k)) (sym (boot_slot-some k c)) (h k c e)

  -- What a boot loads from such a flash is bounded.
  pub Synced-AllBounded : (s : Site Store) → Synced s → BoundedFlash s.flash → AllBounded s
  Synced-AllBounded s h bounded k =
      subst (Returns (Bounded k)) (h k)
        (boot_slot-Bounded k s.flash bounded (load_slot nvs k s.flash) refl)

  -- What a boot brings up.
  pub record Booted (flash : Store) (s : Site Store) : Type 0 where
    pub kept : s.flash ≡ flash
    pub sane : AllSane s
    pub synced : Synced s

  pub load_all-Booted :
      (flash : Store) → SaneFlash flash → Returns (Booted flash) (load_all nvs flash)
  unfolding load_all
  load_all-Booted flash h = rw d.1 (record { kept = refl; sane = all_sane; synced = all_synced })
    where
      loaded : (k : Slot) → Returns (Sane k) (boot_slot k (load_slot nvs k flash))
      loaded k = boot_slot-Sane k flash h (load_slot nvs k flash) refl

      d :
          (c : DeviceConfig) × (device_or_defaults (load_slot nvs device flash) ≡ ok c)
          × DeviceSane c
      d = Returns-ok DeviceSane (device_or_defaults (load_slot nvs device flash)) (loaded device)

      site : Site Store
      site = record {
        wifi = unwrap_or Wifi.new (load_slot nvs wifi flash);
        device = d.0;
        autoconnect = unwrap_or AutoConnect.new (load_slot nvs autoconnect flash);
        auth = unwrap_or Auth.new (load_slot nvs auth flash);
        flash = flash;
      }

      all_sane : (k : Slot) → Sane k (memory k site)
      all_sane wifi = loaded wifi
      all_sane device = d.2
      all_sane autoconnect = loaded autoconnect
      all_sane auth = loaded auth

      all_synced : (k : Slot) → boot_slot k (load_slot nvs k flash) ≡ ok (memory k site)
      all_synced wifi = refl
      all_synced device = d.1
      all_synced autoconnect = refl
      all_synced auth = refl

  -- A flash that is in step with sane configurations is sane.
  pub Synced-SaneFlash : (s : Site Store) → Synced s → AllSane s → SaneFlash s.flash
  Synced-SaneFlash s h v k c e =
      subst (Sane k)
        (sym (ok-injective (sym (boot_slot-some k c) ∙ ap (boot_slot k) (sym e) ∙ h k))) (v k)

  pub put-AllSane :
      (k : Slot) (c : Config k) (s : Site Store) (t : Store)
      → Sane k c
      → AllSane s
      → AllSane (flashed t (put k c s))
  put-AllSane k c s t v h = put-each Sane k c s t v (λ j other. h j)

  pub put-AllBounded :
      (k : Slot) (c : Config k) (s : Site Store) (t : Store)
      → Bounded k c
      → AllBounded s
      → AllBounded (flashed t (put k c s))
  put-AllBounded k c s t v h = put-each Bounded k c s t v (λ j other. h j)

  module _ (laws : DocumentedNvs nvs) where
    -- A valid configuration that is put in memory and saved.
    pub save_slot-Synced :
        (k : Slot) (c : Config k) (s : Site Store)
        → Sane k c
        → (codec k).is_valid c ≡ true
        → (save_slot nvs k c s.flash).1 ≡ true
        → Synced s
        → Synced (flashed (save_slot nvs k c s.flash).0 (put k c s))
    save_slot-Synced k c s v valid done h =
        let saved = save_slot-Saved nvs laws k c s.flash (Sane-Fits k c v) done in
        put-each (λ j m. boot_slot j (load_slot nvs j (save_slot nvs k c s.flash).0) ≡ ok m) k c s
          (save_slot nvs k c s.flash).0
          (ap (boot_slot k) (rw valid at saved.own) ∙ boot_slot-some k c)
          (λ j other. ap (boot_slot j) (saved.others j other) ∙ h j)
