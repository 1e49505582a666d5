-- ===== src/Config/Setters.antt =====
-- src/config.rs: what the setters store is of the types of its fields, with lengths within their fields.
use espcan_br.Base.{
  ℕ, ◌^◌, ◌≤◌, ◌<◌, ◌≡◌, refl, arith, u8, u16, min, Bool, true, false, Bool-cases, inl, inr, ◌==◌,
  ◌||◌, if◌then◌else◌, Bytes, length, Returns, Returns-of,
}
use espcan_br.Config.Copied.{Copied, copy_front-Copied}
use espcan_br.Config.Wifi.{WifiConfig, wifi_config_magic, set_credentials}
use espcan_br.Config.Device.{
  DeviceConfig, device_config_magic, set_device, default_name, default_uart_baud, defaults,
}
use espcan_br.Config.Device
use espcan_br.Config.AutoConnect.{
  AutoConnectConfig, autoconn_config_magic, set_autoconnect, url_max,
}
use espcan_br.Config.Auth.{AuthConfig, is_valid, set_auth, salted_hash}
use espcan_br.Config.Layout.{WifiFits, DeviceFits, AutoConnectFits, AuthFits}

-- The length of a text within its field; `url_str` has the case of a longer URL.
pub record WifiSane (c : WifiConfig) : Type 0 where
  pub fits : WifiFits c
  pub ssid_len : c.ssid_len ≤ 32
  pub password_len : c.password_len ≤ 64

pub record DeviceSane (c : DeviceConfig) : Type 0 where
  pub fits : DeviceFits c
  pub name_len : c.name_len ≤ 32

pub record AutoConnectSane (c : AutoConnectConfig) : Type 0 where
  pub fits : AutoConnectFits c

pub record AuthSane (c : AuthConfig) : Type 0 where
  pub fits : AuthFits c
  pub user_len : c.user_len ≤ 32

-- Every one-byte field within its width as well, and the URL within its array.
pub record AutoConnectBounded (c : AutoConnectConfig) : Type 0 where
  pub sane : AutoConnectSane c
  pub enable : c.enable < 2 ^ 8
  pub padding : c.padding < 2 ^ 8
  pub url_len : c.url_len ≤ url_max

pub record AuthBounded (c : AuthConfig) : Type 0 where
  pub sane : AuthSane c
  pub has_pass : c.has_pass < 2 ^ 8

pub set_credentials-WifiSane :
    (ssid password : Bytes) (c : WifiConfig)
    → WifiFits c
    → Returns WifiSane (set_credentials ssid password c)
unfolding set_credentials
set_credentials-WifiSane ssid password c v =
    Returns-of WifiSane made (rw (s.made, p.made) refl) (record {
      fits = record { magic = omega arith; ssid = s.size; password = p.size; padding = v.padding };
      ssid_len = omega arith;
      password_len = omega arith;
    })
  where
    s : Copied c.ssid ssid 32 (u8 (min (length ssid) 32))
    s = copy_front-Copied c.ssid ssid 32 _ v.ssid (omega arith)

    p : Copied c.password password 64 (u8 (min (length password) 64))
    p = copy_front-Copied c.password password 64 _ v.password (omega arith)

    made : WifiConfig
    made = record {
      magic = wifi_config_magic;
      ssid = s.out;
      ssid_len = u8 (min (length ssid) 32);
      password = p.out;
      password_len = u8 (min (length password) 64);
      padding = c.padding;
    }

pub set_device-DeviceSane :
    (name : Bytes) (baud : ℕ) (c : DeviceConfig)
    → DeviceFits c
    → baud < 2 ^ 32
    → Returns DeviceSane (set_device name baud c)
unfolding set_device
set_device-DeviceSane name baud c v small = Returns-of DeviceSane made (rw s.made refl) (record {
  fits = record { magic = omega arith; name = s.size; padding = v.padding; baud = small };
  name_len = omega arith;
})
  where
    s : Copied c.name name 32 (u8 (min (length name) 32))
    s = copy_front-Copied c.name name 32 _ v.name (omega arith)

    made : DeviceConfig
    made = record {
      magic = device_config_magic;
      name = s.out;
      name_len = u8 (min (length name) 32);
      padding = c.padding;
      baud = baud;
    }

pub defaults-DeviceSane : Returns DeviceSane defaults
unfolding defaults
defaults-DeviceSane =
    set_device-DeviceSane default_name default_uart_baud Device.new
      (record { magic = omega arith; name = refl; padding = refl; baud = omega arith })
      (omega arith)

pub set_autoconnect-AutoConnectBounded :
    (enable : Bool) (url : Bytes) (c : AutoConnectConfig)
    → AutoConnectFits c
    → c.padding < 2 ^ 8
    → Returns AutoConnectBounded (set_autoconnect enable url c)
unfolding set_autoconnect
set_autoconnect-AutoConnectBounded enable url c v small =
    Returns-of AutoConnectBounded made (rw s.made refl) (record {
      sane = record { fits = record { magic = omega arith; url_len = omega arith; url = s.size } };
      enable = flag_lem enable;
      padding = small;
      url_len = omega arith;
    })
  where
    flag_lem : (b : Bool) → (if b then 1 else 0) < 2 ^ 8
    flag_lem true = omega arith
    flag_lem false = omega arith

    s : Copied c.url url url_max (min (length url) url_max)
    s = copy_front-Copied c.url url url_max _ v.url refl

    made : AutoConnectConfig
    made = record {
      magic = autoconn_config_magic;
      enable = if enable then 1 else 0;
      padding = c.padding;
      url_len = u16 (min (length url) url_max);
      url = s.out;
    }

module _ (sha256 : Bytes → Bytes) (digest : (bs : Bytes) → length (sha256 bs) ≡ 32) where
  pub set_auth-AuthBounded :
      (random : ℕ → ℕ) (user password : Bytes) (c : AuthConfig)
      → AuthFits c
      → Returns AuthBounded (set_auth sha256 random user password c)
  unfolding set_auth salted_hash
  set_auth-AuthBounded random user password c v =
      elim (Bool-cases (length user == 0 || length password == 0)) [
        | inl blank ↦ rw blank (record {
          sane = record {
            fits = record {
              magic = omega arith;
              user = refl;
              padding = v.padding;
              salt = refl;
              pass_hash = refl;
            };
            user_len = omega arith;
          };
          has_pass = omega arith;
        })
        | inr given ↦
            rw (given, s.made)
              (record {
                sane = record {
                  fits = record {
                    magic = omega arith;
                    user = s.size;
                    padding = v.padding;
                    salt = refl;
                    pass_hash = digest _;
                  };
                  user_len = omega arith;
                };
                has_pass = omega arith;
              })
      ]
    where
      s : Copied c.user user 32 (u8 (min (length user) 32))
      s = copy_front-Copied c.user user 32 _ v.user (omega arith)

  pub set_auth-is_valid :
      (random : ℕ → ℕ) (user password : Bytes) (c : AuthConfig)
      → AuthFits c
      → Returns (λ r. is_valid r ≡ true) (set_auth sha256 random user password c)
  unfolding set_auth is_valid
  set_auth-is_valid random user password c v =
      elim (Bool-cases (length user == 0 || length password == 0)) [
        | inl blank ↦ rw blank refl
        | inr given ↦
            let s =
              copy_front-Copied c.user user 32 (u8 (min (length user) 32)) v.user (omega arith) in
            rw (given, s.made) refl
      ]
