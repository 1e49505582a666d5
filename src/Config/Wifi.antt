-- ===== src/Config/Wifi.antt =====
-- src/config.rs: `WifiConfig`.
use espcan_br.Base.{
  ℕ, ◌≡◌, refl, ◌∙◌, arith, u8, min, Bool, ◌&&◌, ◌==◌, ltb, if◌then◌else◌, [], Bytes, length, take,
  replicate, Outcome, ok, ◌>>=◌, slice, Returns, Returns-of,
}
use espcan_br.Config.{copy_front}
use espcan_br.Config.Copied.{Copied, copy_front-Copied, text_lem}

abbrev pub wifi_config_magic : ℕ
wifi_config_magic = 0xc0f1_6001

pub record WifiConfig : Type 0 where
  pub magic : ℕ
  pub ssid : Bytes
  pub ssid_len : ℕ
  pub password : Bytes
  pub password_len : ℕ
  pub padding : Bytes

abbrev pub new : WifiConfig
new = record {
  magic = 0;
  ssid = replicate 32 0;
  ssid_len = 0;
  password = replicate 64 0;
  password_len = 0;
  padding = replicate 2 0;
}

unfoldable pub is_valid : WifiConfig → Bool
is_valid c = c.magic == wifi_config_magic && ltb 0 c.ssid_len

unfoldable pub ssid_str : WifiConfig → Outcome Bytes
ssid_str c = if c.ssid_len == 0 then ok [] else slice c.ssid 0 c.ssid_len

unfoldable pub password_str : WifiConfig → Outcome Bytes
password_str c = if c.password_len == 0 then ok [] else slice c.password 0 c.password_len

unfoldable pub set_credentials : Bytes → Bytes → WifiConfig → Outcome WifiConfig
set_credentials ssid password c = do
  let ssid_len = u8 (min (length ssid) 32)
  ssid' ← copy_front c.ssid ssid_len ssid
  let password_len = u8 (min (length password) 64)
  password' ← copy_front c.password password_len password
  ok (record {
    magic = wifi_config_magic;
    ssid = ssid';
    ssid_len = ssid_len;
    password = password';
    password_len = password_len;
    padding = c.padding;
  })

-- The fixed-size fields have their sizes.
pub record IsWifi (c : WifiConfig) : Type 0 where
  pub ssid_size : length c.ssid ≡ 32
  pub password_size : length c.password ≡ 64

-- What is read back of new credentials.
pub record Stored (ssid password : Bytes) (c : WifiConfig) : Type 0 where
  pub sizes : IsWifi c
  pub name : ssid_str c ≡ ok (take 32 ssid)
  pub secret : password_str c ≡ ok (take 64 password)
  pub valid : is_valid c ≡ ltb 0 (length ssid)

-- Setting credentials returns, keeps the fields' sizes, and what is read back is the SSID up to its
-- 32nd byte and the password up to its 64th; the configuration is valid exactly if the SSID is not
-- empty. Before, the fields have their sizes.
pub set_credentials-Stored :
    (ssid password : Bytes) (c : WifiConfig)
    → IsWifi c
    → Returns (Stored ssid password) (set_credentials ssid password c)
unfolding set_credentials ssid_str password_str is_valid
set_credentials-Stored ssid password c v =
    Returns-of (Stored ssid password) stored (rw (s.made, p.made) refl) (record {
      sizes = record { ssid_size = s.size; password_size = p.size };
      name = text_lem s.out ssid_len ∙ s.front;
      secret = text_lem p.out password_len ∙ p.front;
      valid = nonempty;
    })
  where
    ssid_len : ℕ
    ssid_len = u8 (min (length ssid) 32)

    password_len : ℕ
    password_len = u8 (min (length password) 64)

    s : Copied c.ssid ssid 32 ssid_len
    s = copy_front-Copied c.ssid ssid 32 ssid_len v.ssid_size (omega arith)

    p : Copied c.password password 64 password_len
    p = copy_front-Copied c.password password 64 password_len v.password_size (omega arith)

    stored : WifiConfig
    stored = record {
      magic = wifi_config_magic;
      ssid = s.out;
      ssid_len = ssid_len;
      password = p.out;
      password_len = password_len;
      padding = c.padding;
    }

    nonempty : ltb 0 ssid_len ≡ ltb 0 (length ssid)
    nonempty = ground arith

-- The fields that the setter does not take from its arguments.
pub set_credentials-marks :
    (ssid password : Bytes) (c : WifiConfig)
    → IsWifi c
    → Returns
        (λ r. (r.magic ≡ wifi_config_magic) × (r.padding ≡ c.padding))
        (set_credentials ssid password c)
unfolding set_credentials
set_credentials-marks ssid password c v =
    Returns-of (λ r. (r.magic ≡ wifi_config_magic) × (r.padding ≡ c.padding)) stored_config
      (rw (s.made, p.made) refl) (refl, refl)
  where
    s : Copied c.ssid ssid 32 (u8 (min (length ssid) 32))
    s = copy_front-Copied c.ssid ssid 32 _ v.ssid_size (omega arith)

    p : Copied c.password password 64 (u8 (min (length password) 64))
    p = copy_front-Copied c.password password 64 _ v.password_size (omega arith)

    stored_config : WifiConfig
    stored_config = record {
      magic = wifi_config_magic;
      ssid = s.out;
      ssid_len = u8 (min (length ssid) 32);
      password = p.out;
      password_len = u8 (min (length password) 64);
      padding = c.padding;
    }
