-- ===== src/Config/Layout.antt =====
-- src/config.rs: the layouts of the four structures.
use espcan_br.Base.{ℕ, ◌/◌, ◌%◌, ◌^◌, ◌<◌, ◌≡◌, arith, List, [], ◌∷◌, Bytes, length}
use espcan_br.Config.{le_bytes}
use espcan_br.Config.Codec.{Codec, Encodes, le_word, le_word-le_bytes}
use espcan_br.Config.Wifi as Wifi
use espcan_br.Config.Device as Device
use espcan_br.Config.AutoConnect as AutoConnect
use espcan_br.Config.Auth as Auth
use espcan_br.Config.Wifi.{WifiConfig}
use espcan_br.Config.Device.{DeviceConfig}
use espcan_br.Config.AutoConnect.{AutoConnectConfig}
use espcan_br.Config.Auth.{AuthConfig}

abbrev byte_of : Bytes → ℕ
byte_of [] = 0
byte_of (b ∷ bs) = b

-- `u16::to_le_bytes`
abbrev short_bytes : ℕ → Bytes
short_bytes w = w % 2 ^ 8 ∷ w / 2 ^ 8 % 2 ^ 8 ∷ []

abbrev wifi_of : List Bytes → WifiConfig
wifi_of (magic ∷ ssid ∷ ssid_len ∷ password ∷ password_len ∷ padding ∷ []) = record {
  magic = le_word magic;
  ssid = ssid;
  ssid_len = byte_of ssid_len;
  password = password;
  password_len = byte_of password_len;
  padding = padding;
}
wifi_of _ = Wifi.new

abbrev pub wifi_codec : Codec WifiConfig
wifi_codec = record {
  sizes = 4 ∷ 32 ∷ 1 ∷ 64 ∷ 1 ∷ 2 ∷ [];
  fields = λ c.
      le_bytes c.magic
      ∷ c.ssid
      ∷ (c.ssid_len ∷ [])
      ∷ c.password
      ∷ (c.password_len ∷ [])
      ∷ c.padding
      ∷ [];
  of_fields = wifi_of;
  is_valid = Wifi.is_valid;
}

abbrev device_of : List Bytes → DeviceConfig
device_of (magic ∷ name ∷ name_len ∷ padding ∷ baud ∷ []) = record {
  magic = le_word magic;
  name = name;
  name_len = byte_of name_len;
  padding = padding;
  baud = le_word baud;
}
device_of _ = Device.new

abbrev pub device_codec : Codec DeviceConfig
device_codec = record {
  sizes = 4 ∷ 32 ∷ 1 ∷ 3 ∷ 4 ∷ [];
  fields = λ c. le_bytes c.magic ∷ c.name ∷ (c.name_len ∷ []) ∷ c.padding ∷ le_bytes c.baud ∷ [];
  of_fields = device_of;
  is_valid = Device.is_valid;
}

abbrev autoconnect_of : List Bytes → AutoConnectConfig
autoconnect_of (magic ∷ enable ∷ padding ∷ url_len ∷ url ∷ []) = record {
  magic = le_word magic;
  enable = byte_of enable;
  padding = byte_of padding;
  url_len = le_word url_len;
  url = url;
}
autoconnect_of _ = AutoConnect.new

abbrev pub autoconnect_codec : Codec AutoConnectConfig
autoconnect_codec = record {
  sizes = 4 ∷ 1 ∷ 1 ∷ 2 ∷ 256 ∷ [];
  fields = λ c.
      le_bytes c.magic ∷ (c.enable ∷ []) ∷ (c.padding ∷ []) ∷ short_bytes c.url_len ∷ c.url ∷ [];
  of_fields = autoconnect_of;
  is_valid = AutoConnect.is_valid;
}

abbrev auth_of : List Bytes → AuthConfig
auth_of (magic ∷ user ∷ user_len ∷ has_pass ∷ padding ∷ salt ∷ pass_hash ∷ []) = record {
  magic = le_word magic;
  user = user;
  user_len = byte_of user_len;
  has_pass = byte_of has_pass;
  padding = padding;
  salt = salt;
  pass_hash = pass_hash;
}
auth_of _ = Auth.new

abbrev pub auth_codec : Codec AuthConfig
auth_codec = record {
  sizes = 4 ∷ 32 ∷ 1 ∷ 1 ∷ 2 ∷ 16 ∷ 32 ∷ [];
  fields = λ c.
      le_bytes c.magic
      ∷ c.user
      ∷ (c.user_len ∷ [])
      ∷ (c.has_pass ∷ [])
      ∷ c.padding
      ∷ c.salt
      ∷ c.pass_hash
      ∷ [];
  of_fields = auth_of;
  is_valid = Auth.is_valid;
}

-- The values of the types of the fields: words within their width, arrays of their length.
pub record WifiFits (c : WifiConfig) : Type 0 where
  pub magic : c.magic < 2 ^ 32
  pub ssid : length c.ssid ≡ 32
  pub password : length c.password ≡ 64
  pub padding : length c.padding ≡ 2

pub record DeviceFits (c : DeviceConfig) : Type 0 where
  pub magic : c.magic < 2 ^ 32
  pub name : length c.name ≡ 32
  pub padding : length c.padding ≡ 3
  pub baud : c.baud < 2 ^ 32

pub record AutoConnectFits (c : AutoConnectConfig) : Type 0 where
  pub magic : c.magic < 2 ^ 32
  pub url_len : c.url_len < 2 ^ 16
  pub url : length c.url ≡ 256

pub record AuthFits (c : AuthConfig) : Type 0 where
  pub magic : c.magic < 2 ^ 32
  pub user : length c.user ≡ 32
  pub padding : length c.padding ≡ 2
  pub salt : length c.salt ≡ 16
  pub pass_hash : length c.pass_hash ≡ 32

pub WifiFits-Encodes : (c : WifiConfig) → WifiFits c → Encodes wifi_codec c
WifiFits-Encodes c v = record {
  whole = λ j. 4 ∷ v.ssid j ∷ 1 ∷ v.password j ∷ 1 ∷ v.padding j ∷ [];
  back = λ j. record c { magic = le_word-le_bytes c.magic v.magic j };
}

pub DeviceFits-Encodes : (c : DeviceConfig) → DeviceFits c → Encodes device_codec c
DeviceFits-Encodes c v = record {
  whole = λ j. 4 ∷ v.name j ∷ 1 ∷ v.padding j ∷ 4 ∷ [];
  back = λ j. record c {
    magic = le_word-le_bytes c.magic v.magic j;
    baud = le_word-le_bytes c.baud v.baud j;
  };
}

short_lem : (w : ℕ) → w < 2 ^ 16 → le_word (short_bytes w) ≡ w
short_lem w small = omega arith

pub AutoConnectFits-Encodes :
    (c : AutoConnectConfig) → AutoConnectFits c → Encodes autoconnect_codec c
AutoConnectFits-Encodes c v = record {
  whole = λ j. 4 ∷ 1 ∷ 1 ∷ 2 ∷ v.url j ∷ [];
  back = λ j. record c {
    magic = le_word-le_bytes c.magic v.magic j;
    url_len = short_lem c.url_len v.url_len j;
  };
}

pub AuthFits-Encodes : (c : AuthConfig) → AuthFits c → Encodes auth_codec c
AuthFits-Encodes c v = record {
  whole = λ j. 4 ∷ v.user j ∷ 1 ∷ 1 ∷ v.padding j ∷ v.salt j ∷ v.pass_hash j ∷ [];
  back = λ j. record c { magic = le_word-le_bytes c.magic v.magic j };
}
