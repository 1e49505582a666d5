-- ===== src/Config/Device.antt =====
-- src/config.rs: `DeviceConfig`.
use espcan_br.Base.{
  ℕ, ◌<◌, ◌≡◌, refl, arith, u8, min, Bool, true, false, ◌&&◌, ◌==◌, ltb, if◌then◌else◌, [], ◌∷◌,
  Bytes, length, take, replicate, Outcome, ok, ◌>>=◌, slice, Returns, Returns-of,
}
use espcan_br.Config.{copy_front}
use espcan_br.Config.Copied.{Copied, copy_front-Copied}

-- `DEFAULT_NAME` and `DEFAULT_BAUD`
abbrev pub default_name : Bytes
default_name = b'e' ∷ b's' ∷ b'p' ∷ b'c' ∷ b'a' ∷ b'n' ∷ b'-' ∷ b'b' ∷ b'r' ∷ []

abbrev pub default_uart_baud : ℕ
default_uart_baud = 115_200

abbrev pub device_config_magic : ℕ
device_config_magic = 0xde71_ce01

pub record DeviceConfig : Type 0 where
  pub magic : ℕ
  pub name : Bytes
  pub name_len : ℕ
  pub padding : Bytes
  pub baud : ℕ

abbrev pub new : DeviceConfig
new = record {
  magic = 0;
  name = replicate 32 0;
  name_len = 0;
  padding = replicate 3 0;
  baud = default_uart_baud;
}

unfoldable pub is_valid : DeviceConfig → Bool
is_valid c = c.magic == device_config_magic && ltb 0 c.name_len

unfoldable pub name_str : DeviceConfig → Outcome Bytes
name_str c = if c.name_len == 0 then ok default_name else slice c.name 0 c.name_len

unfoldable pub baud_of : DeviceConfig → ℕ
baud_of c = if c.baud == 0 then default_uart_baud else c.baud

-- `DeviceConfig::set`
unfoldable pub set_device : Bytes → ℕ → DeviceConfig → Outcome DeviceConfig
set_device name baud c = do
  let name_len = u8 (min (length name) 32)
  name' ← copy_front c.name name_len name
  ok (record {
    magic = device_config_magic;
    name = name';
    name_len = name_len;
    padding = c.padding;
    baud = baud;
  })

unfoldable pub defaults : Outcome DeviceConfig
defaults = set_device default_name default_uart_baud new

-- What is read back of a new name and bitrate.
pub record Named (name : Bytes) (baud : ℕ) (c : DeviceConfig) : Type 0 where
  pub size : length c.name ≡ 32
  pub shown : 0 < length name → name_str c ≡ ok (take 32 name)
  pub unnamed : length name ≡ 0 → name_str c ≡ ok default_name
  pub rate : baud_of c ≡ (if baud == 0 then default_uart_baud else baud)
  pub valid : is_valid c ≡ ltb 0 (length name)

-- Setting a name and a bitrate returns; read back, the name is cut off at its 32nd byte, an empty name
-- is the default name, a bitrate of 0 is the default bitrate, and the configuration is valid exactly
-- if the name is not empty. Before, the field of the name has 32 bytes.
pub set_device-Named :
    (name : Bytes) (baud : ℕ) (c : DeviceConfig)
    → length c.name ≡ 32
    → Returns (Named name baud) (set_device name baud c)
unfolding set_device name_str is_valid baud_of
set_device-Named name baud c whole = Returns-of (Named name baud) named (rw s.made refl) (record {
  size = s.size;
  shown = λ some_name. let long : (name_len == 0) ≡ false = ground arith in rw long s.front;
  unnamed = λ empty. let none_left : (name_len == 0) ≡ true = ground arith in rw none_left refl;
  rate = refl;
  valid = nonempty;
})
  where
    name_len : ℕ
    name_len = u8 (min (length name) 32)

    s : Copied c.name name 32 name_len
    s = copy_front-Copied c.name name 32 name_len whole (omega arith)

    named : DeviceConfig
    named = record {
      magic = device_config_magic;
      name = s.out;
      name_len = name_len;
      padding = c.padding;
      baud = baud;
    }

    nonempty : ltb 0 name_len ≡ ltb 0 (length name)
    nonempty = ground arith
