-- ===== src/Config/AutoConnect.antt =====
-- src/config.rs: `AutoConnectConfig`.
use espcan_br.Base.{
  ℕ, ◌<◌, ◌≡◌, refl, arith, u16, min, Bool, true, false, not, ◌&&◌, ◌==◌, ltb, if◌then◌else◌, [],
  Bytes, length, take, replicate, Outcome, ok, ◌>>=◌, slice, Returns, Returns-of,
}
use espcan_br.Config.{copy_front}
use espcan_br.Config.Copied.{Copied, copy_front-Copied}

abbrev pub autoconn_config_magic : ℕ
autoconn_config_magic = 0xac0c_0002

abbrev pub url_max : ℕ
url_max = 256

pub record AutoConnectConfig : Type 0 where
  pub magic : ℕ
  pub enable : ℕ
  pub padding : ℕ
  pub url_len : ℕ
  pub url : Bytes

abbrev pub new : AutoConnectConfig
new = record { magic = 0; enable = 0; padding = 0; url_len = 0; url = replicate url_max 0 }

unfoldable pub is_valid : AutoConnectConfig → Bool
is_valid c = c.magic == autoconn_config_magic

unfoldable pub enabled : AutoConnectConfig → Bool
enabled c = not (c.enable == 0) && ltb 0 c.url_len

unfoldable pub enable_set : AutoConnectConfig → Bool
enable_set c = not (c.enable == 0)

-- `AutoConnectConfig::set`
unfoldable pub set_autoconnect : Bool → Bytes → AutoConnectConfig → Outcome AutoConnectConfig
set_autoconnect enable url c = do
  let n = min (length url) url_max
  url' ← copy_front c.url n url
  ok (record {
    magic = autoconn_config_magic;
    enable = if enable then 1 else 0;
    padding = c.padding;
    url_len = u16 n;
    url = url';
  })

module _ (is_utf8 : Bytes → Bool) where
  unfoldable pub url_str : AutoConnectConfig → Outcome Bytes
  url_str c =
      let n = min c.url_len url_max in
      if n == 0
      then ok []
      else (do bytes ← slice c.url 0 n; ok (if is_utf8 bytes then bytes else []))

  -- What is read back of a new URL.
  pub record Dials (enable : Bool) (url : Bytes) (c : AutoConnectConfig) : Type 0 where
    pub size : length c.url ≡ url_max
    pub valid : is_valid c ≡ true
    pub checked : enable_set c ≡ enable
    pub active : enabled c ≡ (enable && ltb 0 (length url))
    pub shown :
        0 < length url
        → url_str c ≡ ok (if is_utf8 (take url_max url) then take url_max url else [])
    pub blank : length url ≡ 0 → url_str c ≡ ok []

  -- Setting the URL and the flag returns a valid configuration; it is enabled exactly if the flag is
  -- set and the URL is not empty; read back, the URL is cut off at its 256th byte, and empty if that is
  -- no UTF-8. Before, the field of the URL has 256 bytes.
  pub set_autoconnect-Dials :
      (enable : Bool) (url : Bytes) (c : AutoConnectConfig)
      → length c.url ≡ url_max
      → Returns (Dials enable url) (set_autoconnect enable url c)
  unfolding set_autoconnect url_str is_valid enabled enable_set
  set_autoconnect-Dials enable url c whole =
      Returns-of (Dials enable url) stored (rw s.made refl) (record {
        size = s.size;
        valid = refl;
        checked = flag enable;
        active = ground arith;
        shown = λ some_url.
            let long : (min (u16 n) url_max == 0) ≡ false = ground arith in
            rw (long, again, s.front) refl;
        blank = λ empty.
            let none_left : (min (u16 n) url_max == 0) ≡ true = ground arith in rw none_left refl;
      })
    where
      n : ℕ
      n = min (length url) url_max

      s : Copied c.url url url_max n
      s = copy_front-Copied c.url url url_max n whole refl

      stored : AutoConnectConfig
      stored = record {
        magic = autoconn_config_magic;
        enable = if enable then 1 else 0;
        padding = c.padding;
        url_len = u16 n;
        url = s.out;
      }

      again : min (u16 n) url_max ≡ n
      again = omega arith

      flag : (b : Bool) → not ((if b then 1 else 0) == 0) ≡ b
      flag true = refl
      flag false = refl
