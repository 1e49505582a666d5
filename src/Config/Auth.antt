-- ===== src/Config/Auth.antt =====
-- src/config.rs: `AuthConfig`, the login of the web interface.
use espcan_br.Base.{
  ℕ, zero, suc, ◌+◌, u8, min, bit_or, bit_xor, Bool, true, false, not, ◌&&◌, ◌||◌, ◌==◌, ltb,
  if◌then◌else◌, [], ◌++◌, Bytes, eq_bytes, length, replicate, Outcome, ok, ◌>>=◌, index, slice,
}
use espcan_br.Config.{copy_front, le_bytes}

abbrev pub auth_config_magic : ℕ
auth_config_magic = 0xa071_0101

pub record AuthConfig : Type 0 where
  pub magic : ℕ
  pub user : Bytes
  pub user_len : ℕ
  pub has_pass : ℕ
  pub padding : Bytes
  pub salt : Bytes
  pub pass_hash : Bytes

abbrev pub new : AuthConfig
new = record {
  magic = 0;
  user = replicate 32 0;
  user_len = 0;
  has_pass = 0;
  padding = replicate 2 0;
  salt = replicate 16 0;
  pass_hash = replicate 32 0;
}

unfoldable pub is_valid : AuthConfig → Bool
is_valid c = c.magic == auth_config_magic

unfoldable pub is_set : AuthConfig → Bool
is_set c = is_valid c && (ltb 0 c.user_len && not (c.has_pass == 0))

unfoldable pub user_str : AuthConfig → Outcome Bytes
user_str c = if c.user_len == 0 then ok [] else slice c.user 0 c.user_len

-- The loop of `ct_eq` from `i` on, with `n` rounds left.
unfoldable pub ct_from : ℕ → ℕ → ℕ → Bytes → Bytes → Outcome ℕ
ct_from zero i diff a b = ok diff
ct_from (suc n) i diff a b = do
  x ← index a i
  y ← index b i
  ct_from n (i + 1) (bit_or diff (bit_xor x y)) a b

unfoldable pub ct_eq : Bytes → Bytes → Outcome Bool
ct_eq a b = do diff ← ct_from 32 0 0 a b; ok (diff == 0)

-- The chunks of the salt, each a random word.
abbrev pub draw_salt : (ℕ → ℕ) → Bytes
draw_salt random =
    le_bytes (random 0) ++ (le_bytes (random 1) ++ (le_bytes (random 2) ++ le_bytes (random 3)))

module _ (sha256 : Bytes → Bytes) where
  unfoldable pub salted_hash : Bytes → Bytes → Bytes
  salted_hash salt password = sha256 (salt ++ password)

  -- `AuthConfig::set`
  unfoldable pub set_auth : (ℕ → ℕ) → Bytes → Bytes → AuthConfig → Outcome AuthConfig
  set_auth random user password c =
      if length user == 0 || length password == 0
      then ok (record {
        magic = auth_config_magic;
        user_len = 0;
        has_pass = 0;
        padding = c.padding;
        user = replicate 32 0;
        salt = replicate 16 0;
        pass_hash = replicate 32 0;
      })
      else (do
        let user_len = u8 (min (length user) 32)
        user' ← copy_front c.user user_len user
        ok (record {
          magic = auth_config_magic;
          user = user';
          user_len = user_len;
          has_pass = 1;
          padding = c.padding;
          salt = draw_salt random;
          pass_hash = salted_hash (draw_salt random) password;
        }))

  unfoldable pub verify : Bytes → Bytes → AuthConfig → Outcome Bool
  verify user password c = if not (is_set c) then ok true else (do
    stored ← slice c.user 0 c.user_len
    if not (eq_bytes user stored)
        then ok false
        else ct_eq (salted_hash c.salt password) c.pass_hash)
