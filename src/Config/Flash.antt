-- ===== src/Config/Flash.antt =====
-- src/config.rs: loading and saving. The flash, its partition table and the NVS partition in it are
-- `embedded_storage`'s and `esp_bootloader_esp_idf`'s: the record `Nvs`, with their documented behaviour as
-- `DocumentedNvs`.
use espcan_br.Base.{
  ℕ, ◌+◌, ◌≤◌, ◌≡◌, refl, sym, ◌∙◌, ap, subst, arith, ◌⊎◌, inl, inr, ◌≢◌, Bool, true, false,
  Bool-cases, if◌then◌else◌, Option, none, some, ◌++◌, Bytes, length, length-append, length-drop,
  length-replicate, drop, replicate,
}
use espcan_br.Config.Codec.{Codec, Encodes, encode, decode, decode-encode, length-encode, sum}
use espcan_br.Config.Wifi.{WifiConfig}
use espcan_br.Config.Device.{DeviceConfig}
use espcan_br.Config.AutoConnect.{AutoConnectConfig}
use espcan_br.Config.Auth.{AuthConfig}
use espcan_br.Config.Layout.{
  wifi_codec, device_codec, autoconnect_codec, auth_codec, WifiFits, DeviceFits, AutoConnectFits,
  AuthFits, WifiFits-Encodes, DeviceFits-Encodes, AutoConnectFits-Encodes, AuthFits-Encodes,
}

pub record Nvs : Type 1 where
  pub Store : Type 0
  -- Whether the partition table is read and has an NVS data partition.
  pub found : Store → Bool
  -- In that partition, at an offset: so many bytes, or an error.
  pub read : Store → ℕ → ℕ → Option Bytes
  -- The store behind the write, and whether it succeeded.
  pub write : Store → ℕ → Bytes → Store × Bool

-- A successful write stores its bytes at its offset, and leaves the rest and the partition table alone.
pub record DocumentedNvs (nvs : Nvs) : Type 0 where
  pub found-write :
      (s : nvs.Store) (i : ℕ) (bs : Bytes)
      → (nvs.write s i bs).1 ≡ true
      → nvs.found (nvs.write s i bs).0 ≡ nvs.found s
  pub read-write :
      (s : nvs.Store) (i : ℕ) (bs : Bytes)
      → (nvs.write s i bs).1 ≡ true
      → nvs.read (nvs.write s i bs).0 i (length bs) ≡ some bs
  pub read-write_apart :
      (s : nvs.Store) (i : ℕ) (bs : Bytes) (j n : ℕ)
      → (nvs.write s i bs).1 ≡ true
      → (i + length bs ≤ j) ⊎ (j + n ≤ i)
      → nvs.read (nvs.write s i bs).0 j n ≡ nvs.read s j n

-- The four configurations.
pub data Slot : Type 0 where
  wifi device autoconnect auth : Slot

abbrev pub Config : Slot → Type 0
Config wifi = WifiConfig
Config device = DeviceConfig
Config autoconnect = AutoConnectConfig
Config auth = AuthConfig

abbrev pub codec : (k : Slot) → Codec (Config k)
codec wifi = wifi_codec
codec device = device_codec
codec autoconnect = autoconnect_codec
codec auth = auth_codec

-- `WIFI_CONFIG_OFFSET` and its like.
abbrev pub offset : Slot → ℕ
offset wifi = 0
offset device = 128
offset autoconnect = 256
offset auth = 640

-- The length of `aligned` and of `buf`.
abbrev pub slot_len : Slot → ℕ
slot_len wifi = 128
slot_len device = 64
slot_len autoconnect = 384
slot_len auth = 128

-- `aligned[..bytes.len()].copy_from_slice(bytes)` on zeros
abbrev pub aligned : ℕ → Bytes → Bytes
aligned n bytes = bytes ++ drop (length bytes) (replicate n 0)

module _ (nvs : Nvs) where
  open nvs use {Store, found, read, write}

  unfoldable pub load_slot : (k : Slot) → Store → Option (Config k)
  load_slot k s =
      if found s
      then elim (read s (offset k) (slot_len k)) [ none ↦ none | some buf ↦ decode (codec k) buf ]
      else none

  unfoldable pub save_slot : (k : Slot) → Config k → Store → Store × Bool
  save_slot k c s =
      if found s then write s (offset k) (aligned (slot_len k) (encode (codec k) c)) else (s, false)

  abbrev pub load : Store → Option WifiConfig
  load = load_slot wifi

  abbrev pub save : WifiConfig → Store → Store × Bool
  save = save_slot wifi

  abbrev pub load_device : Store → Option DeviceConfig
  load_device = load_slot device

  abbrev pub save_device : DeviceConfig → Store → Store × Bool
  save_device = save_slot device

  abbrev pub load_autoconnect : Store → Option AutoConnectConfig
  load_autoconnect = load_slot autoconnect

  abbrev pub save_autoconnect : AutoConnectConfig → Store → Store × Bool
  save_autoconnect = save_slot autoconnect

  abbrev pub load_auth : Store → Option AuthConfig
  load_auth = load_slot auth

  abbrev pub save_auth : AuthConfig → Store → Store × Bool
  save_auth = save_slot auth

-- A configuration whose fields are of their types.
abbrev pub Fits : (k : Slot) → Config k → Type 0
Fits wifi = WifiFits
Fits device = DeviceFits
Fits autoconnect = AutoConnectFits
Fits auth = AuthFits

Fits-Encodes : (k : Slot) (c : Config k) → Fits k c → Encodes (codec k) c
Fits-Encodes wifi = WifiFits-Encodes
Fits-Encodes device = DeviceFits-Encodes
Fits-Encodes autoconnect = AutoConnectFits-Encodes
Fits-Encodes auth = AuthFits-Encodes

-- A structure fits in its slot, and the slots do not meet.
slot-room : (k : Slot) → sum (codec k).sizes ≤ slot_len k
slot-room wifi = omega arith
slot-room device = omega arith
slot-room autoconnect = omega arith
slot-room auth = omega arith

slots-apart :
    (k j : Slot) → j ≢ k → (offset k + slot_len k ≤ offset j) ⊎ (offset j + slot_len j ≤ offset k)
slots-apart wifi wifi h = absurd (h refl)
slots-apart wifi device h = inl (omega arith)
slots-apart wifi autoconnect h = inl (omega arith)
slots-apart wifi auth h = inl (omega arith)
slots-apart device wifi h = inr (omega arith)
slots-apart device device h = absurd (h refl)
slots-apart device autoconnect h = inl (omega arith)
slots-apart device auth h = inl (omega arith)
slots-apart autoconnect wifi h = inr (omega arith)
slots-apart autoconnect device h = inr (omega arith)
slots-apart autoconnect autoconnect h = absurd (h refl)
slots-apart autoconnect auth h = inl (omega arith)
slots-apart auth wifi h = inr (omega arith)
slots-apart auth device h = inr (omega arith)
slots-apart auth autoconnect h = inr (omega arith)
slots-apart auth auth h = absurd (h refl)

length-aligned : (n : ℕ) (bytes : Bytes) → length bytes ≤ n → length (aligned n bytes) ≡ n
length-aligned n bytes h = omega (
  arith,
  length-append bytes (drop (length bytes) (replicate n 0)),
  length-drop {A = ℕ} (length bytes) (replicate n 0),
  length-replicate {A = ℕ} n 0,
)

module _ (nvs : Nvs) (laws : DocumentedNvs nvs) where
  open nvs use {Store, found, read, write}

  -- What a save leaves: its own configuration, if valid, and every other one.
  pub record Saved (k : Slot) (c : Config k) (s t : Store) : Type 0 where
    pub own : load_slot nvs k t ≡ (if (codec k).is_valid c then some c else none)
    pub others : (j : Slot) → j ≢ k → load_slot nvs j t ≡ load_slot nvs j s

  module _ (k : Slot) (c : Config k) (s : Store) (v : Fits k c) where
    written : Bytes
    written = aligned (slot_len k) (encode (codec k) c)

    length-written : length written ≡ slot_len k
    unfolding written
    length-written =
        length-aligned (slot_len k) (encode (codec k) c)
          (omega (arith, slot-room k, length-encode (codec k) c (Fits-Encodes k c v)))

    after : Store
    after = (write s (offset k) written).0

    module _ (there : found s ≡ true) (done : (write s (offset k) written).1 ≡ true) where
      still_there : found after ≡ true
      unfolding after
      still_there = laws.found-write s (offset k) written done ∙ there

      read_own : read after (offset k) (slot_len k) ≡ some written
      unfolding after
      read_own =
          ap (λ n. read (write s (offset k) written).0 (offset k) n) (sym length-written)
          ∙ laws.read-write s (offset k) written done

      read_other :
          (j : Slot) → j ≢ k → read after (offset j) (slot_len j) ≡ read s (offset j) (slot_len j)
      unfolding after
      read_other j other = laws.read-write_apart s (offset k) written (offset j) (slot_len j) done (
          subst (λ n. (offset k + n ≤ offset j) ⊎ (offset j + slot_len j ≤ offset k))
            (sym length-written) (slots-apart k j other))

      after-Saved : Saved k c s after
      after-Saved = record {
        own =
            unfold load_slot written in
            rw (still_there, read_own, load_slot)
              (decode-encode (codec k) c
                (drop (length (encode (codec k) c)) (replicate (slot_len k) 0))
                (Fits-Encodes k c v));
        others = λ j other. unfold load_slot in rw (still_there, there, read_other j other) refl;
      }

    -- A save that reports success has stored the configuration: if it is valid, loading it gives it back
    -- with every field, and otherwise loading gives nothing. The other three load as before. The fields
    -- are of their types, and the flash does what its documentation says.
    pub save_slot-Saved : (save_slot nvs k c s).1 ≡ true → Saved k c s (save_slot nvs k c s).0
    unfolding save_slot after written
    save_slot-Saved done = elim (Bool-cases (found s)) [
      | inl there ↦ rw there (after-Saved there (rw there at done))
      | inr lost ↦ (let none_done : false ≡ true = rw lost at done in cc)
    ]
