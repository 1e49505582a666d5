-- ===== src/Twai.antt =====
-- What src/can.rs uses of `esp_hal::twai` and `embedded_can`, which are not part of the repository:
-- the operations as a record of parameters, and their documented behaviour as `Documented`.
use espcan_br.Base.{
  ℕ, ◌≤◌, ◌<◌, ◌≡◌, Bool, true, false, Option, none, some, [], Bytes, length, All, if◌then◌else◌,
}

-- The bitrates that the source names; `custom` is `BaudRate::Custom(TimingConfig { .. })` with
-- `triple_sample: false`.
pub data BaudRate : Type 0 where
  b125k b250k b500k b1000k : BaudRate
  custom : (baud_rate_prescaler sync_jump_width tseg_1 tseg_2 : ℕ) → BaudRate

pub data TwaiMode : Type 0 where
  normal listen_only : TwaiMode

-- `embedded_can::Id`
pub data FrameId (S E : Type 0) : Type 0 where
  standard : S → FrameId S E
  extended : E → FrameId S E

-- `nb::Result<(), _>` of `Twai::transmit`
pub data Sent : Type 0 where
  sent would_block other : Sent

pub record Twai : Type 1 where
  pub StandardId : Type 0
  pub standard_new : ℕ → Option StandardId
  pub standard_raw : StandardId → ℕ
  pub ExtendedId : Type 0
  pub extended_new : ℕ → Option ExtendedId
  pub extended_raw : ExtendedId → ℕ
  pub EspFrame : Type 0
  pub new_remote : FrameId StandardId ExtendedId → ℕ → Option EspFrame
  pub new_frame : FrameId StandardId ExtendedId → Bytes → Option EspFrame
  pub frame_id : EspFrame → FrameId StandardId ExtendedId
  pub is_remote_frame : EspFrame → Bool
  pub frame_dlc : EspFrame → ℕ
  pub frame_data : EspFrame → Bytes
  pub Driver : Type 0
  pub start : BaudRate → TwaiMode → Driver
  pub transmit_once : Driver → EspFrame → Driver × Sent
  pub receive : Driver → Driver × Option EspFrame
  pub receive_error_count : Driver → ℕ
  pub transmit_error_count : Driver → ℕ
  pub is_bus_off : Driver → Bool

-- An identifier is of 11 or of 29 bits; a frame holds what it was made of; it has at most
-- eight bytes of data, as many as its dlc says, and none if it is a remote frame.
pub record Documented (h : Twai) : Type 0 where
  pub standard_fits :
      (n : ℕ)
      → n ≤ 0x7ff
      → (s : h.StandardId) × (h.standard_new n ≡ some s) × (h.standard_raw s ≡ n)
  pub standard_large : (n : ℕ) → 0x7ff < n → h.standard_new n ≡ none
  pub extended_fits :
      (n : ℕ)
      → n ≤ 0x1fff_ffff
      → (e : h.ExtendedId) × (h.extended_new n ≡ some e) × (h.extended_raw e ≡ n)
  pub extended_large : (n : ℕ) → 0x1fff_ffff < n → h.extended_new n ≡ none
  pub remote_holds :
      (id : FrameId h.StandardId h.ExtendedId) (n : ℕ)
      → n ≤ 8
      → (e : h.EspFrame) × (h.new_remote id n ≡ some e)
        × (h.frame_id e ≡ id)
        × (h.is_remote_frame e ≡ true)
        × (h.frame_dlc e ≡ n)
        × (h.frame_data e ≡ [])
  pub frame_holds :
      (id : FrameId h.StandardId h.ExtendedId) (bytes : Bytes)
      → length bytes ≤ 8
      → All (λ b. b < 256) bytes
      → (e : h.EspFrame) × (h.new_frame id bytes ≡ some e)
        × (h.frame_id e ≡ id)
        × (h.is_remote_frame e ≡ false)
        × (h.frame_dlc e ≡ length bytes)
        × (h.frame_data e ≡ bytes)
  pub standard_raw_le : (s : h.StandardId) → h.standard_raw s ≤ 0x7ff
  pub extended_raw_le : (e : h.ExtendedId) → h.extended_raw e ≤ 0x1fff_ffff
  pub dlc_le : (e : h.EspFrame) → h.frame_dlc e ≤ 8
  pub data_bytes : (e : h.EspFrame) → All (λ b. b < 256) (h.frame_data e)
  pub data_length :
      (e : h.EspFrame)
      → length (h.frame_data e) ≡ (if h.is_remote_frame e then 0 else h.frame_dlc e)
