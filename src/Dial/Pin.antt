-- ===== src/Dial/Pin.antt =====
-- src/autoconnect.rs: the server's key, and its signature under that key. The certificate's bytes come from
-- `embedded_tls`; the transcript hash and ECDSA are `sha2`'s and `p256`'s, the parameters of `Crypto`.
pub mod Extract
pub mod Verdicts
use espcan_br.Base.{
  ℕ, ◌+◌, ◌-◌, Bool, true, false, not, ◌&&◌, leb, if◌then◌else◌, Option, none, some, [], ◌∷◌, ◌++◌,
  Bytes, codes, position, eq_bytes, length, take, drop, replicate, Outcome, ok, absent, panic,
  ◌>>=◌, try,
}
use espcan_br.Dial.State

-- `get(a..b)`
abbrev pub get_range : Bytes → ℕ → ℕ → Option Bytes
get_range xs a b = if leb a b && leb b (length xs) then some (take (b - a) (drop a xs)) else none

abbrev pub marker : Bytes
marker = 0x03 ∷ 0x42 ∷ 0x00 ∷ 0x04 ∷ []

unfoldable pub extract_p256_pubkey : Bytes → Outcome Bytes
extract_p256_pubkey der = do
  i ← try (position marker der)
  let start = i + 3
  try (get_range der start (start + 65))

-- `AUTOCONNECT_STATE`, `SERVER_PUBKEY` and `TCP_CLIENTS`.
pub record Published : Type 0 where
  pub state : ℕ
  pub server_pubkey : Option Bytes
  pub tcp_clients : ℕ

unfoldable pub set_state : ℕ → Published → Published
set_state s p = record p { state = s }

pub data TlsError : Type 0 where
  invalid_certificate decode_error invalid_signature invalid_signature_scheme : TlsError

-- `Result<(), TlsError>`
pub data Verdict : Type 0 where
  accepted : Verdict
  refused : TlsError → Verdict

pub data SignatureScheme : Type 0 where
  ecdsa_secp256r1_sha256 other_scheme : SignatureScheme

pub record Crypto : Type 1 where
  -- A running hash, and its digest.
  pub Transcript : Type 0
  pub finalize : Transcript → Bytes
  pub VerifyingKey : Type 0
  pub from_sec1_bytes : Bytes → Option VerifyingKey
  pub Signature : Type 0
  pub from_der : Bytes → Option Signature
  pub verify : VerifyingKey → Bytes → Signature → Bool

module _ (crypto : Crypto) where
  open crypto use {Transcript, finalize, from_sec1_bytes, from_der, verify}

  pub record PinnedVerifier : Type 0 where
    pub pin : Option Bytes
    pub server_key : Option Bytes
    pub transcript : Option Transcript

  -- `PinnedProvider::new`
  abbrev pub new_verifier : Option Bytes → PinnedVerifier
  new_verifier pin = record { pin = pin; server_key = none; transcript = none }

  -- The key of the first entry of the chain, if that is an X.509 certificate with one.
  unfoldable pub certificate_key : Option Bytes → Option Bytes
  certificate_key none = none
  certificate_key (some der) = elim (extract_p256_pubkey der) [
    | ok key ↦ some key
    | absent ↦ none
    | panic ↦ none
  ]

  unfoldable pub verify_certificate :
      Transcript → Option Bytes → PinnedVerifier → Published → PinnedVerifier × Published
  verify_certificate transcript entry v p =
      let key = certificate_key entry in
      (
        record v { server_key = key; transcript = some transcript },
        record p { server_pubkey = key },
      )

  abbrev pub signed_message : Bytes → Bytes
  signed_message hash =
      replicate 64 0x20 ++ (codes "TLS 1.3, server CertificateVerify" ++ (0x00 ∷ hash))

  -- The end of `verify_signature`.
  unfoldable pub check_signature : Bytes → Bytes → SignatureScheme → Bytes → Verdict
  check_signature key hash ecdsa_secp256r1_sha256 signature = elim (from_sec1_bytes key) [
    | none ↦ refused decode_error
    | some vk ↦ elim (from_der signature) [
      | none ↦ refused decode_error
      | some sig ↦
          if verify vk (signed_message hash) sig then accepted else refused invalid_signature
    ]
  ]
  check_signature key hash other_scheme signature = refused invalid_signature_scheme

  -- `if let Some(pin) = self.pin { if pin != key ..`
  unfoldable pub mismatch : Option Bytes → Bytes → Bool
  mismatch none key = false
  mismatch (some pin) key = not (eq_bytes pin key)

  -- `verify_signature` once the key is known, with the transcript.
  unfoldable pub verify_under :
      Bytes
      → SignatureScheme
      → Bytes
      → PinnedVerifier
      → Published
      → (PinnedVerifier × Published) × Verdict
  verify_under key scheme signature v p =
      if mismatch v.pin key
      then ((v, set_state State.pin_mismatch p), refused invalid_certificate)
      else elim v.transcript [
        | none ↦ ((v, p), refused decode_error)
        | some t ↦
            ((record v { transcript = none }, p), check_signature key (finalize t) scheme signature)
      ]

  unfoldable pub verify_signature :
      SignatureScheme → Bytes → PinnedVerifier → Published → (PinnedVerifier × Published) × Verdict
  verify_signature scheme signature v p = elim v.server_key [
    | none ↦ ((v, p), elim v.pin [ some pin ↦ refused invalid_certificate | none ↦ accepted ])
    | some key ↦ verify_under key scheme signature v p
  ]
