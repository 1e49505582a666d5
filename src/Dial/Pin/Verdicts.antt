-- ===== src/Dial/Pin/Verdicts.antt =====
-- src/autoconnect.rs: which servers are accepted.
use espcan_br.Base.{
  ◌≡◌, refl, ap, ◌↔◌, ◌⊎◌, inl, inr, Bool, true, false, Bool-cases, Option-cases, not, Option, none,
  some, Bytes, eq_bytes, eq_bytes_iff,
}
use mathlib.Core.Option.{some-injective}
use espcan_br.Dial.Pin.{
  Crypto, PinnedVerifier, Published, new_verifier, certificate_key, verify_certificate,
  verify_signature, verify_under, mismatch, check_signature, signed_message, SignatureScheme,
  ecdsa_secp256r1_sha256, other_scheme, accepted, refused, invalid_signature, decode_error,
}

module _ (crypto : Crypto) where
  open crypto use {Transcript, finalize, VerifyingKey, from_sec1_bytes, Signature, from_der, verify}

  -- The signature is an ECDSA signature of the handshake under the key.
  pub record Signs (key hash : Bytes) (scheme : SignatureScheme) (signature : Bytes) : Type 0 where
    pub by_ecdsa : scheme ≡ ecdsa_secp256r1_sha256
    pub vk : VerifyingKey
    pub reads_key : from_sec1_bytes key ≡ some vk
    pub sig : Signature
    pub reads_signature : from_der signature ≡ some sig
    pub valid : verify vk (signed_message crypto hash) sig ≡ true

  -- What makes a server acceptable: its key is the pinned one, if one is pinned, and has signed the
  -- handshake; or it has no readable key, and none is pinned.
  abbrev pub Acceptable : Option Bytes → Option Bytes → Bytes → SignatureScheme → Bytes → Type 0
  Acceptable pin none hash scheme signature = pin ≡ none
  Acceptable pin (some key) hash scheme signature =
      ((pin ≡ none) ⊎ (pin ≡ some key)) × Signs key hash scheme signature

  check_signature-Signs :
      (key hash : Bytes) (scheme : SignatureScheme) (signature : Bytes)
      → (check_signature crypto key hash scheme signature ≡ accepted)
        ↔ Signs key hash scheme signature
  unfolding check_signature
  check_signature-Signs key hash other_scheme signature = ((λ h. cc), λ s. let e = s.by_ecdsa in cc)
  check_signature-Signs key hash ecdsa_secp256r1_sha256 signature = (to, from)
    where
      to :
          check_signature crypto key hash ecdsa_secp256r1_sha256 signature ≡ accepted
          → Signs key hash ecdsa_secp256r1_sha256 signature
      to h = elim (Option-cases (from_sec1_bytes key)) [
        | inl none_key ↦
            (let bad : refused decode_error ≡ accepted = rw (none_key, check_signature) at h in cc)
        | inr (vk, k) ↦ elim (Option-cases (from_der signature)) [
          | inl none_sig ↦
              (let bad : refused decode_error ≡ accepted = rw (k, none_sig, check_signature) at h in
                cc)
          | inr (sig, g) ↦ elim (Bool-cases (verify vk (signed_message crypto hash) sig)) [
            | inl good ↦ record {
              by_ecdsa = refl;
              vk = vk;
              reads_key = k;
              sig = sig;
              reads_signature = g;
              valid = good;
            }
            | inr wrong ↦
                (let bad : refused invalid_signature ≡ accepted =
                    rw (k, g, wrong, check_signature) at h in
                  cc)
          ]
        ]
      ]

      from :
          Signs key hash ecdsa_secp256r1_sha256 signature
          → check_signature crypto key hash ecdsa_secp256r1_sha256 signature ≡ accepted
      from s = rw (s.reads_key, s.reads_signature, s.valid, check_signature) refl

  module _ (t : Transcript) (scheme : SignatureScheme) (signature : Bytes) (q : Published) where
    presented : Option Bytes → Option Bytes → PinnedVerifier crypto
    presented pin key = record { pin = pin; server_key = key; transcript = some t }

    -- A pinned key other than the server's.
    differs : Bytes → Bytes → Bool
    differs pin key = not (eq_bytes pin key)

    verdict_lem :
        (pin key : Option Bytes)
        → ((verify_signature crypto scheme signature (presented pin key) q).1 ≡ accepted)
          ↔ Acceptable pin key (finalize t) scheme signature
    unfolding verify_signature verify_under presented mismatch
    verdict_lem none none = (λ h. refl, λ h. refl)
    verdict_lem (some pin) none = (λ h. cc, λ h. cc)
    verdict_lem none (some key) =
        let signs = check_signature-Signs key (finalize t) scheme signature in
        (λ h. (inl refl, signs.0 h), λ a. signs.1 a.1)
    verdict_lem (some pin) (some key) =
        let signs = check_signature-Signs key (finalize t) scheme signature in
        elim (Bool-cases (eq_bytes pin key)) [
          | inl same ↦
              let equal : some pin ≡ some key = ap some ((eq_bytes_iff pin key).0 same) in
              rw same ((λ h. (inr equal, signs.0 h)), λ a. signs.1 a.1)
          | inr other ↦ rw other ((λ h. cc), λ a. absurd (unpinned pin key other a.0))
        ]
      where
        unpinned :
            (pin key : Bytes)
            → eq_bytes pin key ≡ false
            → (some pin ≡ none) ⊎ (some pin ≡ some key)
            → ⊥
        unpinned pin key other (inl e) = cc
        unpinned pin key other (inr e) =
            let same : eq_bytes pin key ≡ true = (eq_bytes_iff pin key).1 (some-injective _ _ e) in
            cc

  -- After the certificate and the signature of the handshake have been shown to a new verifier, it
  -- accepts exactly the servers whose key is the pinned one, if one is pinned, and has signed this
  -- handshake by ECDSA, and, only if no key is pinned, those whose certificate shows no key.
  pub verify_signature-Acceptable :
      (t : Transcript) (scheme : SignatureScheme) (signature : Bytes) (pin entry : Option Bytes)
      (p : Published)
      → let shown = verify_certificate crypto t entry (new_verifier crypto pin) p in
        ((verify_signature crypto scheme signature shown.0 shown.1).1 ≡ accepted)
        ↔ Acceptable pin (certificate_key crypto entry) (finalize t) scheme signature
  unfolding verify_certificate presented
  verify_signature-Acceptable t scheme signature pin entry p =
      verdict_lem t scheme signature (record p { server_pubkey = certificate_key crypto entry }) pin
        (certificate_key crypto entry)
