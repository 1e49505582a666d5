-- ===== src/Dial/Task/Course.antt =====
-- What `TlsConnection::open` of `embedded-tls` documents of its use of the verifier, and what the
-- verifier leaves of the published state.
use espcan_br.Base.{
  ◌≡◌, refl, ap, Bool, true, false, Bool-cases, Option-cases, inl, inr, Option, some, Bytes,
}
use espcan_br.Dial.Pin.{
  Crypto, PinnedVerifier, Published, new_verifier, set_state, verify_certificate, certificate_key,
  SignatureScheme, verify_signature, verify_under, mismatch, Verdict, accepted, refused,
}
use espcan_br.Dial.Pin.Verdicts.{Acceptable, verify_signature-Acceptable}
use espcan_br.Dial.Task.{Network}

module _ (crypto : Crypto) where
  open crypto use {Transcript, finalize}

  -- How far a handshake gets: it breaks off before the certificate, or behind it, or the server has
  -- sent its signature too; then `finishes` says whether the rest succeeds.
  pub data Course : Type 0 where
    broken : Course
    breaks_off : Transcript → Option Bytes → Course
    signed : Transcript → Option Bytes → SignatureScheme → Bytes → (finishes : Bool) → Course

  unfoldable pub opens : Bool → Verdict → Bool
  opens finishes accepted = finishes
  opens finishes (refused e) = false

  unfoldable pub after : Course → PinnedVerifier crypto → Published → Published × Bool
  after broken v p = (p, false)
  after (breaks_off t entry) v p = ((verify_certificate crypto t entry v p).1, false)
  after (signed t entry scheme signature finishes) v p =
      let shown = verify_certificate crypto t entry v p in
      let r = verify_signature crypto scheme signature shown.0 shown.1 in
      (r.0.1, opens finishes r.1)

  -- The connection calls the verifier's methods in their order, it is open only if they have
  -- succeeded, and it changes nothing else of the published state.
  pub record Documented (net : Network crypto) : Type 0 where
    pub course : Bytes → PinnedVerifier crypto → Published → Course
    pub follows :
        (host : Bytes) (v : PinnedVerifier crypto) (p : Published)
        → net.open_tls host v p ≡ after (course host v p) v p

  verify_under-clients :
      (key : Bytes) (scheme : SignatureScheme) (signature : Bytes) (v : PinnedVerifier crypto)
      (p : Published)
      → (verify_under crypto key scheme signature v p).0.1.tcp_clients ≡ p.tcp_clients
  unfolding verify_under set_state
  verify_under-clients key scheme signature v p = elim (Bool-cases (mismatch crypto v.pin key)) [
    | inl differs ↦ rw differs refl
    | inr same ↦ elim (Option-cases v.transcript) [
      | inl gone ↦ rw (same, gone) refl
      | inr (t, there) ↦ rw (same, there) refl
    ]
  ]

  verify_signature-clients :
      (scheme : SignatureScheme) (signature : Bytes) (v : PinnedVerifier crypto) (p : Published)
      → (verify_signature crypto scheme signature v p).0.1.tcp_clients ≡ p.tcp_clients
  unfolding verify_signature
  verify_signature-clients scheme signature v p = elim (Option-cases v.server_key) [
    | inl gone ↦ rw gone refl
    | inr (key, there) ↦
        rw there (verify_under-clients key scheme signature (record v { server_key = some key }) p)
  ]

  pub after-clients :
      (c : Course) (v : PinnedVerifier crypto) (p : Published)
      → (after c v p).0.tcp_clients ≡ p.tcp_clients
  unfolding after verify_certificate
  after-clients broken v p = refl
  after-clients (breaks_off t entry) v p = refl
  after-clients (signed t entry scheme signature finishes) v p =
      let shown = verify_certificate crypto t entry v p in
      verify_signature-clients scheme signature shown.0 shown.1

  -- What a server has shown in an open connection.
  pub record Shown (pin : Option Bytes) (course : Course) : Type 0 where
    pub transcript : Transcript
    pub entry : Option Bytes
    pub scheme : SignatureScheme
    pub signature : Bytes
    pub heard : course ≡ signed transcript entry scheme signature true
    pub acceptable :
        Acceptable crypto pin (certificate_key crypto entry) (finalize transcript) scheme signature

  pub after-Shown :
      (c : Course) (pin : Option Bytes) (p : Published)
      → (after c (new_verifier crypto pin) p).1 ≡ true
      → Shown pin c
  unfolding after opens
  after-Shown broken pin p h = cc
  after-Shown (breaks_off t entry) pin p h = cc
  after-Shown (signed t entry scheme signature finishes) pin p h =
      let shown = verify_certificate crypto t entry (new_verifier crypto pin) p in
      go (verify_signature crypto scheme signature shown.0 shown.1).1 refl h
    where
      go :
          (verdict : Verdict)
          → (let shown = verify_certificate crypto t entry (new_verifier crypto pin) p in
              (verify_signature crypto scheme signature shown.0 shown.1).1)
            ≡ verdict
          → opens finishes verdict ≡ true
          → Shown pin (signed t entry scheme signature finishes)
      go accepted e h = record {
        transcript = t;
        entry = entry;
        scheme = scheme;
        signature = signature;
        heard = ap (signed t entry scheme signature) h;
        acceptable = (verify_signature-Acceptable crypto t scheme signature pin entry p).0 e;
      }
      go (refused error) e h = cc

  -- The other direction: an acceptable server is connected to, when the handshake succeeds.
  pub after-opens :
      (c : Course) (pin : Option Bytes) (p : Published)
      → Shown pin c
      → (after c (new_verifier crypto pin) p).1 ≡ true
  unfolding after opens
  after-opens c pin p s =
      let e =
        (verify_signature-Acceptable crypto s.transcript s.scheme s.signature pin s.entry p).1
          s.acceptable in
      rw (s.heard, after, e, opens) refl
