-- ===== src/Dial/Task/Rounds.antt =====
-- src/autoconnect.rs: what a round of `autoconnect_task` guarantees.
use espcan_br.Base.{
  ℕ, ◌+◌, ◌^◌, ◌≤◌, ◌<◌, ◌≡◌, refl, sym, ◌∙◌, ap, arith, u32, min, Bool, true, false, Bool-cases,
  Option-cases, inl, inr, ◌==◌, ==_iff, if◌then◌else◌, Option, none, some, Bytes, length, slice,
  Outcome, ok, absent, panic, Yields, Yields-bind, Yields-slice,
}
use mathlib.Core.Option.{some-injective}
use espcan_br.Config.AutoConnect.{AutoConnectConfig, enabled, url_str, url_max}
use espcan_br.Dial.State
use espcan_br.Dial.Url.{ParsedUrl, parse_url, parse_pubkey}
use espcan_br.Dial.Url.Safety.{parse_url-Returning, parse_pubkey-Yields}
use espcan_br.Dial.Pin.{Crypto, Published, new_verifier, set_state}
use espcan_br.Dial.Task.{
  Network, Round, Link, client_up, client_down, pin_mismatch_backoff_s, pin_of, ends, bridge,
  session, back_off, dial, target, round, resolve,
}
use espcan_br.Dial.Task.Course.{Documented, after-clients}

-- A link is counted and reported while it is up.
abbrev Reported : Published → ℕ → Type 0
Reported q n = (q.state ≡ State.connected) × (q.tcp_clients ≡ n)

pub record Sound (n : ℕ) (r : Round) : Type 0 where
  pub clients : r.published.tcp_clients ≡ n
  pub link : (l : Link) → r.bridged ≡ some l → Reported l.published (u32 (n + 1))
  pub wait_ge : 3 ≤ r.wait
  pub wait_le : r.wait ≤ 90
  pub long_wait : r.wait ≡ 90 → (r.bridged ≡ none) × (r.published.state ≡ State.pin_mismatch)

module _ (crypto : Crypto) (net : Network crypto) where
  url_str-Yields :
      (is_utf8 : Bytes → Bool) (c : AutoConnectConfig)
      → length c.url ≡ url_max
      → Yields (λ _. Unit) (url_str is_utf8 c)
  unfolding url_str
  url_str-Yields is_utf8 c size = elim (Bool-cases (min c.url_len url_max == 0)) [
    | inl empty ↦ rw empty tt
    | inr some_text ↦ rw some_text (
        Yields-bind _ (λ _. Unit) (slice c.url 0 (min c.url_len url_max)) _
          (Yields-slice c.url 0 (min c.url_len url_max) (omega arith) (omega arith)) λ ys _. tt)
  ]

  target-Yields : (text : Bytes) → Yields (λ _. Unit) (target crypto net text)
  unfolding target pin_of
  target-Yields text =
      Yields-bind (λ _. Unit) (λ _. Unit) (parse_url text) _ (parse_url-Returning text)
        λ url _.
          Yields-bind (λ _. Unit) (λ _. Unit) (pin_of crypto net url) _
            (pin_of-Yields url url.pubkey refl) λ pin _. tt
    where
      key_lem :
          (tls : Bool) (key : Bytes) → Yields (λ _. Unit) (if tls then ok (some key) else absent)
      key_lem true key = tt
      key_lem false key = tt

      pin_of-Yields :
          (url : ParsedUrl) (o : Option Bytes)
          → url.pubkey ≡ o
          → Yields (λ _. Unit) (pin_of crypto net url)
      pin_of-Yields url none e = rw e tt
      pin_of-Yields url (some h) e = rw e (
          Yields-bind (λ key. length key ≡ 65) (λ _. Unit) (parse_pubkey h) _
            (parse_pubkey-Yields h) λ key _. key_lem url.tls key)

  module _ (laws : Documented crypto net) where
    record InSession (p : Published) (s : Round) : Type 0 where
      clients : s.published.tcp_clients ≡ p.tcp_clients
      link :
          (l : Link)
          → s.bridged ≡ some l
          → (l.published ≡ s.published) × (s.published.state ≡ State.connected)

    bridge-InSession :
        (url : ParsedUrl) (p q : Published)
        → q.tcp_clients ≡ p.tcp_clients
        → InSession p (bridge crypto net url q)
    unfolding set_state
    bridge-InSession url p q e = record {
      clients = e;
      link = λ l h. (ap Link.published (sym (some-injective _ _ h)), refl);
    }

    ends-InSession :
        (wait : ℕ) (p q : Published)
        → q.tcp_clients ≡ p.tcp_clients
        → InSession p (ends crypto net wait q)
    ends-InSession wait p q e = record { clients = e; link = λ l h. cc }

    session-InSession :
        (url : ParsedUrl) (pin : Option Bytes) (p : Published)
        → InSession p (session crypto net url pin p)
    unfolding session set_state
    session-InSession url pin p =
        let r = net.open_tls url.host (new_verifier crypto pin) p in
        let e : r.0.tcp_clients ≡ p.tcp_clients =
          ap (λ x. x.0.tcp_clients) (laws.follows url.host (new_verifier crypto pin) p)
          ∙ after-clients crypto (laws.course url.host (new_verifier crypto pin) p)
              (new_verifier crypto pin) p in
        elim (Bool-cases url.tls) [
          | inr plain ↦ rw plain (bridge-InSession (record url { tls = false }) p p refl)
          | inl tls ↦ elim (Bool-cases r.1) [
            | inl up ↦ rw (tls, up) (bridge-InSession (record url { tls = true }) p r.0 e)
            | inr down ↦ elim (Bool-cases (r.0.state == State.pin_mismatch)) [
              | inl pinned ↦ rw (tls, down, pinned) (ends-InSession 0 p r.0 e)
              | inr other ↦
                  rw (tls, down, other) (ends-InSession 0 p (set_state State.tls_fail r.0) e)
            ]
          ]
        ]

    long_lem : (b : Bool) → (if b then pin_mismatch_backoff_s else 3) ≡ 90 → b ≡ true
    long_lem true h = refl
    long_lem false h = absurd (omega arith)

    wait_lem :
        (b : Bool)
        → (3 ≤ (if b then pin_mismatch_backoff_s else 3))
          × ((if b then pin_mismatch_backoff_s else 3) ≤ 90)
    wait_lem true = (omega arith, omega arith)
    wait_lem false = (omega arith, omega arith)

    back_off-Sound :
        (p : Published) (s : Round)
        → p.tcp_clients < 2 ^ 32
        → InSession (client_up p) s
        → Sound p.tcp_clients (back_off crypto net s)
    unfolding back_off client_up client_down
    back_off-Sound p s small i = record {
      clients =
          (let e : s.published.tcp_clients ≡ u32 (p.tcp_clients + 1) = i.clients in omega arith);
      link = λ l h. (
        ap Published.state (i.link l h).0 ∙ (i.link l h).1,
        ap Published.tcp_clients (i.link l h).0 ∙ i.clients,
      );
      wait_ge = (wait_lem (s.published.state == State.pin_mismatch)).0;
      wait_le = (wait_lem (s.published.state == State.pin_mismatch)).1;
      long_wait = λ h.
          let e : s.published.state ≡ 7 =
            (==_iff _ _).0 (long_lem (s.published.state == State.pin_mismatch) h) in
          (unlinked s.bridged refl e, e);
    }
      where
        unlinked : (o : Option Link) → s.bridged ≡ o → s.published.state ≡ 7 → s.bridged ≡ none
        unlinked none e h = e
        unlinked (some l) e h =
            (let k : s.published.state ≡ 2 = (i.link l e).1 in absurd (omega arith))

    ends-Sound :
        (wait : ℕ) (p q : Published)
        → q.tcp_clients ≡ p.tcp_clients
        → 3 ≤ wait
        → wait ≤ 30
        → Sound p.tcp_clients (ends crypto net wait q)
    ends-Sound wait p q e ge le = record {
      clients = e;
      link = λ l h. cc;
      wait_ge = ge;
      wait_le = omega arith;
      long_wait = λ h. absurd (omega arith);
    }

    dial-Sound :
        (url : ParsedUrl) (pin : Option Bytes) (p : Published)
        → net.place ≡ true
        → p.tcp_clients < 2 ^ 32
        → Yields (Sound p.tcp_clients) (dial crypto net url pin p)
    unfolding dial set_state
    dial-Sound url pin p place small = elim (Option-cases (resolve crypto net url.host)) [
      | inl unknown ↦
          rw (unknown, dial)
            (ends-Sound 5 p (set_state State.dns_fail p) refl (omega arith) (omega arith))
      | inr (ip, known) ↦ elim (Bool-cases (net.connects ip url.port)) [
        | inl up ↦
            let s = session crypto net url pin (client_up p) in
            rw (known, up, dial)
              (placed_lem net.place (back_off crypto net s) place
                (back_off-Sound p s small (session-InSession url pin (client_up p))))
        | inr down ↦
            rw (known, down, dial)
              (ends-Sound 5 p (set_state State.tcp_fail p) refl (omega arith) (omega arith))
      ]
    ]
      where
        placed_lem :
            (b : Bool) (r : Round)
            → b ≡ true
            → Sound p.tcp_clients r
            → Yields (Sound p.tcp_clients) (if b then ok r else panic)
        placed_lem true r e h = h
        placed_lem false r e h = cc

    -- With a TLS library that does what it documents, a place for a subscriber of the CAN bus, a
    -- URL field of its size, and a count of TCP clients that fits into 32 bits, a round does not panic. It leaves the count as it was, and
    -- reports a link that it bridges as connected and counts it while it is up. The next round
    -- starts within 3 to 90 seconds, and after 90 only if the round ended with a key mismatch and
    -- without a link.
    pub round-Sound :
        (is_utf8 : Bytes → Bool) (wifi : Bool) (c : AutoConnectConfig) (p : Published)
        → net.place ≡ true
        → length c.url ≡ url_max
        → p.tcp_clients < 2 ^ 32
        → Yields (Sound p.tcp_clients) (round crypto net is_utf8 wifi c p)
    unfolding round set_state
    round-Sound is_utf8 wifi c p place size small = elim (Bool-cases (enabled c)) [
      | inr off ↦
          rw off (ends-Sound 3 p (set_state State.disabled p) refl (omega arith) (omega arith))
      | inl on ↦ elim (Bool-cases wifi) [
        | inr down ↦ rw (on, down) (ends-Sound 3 p p refl (omega arith) (omega arith))
        | inl up ↦
            rw (on, up)
              (Yields-bind (λ _. Unit) (Sound p.tcp_clients) (url_str is_utf8 c) _
                (url_str-Yields is_utf8 c size)
                λ text _. dialled (target crypto net text) (target-Yields text))
      ]
    ]
      where
        dialled :
            (m : Outcome (ParsedUrl × Option Bytes))
            → Yields (λ _. Unit) m
            → Yields (Sound p.tcp_clients) (elim m [
              | absent ↦ ok (ends crypto net 30 (set_state State.bad_config p))
              | panic ↦ panic
              | ok (url, pin) ↦ dial crypto net url pin (set_state State.connecting p)
            ])
        dialled absent h =
            ends-Sound 30 p (set_state State.bad_config p) refl (omega arith) (omega arith)
        dialled panic h = h
        dialled (ok (url, pin)) h = dial-Sound url pin (set_state State.connecting p) place small
