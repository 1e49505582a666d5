-- ===== src/Dial/Task/Links.antt =====
-- src/autoconnect.rs: when a round of `autoconnect_task` bridges, and to which servers.
use espcan_br.Base.{
  ℕ, ◌≡◌, refl, ◌∙◌, ap, inl, inr, Bool, true, false, if◌then◌else◌, Bool-cases, Option-cases,
  Option, none, some, Bytes, Outcome, ok, ok-injective, absent, panic, ◌>>=◌,
}
use espcan_br.Config.AutoConnect.{AutoConnectConfig, enabled, url_str}
use espcan_br.Dial.State
use espcan_br.Dial.Url.{ParsedUrl, parse_url}
use espcan_br.Dial.Pin.{Crypto, Published, new_verifier, set_state}
use espcan_br.Dial.Task.{
  Network, Round, Link, client_up, ends, session, back_off, dial, target, round, resolve,
}
use espcan_br.Dial.Task.Course.{Documented, Shown}
use espcan_br.Dial.Task.Session.{
  IsPin, IsLink, session-IsLink, session-bridged, target-parsed, target_of,
}

module _ (crypto : Crypto) (net : Network crypto) (laws : Documented crypto net) where
  -- Everything that a link needs: the switch, the Wi-Fi, the URL with its key, an address, the TCP
  -- connection and, over TLS, a handshake with an acceptable server.
  pub record Reaches (is_utf8 : Bytes → Bool) (wifi : Bool) (c : AutoConnectConfig) (p : Published)
      : Type 0 where
    pub on : enabled c ≡ true
    pub up : wifi ≡ true
    pub text : Bytes
    pub configured : url_str is_utf8 c ≡ ok text
    pub url : ParsedUrl
    pub parsed : parse_url text ≡ ok url
    pub pin : Option Bytes
    pub asked : IsPin url pin
    pub ip : Bytes
    pub known : resolve crypto net url.host ≡ some ip
    pub connected : net.connects ip url.port ≡ true
    pub place : net.place ≡ true
    pub secured :
        url.tls ≡ true
        → Shown crypto pin (
            laws.course url.host
              (new_verifier crypto pin)
              (client_up (set_state State.connecting p)))

  unlinked :
      (wait : ℕ) (q : Published) (r : Round) (l : Link)
      → ok (ends crypto net wait q) ≡ ok r
      → r.bridged ≡ some l
      → ⊥
  unlinked wait q r l e b =
      let same : ends crypto net wait q ≡ r = cc in
      let bad : none ≡ some l = ap Round.bridged same ∙ b in cc

  dial-Reaches :
      (url : ParsedUrl) (pin : Option Bytes) (p : Published) (r : Round) (l : Link)
      → dial crypto net url pin p ≡ ok r
      → r.bridged ≡ some l
      → (ip : Bytes) × (resolve crypto net url.host ≡ some ip)
        × (net.connects ip url.port ≡ true)
        × (net.place ≡ true)
        × ((session crypto net url pin (client_up p)).bridged ≡ some l)
  unfolding dial back_off
  dial-Reaches url pin p r l h b = elim (Option-cases (resolve crypto net url.host)) [
    | inl unknown ↦
        let k : ok (ends crypto net 5 (set_state State.dns_fail p)) ≡ ok r =
          rw (unknown, dial) at h in
        absurd (unlinked 5 (set_state State.dns_fail p) r l k b)
    | inr (ip, known) ↦ elim (Bool-cases (net.connects ip url.port)) [
      | inr down ↦
          let k : ok (ends crypto net 5 (set_state State.tcp_fail p)) ≡ ok r =
            rw (known, down, dial) at h in
          absurd (unlinked 5 (set_state State.tcp_fail p) r l k b)
      | inl up ↦
          let q = session crypto net url pin (client_up p) in
          let k : (if net.place then ok (back_off crypto net q) else panic) ≡ ok r =
            rw (known, up, dial) at h in
          let (place, returned) = placed_lem net.place (ok (back_off crypto net q)) k in
          (ip, known, up, place, linked_lem q returned)
    ]
  ]
    where
      placed_lem :
          (b : Bool) (m : Outcome Round) → (if b then m else panic) ≡ ok r → (b ≡ true) × (m ≡ ok r)
      placed_lem true m k = (refl, k)
      placed_lem false m k = cc

      linked_lem : (q : Round) → ok (back_off crypto net q) ≡ ok r → q.bridged ≡ some l
      linked_lem q k = ap Round.bridged (ok-injective k) ∙ b

  -- A round that bridges a link has reached a server: auto-connect is on, Wi-Fi is up, the URL in the
  -- configuration is read, its host has an address, which takes the TCP connection, the CAN bus has a
  -- place for a subscriber, and the link is over
  -- TLS exactly if the URL says so, with the URL's token ahead. A URL with a key says so, and then the
  -- server's certificate shows this key and the server has signed this handshake with it; over TLS
  -- without a key in the URL, the server has signed with the key that its certificate shows, if any. The
  -- TLS library uses the verifier as its documentation says.
  pub round-Reaches :
      (is_utf8 : Bytes → Bool) (wifi : Bool) (c : AutoConnectConfig) (p : Published) (r : Round)
      (l : Link)
      → round crypto net is_utf8 wifi c p ≡ ok r
      → r.bridged ≡ some l
      → (reached : Reaches is_utf8 wifi c p) × IsLink crypto net laws reached.url l
  unfolding round
  round-Reaches is_utf8 wifi c p r l h b = elim (Bool-cases (enabled c)) [
    | inr off ↦
        let k : ok (ends crypto net 3 (set_state State.disabled p)) ≡ ok r = rw (off, round) at h in
        absurd (unlinked 3 (set_state State.disabled p) r l k b)
    | inl on ↦ elim (Bool-cases wifi) [
      | inr down ↦
          let k : ok (ends crypto net 3 p) ≡ ok r = rw (on, down, round) at h in
          absurd (unlinked 3 p r l k b)
      | inl up ↦
          let k : (url_str is_utf8 c >>= continue) ≡ ok r = rw (on, up, round) at h in
          read on up (url_str is_utf8 c) refl k
    ]
  ]
    where
      after_target : Outcome (ParsedUrl × Option Bytes) → Outcome Round
      after_target = λ m. elim m [
        | absent ↦ ok (ends crypto net 30 (set_state State.bad_config p))
        | panic ↦ panic
        | ok (url, pin) ↦ dial crypto net url pin (set_state State.connecting p)
      ]

      continue : Bytes → Outcome Round
      continue = λ text. after_target (target crypto net text)

      aimed :
          enabled c ≡ true
          → wifi ≡ true
          → (text : Bytes) → url_str is_utf8 c ≡ ok text
          → (m : Outcome (ParsedUrl × Option Bytes)) → target crypto net text ≡ m
          → after_target m ≡ ok r
          → (reached : Reaches is_utf8 wifi c p) × IsLink crypto net laws reached.url l
      aimed on up text e absent f k = absurd (unlinked 30 (set_state State.bad_config p) r l k b)
      aimed on up text e panic f k = cc
      aimed on up text e (ok (url, pin)) f k =
          let q = set_state State.connecting p in
          let (ip, known, connected, place, up_link) = dial-Reaches url pin q r l k b in
          let (is_link, shown) = session-IsLink crypto net laws url pin (client_up q) l up_link in
          let (parsed, asked) = target-parsed crypto net laws text url pin f in
          (
            record {
              on = on;
              up = up;
              text = text;
              configured = e;
              url = url;
              parsed = parsed;
              pin = pin;
              asked = asked;
              ip = ip;
              known = known;
              connected = connected;
              place = place;
              secured = shown;
            },
            is_link,
          )

      read :
          enabled c ≡ true
          → wifi ≡ true
          → (m : Outcome Bytes) → url_str is_utf8 c ≡ m
          → (m >>= continue) ≡ ok r
          → (reached : Reaches is_utf8 wifi c p) × IsLink crypto net laws reached.url l
      read on up absent e k = cc
      read on up panic e k = cc
      read on up (ok text) e k = aimed on up text e (target crypto net text) refl k

  dial-bridged :
      (url : ParsedUrl) (pin : Option Bytes) (p : Published) (ip : Bytes)
      → resolve crypto net url.host ≡ some ip
      → net.connects ip url.port ≡ true
      → net.place ≡ true
      → (url.tls ≡ true
          → Shown crypto pin (laws.course url.host (new_verifier crypto pin) (client_up p)))
      → (r : Round) × (l : Link) × (dial crypto net url pin p ≡ ok r)
        × (r.bridged ≡ some l)
        × (r.wait ≡ 3)
        × IsLink crypto net laws url l
  unfolding dial back_off
  dial-bridged url pin p ip known up place shown =
      let (l, linked, state) = session-bridged crypto net laws url pin (client_up p) shown in
      let q = session crypto net url pin (client_up p) in
      (
        back_off crypto net q,
        l,
        rw (known, up, dial) (ap (λ b. if b then ok (back_off crypto net q) else panic) place),
        linked,
        rw state refl,
        (session-IsLink crypto net laws url pin (client_up p) l linked).0,
      )

  -- A round that can reach a server does bridge a link to it, and leaves 3 seconds before the next
  -- round: auto-connect is on, Wi-Fi is up, the URL in the configuration is read, with its key if it
  -- has one, its host has an address, which takes the TCP connection, the CAN bus has a place for a
  -- subscriber, and over TLS the handshake
  -- succeeds with an acceptable server. The TLS library uses the verifier as its documentation says.
  pub round-bridged :
      (is_utf8 : Bytes → Bool) (wifi : Bool) (c : AutoConnectConfig) (p : Published)
      → (reached : Reaches is_utf8 wifi c p)
      → (r : Round) × (l : Link) × (round crypto net is_utf8 wifi c p ≡ ok r)
        × (r.bridged ≡ some l)
        × IsLink crypto net laws reached.url l
        × (r.wait ≡ 3)
  unfolding round
  round-bridged is_utf8 wifi c p s =
      let after_target : Outcome (ParsedUrl × Option Bytes) → Outcome Round = (λ m. elim m [
        | absent ↦ ok (ends crypto net 30 (set_state State.bad_config p))
        | panic ↦ panic
        | ok (url, pin) ↦ dial crypto net url pin (set_state State.connecting p)
      ]) in
      let continue : Bytes → Outcome Round = (λ text. after_target (target crypto net text)) in
      let q = set_state State.connecting p in
      let (r, l, dialled, linked, wait, is_link) =
        dial-bridged s.url s.pin q s.ip s.known s.connected s.place s.secured in
      let returned : round crypto net is_utf8 wifi c p ≡ ok r =
        rw (s.on, s.up, round)
          (ap (λ m. m >>= continue) s.configured
            ∙ ap after_target (target_of crypto net laws s.text s.url s.pin s.parsed s.asked)
            ∙ dialled) in
      (r, l, returned, linked, is_link, wait)
