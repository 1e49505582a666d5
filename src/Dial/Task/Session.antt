-- ===== src/Dial/Task/Session.antt =====
-- src/autoconnect.rs: the URL with its key, and the link over the connection, of `autoconnect_task`.
use espcan_br.Base.{
  ◌≡◌, refl, sym, ◌∙◌, ap, subst, inl, inr, Bool, true, false, not, Bool-cases, Option-cases, ◌==◌,
  if◌then◌else◌, Option, none, some, Bytes, Outcome, ok, absent, panic, ◌>>=◌,
}
use mathlib.Core.Option.{some-injective}
use espcan_br.Dial.State
use espcan_br.Dial.Url.{ParsedUrl, parse_url, parse_pubkey}
use espcan_br.Dial.Pin.{Crypto, Published, new_verifier, set_state}
use espcan_br.Dial.Task.{Network, Link, pin_of, ends, session, target, send_token}
use espcan_br.Dial.Task.Course.{Documented, Shown, after, after-Shown, after-opens}

-- The key that a URL asks for.
pub data IsPin (url : ParsedUrl) : Option Bytes → Type 0 where
  unpinned : url.pubkey ≡ none → IsPin url none
  pinned :
      (h key : Bytes)
      → url.pubkey ≡ some h
      → parse_pubkey h ≡ ok key
      → url.tls ≡ true
      → IsPin url (some key)

module _ (crypto : Crypto) (net : Network crypto) (laws : Documented crypto net) where
  -- The link that a URL gives.
  pub record IsLink (url : ParsedUrl) (l : Link) : Type 0 where
    pub over_tls : l.secure ≡ url.tls
    pub token_first : l.sent ≡ send_token url.token

  opened :
      (host : Bytes) (pin : Option Bytes) (p : Published)
      → (net.open_tls host (new_verifier crypto pin) p).1
        ≡ (after crypto
            (laws.course host (new_verifier crypto pin) p)
            (new_verifier crypto pin)
            p).1
  opened host pin p = ap (λ x. x.1) (laws.follows host (new_verifier crypto pin) p)

  down_lem :
      (b : Bool) (q q' : Published)
      → (if b then ends crypto net 0 q else ends crypto net 0 q').bridged ≡ none
  down_lem true q q' = refl
  down_lem false q q' = refl

  pub session-IsLink :
      (url : ParsedUrl) (pin : Option Bytes) (p : Published) (l : Link)
      → (session crypto net url pin p).bridged ≡ some l
      → IsLink url l
        × (url.tls ≡ true → Shown crypto pin (laws.course url.host (new_verifier crypto pin) p))
  unfolding session
  session-IsLink url pin p l h = elim (Bool-cases url.tls) [
    | inr plain ↦
        let k : some (record {
          secure = false;
          sent = send_token url.token;
          published = set_state State.connected p;
        })
            ≡ some l =
          rw (plain, session) at h in
        let e = some-injective _ _ k in
        (
          record {
            over_tls = sym (ap Link.secure e) ∙ sym plain;
            token_first = sym (ap Link.sent e);
          },
          λ t. cc,
        )
    | inl tls ↦ elim (Bool-cases (net.open_tls url.host (new_verifier crypto pin) p).1) [
      | inr down ↦
          let q = (net.open_tls url.host (new_verifier crypto pin) p).0 in
          let k : (if not (q.state == State.pin_mismatch)
                then ends crypto net 0 (set_state State.tls_fail q)
                else ends crypto net 0 q).bridged
              ≡ some l =
            rw (tls, down, session) at h in
          let none_some : none ≡ some l =
            sym (down_lem (not (q.state == State.pin_mismatch)) _ _) ∙ k in
          cc
      | inl up ↦
          let q = (net.open_tls url.host (new_verifier crypto pin) p).0 in
          let k : some (record {
            secure = true;
            sent = send_token url.token;
            published = set_state State.connected q;
          })
              ≡ some l =
            rw (tls, up, session) at h in
          let e = some-injective _ _ k in
          let course = laws.course url.host (new_verifier crypto pin) p in
          (
            record {
              over_tls = sym (ap Link.secure e) ∙ sym tls;
              token_first = sym (ap Link.sent e);
            },
            λ t. after-Shown crypto course pin p (sym (opened url.host pin p) ∙ up),
          )
    ]
  ]

  pub session-bridged :
      (url : ParsedUrl) (pin : Option Bytes) (p : Published)
      → (url.tls ≡ true → Shown crypto pin (laws.course url.host (new_verifier crypto pin) p))
      → (l : Link) × ((session crypto net url pin p).bridged ≡ some l)
        × ((session crypto net url pin p).published.state ≡ State.connected)
  unfolding session set_state
  session-bridged url pin p h = elim (Bool-cases url.tls) [
    | inr plain ↦
        rw (plain, session)
          (
            record {
              secure = false;
              sent = send_token url.token;
              published = set_state State.connected p;
            },
            refl,
            refl,
          )
    | inl tls ↦
        let up =
          opened url.host pin p
          ∙ after-opens crypto (laws.course url.host (new_verifier crypto pin) p) pin p (h tls) in
        let q = (net.open_tls url.host (new_verifier crypto pin) p).0 in
        rw (tls, up, session)
          (
            record {
              secure = true;
              sent = send_token url.token;
              published = set_state State.connected q;
            },
            refl,
            refl,
          )
  ]

  pin_of-IsPin :
      (url : ParsedUrl) (pin : Option Bytes) → pin_of crypto net url ≡ ok pin → IsPin url pin
  unfolding pin_of
  pin_of-IsPin url pin h = elim (Option-cases url.pubkey) [
    | inl free ↦
        let k : ok none ≡ ok pin = rw (free, pin_of) at h in
        let e : none ≡ pin = cc in subst (IsPin url) e (unpinned free)
    | inr (text, given) ↦
        let k : (parse_pubkey text >>= (λ key. if url.tls then ok (some key) else absent))
            ≡ ok pin =
          rw (given, pin_of) at h in
        key_of text given (parse_pubkey text) refl k
  ]
    where
      key_of :
          (text : Bytes)
          → url.pubkey ≡ some text
          → (m : Outcome Bytes) → parse_pubkey text ≡ m
          → (m >>= (λ key. if url.tls then ok (some key) else absent)) ≡ ok pin
          → IsPin url pin
      key_of text given absent e k = cc
      key_of text given panic e k = cc
      key_of text given (ok key) e k = elim (Bool-cases url.tls) [
        | inr plain ↦ (let bad : absent ≡ ok pin = rw plain at k in cc)
        | inl tls ↦
            let good : ok (some key) ≡ ok pin = rw tls at k in
            let same : some key ≡ pin = cc in subst (IsPin url) same (pinned text key given e tls)
      ]

  IsPin-pin_of :
      (url : ParsedUrl) (pin : Option Bytes) → IsPin url pin → pin_of crypto net url ≡ ok pin
  unfolding pin_of
  IsPin-pin_of url pin (unpinned e) = rw (e, pin_of) refl
  IsPin-pin_of url pin (pinned h key e k tls) = rw (e, pin_of, k, tls) refl

  pub target-parsed :
      (text : Bytes) (url : ParsedUrl) (pin : Option Bytes)
      → target crypto net text ≡ ok (url, pin)
      → (parse_url text ≡ ok url) × IsPin url pin
  unfolding target
  target-parsed text url pin h = go (parse_url text) refl h
    where
      inner :
          (m : Outcome (Option Bytes)) (u : ParsedUrl)
          → parse_url text ≡ ok u
          → pin_of crypto net u ≡ m
          → (◌>>=◌ {Y = ParsedUrl × Option Bytes} m (λ pin'. ok (u, pin'))) ≡ ok (url, pin)
          → (parse_url text ≡ ok url) × IsPin url pin
      inner absent u e f k = cc
      inner panic u e f k = cc
      inner (ok pin') u e f k =
          let same : u ≡ url = cc in
          let same_pin : pin' ≡ pin = cc in
          let g : pin_of crypto net url ≡ ok pin =
            ap (pin_of crypto net) (sym same) ∙ f ∙ ap ok same_pin in
          (e ∙ ap ok same, pin_of-IsPin url pin g)

      go :
          (m : Outcome ParsedUrl)
          → parse_url text ≡ m
          → (◌>>=◌ {Y = ParsedUrl × Option Bytes} m (λ u.
              ◌>>=◌ {Y = ParsedUrl × Option Bytes} (pin_of crypto net u) (λ pin'. ok (u, pin'))))
            ≡ ok (url, pin)
          → (parse_url text ≡ ok url) × IsPin url pin
      go absent e k = cc
      go panic e k = cc
      go (ok u) e k = inner (pin_of crypto net u) u e refl k

  pub target_of :
      (text : Bytes) (url : ParsedUrl) (pin : Option Bytes)
      → parse_url text ≡ ok url
      → IsPin url pin
      → target crypto net text ≡ ok (url, pin)
  unfolding target
  target_of text url pin e asked = rw (e, target, IsPin-pin_of url pin asked) refl
