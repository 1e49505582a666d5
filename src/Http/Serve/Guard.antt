-- ===== src/Http/Serve/Guard.antt =====
-- src/http.rs: a connection from its segments to the answer, behind the login.
use espcan_br.Base.{
  ◌≤◌, ◌<◌, ◌≡◌, refl, ◌∙◌, ap, inl, inr, Bool, true, false, Bool-cases, if◌then◌else◌, List, [],
  ◌∷◌, ◌++◌, map, Bytes, All, has, length, some, Outcome, ok, panic, ◌>>=◌,
}
use espcan_br.Config.Auth.{verify}
use espcan_br.Config.Codec.{joined}
use espcan_br.Config.Flash.{Nvs}
use espcan_br.Http.Request.{parse_request_line, authorized}
use espcan_br.Http.Request.Login.{IsFirst, login_request, authorized-login_request}
use espcan_br.Http.Fetch.{Arrival, segment, need_of, buffer_len}
use espcan_br.Http.Fetch.Segments.{fetch-segments}
use espcan_br.Http.Save.{Site, Answer, response}
use espcan_br.Http.Serve.{Around, unauthorized, route, respond, handle_request}

module _ (is_utf8 : Bytes → Bool) (sha256 : Bytes → Bytes) (nvs : Nvs) (around : Around) where
  open nvs use {Store}

  -- The one answer of a connection.
  abbrev pub answered : Outcome (Site Store × Answer) → Outcome (Site Store × List Answer)
  answered m = m >>= λ r. ok (r.0, r.1 ∷ [])

  respond-login :
      (s : Site Store) (first u p rest : Bytes) (b : Bool)
      → around.held ≡ false
      → IsFirst first
      → has b':' u ≡ false
      → All (λ c. c < 256) (u ++ b':' ∷ p)
      → length (u ++ b':' ∷ p) ≤ 128
      → is_utf8 (u ++ b':' ∷ p) ≡ true
      → verify sha256 u p s.auth ≡ ok b
      → let req = login_request first u p rest in
        let line = parse_request_line req in
        respond is_utf8 sha256 nvs around req s ≡ (
          if is_utf8 req
          then (if b
              then route is_utf8 sha256 nvs around line.0 line.1 req s
              else ok (s, response unauthorized))
          else panic)
  unfolding respond
  respond-login s first u p rest b up k free h room text e =
      let allowed : authorized is_utf8 sha256 around.held s.auth (login_request first u p rest)
          ≡ ok b =
        ap (λ held. authorized is_utf8 sha256 held s.auth (login_request first u p rest)) up
        ∙ authorized-login_request is_utf8 sha256 s.auth first u p rest k free h room text
        ∙ e in
      elim (Bool-cases (is_utf8 (login_request first u p rest))) [
        | inl valid ↦ rw (valid, allowed) refl
        | inr other ↦ rw other refl
      ]

  -- With the button up, a connection that brings a request with a login, in any segments, has one
  -- answer: the route's, if the login is accepted, and otherwise 401, with every configuration and the
  -- flash as they were. The request fits into the buffer, and its body has the length that its headers
  -- declare; its first line is not empty and has no colon; the login stands in the header that follows,
  -- at most 128 bytes of UTF-8 with their colon, and none in the user. A request that is not UTF-8 as a
  -- whole is undefined behaviour, which counts as a panic.
  pub handle_request-login :
      (segments : List Bytes) (after : List Arrival) (s : Site Store) (first u p rest : Bytes)
      (b : Bool)
      → around.held ≡ false
      → IsFirst first
      → has b':' u ≡ false
      → All (λ c. c < 256) (u ++ b':' ∷ p)
      → length (u ++ b':' ∷ p) ≤ 128
      → is_utf8 (u ++ b':' ∷ p) ≡ true
      → verify sha256 u p s.auth ≡ ok b
      → need_of is_utf8 (login_request first u p rest)
        ≡ some (length (login_request first u p rest))
      → length (login_request first u p rest) ≤ buffer_len
      → All (λ t. 0 < length t) segments
      → joined segments ≡ login_request first u p rest
      → let req = login_request first u p rest in
        let line = parse_request_line req in
        handle_request is_utf8 sha256 nvs around (map segment segments ++ after) s
        ≡ answered (
            if is_utf8 req
            then (if b
                then route is_utf8 sha256 nvs around line.0 line.1 req s
                else ok (s, response unauthorized))
            else panic)
  unfolding handle_request
  handle_request-login segments after s first u p rest b up k free h room text e full fits
        some_bytes whole =
      let read =
        fetch-segments is_utf8 (login_request first u p rest) segments after full fits some_bytes
          whole in
      let answer = respond-login s first u p rest b up k free h room text e in
      rw (handle_request, read, answer) refl
