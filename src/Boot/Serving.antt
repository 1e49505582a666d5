-- ===== src/Boot/Serving.antt =====
-- src/http.rs: the web server over any connections, whether saving succeeds or not.
use espcan_br.Base.{
  ◌≤◌, ◌≡◌, arith, ◌⊎◌, Bool, true, false, Bool-cases, inl, inr, List, [], ◌∷◌, Bytes, All, length,
  ok, Ends, Ends-bind, Ends-mono, Ends-self,
}
use espcan_br.Config.Wifi.{ssid_str}
use espcan_br.Config.Device.{name_str}
use espcan_br.Config.Auth.{user_str}
use espcan_br.Config.Flash.{Nvs}
use espcan_br.Http.Fetch.{Arrival, request, fetch}
use espcan_br.Http.Save.{Site, Answer}
use espcan_br.Http.Serve.{Around, handle_request}
use espcan_br.Http.Serve.Server.{Accepted, accept_error, connection, resets, http_server}
use espcan_br.Boot.Restart.{AllSane, AllBounded, Bounded-Sane, memory}
use espcan_br.Boot.Life.{Connected-AllBounded}
use espcan_br.Boot.Answers.{Connected, no_answer, answered, handle_request-Connected}

module _ (is_utf8 : Bytes → Bool) (sha256 : Bytes → Bytes) (nvs : Nvs) where
  open nvs use {Store}

  -- A connection whose request is not UTF-8, or which meets a text in memory that is not.
  pub data IllFormed (arrivals : List Arrival) (s : Site Store) : Type 0 where
    request_bytes :
        (req : Bytes)
        → fetch is_utf8 arrivals ≡ request req
        → is_utf8 req ≡ false
        → IllFormed arrivals s
    ssid_bytes : (t : Bytes) → ssid_str s.wifi ≡ ok t → is_utf8 t ≡ false → IllFormed arrivals s
    name_bytes : (t : Bytes) → name_str s.device ≡ ok t → is_utf8 t ≡ false → IllFormed arrivals s
    user_bytes : (t : Bytes) → user_str s.auth ≡ ok t → is_utf8 t ≡ false → IllFormed arrivals s

  -- The server comes to such a connection.
  pub data Meets : List Accepted → Site Store → Type 0 where
    now :
        (around : Around) (arrivals : List Arrival) (later : List Accepted) (s : Site Store)
        → IllFormed arrivals s
        → Meets (connection around arrivals ∷ later) s
    past_error :
        (later : List Accepted) (s : Site Store) → Meets later s → Meets (accept_error ∷ later) s
    past :
        (around : Around) (arrivals : List Arrival) (later : List Accepted) (s s' : Site Store)
        (answers : List Answer)
        → handle_request is_utf8 sha256 nvs around arrivals s ≡ ok (s', answers)
        → resets answers ≡ false
        → Meets later s'
        → Meets (connection around arrivals ∷ later) s

  -- The configurations stay bounded, and no connection has two answers.
  pub record Serves (r : Site Store × List (List Answer)) : Type 0 where
    pub bounded : AllBounded nvs r.0
    pub once : All (λ answers. length answers ≤ 1) r.1

  Connected-once :
      (s : Site Store) (r : Site Store × List Answer) → Connected nvs s r → length r.1 ≤ 1
  Connected-once s r no_answer = omega arith
  Connected-once s r (answered s' a h) = omega arith

  module _ (digest : (bs : Bytes) → length (sha256 bs) ≡ 32) where
    valid_or : (U : Type 0) (t : Bytes) → (is_utf8 t ≡ false → U) → (is_utf8 t ≡ true) ⊎ U
    valid_or U t h = elim (Bool-cases (is_utf8 t)) [ inl e ↦ inl e | inr e ↦ inr (h e) ]

    connection-Connected :
        (around : Around) (arrivals : List Arrival) (s : Site Store) (U : Type 0)
        → AllSane nvs s
        → (IllFormed arrivals s → U)
        → Ends U
            (λ r. (handle_request is_utf8 sha256 nvs around arrivals s ≡ ok r) × Connected nvs s r)
            (handle_request is_utf8 sha256 nvs around arrivals s)
    connection-Connected around arrivals s U v bad =
        Ends-self U (Connected nvs s) (handle_request is_utf8 sha256 nvs around arrivals s) (
          handle_request-Connected is_utf8 sha256 digest nvs around s v U
            (record {
              ssid = λ t h. valid_or U t (λ e. bad (ssid_bytes t h e));
              name = λ t h. valid_or U t (λ e. bad (name_bytes t h e));
              user = λ t h. valid_or U t (λ e. bad (user_bytes t h e));
            })
            arrivals (λ req h. valid_or U req (λ e. bad (request_bytes req h e))))

    -- Whatever connections the server of a network accepts, errors among them, and whatever clients send: from
    -- bounded configurations the server panics, up to the end or the first reset, only if it comes to a connection
    -- whose request is not UTF-8, or which meets an SSID, a device's name or a user in memory that is not.
    -- Otherwise every connection has at most one answer, and the configurations stay bounded, also when saving
    -- fails. Bounded are words and one-byte fields within their width, arrays of their length, and texts
    -- within their arrays. The digest has 32 bytes.
    pub http_server-Serves :
        (accepted : List Accepted) (s : Site Store)
        → AllBounded nvs s
        → Ends (Meets accepted s) Serves (http_server is_utf8 sha256 nvs accepted s)
    unfolding http_server
    http_server-Serves [] s v = record { bounded = v; once = tt }
    http_server-Serves (accept_error ∷ later) s v =
        Ends-mono (Meets later s) (Meets (accept_error ∷ later) s) Serves
          (http_server is_utf8 sha256 nvs later s) (http_server-Serves later s v)
          (λ m. past_error later s m)
    http_server-Serves (connection around arrivals ∷ later) s v =
        let U = Meets (connection around arrivals ∷ later) s in
        Ends-bind U
          (λ r. (handle_request is_utf8 sha256 nvs around arrivals s ≡ ok r) × Connected nvs s r)
          Serves (handle_request is_utf8 sha256 nvs around arrivals s) _
          (connection-Connected around arrivals s U (λ k. Bounded-Sane k (memory k s) (v k))
            (λ bad. now around arrivals later s bad))
          (λ (s', answers) (e, c).
            let w = Connected-AllBounded nvs s (s', answers) v c in
            let one = Connected-once s (s', answers) c in
            elim (Bool-cases (resets answers)) [
              | inl reset ↦ rw reset (record { bounded = w; once = (one, tt) })
              | inr runs ↦ rw runs (
                  Ends-bind U Serves Serves (http_server is_utf8 sha256 nvs later s') _
                    (Ends-mono (Meets later s') U Serves (http_server is_utf8 sha256 nvs later s')
                      (http_server-Serves later s' w)
                      (λ m. past around arrivals later s s' answers e runs m))
                    (λ (s'', more) h. record { bounded = h.bounded; once = (one, h.once) }))
            ])
