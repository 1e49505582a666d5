-- ===== src/Http/Serve.antt =====
-- src/http.rs: `handle_request` behind its read loop: the login, and the handler of a request.
pub mod Guard
pub mod Server
use espcan_br.Base.{
  ℕ, Bool, ◌&&◌, if◌then◌else◌, List, [], ◌∷◌, ◌++◌, Bytes, codes, decimal, length, eq_bytes,
  Outcome, ok, ◌>>=◌, from_utf8_unchecked,
}
use espcan_br.Config.Flash.{Nvs}
use espcan_br.Http.Request.{parse_request_line, authorized, body_of}
use espcan_br.Http.Fetch.{Arrival, request, nothing, failure, waiting, fetch}
use espcan_br.Http.Save.{
  Site, Answer, response, save_wifi, save_device_form, save_autoconnect_form, save_auth_form,
}
use espcan_br.Http.Pages.{Live, index_page, status_json}

unfoldable pub unauthorized : Bytes
unauthorized =
    let body = codes "Authentication required.\n" in
    codes "HTTP/1.1 401 Unauthorized\r\nWWW-Authenticate: Basic realm=\"espcan_br\"\r\n"
    ++ (codes "Content-Type: text/plain\r\nContent-Length: "
        ++ (decimal (length body) ++ (codes "\r\nConnection: close\r\n\r\n" ++ body)))

abbrev pub not_found : Bytes
not_found = codes "HTTP/1.1 404 Not Found\r\nContent-Length: 0\r\n\r\n"

-- What a request is answered from, beside the configurations: `GPIO0_HELD`, what the pages show, and
-- the random words for a salt.
pub record Around : Type 0 where
  pub held : Bool
  pub live : Live
  pub random : ℕ → ℕ

module _ (is_utf8 : Bytes → Bool) (sha256 : Bytes → Bytes) (nvs : Nvs) (around : Around) where
  open nvs use {Store}

  abbrev pub shown : Site Store → Outcome Bytes → Outcome (Site Store × Answer)
  shown s page = do text ← page; ok (s, response text)

  -- The `match` on the method and the path.
  unfoldable pub route : Bytes → Bytes → Bytes → Site Store → Outcome (Site Store × Answer)
  route method path req s =
      let get : Bool = eq_bytes method (codes "GET") in
      let post : Bool = eq_bytes method (codes "POST") in
      if get && eq_bytes path (codes "/")
      then shown s (index_page is_utf8 around.live s)
      else if get && eq_bytes path (codes "/api/status")
      then shown s (status_json is_utf8 around.live s)
      else if post && eq_bytes path (codes "/api/wifi")
      then save_wifi nvs (body_of req) s
      else if post && eq_bytes path (codes "/api/device")
      then save_device_form nvs is_utf8 (body_of req) s
      else if post && eq_bytes path (codes "/api/autoconnect")
      then save_autoconnect_form nvs is_utf8 (body_of req) s
      else if post && eq_bytes path (codes "/api/auth")
      then save_auth_form nvs sha256 around.random (body_of req) s
      else ok (s, response not_found)

  unfoldable pub respond : Bytes → Site Store → Outcome (Site Store × Answer)
  respond req s = do
    text ← from_utf8_unchecked is_utf8 req
    let line = parse_request_line text
    allowed ← authorized is_utf8 sha256 around.held s.auth text
    if allowed then route line.0 line.1 text s else ok (s, response unauthorized)

  -- The answers to a connection: one, or none.
  unfoldable pub handle_request : List Arrival → Site Store → Outcome (Site Store × List Answer)
  handle_request arrivals s = elim (fetch is_utf8 arrivals) [
    | request req ↦ (do (s', a) ← respond req s; ok (s', a ∷ []))
    | nothing ↦ ok (s, [])
    | failure ↦ ok (s, [])
    | waiting ↦ ok (s, [])
  ]
