-- ===== src/Http/Serve/Server.antt =====
-- src/http.rs: `http_server`, on one of the networks, up to the first reset.
use espcan_br.Base.{Bool, true, false, List, [], ◌∷◌, Bytes, Outcome, ok, ◌>>=◌}
use espcan_br.Config.Flash.{Nvs}
use espcan_br.Http.Fetch.{Arrival}
use espcan_br.Http.Save.{Site, Answer, response, software_reset}
use espcan_br.Http.Serve.{Around, handle_request}

-- What `accept` comes to: an error, or a connection, with what it is answered from meanwhile and what arrives.
pub data Accepted : Type 0 where
  accept_error : Accepted
  connection : Around → List Arrival → Accepted

abbrev pub resets : List Answer → Bool
resets [] = false
resets (response text ∷ more) = resets more
resets (software_reset ∷ more) = true

module _ (is_utf8 : Bytes → Bool) (sha256 : Bytes → Bytes) (nvs : Nvs) where
  open nvs use {Store}

  -- With the answers of each connection, in their order.
  unfoldable pub http_server :
      List Accepted → Site Store → Outcome (Site Store × List (List Answer))
  http_server [] s = ok (s, [])
  http_server (accept_error ∷ later) s = http_server later s
  http_server (connection around arrivals ∷ later) s = do
    (s', answers) ← handle_request is_utf8 sha256 nvs around arrivals s
    elim (resets answers) [
      | true ↦ ok (s', answers ∷ [])
      | false ↦ (do (s'', more) ← http_server later s'; ok (s'', answers ∷ more))
    ]
