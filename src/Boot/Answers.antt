-- ===== src/Boot/Answers.antt =====
-- src/http.rs: with sane configurations, a request is let in or not, and the pages are shown, without a panic but for text that is not UTF-8.
use espcan_br.Base.{
  ℕ, ◌-◌, min, List, [], ◌∷◌, ◌≤◌, ◌≡◌, arith, Bool, true, false, not, ◌&&◌, ◌==◌, if◌then◌else◌,
  Option, none, some, Bytes, codes, eq_bytes, length, replicate, split_once, take, drop, Outcome,
  ok, absent, panic, ◌>>=◌, slice, slice-ok, Returns, Returns-of, Returns-bind, Returns-if, Yields,
  Ends, Ends-bind, Ends-if, Returns-Ends, from_utf8_unchecked, ◌⊎◌, inl, inr, Bool-cases, refl, sym,
  ◌∙◌,
}
use espcan_br.Config.Wifi.{ssid_str}
use espcan_br.Config.Device.{name_str}
use espcan_br.Config.AutoConnect.{url_str, url_max}
use espcan_br.Config.Auth.{AuthConfig, is_set, user_str, salted_hash, verify}
use espcan_br.Config.Login.{ct_eq-eq_bytes}
use espcan_br.Config.Setters.{AutoConnectSane, AuthSane}
use espcan_br.Config.Flash.{Nvs, wifi, device, autoconnect, auth}
use espcan_br.Http.{base64_decode}
use espcan_br.Http.Base64.{base64_decode-Yields, Within}
use espcan_br.Http.Request.{
  basic_auth_token, verify_creds, verify_token, authorized, parse_request_line, body_of,
}
use espcan_br.Http.Pages.{Live, unchecked, index_page, status_json}
use espcan_br.Http.Save.{
  Site, Answer, response, save_wifi, save_device_form, save_autoconnect_form, save_auth_form,
}
use espcan_br.Http.Serve.{Around, route, respond, handle_request}
use espcan_br.Http.Fetch.{Arrival, Fetched, request, nothing, failure, waiting, fetch}
use espcan_br.Boot.Restart.{AllSane}
use espcan_br.Boot.Forms.{
  Handled, unchanged, save_wifi-Handled, save_device_form-Handled, save_autoconnect_form-Handled,
  save_auth_form-Handled,
}

-- The call returns.
abbrev pub Total : {A : Type 0} → Outcome A → Type 0
Total m = Returns (λ _. Unit) m

slice-Total : (bs : Bytes) (n : ℕ) → n ≤ length bs → Total (slice bs 0 n)
slice-Total bs n h =
    Returns-of (λ _. Unit) (take (n - 0) (drop 0 bs)) (slice-ok bs 0 n (omega arith) h) tt

-- `ssid_str` and its like.
pub text-Total :
    (fallback bs : Bytes) (n : ℕ)
    → n ≤ length bs
    → Total (if n == 0 then ok fallback else slice bs 0 n)
text-Total fallback bs n h =
    Returns-if (λ _. Unit) (n == 0) (ok fallback) (slice bs 0 n) (λ _. tt) (λ _. slice-Total bs n h)

module _ (nvs : Nvs) (s : Site nvs.Store) where
  -- A connection is not answered, or it is handled.
  pub data Connected : Site nvs.Store × List Answer → Type 0 where
    no_answer : Connected (s, [])
    answered : (s' : Site nvs.Store) (a : Answer) → Handled nvs s (s', a) → Connected (s', a ∷ [])

  -- What holds of the texts whose characters the pages read without a check.
  pub record Legible (P : Bytes → Type 0) : Type 0 where
    pub ssid : (t : Bytes) → ssid_str s.wifi ≡ ok t → P t
    pub name : (t : Bytes) → name_str s.device ≡ ok t → P t
    pub user : (t : Bytes) → user_str s.auth ≡ ok t → P t

module _ (is_utf8 : Bytes → Bool) where
  url_str-Total : (c : _) → AutoConnectSane c → Total (url_str is_utf8 c)
  unfolding url_str
  url_str-Total c v =
      Returns-if (λ _. Unit) (min c.url_len url_max == 0) (ok []) _ (λ _. tt)
        (λ _.
          Returns-bind (λ _. Unit) (λ _. Unit) (slice c.url 0 (min c.url_len url_max)) _
            (slice-Total c.url (min c.url_len url_max) (omega (arith, v.fits.url))) (λ _ _. tt))

  module _ (U : Type 0) where
    unchecked-Ends :
        (bs : Bytes)
        → (is_utf8 bs ≡ true) ⊎ U
        → Ends U (λ t. t ≡ bs) (from_utf8_unchecked is_utf8 bs)
    unchecked-Ends bs (inl e) = rw e refl
    unchecked-Ends bs (inr u) = elim (Bool-cases (is_utf8 bs)) [
      | inl e ↦ rw e refl
      | inr e ↦ rw e u
    ]

    checked-Ends :
        (m : Outcome Bytes)
        → Total m
        → ((t : Bytes) → m ≡ ok t → (is_utf8 t ≡ true) ⊎ U)
        → Ends U (λ _. Unit) (unchecked is_utf8 m)
    checked-Ends (ok t) h k = elim (Bool-cases (is_utf8 t)) [
      | inl e ↦ rw e tt
      | inr e ↦ elim (k t refl) [
        | inl valid ↦ (let bad : true ≡ false = sym valid ∙ e in cc)
        | inr u ↦ rw e u
      ]
    ]
    checked-Ends absent h k = h
    checked-Ends panic h k = elim h [ ]

  module _ (nvs : Nvs) (s : Site nvs.Store) (v : AllSane nvs s) where
    site_ssid-Total : Total (ssid_str s.wifi)
    unfolding ssid_str
    site_ssid-Total =
        let k = v wifi in
        text-Total [] s.wifi.ssid s.wifi.ssid_len (omega (arith, k.fits.ssid, k.ssid_len))

    site_name-Total : Total (name_str s.device)
    unfolding name_str
    site_name-Total =
        let d = v device in
        text-Total _ s.device.name s.device.name_len (omega (arith, d.fits.name, d.name_len))

    site_user-Total : Total (user_str s.auth)
    unfolding user_str
    site_user-Total =
        let a = v auth in
        text-Total [] s.auth.user s.auth.user_len (omega (arith, a.fits.user, a.user_len))

    module _ (U : Type 0) (texts : Legible nvs s (λ t. (is_utf8 t ≡ true) ⊎ U)) where
      site_ssid-Ends : Ends U (λ _. Unit) (unchecked is_utf8 (ssid_str s.wifi))
      site_ssid-Ends = checked-Ends U (ssid_str s.wifi) site_ssid-Total texts.ssid

      status_json-Ends : (live : Live) → Ends U (λ _. Unit) (status_json is_utf8 live s)
      unfolding status_json
      status_json-Ends live =
          Ends-bind U (λ _. Unit) (λ _. Unit) (unchecked is_utf8 (ssid_str s.wifi)) _ site_ssid-Ends
            (λ _ _. tt)

      index_page-Ends : (live : Live) → Ends U (λ _. Unit) (index_page is_utf8 live s)
      unfolding index_page
      index_page-Ends live =
          Ends-bind U (λ _. Unit) (λ _. Unit) (unchecked is_utf8 (ssid_str s.wifi)) _ site_ssid-Ends
            (λ _ _.
              Ends-bind U (λ _. Unit) (λ _. Unit) (unchecked is_utf8 (name_str s.device)) _
                (checked-Ends U (name_str s.device) site_name-Total texts.name)
                (λ _ _.
                  Ends-bind U (λ _. Unit) (λ _. Unit) (url_str is_utf8 s.autoconnect) _
                    (Returns-Ends U (λ _. Unit) (url_str is_utf8 s.autoconnect)
                      (url_str-Total s.autoconnect (v autoconnect)))
                    (λ _ _.
                      Ends-bind U (λ _. Unit) (λ _. Unit) (unchecked is_utf8 (user_str s.auth)) _
                        (checked-Ends U (user_str s.auth) site_user-Total texts.user) (λ _ _. tt))))

  module _ (sha256 : Bytes → Bytes) (digest : (bs : Bytes) → length (sha256 bs) ≡ 32) where
    verify-Total :
        (user pass : Bytes) (c : AuthConfig) → AuthSane c → Total (verify sha256 user pass c)
    unfolding verify salted_hash
    verify-Total user pass c v =
        Returns-if (λ _. Unit) (not (is_set c)) (ok true) _ (λ _. tt)
          (λ _.
            Returns-bind (λ _. Unit) (λ _. Unit) (slice c.user 0 c.user_len) _
              (slice-Total c.user c.user_len (omega (arith, v.fits.user, v.user_len)))
              (λ name _.
                Returns-if (λ _. Unit) (not (eq_bytes user name)) (ok false) _ (λ _. tt)
                  (λ _.
                    Returns-of (λ _. Unit) (eq_bytes _ c.pass_hash)
                      (ct_eq-eq_bytes (salted_hash sha256 c.salt pass) c.pass_hash (digest _)
                        v.fits.pass_hash)
                      tt)))

    verify_pair-Total :
        (c : AuthConfig) (o : Option (Bytes × Bytes))
        → AuthSane c
        → Total (elim o [ none ↦ ok false | some (user, pass) ↦ verify sha256 user pass c ])
    verify_pair-Total c none v = tt
    verify_pair-Total c (some (user, pass)) v = verify-Total user pass c v

    verify_creds-Total :
        (c : AuthConfig) (creds : Bytes) → AuthSane c → Total (verify_creds is_utf8 sha256 c creds)
    unfolding verify_creds
    verify_creds-Total c creds v =
        Returns-if (λ _. Unit) (is_utf8 creds) _ (ok false)
          (λ _. verify_pair-Total c (split_once b':' creds) v) (λ _. tt)

    verify_decoded-Total :
        (c : AuthConfig) (room most : ℕ) (m : Outcome (ℕ × Bytes))
        → AuthSane c
        → Yields (Within room most) m
        → Total (elim m [
          | absent ↦ ok false
          | panic ↦ panic
          | ok (n, decoded) ↦ (do creds ← slice decoded 0 n; verify_creds is_utf8 sha256 c creds)
        ])
    verify_decoded-Total c room most (ok (n, decoded)) v h =
        Returns-bind (λ _. Unit) (λ _. Unit) (slice decoded 0 n) _
          (slice-Total decoded n (omega (arith, h.fits, h.size)))
          (λ creds _. verify_creds-Total c creds v)
    verify_decoded-Total c room most absent v h = tt
    verify_decoded-Total c room most panic v h = elim h [ ]

    verify_token-Total :
        (c : AuthConfig) (token : Bytes) → AuthSane c → Total (verify_token is_utf8 sha256 c token)
    unfolding verify_token
    verify_token-Total c token v =
        verify_decoded-Total c _ _ (base64_decode token (replicate 128 0)) v
          (base64_decode-Yields token (replicate 128 0))

    token-Total :
        (c : AuthConfig) (o : Option Bytes)
        → AuthSane c
        → Total (elim o [ none ↦ ok false | some token ↦ verify_token is_utf8 sha256 c token ])
    token-Total c none v = tt
    token-Total c (some token) v = verify_token-Total c token v

    authorized-Total :
        (held : Bool) (c : AuthConfig) (req : Bytes)
        → AuthSane c
        → Total (authorized is_utf8 sha256 held c req)
    unfolding authorized
    authorized-Total held c req v =
        Returns-if (λ _. Unit) held (ok true) _ (λ _. tt)
          (λ _.
            Returns-if (λ _. Unit) (is_set c) _ (ok true)
              (λ _. token-Total c (basic_auth_token req) v) (λ _. tt))

    module _ (nvs : Nvs) (around : Around) (s : Site nvs.Store) (v : AllSane nvs s) (U : Type 0)
        (texts : Legible nvs s (λ t. (is_utf8 t ≡ true) ⊎ U)) where
      shown-Handled :
          (page : Outcome Bytes)
          → Ends U (λ _. Unit) page
          → Ends U (Handled nvs s) (page >>= λ text. ok (s, response text))
      shown-Handled page h =
          Ends-bind U (λ _. Unit) (Handled nvs s) page (λ text. ok (s, response text)) h
            (λ text _. unchanged text)

      route-Handled :
          (method path req : Bytes)
          → Ends U (Handled nvs s) (route is_utf8 sha256 nvs around method path req s)
      unfolding route
      route-Handled method path req =
          let get : Bool = eq_bytes method (codes "GET") in
          let post : Bool = eq_bytes method (codes "POST") in
          Ends-if U (Handled nvs s) (get && eq_bytes path (codes "/")) _ _
            (shown-Handled _ (index_page-Ends nvs s v U texts around.live))
            (Ends-if U (Handled nvs s) (get && eq_bytes path (codes "/api/status")) _ _
              (shown-Handled _ (status_json-Ends nvs s v U texts around.live))
              (Ends-if U (Handled nvs s) (post && eq_bytes path (codes "/api/wifi")) _ _
                (Returns-Ends U (Handled nvs s) (save_wifi nvs (body_of req) s)
                  (save_wifi-Handled nvs (body_of req) s))
                (Ends-if U (Handled nvs s) (post && eq_bytes path (codes "/api/device")) _ _
                  (Returns-Ends U (Handled nvs s) (save_device_form nvs is_utf8 (body_of req) s)
                    (save_device_form-Handled nvs is_utf8 (body_of req) s))
                  (Ends-if U (Handled nvs s) (post && eq_bytes path (codes "/api/autoconnect")) _ _
                    (Returns-Ends U (Handled nvs s)
                      (save_autoconnect_form nvs is_utf8 (body_of req) s)
                      (save_autoconnect_form-Handled nvs is_utf8 (body_of req) s))
                    (Ends-if U (Handled nvs s) (post && eq_bytes path (codes "/api/auth")) _ _
                      (Returns-Ends U (Handled nvs s)
                        (save_auth_form nvs sha256 around.random (body_of req) s)
                        (save_auth_form-Handled nvs sha256 digest around.random (body_of req) s))
                      (unchanged _))))))

      respond-Handled :
          (req : Bytes)
          → (is_utf8 req ≡ true) ⊎ U
          → Ends U (Handled nvs s) (respond is_utf8 sha256 nvs around req s)
      unfolding respond
      respond-Handled req valid =
          Ends-bind U (λ t. t ≡ req) (Handled nvs s) (from_utf8_unchecked is_utf8 req) _
            (unchecked-Ends U req valid)
            (λ text _.
              Ends-bind U (λ _. Unit) (Handled nvs s)
                (authorized is_utf8 sha256 around.held s.auth text) _
                (Returns-Ends U (λ _. Unit) _ (authorized-Total around.held s.auth text (v auth)))
                (λ allowed _.
                  Ends-if U (Handled nvs s) allowed _ _
                    (route-Handled (parse_request_line text).0 (parse_request_line text).1 text)
                    (unchanged _)))

      fetched-Connected :
          (f : Fetched)
          → ((req : Bytes) → f ≡ request req → (is_utf8 req ≡ true) ⊎ U)
          → Ends U (Connected nvs s) (elim f [
            | request req ↦ (do (s', a) ← respond is_utf8 sha256 nvs around req s; ok (s', a ∷ []))
            | nothing ↦ ok (s, [])
            | failure ↦ ok (s, [])
            | waiting ↦ ok (s, [])
          ])
      fetched-Connected (request req) valid =
          Ends-bind U (Handled nvs s) (Connected nvs s) (respond is_utf8 sha256 nvs around req s) _
            (respond-Handled req (valid req refl)) (λ (s', a) h. answered s' a h)
      fetched-Connected nothing valid = no_answer
      fetched-Connected failure valid = no_answer
      fetched-Connected waiting valid = no_answer

      -- The whole connection.
      pub handle_request-Connected :
          (arrivals : List Arrival)
          → ((req : Bytes) → fetch is_utf8 arrivals ≡ request req → (is_utf8 req ≡ true) ⊎ U)
          → Ends U (Connected nvs s) (handle_request is_utf8 sha256 nvs around arrivals s)
      unfolding handle_request
      handle_request-Connected arrivals = fetched-Connected (fetch is_utf8 arrivals)
