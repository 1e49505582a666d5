-- ===== src/Boot/Life.antt =====
-- src/main.rs, src/http.rs and src/config.rs: the configurations over restarts. A request is one step: the
-- handlers hold no state from one to the next, and those of both networks share the configurations.
use espcan_br.Base.{
  ◌≡◌, refl, sym, ◌∙◌, subst, ◌≢◌, inl, inr, Bool, List, [], ◌∷◌, Bytes, length, All, Outcome, ok,
  ok-injective, Returns, Ends, Ends-Returns, true,
}
use espcan_br.Config.Flash.{Nvs, DocumentedNvs}
use espcan_br.Http.Fetch.{Arrival, request, fetch}
use espcan_br.Http.Save.{Site, Answer, response, software_reset, save_failed}
use espcan_br.Http.Serve.{Around, handle_request}
use espcan_br.Boot.{load_all}
use espcan_br.Boot.Restart.{
  AllSane, AllBounded, Bounded-Sane, BoundedFlash, BoundedFlash-SaneFlash, Synced-AllBounded,
  put-AllBounded, Synced, SaneFlash, Booted, load_all-Booted, Synced-load_all, save_slot-Synced,
  put-AllSane,
}
use espcan_br.Boot.Forms.{Handled, unchanged, saved}
use espcan_br.Boot.Answers.{Connected, Legible, no_answer, answered, handle_request-Connected}

-- No answer says that saving failed.
abbrev pub SavesWell : List Answer → Type 0
SavesWell answers = All (λ a. a ≢ response save_failed) answers

module _ (nvs : Nvs) where
  open nvs use {Store}

  -- What runs behind a connection: a reset boots from the flash.
  unfoldable pub after : Site Store × List Answer → Outcome (Site Store)
  after (s, []) = ok s
  after (s, response text ∷ more) = ok s
  after (s, software_reset ∷ more) = load_all nvs s.flash

  -- The configurations in memory are sane, and those that a boot loads.
  pub record Good (s : Site Store) : Type 0 where
    pub sane : AllSane nvs s
    pub synced : Synced nvs s

  load_all-Good :
      (flash : Store) (s : Site Store) → SaneFlash nvs flash → load_all nvs flash ≡ ok s → Good s
  load_all-Good flash s h e =
      let b : Booted nvs flash s =
        subst (Returns (Booted nvs flash)) e (load_all-Booted nvs flash h) in
      record { sane = b.sane; synced = b.synced }

  Handled-AllBounded :
      (s s' : Site Store) (a : Answer)
      → AllBounded nvs s
      → Handled nvs s (s', a)
      → AllBounded nvs s'
  Handled-AllBounded s s' a v (unchanged _) = v
  Handled-AllBounded s s' _ v (saved k c a w valid ends) = put-AllBounded nvs k c s _ w v

  pub Connected-AllBounded :
      (s : Site Store) (r : Site Store × List Answer)
      → AllBounded nvs s
      → Connected nvs s r
      → AllBounded nvs r.0
  Connected-AllBounded s r v no_answer = v
  Connected-AllBounded s r v (answered s' a h) = Handled-AllBounded s s' a v h

  module _ (laws : DocumentedNvs nvs) where
    pub Handled-Good :
        (s s' : Site Store) (a : Answer)
        → Good s
        → Handled nvs s (s', a)
        → a ≢ response save_failed
        → Good s'
    Handled-Good s s' a g (unchanged _) well = g
    Handled-Good s s' _ g (saved k c a v valid (inl done)) well = record {
      sane = put-AllSane nvs k c s _ (Bounded-Sane k c v) g.sane;
      synced = save_slot-Synced nvs laws k c s (Bounded-Sane k c v) valid done g.synced;
    }
    Handled-Good s s' _ g (saved k c a v valid (inr failed)) well = absurd (well failed)

    Connected-Good :
        (s : Site Store) (r : Site Store × List Answer)
        → Good s
        → Connected nvs s r
        → SavesWell r.1
        → Good r.0
    Connected-Good s r g no_answer well = g
    Connected-Good s r g (answered s' a h) well = Handled-Good s s' a g h well.0

    -- A reset changes nothing.
    after-Good : (r : Site Store × List Answer) → Good r.0 → after r ≡ ok r.0
    unfolding after
    after-Good (s, []) g = refl
    after-Good (s, response text ∷ more) g = refl
    after-Good (s, software_reset ∷ more) g = Synced-load_all nvs s g.synced

module _ (is_utf8 : Bytes → Bool) (sha256 : Bytes → Bytes) (nvs : Nvs) where
  open nvs use {Store}

  -- The configurations that a device comes to have that boots from a flash, serves connections, resets, and
  -- loses its power now and then, as long as no save fails.
  pub data Reach (flash : Store) : Site Store → Type 0 where
    booted : (s : Site Store) → load_all nvs flash ≡ ok s → Reach flash s
    served :
        (s s' : Site Store) (around : Around) (arrivals : List Arrival)
        (r : Site Store × List Answer)
        → Reach flash s
        → handle_request is_utf8 sha256 nvs around arrivals s ≡ ok r
        → SavesWell r.1
        → after nvs r ≡ ok s'
        → Reach flash s'
    power_cycled :
        (s s' : Site Store) → Reach flash s → load_all nvs s.flash ≡ ok s' → Reach flash s'

  connected_lem :
      ((bs : Bytes) → length (sha256 bs) ≡ 32)
      → (s : Site Store) (around : Around) (arrivals : List Arrival) (r : Site Store × List Answer)
      → Good nvs s
      → handle_request is_utf8 sha256 nvs around arrivals s ≡ ok r
      → Connected nvs s r
  connected_lem digest s around arrivals r g e = subst (Ends Unit (Connected nvs s)) e (
      handle_request-Connected is_utf8 sha256 digest nvs around s g.sane Unit
        (record { ssid = λ t h. inr tt; name = λ t h. inr tt; user = λ t h. inr tt }) arrivals
        (λ req h. inr tt))

  module _ (digest : (bs : Bytes) → length (sha256 bs) ≡ 32) (laws : DocumentedNvs nvs)
      (flash : Store) (sane : SaneFlash nvs flash) where
    served-Good :
        (s s' : Site Store) (around : Around) (arrivals : List Arrival)
        (r : Site Store × List Answer)
        → Good nvs s
        → handle_request is_utf8 sha256 nvs around arrivals s ≡ ok r
        → SavesWell r.1
        → after nvs r ≡ ok s'
        → Good nvs s'
    served-Good s s' around arrivals r g e well f =
        let c = connected_lem digest s around arrivals r g e in
        let h = Connected-Good nvs laws s r g c well in
        subst (Good nvs) (ok-injective (sym (after-Good nvs laws r h) ∙ f)) h

    pub Reach-Good : (s : Site Store) → Reach flash s → Good nvs s
    Reach-Good s (booted _ e) = load_all-Good nvs flash s sane e
    Reach-Good s (served s₀ _ around arrivals r k e well f) =
        served-Good s₀ s around arrivals r (Reach-Good s₀ k) e well f
    Reach-Good s (power_cycled s₀ _ k e) =
        let g = Reach-Good s₀ k in
        subst (Good nvs) (ok-injective (sym (Synced-load_all nvs s₀ g.synced) ∙ e)) g

    -- A device has booted from a flash where every slot is empty or has a configuration with its texts within
    -- their fields; since then it has served connections, reset, and lost its power, and no save has failed.
    -- Then a boot from its flash loads exactly the configurations that are in memory. The digest has 32 bytes,
    -- and the flash does what its documentation says.
    pub Reach-load_all : (s : Site Store) → Reach flash s → load_all nvs s.flash ≡ ok s
    Reach-load_all s k = let g = Reach-Good s k in Synced-load_all nvs s g.synced

    -- Of such a device, in every state that it comes to: handling a connection does not panic, whatever a
    -- client sends and in whatever pieces, if the request that comes out of the pieces, if any, is UTF-8, and
    -- so are the SSID, the device's name and the user in memory, as they are read. There is at most one
    -- answer, and either nothing changes, or one configuration that is valid, with its texts within their
    -- arrays, is put in memory and saved; unless that succeeds, the answer is that saving failed.
    pub handle_request-Reach :
        (s : Site Store) (around : Around) (arrivals : List Arrival)
        → Reach flash s
        → Legible nvs s (λ t. is_utf8 t ≡ true)
        → ((req : Bytes) → fetch is_utf8 arrivals ≡ request req → is_utf8 req ≡ true)
        → Returns (Connected nvs s) (handle_request is_utf8 sha256 nvs around arrivals s)
    handle_request-Reach s around arrivals k texts valid =
        let g = Reach-Good s k in
        Ends-Returns (Connected nvs s) (handle_request is_utf8 sha256 nvs around arrivals s) (
          handle_request-Connected is_utf8 sha256 digest nvs around s g.sane ⊥
            (record {
              ssid = λ t h. inl (texts.ssid t h);
              name = λ t h. inl (texts.name t h);
              user = λ t h. inl (texts.user t h);
            })
            arrivals (λ req h. inl (valid req h)))

  module _ (digest : (bs : Bytes) → length (sha256 bs) ≡ 32) (laws : DocumentedNvs nvs)
      (flash : Store) (bounded : BoundedFlash nvs flash) where
    booted-AllBounded : (s : Site Store) → load_all nvs flash ≡ ok s → AllBounded nvs s
    booted-AllBounded s e =
        let b : Booted nvs flash s =
          subst (Returns (Booted nvs flash)) e
            (load_all-Booted nvs flash (BoundedFlash-SaneFlash nvs flash bounded)) in
        Synced-AllBounded nvs s b.synced (subst (BoundedFlash nvs) (sym b.kept) bounded)

    served-AllBounded :
        (s s' : Site Store) (around : Around) (arrivals : List Arrival)
        (r : Site Store × List Answer)
        → Good nvs s
        → AllBounded nvs s
        → handle_request is_utf8 sha256 nvs around arrivals s ≡ ok r
        → SavesWell r.1
        → after nvs r ≡ ok s'
        → AllBounded nvs s'
    served-AllBounded s s' around arrivals r g v e well f =
        let c = connected_lem digest s around arrivals r g e in
        let h = Connected-Good nvs laws s r g c well in
        subst (AllBounded nvs) (ok-injective (sym (after-Good nvs laws r h) ∙ f))
          (Connected-AllBounded nvs s r v c)

    -- A device has booted from a flash where every slot is empty or has a configuration whose words and
    -- one-byte fields are within their width, whose arrays have their length, and whose texts are within
    -- their arrays; since then it has served connections, reset, and lost its power, and no save has failed.
    -- Then the same holds of the configurations in memory, in every state that it comes to: a URL has at
    -- most 256 bytes, for instance. The elements of the arrays are not part of this. The digest has 32 bytes,
    -- and the flash does what its documentation says.
    pub Reach-AllBounded : (s : Site Store) → Reach flash s → AllBounded nvs s
    Reach-AllBounded s (booted _ e) = booted-AllBounded s e
    Reach-AllBounded s (served s₀ _ around arrivals r k e well f) =
        let sane = BoundedFlash-SaneFlash nvs flash bounded in
        served-AllBounded s₀ s around arrivals r (Reach-Good digest laws flash sane s₀ k)
          (Reach-AllBounded s₀ k) e well f
    Reach-AllBounded s (power_cycled s₀ _ k e) =
        let g = Reach-Good digest laws flash (BoundedFlash-SaneFlash nvs flash bounded) s₀ k in
        subst (AllBounded nvs) (ok-injective (sym (Synced-load_all nvs s₀ g.synced) ∙ e))
          (Reach-AllBounded s₀ k)
