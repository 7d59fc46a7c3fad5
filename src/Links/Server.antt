-- ===== src/Links/Server.antt =====
-- cache.go: a server whose links do not change while it is read, and the states of the cache
-- that agree with it.
use proton_api_bridge.Common.{
  ℕ, zero, suc, String, true, none, some, [], ◌∷◌, lookup, insert, ◌≡◌, ◌≢◌, sym, ap, subst, ◌∙◌,
  inl, inr, lookup-insert_inv, Option-cases, if_then,
}
use proton_api_bridge.Action.{Act, Outcome, ok}
use proton_api_bridge.Proton.{Link}
use proton_api_bridge.Api.{Api}
use proton_api_bridge.Drive.{Drive, St, get_signature_verification_keyring}
use proton_api_bridge.Cache.{Cache, CacheEntry, get, insert_entry, insert_link, set_kr}
use proton_api_bridge.Cache.Consistency.{
  IsConsistent, insert_entry-IsConsistent, set_kr-IsConsistent,
}

module _ (api : Api) (drive : Drive api) (srv : String → Outcome Link) where
  -- Reading a link of the main share changes nothing, gives the same link each time, and that
  -- link has the id that was asked for.
  pub record Serves : Type 0 where
    pub reads :
        (link_id : String) (w : api.World)
        → api.get_link drive.main_share.share_id link_id w ≡ (srv link_id, w)
    pub identity : (link_id : String) (l : Link) → srv link_id ≡ ok l → l.link_id ≡ link_id

  -- The link's key ring opens with its parent's.
  abbrev pub Unlocks : Link → api.KeyRing → api.KeyRing → Type 0
  Unlocks l parent_kr kr =
      (v : api.KeyRing) × (get_signature_verification_keyring api drive (l.signature_email ∷ []) []
        ≡ ok v)
      × (api.link_get_key_ring l parent_kr v ≡ ok kr)

  -- The key ring of a link so many levels below the root, down from the share's key ring.
  pub data Resolves : ℕ → Link → api.KeyRing → Type 0 where
    root :
        {l : Link} {kr : api.KeyRing}
        → l.parent_link_id ≡ ""
        → Unlocks l drive.main_share_kr kr
        → Resolves zero l kr
    below :
        {n : ℕ} {l p : Link} {parent_kr kr : api.KeyRing}
        → l.parent_link_id ≢ ""
        → srv l.parent_link_id ≡ ok p
        → Resolves n p parent_kr
        → Unlocks l parent_kr kr
        → Resolves (suc n) l kr

  Unlocks-unique : (l : Link) (p a b : api.KeyRing) → Unlocks l p a → Unlocks l p b → a ≡ b
  Unlocks-unique l p a b (v, sv, ka) (w, sw, kb) = cc

  -- A link has one key ring.
  pub Resolves-unique :
      {n m : ℕ} {l : Link} {a b : api.KeyRing} → Resolves n l a → Resolves m l b → a ≡ b
  Resolves-unique (root top u) (root top' u') = Unlocks-unique _ _ _ _ u u'
  Resolves-unique (root top u) (below deep found r u') = absurd (deep top)
  Resolves-unique (below deep found r u) (root top u') = absurd (deep top)
  Resolves-unique {l} {a} {b} (below {p = p} {parent_kr = k} deep found r u)
        (below {n = m} {p = p'} {parent_kr = k'} deep' found' r' u') =
      let same_parent : p' ≡ p = cc in
      let same_kr : k ≡ k' = Resolves-unique r (subst (λ q. Resolves m q k') same_parent r') in
      Unlocks-unique l k a b u (subst (λ q. Unlocks l q b) (sym same_kr) u')

  -- Every cached link is the server's, and every cached key ring is its link's.
  pub record Coherent (s : St api) : Type 0 where
    pub caching : s.cache.enable_caching ≡ true
    pub consistent : IsConsistent s.cache
    pub links :
        (link_id : String) (e : CacheEntry api.KeyRing)
        → lookup link_id s.cache.entries ≡ some e
        → (l : Link) × (e.link ≡ some l) × (srv link_id ≡ ok l)
    pub rings :
        (link_id : String) (e : CacheEntry api.KeyRing) (l : Link) (kr : api.KeyRing)
        → lookup link_id s.cache.entries ≡ some e
        → e.link ≡ some l
        → e.kr ≡ some kr
        → (n : ℕ) × Resolves n l kr

  -- The call gives the value, leaves the cache coherent and the server as it was.
  abbrev pub Runs : {A : Type 0} → Act (St api) A → A → St api → Type 0
  Runs call a s = (s' : St api) × (call s ≡ (ok a, s')) × Coherent s' × (s'.world ≡ s.world)

  pub get_caching :
      (link_id : String) (c : Cache api.KeyRing)
      → c.enable_caching ≡ true
      → get link_id c ≡ lookup link_id c.entries
  unfolding get
  get_caching link_id c on = if_then _ _ on

  abbrev pub inserted : Link → St api → St api
  inserted l s = record s {
    cache = insert_link l (record (s.cache) {
      entries = insert l.link_id (record { link = some l; kr = none }) s.cache.entries;
    });
  }

  pub insert_entry_caching :
      (l : Link) (c : Cache api.KeyRing)
      → c.enable_caching ≡ true
      → insert_entry l.link_id (some l) none c ≡ (
        ok tt,
        insert_link l (record c {
          entries = insert l.link_id (record { link = some l; kr = none }) c.entries;
        }),
      )
  unfolding insert_entry
  insert_entry_caching l c on = if_then _ _ on

  -- Caching a link of the server's keeps the cache coherent.
  pub inserted-Coherent :
      (l : Link) (s : St api) → srv l.link_id ≡ ok l → Coherent s → Coherent (inserted l s)
  unfolding insert_link
  inserted-Coherent l s served h = record {
    caching = h.caching;
    consistent =
        subst IsConsistent (ap (λ r. r.1) (insert_entry_caching l s.cache h.caching))
          (insert_entry-IsConsistent l none s.cache h.consistent);
    links = λ j e found.
        elim (lookup-insert_inv j l.link_id (record { link = some l; kr = none }) s.cache.entries
          found) [
            | inl (same, new) ↦
                (l, ap (λ x. x.link) (sym new), subst (λ i. srv i ≡ ok l) same served)
            | inr old ↦ h.links j e old
          ];
    rings = λ j e k kr found holds ringed.
        elim (lookup-insert_inv j l.link_id (record { link = some l; kr = none }) s.cache.entries
          found) [
            | inl (same, new) ↦ absurd (cc (ap (λ x. x.kr) new, ringed))
            | inr old ↦ h.rings j e k kr old holds ringed
          ];
  }

  set_kr_found-Coherent :
      (link_id : String) (e : CacheEntry api.KeyRing) (l : Link) (n : ℕ) (kr : api.KeyRing)
      (s : St api)
      → lookup link_id s.cache.entries ≡ some e
      → e.link ≡ some l
      → Resolves n l kr
      → Coherent s
      → Coherent (record s { cache = set_kr link_id kr s.cache })
  unfolding set_kr
  set_kr_found-Coherent link_id e l n kr s found holds r h =
      rw (found, set_kr)
        (record {
          caching = h.caching;
          consistent =
              subst IsConsistent (rw (found, set_kr))
                (set_kr-IsConsistent link_id kr s.cache h.consistent);
          links = λ j f there.
              elim (lookup-insert_inv j link_id (record { link = e.link; kr = some kr })
                s.cache.entries there) [
                  | inl (same, new) ↦
                      let (k, at_k, served) = h.links link_id e found in
                      (k, ap (λ x. x.link) (sym new) ∙ at_k, subst (λ i. srv i ≡ ok k) same served)
                  | inr old ↦ h.links j f old
                ];
          rings = λ j f k ring there at_k ringed.
              elim (lookup-insert_inv j link_id (record { link = e.link; kr = some kr })
                s.cache.entries there) [
                  | inl (same, new) ↦
                      let link_eq : l ≡ k = cc (ap (λ x. x.link) new, holds, at_k) in
                      let ring_eq : kr ≡ ring = cc (ap (λ x. x.kr) new, ringed) in
                      (n, subst (Resolves n k) ring_eq (subst (λ q. Resolves n q kr) link_eq r))
                  | inr old ↦ h.rings j f k ring old at_k ringed
                ];
        })

  set_kr_absent :
      (link_id : String) (kr : api.KeyRing) (c : Cache api.KeyRing)
      → lookup link_id c.entries ≡ none
      → set_kr link_id kr c ≡ c
  unfolding set_kr
  set_kr_absent link_id kr c absent = rw (absent, set_kr)

  -- Filling in the key ring of one of the server's links keeps the cache coherent, whether or not
  -- the link is still cached.
  pub set_kr-Coherent :
      (l : Link) (n : ℕ) (kr : api.KeyRing) (s : St api)
      → srv l.link_id ≡ ok l
      → Resolves n l kr
      → Coherent s
      → Coherent (record s { cache = set_kr l.link_id kr s.cache })
  set_kr-Coherent l n kr s served r h = elim (Option-cases (lookup l.link_id s.cache.entries)) [
    | inl absent ↦
        subst (λ c. Coherent (record s { cache = c }))
          (sym (set_kr_absent l.link_id kr s.cache absent)) h
    | inr (e, found) ↦
        let (k, holds, served') = h.links l.link_id e found in
        let same : some k ≡ some l = cc (served, served') in
        set_kr_found-Coherent l.link_id e l n kr s found (holds ∙ same) r h
  ]
