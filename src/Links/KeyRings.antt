-- ===== src/Links/KeyRings.antt =====
-- cache.go, `getLinkKR` and `getLinkKRByID`: their runs with caching.
use proton_api_bridge.Common.{
  ℕ, zero, suc, ◌+◌, ◌≤◌, ◌<◌, String, Option, none, some, lookup, ◌≡◌, ◌≢◌, refl, sym, ap, subst,
  ◌∙◌, inl, inr, arith, lookup-insert_self, Option-cases, test_of_eq, test_of_ne,
}
use proton_api_bridge.Action.{Act, Outcome, ok, >>=_step, then_step, else_step}
use proton_api_bridge.Proton.{Link}
use proton_api_bridge.Api.{Api}
use proton_api_bridge.Drive.{Drive, St, on_cache}
use proton_api_bridge.Cache.{CacheEntry, insert_entry, set_kr}
use proton_api_bridge.Links.Defs.{
  cached_link, get_link, get_link_kr_by_id_from, get_link_kr_from, get_link_kr_found,
  get_link_kr_choose, unlock_link, get_link_kr_by_id_with, get_link_kr_by_id_cached,
  decrypt_and_cache, insert_and_retry, get_link_kr,
}
use proton_api_bridge.Links.Server.{
  Serves, Unlocks, Resolves, root, below, Resolves-unique, Coherent, Runs, get_caching, inserted,
  inserted-Coherent, set_kr-Coherent,
}
use proton_api_bridge.Links.Reading.{
  unlock_link_run, insert_run, cached_link-none, cached_link-some, get_link_run,
}

module _ (api : Api) (drive : Drive api) (srv : String → Outcome Link) where
  module _ (serves : Serves api drive srv) where
    -- `getLinkKRByID` for a link's parent, from what `getLinkKR` does with it.
    parent_run :
        (get_kr : Option Link → Act (St api) api.KeyRing) (fuel : ℕ) (link_id : String) (p : Link)
        (kr : api.KeyRing) (s : St api)
        → link_id ≢ ""
        → srv link_id ≡ ok p
        → ((t : St api) → Coherent api drive srv t → Runs api drive srv (get_kr (some p)) kr t)
        → Coherent api drive srv s
        → Runs api drive srv (get_link_kr_by_id_with api drive get_kr fuel link_id) kr s
    unfolding get_link_kr_by_id_with get_link_kr_by_id_cached get_link_kr_by_id_from
    parent_run get_kr fuel link_id p kr s named served run h =
        elim (Option-cases (lookup link_id s.cache.entries)) [
          | inl absent ↦
              let (s1, got, h1, kept) =
                get_link_run api drive srv serves link_id p s named served h in
              let (s2, ran, h2, kept') = run s1 h1 in
              (
                s2,
                begins
                    ∙ ap (λ hit. get_link_kr_by_id_from api drive get_kr link_id hit s)
                        (cached_link-none api drive srv link_id s h absent)
                    ∙ >>=_step (get_link api drive link_id) (λ l. get_kr (some l)) s got
                    ∙ ran,
                h2,
                kept' ∙ kept,
              )
          | inr (e, found) ↦
              let (k, holds, served') = h.links link_id e found in
              let same : some k ≡ some p = cc (served, served') in
              let (s2, ran, h2, kept) = run s h in
              (
                s2,
                begins
                    ∙ ap (λ hit. get_link_kr_by_id_from api drive get_kr link_id hit s)
                        (cached_link-some api drive srv link_id e s h found ∙ holds ∙ same)
                    ∙ ran,
                h2,
                kept,
              )
        ]
      where
        begins :
            get_link_kr_by_id_with api drive get_kr fuel link_id s
            ≡ get_link_kr_by_id_from api drive get_kr link_id (cached_link api drive link_id s) s
        begins = then_step _ _ s h.caching ∙ else_step _ _ s (test_of_ne link_id "" named)

    -- For the parent of a link the call at this fuel gives the key ring that opens the link's.
    abbrev Up : ℕ → Link → api.KeyRing → Type 0
    Up fuel l kr =
        (parent_kr : api.KeyRing) × Unlocks api drive srv l parent_kr kr
        × ((t : St api)
            → Coherent api drive srv t
            → Runs api drive srv
                (get_link_kr_by_id_with api drive (get_link_kr api drive fuel) fuel
                  l.parent_link_id)
                parent_kr t)

    decrypt_run :
        (fuel n : ℕ) (l : Link) (kr : api.KeyRing) (s : St api)
        → srv l.link_id ≡ ok l
        → Resolves api drive srv n l kr
        → Up fuel l kr
        → Coherent api drive srv s
        → Runs api drive srv
            (decrypt_and_cache api drive (get_link_kr api drive fuel) fuel l.link_id l)
            kr
            s
    unfolding decrypt_and_cache
    decrypt_run fuel n l kr s served r (parent_kr, opens, up) h =
        let (s1, ran, h1, kept) = up s h in
        (
          record s1 { cache = set_kr l.link_id kr s1.cache },
          >>=_step
                (get_link_kr_by_id_with api drive (get_link_kr api drive fuel) fuel
                  l.parent_link_id)
                _ s ran
              ∙ >>=_step (unlock_link api drive l parent_kr) _ s1
                  (unlock_link_run api drive srv l parent_kr kr s1 opens),
          set_kr-Coherent api drive srv l n kr s1 served r h1,
          kept,
        )

    -- `getLinkKR` for a link that is cached.
    hit_run :
        (fuel n : ℕ) (l : Link) (kr : api.KeyRing) (e : CacheEntry api.KeyRing) (s : St api)
        → srv l.link_id ≡ ok l
        → Resolves api drive srv n l kr
        → Up fuel l kr
        → lookup l.link_id s.cache.entries ≡ some e
        → Coherent api drive srv s
        → Runs api drive srv (get_link_kr api drive (suc fuel) (some l)) kr s
    unfolding get_link_kr
    hit_run fuel n l kr e s served r up found h =
        let (k, holds, served') = h.links l.link_id e found in
        let same : some k ≡ some l = cc (served, served') in
        elim (Option-cases e.kr) [
          | inl empty ↦
              let (s1, ran, h1, kept) = decrypt_run fuel n l kr s served r up h in
              (
                s1,
                begins
                    ∙ ap
                        (λ o.
                          get_link_kr_found api drive (get_link_kr api drive fuel) fuel l o e.kr s)
                        (holds ∙ same)
                    ∙ ap
                        (λ o.
                          get_link_kr_found api drive (get_link_kr api drive fuel) fuel l (some l) o
                            s)
                        empty
                    ∙ ran,
                h1,
                kept,
              )
          | inr (known, ringed) ↦
              let (m, r') = h.rings l.link_id e l known found (holds ∙ same) ringed in
              (
                s,
                begins
                    ∙ ap
                        (λ o.
                          get_link_kr_found api drive (get_link_kr api drive fuel) fuel l o e.kr s)
                        (holds ∙ same)
                    ∙ ap
                        (λ o.
                          get_link_kr_found api drive (get_link_kr api drive fuel) fuel l (some l) o
                            s)
                        ringed
                    ∙ ap (λ x. (ok x, s)) (Resolves-unique api drive srv r' r),
                h,
                refl,
              )
        ]
      where
        begins :
            get_link_kr api drive (suc fuel) (some l) s
            ≡ get_link_kr_found api drive (get_link_kr api drive fuel) fuel l e.link e.kr s
        begins =
            ap (λ b. get_link_kr_choose api drive (get_link_kr api drive fuel) fuel b (some l) s)
              h.caching
            ∙ ap (λ hit. get_link_kr_from api drive (get_link_kr api drive fuel) fuel l hit s)
                (get_caching api drive srv l.link_id s.cache h.caching ∙ found)

    -- `getLinkKR` for one of the server's links, cached or not.
    full_run :
        (fuel n : ℕ) (l : Link) (kr : api.KeyRing) (s : St api)
        → srv l.link_id ≡ ok l
        → Resolves api drive srv n l kr
        → ((f : ℕ) → n + n ≤ f → Up f l kr)
        → n + n + 1 < fuel
        → Coherent api drive srv s
        → Runs api drive srv (get_link_kr api drive fuel (some l)) kr s
    unfolding get_link_kr insert_and_retry
    full_run zero n l kr s served r up enough h = absurd (omega arith)
    full_run (suc zero) n l kr s served r up enough h = absurd (omega arith)
    full_run (suc (suc f)) n l kr s served r up enough h =
        elim (Option-cases (lookup l.link_id s.cache.entries)) [
          | inr (e, found) ↦ hit_run (suc f) n l kr e s served r (up (suc f) (omega arith)) found h
          | inl absent ↦
              let (s1, ran, h1, kept) =
                hit_run f n l kr (record { link = some l; kr = none }) (inserted api drive srv l s)
                  served r (up f (omega arith))
                  (lookup-insert_self l.link_id (record { link = some l; kr = none })
                    s.cache.entries)
                  (inserted-Coherent api drive srv l s served h) in
              (
                s1,
                ap
                      (λ b.
                        get_link_kr_choose api drive (get_link_kr api drive (suc f)) (suc f) b
                          (some l) s)
                      h.caching
                    ∙ ap
                        (λ hit.
                          get_link_kr_from api drive (get_link_kr api drive (suc f)) (suc f) l hit
                            s)
                        (get_caching api drive srv l.link_id s.cache h.caching ∙ absent)
                    ∙ >>=_step (on_cache (insert_entry l.link_id (some l) none))
                        (λ _. get_link_kr api drive (suc f) (some l)) s
                        (insert_run api drive srv l s h)
                    ∙ ran,
                h1,
                kept,
              )
        ]

    -- The parents' key rings, by induction on the depth of the link.
    parents_run :
        (fuel : ℕ) {n : ℕ} {l : Link} {kr : api.KeyRing}
        → Resolves api drive srv n l kr
        → n + n ≤ fuel
        → Up fuel l kr
    unfolding get_link_kr_by_id_with get_link_kr_by_id_cached
    parents_run fuel {l} (root top u) enough = (
      drive.main_share_kr,
      u,
      λ t ht. (
        t,
        then_step _ _ t ht.caching ∙ then_step _ _ t (test_of_eq l.parent_link_id "" top),
        ht,
        refl,
      ),
    )
    parents_run fuel {l} (below {n = m} {p = p} {parent_kr = k} deep served r u) enough = (
      k,
      u,
      λ t ht.
          parent_run (get_link_kr api drive fuel) fuel l.parent_link_id p k t deep served
            (λ v hv.
              full_run fuel m p k v
                (subst (λ i. srv i ≡ ok p) (sym (serves.identity l.parent_link_id p served)) served)
                r (λ g bound. parents_run g r bound) (omega arith) hv)
            ht,
    )

    -- Against a server whose links do not change, for a link of the server's whose key ring
    -- opens with its parents' at depth n below the root, with fuel above 2n + 1 and a cache that
    -- agrees with the server, `getLinkKR` returns that key ring, leaves the server as it was,
    -- and leaves a cache that still agrees with it.
    pub get_link_kr_cached_lem :
        (fuel n : ℕ) (l : Link) (kr : api.KeyRing) (s : St api)
        → srv l.link_id ≡ ok l
        → Resolves api drive srv n l kr
        → n + n + 1 < fuel
        → Coherent api drive srv s
        → Runs api drive srv (get_link_kr api drive fuel (some l)) kr s
    get_link_kr_cached_lem fuel n l kr s served r enough h =
        full_run fuel n l kr s served r (λ f bound. parents_run f r bound) enough h
