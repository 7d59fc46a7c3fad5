-- ===== src/Links/Reading.antt =====
-- cache.go, `getLink`: its runs with caching, and the steps that the key rings share.
use proton_api_bridge.Common.{
  String, none, some, lookup, ◌≡◌, ◌≢◌, refl, sym, ap, subst, ◌∙◌, inl, inr, Option-cases,
  test_of_ne,
}
use proton_api_bridge.Action.{Act, Outcome, ok, pure, >>=_step, else_step}
use proton_api_bridge.Proton.{Link}
use proton_api_bridge.Api.{Api}
use proton_api_bridge.Drive.{Drive, St, remote, on_cache}
use proton_api_bridge.Cache.{CacheEntry, insert_entry}
use proton_api_bridge.Links.Defs.{cached_link, get_link, get_link_from, unlock_link}
use proton_api_bridge.Links.Server.{
  Serves, Unlocks, Coherent, Runs, get_caching, inserted, insert_entry_caching, inserted-Coherent,
}

module _ (api : Api) (drive : Drive api) (srv : String → Outcome Link) where
  pub unlock_link_run :
      (l : Link) (parent_kr kr : api.KeyRing) (s : St api)
      → Unlocks api drive srv l parent_kr kr
      → unlock_link api drive l parent_kr s ≡ (ok kr, s)
  unfolding unlock_link
  unlock_link_run l parent_kr kr s (v, signed, opened) = rw (signed, opened)

  pub insert_run :
      (l : Link) (s : St api)
      → Coherent api drive srv s
      → on_cache (insert_entry l.link_id (some l) none) s ≡ (ok tt, inserted api drive srv l s)
  insert_run l s h =
      ap (λ r. (r.0, record s { cache = r.1 }))
        (insert_entry_caching api drive srv l s.cache h.caching)

  pub remote_run :
      {A : Type 0} (call : Act api.World A) (s : St api) {a : A}
      → call s.world ≡ (ok a, s.world)
      → remote call s ≡ (ok a, s)
  remote_run call s run = ap (λ r. (r.0, record s { world = r.1 })) run

  pub cached_link-none :
      (link_id : String) (s : St api)
      → Coherent api drive srv s
      → lookup link_id s.cache.entries ≡ none
      → cached_link api drive link_id s ≡ none
  unfolding cached_link
  cached_link-none link_id s h absent =
      rw (get_caching api drive srv link_id s.cache h.caching, absent, cached_link)

  pub cached_link-some :
      (link_id : String) (e : CacheEntry api.KeyRing) (s : St api)
      → Coherent api drive srv s
      → lookup link_id s.cache.entries ≡ some e
      → cached_link api drive link_id s ≡ e.link
  unfolding cached_link
  cached_link-some link_id e s h found =
      rw (get_caching api drive srv link_id s.cache h.caching, found, cached_link)

  module _ (serves : Serves api drive srv) where
    pub get_link_own :
        (l : Link) (s : St api)
        → l.link_id ≢ ""
        → srv l.link_id ≡ ok l
        → Coherent api drive srv s
        → Runs api drive srv (get_link api drive l.link_id) l s
    unfolding get_link get_link_from
    get_link_own l s named served h = elim (Option-cases (lookup l.link_id s.cache.entries)) [
      | inl absent ↦ (
        inserted api drive srv l s,
        else_step _ _ s (test_of_ne l.link_id "" named)
            ∙ ap (λ hit. get_link_from api drive l.link_id hit s)
                (cached_link-none l.link_id s h absent)
            ∙ >>=_step (remote (api.get_link drive.main_share.share_id l.link_id)) _ s (
                remote_run (api.get_link drive.main_share.share_id l.link_id) s
                  (serves.reads l.link_id s.world ∙ ap (λ r. (r, s.world)) served))
            ∙ >>=_step (on_cache (insert_entry l.link_id (some l) none)) (λ _. pure l) s
                (insert_run l s h),
        inserted-Coherent api drive srv l s served h,
        refl,
      )
      | inr (e, found) ↦
          let (k, holds, served') = h.links l.link_id e found in
          let same : some k ≡ some l = cc (served, served') in
          (
            s,
            else_step _ _ s (test_of_ne l.link_id "" named)
                ∙ ap (λ hit. get_link_from api drive l.link_id hit s)
                    (cached_link-some l.link_id e s h found ∙ holds ∙ same),
            h,
            refl,
          )
    ]

    -- Against a server whose links do not change, with a cache that agrees with it, `getLink` of
    -- an id that is not empty and that the server has returns that link, leaves the server as it
    -- was, and leaves a cache that still agrees with it.
    pub get_link_run :
        (link_id : String) (l : Link) (s : St api)
        → link_id ≢ ""
        → srv link_id ≡ ok l
        → Coherent api drive srv s
        → Runs api drive srv (get_link api drive link_id) l s
    get_link_run link_id l s named served h =
        let keyed = serves.identity link_id l served in
        subst (λ i. Runs api drive srv (get_link api drive i) l s) keyed
          (get_link_own l s (subst (λ i. i ≢ "") (sym keyed) named)
            (subst (λ i. srv i ≡ ok l) (sym keyed) served) h)
