-- ===== src/Links/Uncached.antt =====
-- cache.go, `_getLinkKR` and `_getLinkKRByID`: their runs without caching, and the two compared.
use proton_api_bridge.Common.{
  ℕ, zero, suc, ◌+◌, ◌<◌, String, false, none, some, ◌≡◌, ◌≢◌, sym, ap, ◌∙◌, arith, test_of_eq,
  test_of_ne, if_else,
}
use proton_api_bridge.Action.{Outcome, ⊤, ok, >>=_step, then_step, else_step, pure}
use proton_api_bridge.Proton.{Link}
use proton_api_bridge.Api.{Api}
use proton_api_bridge.Drive.{Drive, St, remote, on_cache}
use proton_api_bridge.Cache.{Cache, get, insert_entry}
use proton_api_bridge.Links.Defs.{
  cached_link, get_link, get_link_from, get_link_kr_uncached, get_link_kr_choose, get_link_kr,
}
use proton_api_bridge.Links.Server.{Serves, Resolves, root, below, Coherent}
use proton_api_bridge.Links.Reading.{remote_run, unlock_link_run}
use proton_api_bridge.Links.KeyRings.{get_link_kr_cached_lem}

module _ (api : Api) (drive : Drive api) (srv : String → Outcome Link) where
  get_off :
      (link_id : String) (c : Cache api.KeyRing) → c.enable_caching ≡ false → get link_id c ≡ none
  unfolding get
  get_off link_id c off = if_else _ _ off

  cached_link_off :
      (link_id : String) (s : St api)
      → s.cache.enable_caching ≡ false
      → cached_link api drive link_id s ≡ none
  unfolding cached_link
  cached_link_off link_id s off = rw (get_off link_id s.cache off, cached_link)

  insert_entry_off :
      (link_id : String) (l : Link) (s : St api)
      → s.cache.enable_caching ≡ false
      → on_cache (insert_entry link_id (some l) none) s ≡ (ok tt, s)
  unfolding insert_entry
  insert_entry_off link_id l s off =
      ap (λ (r : Outcome ⊤ × Cache api.KeyRing). (r.0, record s { cache = r.1 })) (if_else _ _ off)

  module _ (serves : Serves api drive srv) where
    get_link_off :
        (link_id : String) (l : Link) (s : St api)
        → s.cache.enable_caching ≡ false
        → link_id ≢ ""
        → srv link_id ≡ ok l
        → get_link api drive link_id s ≡ (ok l, s)
    unfolding get_link get_link_from
    get_link_off link_id l s off named served =
        else_step _ _ s (test_of_ne link_id "" named)
        ∙ ap (λ hit. get_link_from api drive link_id hit s) (cached_link_off link_id s off)
        ∙ >>=_step (remote (api.get_link drive.main_share.share_id link_id)) _ s (
            remote_run api drive srv (api.get_link drive.main_share.share_id link_id) s
              (serves.reads link_id s.world ∙ ap (λ r. (r, s.world)) served))
        ∙ >>=_step (on_cache (insert_entry link_id (some l) none)) (λ _. pure l) s
            (insert_entry_off link_id l s off)

    uncached_run :
        (fuel : ℕ) {n : ℕ} {l : Link} {kr : api.KeyRing} (s : St api)
        → s.cache.enable_caching ≡ false
        → Resolves api drive srv n l kr
        → n < fuel
        → get_link_kr_uncached api drive fuel l s ≡ (ok kr, s)
    unfolding get_link_kr_uncached
    uncached_run zero s off r enough = absurd (omega arith)
    uncached_run (suc fuel) {l} {kr} s off (root top u) enough =
        then_step _ _ s (test_of_eq l.parent_link_id "" top)
        ∙ unlock_link_run api drive srv l drive.main_share_kr kr s u
    uncached_run (suc fuel) {l} {kr} s off (below {p = p} {parent_kr = k} deep served r u) enough =
        else_step _ _ s (test_of_ne l.parent_link_id "" deep)
        ∙ >>=_step (get_link api drive l.parent_link_id) _ s
            (get_link_off l.parent_link_id p s off deep served)
        ∙ >>=_step (get_link_kr_uncached api drive fuel p) _ s
            (uncached_run fuel s off r (omega arith))
        ∙ unlock_link_run api drive srv l k kr s u

    -- Against a server whose links do not change, without caching, for a link whose key ring
    -- opens with its parents' at depth n below the root and with fuel above n + 1, `getLinkKR`
    -- returns that key ring and changes neither cache nor server.
    pub get_link_kr_uncached_lem :
        (fuel n : ℕ) (l : Link) (kr : api.KeyRing) (s : St api)
        → s.cache.enable_caching ≡ false
        → Resolves api drive srv n l kr
        → n + 1 < fuel
        → get_link_kr api drive fuel (some l) s ≡ (ok kr, s)
    unfolding get_link_kr
    get_link_kr_uncached_lem zero n l kr s off r enough = absurd (omega arith)
    get_link_kr_uncached_lem (suc fuel) n l kr s off r enough =
        ap (λ b. get_link_kr_choose api drive (get_link_kr api drive fuel) fuel b (some l) s) off
        ∙ uncached_run fuel s off r (omega arith)

    -- Caching is transparent: against a server whose links do not change, for a link of the
    -- server's whose key ring opens with its parents' at depth n below the root, with fuel above
    -- 2n + 1, `getLinkKR` with a cache that agrees with the server and `getLinkKR` without
    -- caching return the same.
    pub caching_transparent :
        (fuel n : ℕ) (l : Link) (kr : api.KeyRing) (s t : St api)
        → srv l.link_id ≡ ok l
        → Resolves api drive srv n l kr
        → n + n + 1 < fuel
        → Coherent api drive srv s
        → t.cache.enable_caching ≡ false
        → (get_link_kr api drive fuel (some l) s).0 ≡ (get_link_kr api drive fuel (some l) t).0
    caching_transparent fuel n l kr s t served r enough h off =
        let (s', ran, _, _) =
          get_link_kr_cached_lem api drive srv serves fuel n l kr s served r enough h in
        ap (λ x. x.0) ran
        ∙ sym (ap (λ x. x.0) (get_link_kr_uncached_lem fuel n l kr t off r (omega arith)))
