-- ===== src/Links/Invariant.antt =====
-- cache.go, the methods of the drive: what each of them leaves of the cache.
use proton_api_bridge.Common.{
  ℕ, zero, suc, String, Bool, true, false, Option, none, some, ◌≡◌, refl, sym, ap, subst, lookup,
  inl, inr, Bool-cases, if_both, if_else,
}
use proton_api_bridge.Action.{
  Act, Outcome, ⊤, ok, err, fatal, out_of_fuel, pure, modify, and_then, ◌>>=◌, ◌>>◌,
}
use proton_api_bridge.Action.Keeps.{Keeps, Keeps-pure, Keeps-bind, keeps_rules}
use proton_api_bridge.Proton.{Link}
use proton_api_bridge.Api.{Api}
use proton_api_bridge.Drive.{Drive, St, remote, on_cache}
use proton_api_bridge.Cache.{Cache, CacheEntry, remove, insert_entry, set_kr, clear_cache}
use proton_api_bridge.Cache.Consistency.{
  IsConsistent, insert_entry-IsConsistent, set_kr-IsConsistent,
}
use proton_api_bridge.Cache.Eviction.{remove_single, remove-Removes}
use proton_api_bridge.Links.Defs.{
  get_link, get_link_from, unlock_link, get_link_kr_uncached, get_link_kr_by_id_uncached,
  get_link_kr_by_id_from, get_link_kr_by_id_cached, get_link_kr_by_id_with, decrypt_and_cache,
  insert_and_retry, get_link_kr_found, get_link_kr_from, get_link_kr_cached, get_link_kr_choose,
  get_link_kr_with, get_link_kr, get_link_kr_by_id, remove_link_id_from_cache,
}

pub remove_off :
    {KeyRing : Type 0} (link_id : String) (deep : Bool) (c : Cache KeyRing)
    → c.enable_caching ≡ false
    → remove link_id deep c ≡ (ok tt, c)
unfolding remove
remove_off link_id deep c off = if_else _ _ off

-- Removing any id, in either way, keeps a cache consistent.
pub remove-IsConsistent :
    {KeyRing : Type 0} (link_id : String) (deep : Bool) (c : Cache KeyRing)
    → IsConsistent c
    → IsConsistent (remove link_id deep c).1
remove-IsConsistent link_id deep c h = elim (Bool-cases c.enable_caching) [
  | inl on ↦ on_case deep on
  | inr off ↦ subst IsConsistent (sym (ap (λ r. r.1) (remove_off link_id deep c off))) h
]
  where
    on_case : (d : Bool) → c.enable_caching ≡ true → IsConsistent (remove link_id d c).1
    on_case true on =
        let (c', run, r, gone) = remove-Removes link_id c on h in
        subst IsConsistent (sym (ap (λ q. q.1) run)) r.consistent
    on_case false on =
        let (c', run, good, others) = remove_single link_id c on h in
        subst IsConsistent (sym (ap (λ q. q.1) run)) good

pub clear_cache-IsConsistent :
    {KeyRing : Type 0} (c : Cache KeyRing) → IsConsistent c → IsConsistent (clear_cache c)
unfolding clear_cache lookup
clear_cache-IsConsistent c h =
    if_both IsConsistent c.enable_caching (record { owned = λ i e found. cc }) h

module _ {api : Api} where
  -- The state's cache is consistent.
  abbrev pub HasConsistentCache : St api → Type 0
  HasConsistentCache s = IsConsistent s.cache

  pub Keeps-remote : {A : Type 0} (call : Act api.World A) → Keeps HasConsistentCache (remote call)
  Keeps-remote call = record { at = λ s h. h }

  remote_end :
      {A B : Type 0} (f : A → Act (St api) B) (s : St api) (r : Outcome A) (w : api.World)
      → HasConsistentCache s
      → ((a : A) → r ≡ ok a → Keeps HasConsistentCache (f a))
      → HasConsistentCache (and_then (r, record s { world = w }) f).1
  remote_end f s (ok a) w h kf = (kf a refl).at (record s { world = w }) h
  remote_end f s (err e) w h kf = h
  remote_end f s fatal w h kf = h
  remote_end f s out_of_fuel w h kf = h

  -- The rest of a block may use what the call gave.
  pub Keeps-remote_bind :
      {A B : Type 0} (call : Act api.World A) (f : A → Act (St api) B)
      → ((a : A) (w w' : api.World) → call w ≡ (ok a, w') → Keeps HasConsistentCache (f a))
      → Keeps HasConsistentCache (remote call >>= f)
  Keeps-remote_bind call f kf = record {
    at = λ s h. remote_end f s (call s.world).0 (call s.world).1 h (λ a given.
        kf a s.world (call s.world).1 (ap (λ (r : Outcome _). (r, (call s.world).1)) given));
  }

  pub Keeps-on_cache :
      {A : Type 0} (method : Act (Cache api.KeyRing) A)
      → ((c : Cache api.KeyRing) → IsConsistent c → IsConsistent (method c).1)
      → Keeps HasConsistentCache (on_cache method)
  Keeps-on_cache method good = record { at = λ s h. good s.cache h }

  pub remove_link_id_from_cache-Keeps :
      (link_id : String) (deep : Bool)
      → Keeps HasConsistentCache (remove_link_id_from_cache {api = api} link_id deep)
  unfolding remove_link_id_from_cache
  remove_link_id_from_cache-Keeps link_id deep =
      Keeps-on_cache (remove link_id deep) (remove-IsConsistent link_id deep)

module _ (api : Api) (drive : Drive api) where
  -- The server gives the link that it is asked for.
  pub record Identifies : Type 0 where
    pub same :
        (share_id link_id : String) (w w' : api.World) (l : Link)
        → api.get_link share_id link_id w ≡ (ok l, w')
        → l.link_id ≡ link_id

  pub unlock_link-Keeps :
      (link : Link) (kr : api.KeyRing) → Keeps HasConsistentCache (unlock_link api drive link kr)
  unfolding unlock_link
  unlock_link-Keeps link kr = search keeps_rules

  fetched-IsConsistent :
      (link_id : String) (l : Link) (kr : Option api.KeyRing) (c : Cache api.KeyRing)
      → l.link_id ≡ link_id
      → IsConsistent c
      → IsConsistent (insert_entry link_id (some l) kr c).1
  fetched-IsConsistent link_id l kr c same h =
      subst (λ i. IsConsistent (insert_entry i (some l) kr c).1) same
        (insert_entry-IsConsistent l kr c h)

  abbrev keep_link : String → Link → Act (St api) ⊤
  keep_link link_id l = on_cache (insert_entry link_id (some l) none)

  insert_entry-Keeps :
      (link_id : String) (l : Link)
      → l.link_id ≡ link_id
      → Keeps HasConsistentCache (keep_link link_id l)
  insert_entry-Keeps link_id l same =
      Keeps-on_cache (insert_entry link_id (some l) none)
        (λ c h. fetched-IsConsistent link_id l none c same h)

  set_kr-Keeps :
      (link_id : String) (kr : api.KeyRing)
      → Keeps HasConsistentCache
          (modify (λ (s : St api). record s { cache = set_kr link_id kr s.cache }))
  set_kr-Keeps link_id kr = record { at = λ s h. set_kr-IsConsistent link_id kr s.cache h }

  module _ (identifies : Identifies) where
    get_link_from-Keeps :
        (link_id : String) (hit : Option Link)
        → Keeps HasConsistentCache (get_link_from api drive link_id hit)
    unfolding get_link_from
    get_link_from-Keeps link_id (some l) = Keeps-pure l
    get_link_from-Keeps link_id none =
        Keeps-remote_bind (api.get_link drive.main_share.share_id link_id)
          (λ link. keep_link link_id link >> pure link)
          (λ link w w' sent.
            Keeps-bind (keep_link link_id link) (λ _. pure link)
              (insert_entry-Keeps link_id link
                (identifies.same drive.main_share.share_id link_id w w' link sent))
              (λ _. Keeps-pure link))

    pub get_link-Keeps : (link_id : String) → Keeps HasConsistentCache (get_link api drive link_id)
    unfolding get_link
    get_link-Keeps link_id = search (keeps_rules, get_link_from-Keeps)

    get_link_kr_uncached-Keeps :
        (fuel : ℕ) (link : Link)
        → Keeps HasConsistentCache (get_link_kr_uncached api drive fuel link)
    unfolding get_link_kr_uncached
    get_link_kr_uncached-Keeps zero link = search keeps_rules
    get_link_kr_uncached-Keeps (suc fuel) link =
        search (keeps_rules, get_link-Keeps, unlock_link-Keeps, get_link_kr_uncached-Keeps fuel)

    get_link_kr_by_id_uncached-Keeps :
        (fuel : ℕ) (link_id : String)
        → Keeps HasConsistentCache (get_link_kr_by_id_uncached api drive fuel link_id)
    unfolding get_link_kr_by_id_uncached
    get_link_kr_by_id_uncached-Keeps fuel link_id =
        search (keeps_rules, get_link-Keeps, get_link_kr_uncached-Keeps)

    module _ (get_kr : Option Link → Act (St api) api.KeyRing)
        (get_kr-Keeps : (link : Option Link) → Keeps HasConsistentCache (get_kr link)) where
      get_link_kr_by_id_from-Keeps :
          (link_id : String) (hit : Option Link)
          → Keeps HasConsistentCache (get_link_kr_by_id_from api drive get_kr link_id hit)
      unfolding get_link_kr_by_id_from
      get_link_kr_by_id_from-Keeps link_id (some link) = get_kr-Keeps (some link)
      get_link_kr_by_id_from-Keeps link_id none = search (keeps_rules, get_link-Keeps, get_kr-Keeps)

      get_link_kr_by_id_with-Keeps :
          (fuel : ℕ) (link_id : String)
          → Keeps HasConsistentCache (get_link_kr_by_id_with api drive get_kr fuel link_id)
      unfolding get_link_kr_by_id_with get_link_kr_by_id_cached
      get_link_kr_by_id_with-Keeps fuel link_id =
          search (keeps_rules, get_link_kr_by_id_from-Keeps, get_link_kr_by_id_uncached-Keeps)

      decrypt_and_cache-Keeps :
          (fuel : ℕ) (link_id : String) (link : Link)
          → Keeps HasConsistentCache (decrypt_and_cache api drive get_kr fuel link_id link)
      unfolding decrypt_and_cache
      decrypt_and_cache-Keeps fuel link_id link =
          search (keeps_rules, get_link_kr_by_id_with-Keeps, unlock_link-Keeps, set_kr-Keeps)

      insert_and_retry-Keeps :
          (link : Link) → Keeps HasConsistentCache (insert_and_retry api drive get_kr link)
      unfolding insert_and_retry
      insert_and_retry-Keeps link =
          Keeps-bind (keep_link link.link_id link) (λ _. get_kr (some link))
            (insert_entry-Keeps link.link_id link refl) (λ _. get_kr-Keeps (some link))

      get_link_kr_found-Keeps :
          (fuel : ℕ) (link : Link) (cached : Option Link) (kr : Option api.KeyRing)
          → Keeps HasConsistentCache (get_link_kr_found api drive get_kr fuel link cached kr)
      unfolding get_link_kr_found
      get_link_kr_found-Keeps fuel link none kr = insert_and_retry-Keeps link
      get_link_kr_found-Keeps fuel link (some cached) (some kr) = Keeps-pure kr
      get_link_kr_found-Keeps fuel link (some cached) none =
          decrypt_and_cache-Keeps fuel link.link_id cached

      get_link_kr_from-Keeps :
          (fuel : ℕ) (link : Link) (hit : Option (CacheEntry api.KeyRing))
          → Keeps HasConsistentCache (get_link_kr_from api drive get_kr fuel link hit)
      unfolding get_link_kr_from
      get_link_kr_from-Keeps fuel link none = insert_and_retry-Keeps link
      get_link_kr_from-Keeps fuel link (some entry) =
          get_link_kr_found-Keeps fuel link entry.link entry.kr

      get_link_kr_choose-Keeps :
          (fuel : ℕ) (caching : Bool) (link : Option Link)
          → Keeps HasConsistentCache (get_link_kr_choose api drive get_kr fuel caching link)
      unfolding get_link_kr_choose get_link_kr_cached
      get_link_kr_choose-Keeps fuel true none = search keeps_rules
      get_link_kr_choose-Keeps fuel true (some link) = search (keeps_rules, get_link_kr_from-Keeps)
      get_link_kr_choose-Keeps fuel false none = search keeps_rules
      get_link_kr_choose-Keeps fuel false (some link) = get_link_kr_uncached-Keeps fuel link

    pub get_link_kr-Keeps :
        (fuel : ℕ) (link : Option Link) → Keeps HasConsistentCache (get_link_kr api drive fuel link)
    unfolding get_link_kr get_link_kr_with
    get_link_kr-Keeps zero link = search keeps_rules
    get_link_kr-Keeps (suc fuel) link = search (
      keeps_rules,
      get_link_kr_choose-Keeps (get_link_kr api drive fuel) (get_link_kr-Keeps fuel),
    )

    pub get_link_kr_by_id-Keeps :
        (fuel : ℕ) (link_id : String)
        → Keeps HasConsistentCache (get_link_kr_by_id api drive fuel link_id)
    unfolding get_link_kr_by_id
    get_link_kr_by_id-Keeps fuel link_id =
        get_link_kr_by_id_with-Keeps (get_link_kr api drive fuel) (get_link_kr-Keeps fuel) fuel
          link_id
