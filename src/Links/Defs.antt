-- ===== src/Links/Defs.antt =====
-- cache.go: `getLink`, `getLinkKR`, `getLinkKRByID` and the versions that keep no key ring.
-- The recursion goes up the parents, two calls to a level, and takes fuel.
use proton_api_bridge.Common.{
  ℕ, zero, suc, String, Bool, true, false, Option, none, some, [], ◌∷◌, ◌==◌, if◌then◌else◌,
}
use proton_api_bridge.Action.{
  Act, ⊤, fatal, out_of_fuel, pure, fail, lift, gets, modify, ◌>>=◌, ◌>>◌, wrong_usage_of_get_link,
  wrong_usage_of_get_link_kr,
}
use proton_api_bridge.Proton.{Link}
use proton_api_bridge.Api.{Api}
use proton_api_bridge.Drive.{Drive, St, remote, on_cache, get_signature_verification_keyring}
use proton_api_bridge.Cache.{CacheEntry, get, insert_entry, set_kr, remove}

module _ (api : Api) (drive : Drive api) where
  -- `cache._get(linkID)` with `data.link != nil`
  unfoldable pub cached_link : String → St api → Option Link
  unfolding get
  cached_link link_id s = elim (get link_id s.cache) [ none ↦ none | some entry ↦ entry.link ]

  -- `getLink`, from what the cache has.
  unfoldable pub get_link_from : String → Option Link → Act (St api) Link
  unfolding insert_entry
  get_link_from link_id (some link) = pure link
  get_link_from link_id none = do
    link ← remote (api.get_link drive.main_share.share_id link_id)
    on_cache (insert_entry link_id (some link) none)
    pure link

  -- `getLink`
  unfoldable pub get_link : String → Act (St api) Link
  unfolding cached_link get_link_from
  get_link link_id =
      if link_id == ""
      then fail wrong_usage_of_get_link
      else do hit ← gets (cached_link link_id); get_link_from link_id hit

  -- A link's key ring, from its parent's.
  unfoldable pub unlock_link : Link → api.KeyRing → Act (St api) api.KeyRing
  unlock_link link parent_kr = do
    verification_kr ←
        lift (get_signature_verification_keyring api drive (link.signature_email ∷ []) [])
    lift (api.link_get_key_ring link parent_kr verification_kr)

  -- `_getLinkKR`
  unfoldable pub get_link_kr_uncached : ℕ → Link → Act (St api) api.KeyRing
  unfolding get_link unlock_link
  get_link_kr_uncached zero link = lift out_of_fuel
  get_link_kr_uncached (suc fuel) link =
      if link.parent_link_id == "" then unlock_link link drive.main_share_kr else do
        parent_link ← get_link link.parent_link_id
        parent_kr ← get_link_kr_uncached fuel parent_link
        unlock_link link parent_kr

  -- `_getLinkKRByID`
  unfoldable pub get_link_kr_by_id_uncached : ℕ → String → Act (St api) api.KeyRing
  unfolding get_link_kr_uncached
  get_link_kr_by_id_uncached fuel link_id =
      if link_id == ""
      then pure drive.main_share_kr
      else do link ← get_link link_id; get_link_kr_uncached fuel link

  -- `getLinkKRByID` from what the cache has; `get_kr` is the call of `getLinkKR`.
  unfoldable pub get_link_kr_by_id_from :
      (Option Link → Act (St api) api.KeyRing) → String → Option Link → Act (St api) api.KeyRing
  unfolding get_link
  get_link_kr_by_id_from get_kr link_id (some link) = get_kr (some link)
  get_link_kr_by_id_from get_kr link_id none = do link ← get_link link_id; get_kr (some link)

  -- `getLinkKRByID` with caching.
  unfoldable pub get_link_kr_by_id_cached :
      (Option Link → Act (St api) api.KeyRing) → String → Act (St api) api.KeyRing
  unfolding get_link_kr_by_id_from cached_link
  get_link_kr_by_id_cached get_kr link_id =
      if link_id == ""
      then pure drive.main_share_kr
      else do hit ← gets (cached_link link_id); get_link_kr_by_id_from get_kr link_id hit

  -- `getLinkKRByID`, both ways.
  unfoldable pub get_link_kr_by_id_with :
      (Option Link → Act (St api) api.KeyRing) → ℕ → String → Act (St api) api.KeyRing
  unfolding get_link_kr_by_id_cached get_link_kr_by_id_uncached
  get_link_kr_by_id_with get_kr fuel link_id = do
    caching ← gets (λ s. s.cache.enable_caching)
    if caching
        then get_link_kr_by_id_cached get_kr link_id
        else get_link_kr_by_id_uncached fuel link_id

  -- "decrypt keyring and cache it", for the entry found under `link_id`
  unfoldable pub decrypt_and_cache :
      (Option Link → Act (St api) api.KeyRing) → ℕ → String → Link → Act (St api) api.KeyRing
  unfolding get_link_kr_by_id_with unlock_link set_kr
  decrypt_and_cache get_kr fuel link_id link = do
    parent_kr ← get_link_kr_by_id_with get_kr fuel link.parent_link_id
    kr ← unlock_link link parent_kr
    modify (λ s. record s { cache = set_kr link_id kr s.cache })
    pure kr

  -- The case that no link is cached.
  unfoldable pub insert_and_retry :
      (Option Link → Act (St api) api.KeyRing) → Link → Act (St api) api.KeyRing
  unfolding insert_entry
  insert_and_retry get_kr link = do
    on_cache (insert_entry link.link_id (some link) none)
    get_kr (some link)

  -- What is done with the fields of the entry that was found.
  unfoldable pub get_link_kr_found :
      (Option Link → Act (St api) api.KeyRing)
      → ℕ
      → Link
      → Option Link
      → Option api.KeyRing
      → Act (St api) api.KeyRing
  unfolding decrypt_and_cache insert_and_retry
  get_link_kr_found get_kr fuel link none kr = insert_and_retry get_kr link
  get_link_kr_found get_kr fuel link (some cached) (some kr) = pure kr
  get_link_kr_found get_kr fuel link (some cached) none =
      decrypt_and_cache get_kr fuel link.link_id cached

  -- `getLinkKR` with caching, from what the cache has for the link.
  unfoldable pub get_link_kr_from :
      (Option Link → Act (St api) api.KeyRing)
      → ℕ
      → Link
      → Option (CacheEntry api.KeyRing)
      → Act (St api) api.KeyRing
  unfolding get_link_kr_found
  get_link_kr_from get_kr fuel link none = insert_and_retry get_kr link
  get_link_kr_from get_kr fuel link (some entry) =
      get_link_kr_found get_kr fuel link entry.link entry.kr

  -- `getLinkKR` with caching, for a link that is not nil.
  unfoldable pub get_link_kr_cached :
      (Option Link → Act (St api) api.KeyRing) → ℕ → Link → Act (St api) api.KeyRing
  unfolding get get_link_kr_from
  get_link_kr_cached get_kr fuel link = do
    hit ← gets (λ s. get link.link_id s.cache)
    get_link_kr_from get_kr fuel link hit

  -- `getLinkKR` for the two settings.
  unfoldable pub get_link_kr_choose :
      (Option Link → Act (St api) api.KeyRing) → ℕ → Bool → Option Link → Act (St api) api.KeyRing
  unfolding get_link_kr_uncached get_link_kr_cached
  get_link_kr_choose get_kr fuel true none = fail wrong_usage_of_get_link_kr
  get_link_kr_choose get_kr fuel true (some link) = get_link_kr_cached get_kr fuel link
  get_link_kr_choose get_kr fuel false none = lift fatal
  get_link_kr_choose get_kr fuel false (some link) = get_link_kr_uncached fuel link

  -- `getLinkKR`; `get_kr` is its recursive call.
  unfoldable pub get_link_kr_with :
      (Option Link → Act (St api) api.KeyRing) → ℕ → Option Link → Act (St api) api.KeyRing
  unfolding get_link_kr_choose
  get_link_kr_with get_kr fuel link = do
    caching ← gets (λ s. s.cache.enable_caching)
    get_link_kr_choose get_kr fuel caching link

  -- `getLinkKR`
  unfoldable pub get_link_kr : ℕ → Option Link → Act (St api) api.KeyRing
  unfolding get_link_kr_with
  get_link_kr zero link = lift out_of_fuel
  get_link_kr (suc fuel) link = get_link_kr_with (get_link_kr fuel) fuel link

  -- `getLinkKRByID`
  unfoldable pub get_link_kr_by_id : ℕ → String → Act (St api) api.KeyRing
  unfolding get_link_kr get_link_kr_by_id_with
  get_link_kr_by_id fuel link_id = get_link_kr_by_id_with (get_link_kr fuel) fuel link_id

-- `removeLinkIDFromCache`
unfoldable pub remove_link_id_from_cache : {api : Api} → String → Bool → Act (St api) ⊤
unfolding remove
remove_link_id_from_cache link_id including_children = on_cache (remove link_id including_children)
