-- ===== src/Cache/Defs.antt =====
-- cache.go, the type `cache` and its methods.
use proton_api_bridge.Common.{
  ℕ, zero, suc, String, Bool, true, Option, none, some, List, [], Map, lookup, insert, delete, keys,
  length, if◌then◌else◌,
}
use proton_api_bridge.Action.{Act, ⊤, ok, fatal, out_of_fuel, pure, lift, ◌>>◌, modify, for_each}
use proton_api_bridge.Proton.{Link}

module _ (KeyRing : Type 0) where
  pub record CacheEntry : Type 0 where
    pub link : Option Link
    pub kr : Option KeyRing

  -- A set of texts, `map[string]interface{}` with every value nil, is a map into the unit type.
  pub record Cache : Type 0 where
    pub entries : Map CacheEntry
    pub children : Map (Map ⊤)
    pub enable_caching : Bool

module _ {KeyRing : Type 0} where
  -- `newCache`
  unfoldable pub new_cache : Bool → Cache KeyRing
  new_cache enable = record { entries = []; children = []; enable_caching = enable }

  -- `_get`
  unfoldable pub get : String → Cache KeyRing → Option (CacheEntry KeyRing)
  get link_id c = if c.enable_caching then lookup link_id c.entries else none

  -- The siblings of a link that is inserted: its parent's map, or a new one.
  unfoldable pub siblings : Link → Cache KeyRing → Map ⊤
  siblings link c = elim (lookup link.parent_link_id c.children) [ some known ↦ known | none ↦ [] ]

  unfoldable pub insert_link : Link → Cache KeyRing → Cache KeyRing
  unfolding siblings
  insert_link link c = record c {
    children = insert link.parent_link_id (insert link.link_id tt (siblings link c)) c.children;
  }

  -- `_insert`; a nil link ends the process.
  unfoldable pub insert_entry : String → Option Link → Option KeyRing → Act (Cache KeyRing) ⊤
  unfolding insert_link
  insert_entry link_id link kr c =
      let stored = record c {
        entries = insert link_id (record { link = link; kr = kr }) c.entries;
      } in
      if c.enable_caching
      then elim link [ some l ↦ (ok tt, insert_link l stored) | none ↦ (fatal, stored) ]
      else (ok tt, c)

  -- The part of `_remove_nolock` that takes the link out of its parent's map.
  unfoldable pub unlink : Link → Act (Cache KeyRing) ⊤
  unlink link c = elim (lookup link.parent_link_id c.children) [
    | none ↦ (fatal, c)
    | some known ↦ elim (lookup link.link_id known) [
      | none ↦ (fatal, c)
      | some _ ↦ (
        ok tt,
        record c { children = insert link.parent_link_id (delete link.link_id known) c.children },
      )
    ]
  ]

  -- The keys that the loop over `cache.children[link.LinkID]` ranges over. Entries that the
  -- recursion deletes meanwhile are still called for here, where the call finds no entry.
  unfoldable pub cached_children : String → Cache KeyRing → List String
  cached_children link_id c = elim (lookup link_id c.children) [
    | some known ↦ keys known
    | none ↦ []
  ]

  -- `delete(cache.children, link.LinkID)`
  unfoldable pub drop_children : String → Act (Cache KeyRing) ⊤
  drop_children link_id = modify (λ c. record c { children = delete link_id c.children })

  -- The loop over the children, and the deletion of their map; `remove` is the recursive call.
  unfoldable pub remove_children : (String → Act (Cache KeyRing) ⊤) → String → Act (Cache KeyRing) ⊤
  unfolding cached_children drop_children for_each
  remove_children remove link_id c =
      (for_each remove (cached_children link_id c) >> drop_children link_id) c

  -- What `_remove_nolock` does with the entry that it found.
  unfoldable pub remove_found :
      (String → Act (Cache KeyRing) ⊤) → String → Bool → Option Link → Act (Cache KeyRing) ⊤
  unfolding unlink remove_children
  remove_found remove link_id including_children none = lift fatal
  remove_found remove link_id including_children (some link) = do
    modify (λ c. record c { entries = delete link_id c.entries })
    unlink link
    if including_children then remove_children remove link.link_id else pure tt

  -- `_remove_nolock`, with fuel for its recursion.
  unfoldable pub remove_nolock : ℕ → String → Bool → Act (Cache KeyRing) ⊤
  unfolding remove_found
  remove_nolock zero link_id including_children c = (out_of_fuel, c)
  remove_nolock (suc fuel) link_id including_children c = elim (lookup link_id c.entries) [
    | none ↦ (ok tt, c)
    | some entry ↦
        remove_found (λ k. remove_nolock fuel k true) link_id including_children entry.link c
  ]

  -- `_remove` and `removeLinkIDFromCache`: every call removes an entry or returns, so one more
  -- than the number of entries is fuel enough.
  unfoldable pub remove : String → Bool → Act (Cache KeyRing) ⊤
  unfolding remove_nolock
  remove link_id including_children c =
      if c.enable_caching
      then remove_nolock (suc (length c.entries)) link_id including_children c
      else (ok tt, c)

  -- `ClearCache`
  unfoldable pub clear_cache : Cache KeyRing → Cache KeyRing
  clear_cache c = if c.enable_caching then record c { entries = []; children = [] } else c

  -- `data.kr = kr`, through the pointer that `_get` returned for the key.
  unfoldable pub set_kr : String → KeyRing → Cache KeyRing → Cache KeyRing
  set_kr link_id kr c = elim (lookup link_id c.entries) [
    | none ↦ c
    | some entry ↦ record c {
      entries = insert link_id (record { link = entry.link; kr = some kr }) c.entries;
    }
  ]
