-- ===== src/Trash/Evicted.antt =====
-- delete.go, `moveToTrash`: what the trash leaves in the cache.
use proton_api_bridge.Common.{
  String, true, none, List, [], ◌∷◌, lookup, contains, ◌==◌, ◌≡◌, ◌≢◌, refl, ap, ◌∙◌, inl, inr,
  eq_of_test, Bool-cases, arith,
}
use proton_api_bridge.Action.{Outcome, ⊤, ok, err, Error, for_each, >>=_step, >>=_stop}
use proton_api_bridge.Api.{Api}
use proton_api_bridge.Drive.{Drive, St, remote}
use proton_api_bridge.Cache.{Cache}
use proton_api_bridge.Cache.Consistency.{IsConsistent}
use proton_api_bridge.Cache.Removal.{Removal, Removal-refl, Removal-trans, absent_stays}
use proton_api_bridge.Cache.Eviction.{Descends, Descends-gone, remove-Removes}
use proton_api_bridge.Links.{remove_link_id_from_cache}
use proton_api_bridge.Trash.Defs.{move_to_trash}

module _ (api : Api) (drive : Drive api) where
  evict_all :
      (ids : List String) (s : St api)
      → s.cache.enable_caching ≡ true
      → IsConsistent s.cache
      → (c : Cache api.KeyRing) × (for_each
            (λ link_id. remove_link_id_from_cache {api = api} link_id true)
            ids
            s
          ≡ (ok tt, record s { cache = c }))
        × Removal s.cache c
        × ((k : String) → contains k ids ≡ true → lookup k c.entries ≡ none)
  unfolding for_each remove_link_id_from_cache
  evict_all [] s on h = (s.cache, refl, Removal-refl s.cache h, λ k listed. cc)
  evict_all (i ∷ ids) s on h =
      let (c1, run1, r1, gone1) = remove-Removes i s.cache on h in
      let (c2, run2, r2, gone2) =
        evict_all ids (record s { cache = c1 }) (r1.caching ∙ on) r1.consistent in
      (
        c2,
        >>=_step (remove_link_id_from_cache {api = api} i true) _ s
              (ap (λ (q : Outcome ⊤ × Cache api.KeyRing). (q.0, record s { cache = q.1 })) run1)
            ∙ run2,
        Removal-trans s.cache c1 c2 r1 r2,
        λ j listed. elim (Bool-cases (i == j)) [
          | inl same ↦ rw (← eq_of_test i j same) (absent_stays i c1 c2 r2 gone1)
          | inr other ↦ gone2 j (ground arith)
        ],
      )

  -- When the server takes the links into the trash, `moveToTrash` succeeds from every consistent
  -- cache that is on; the cache stays consistent, the links are not in it, and no cached link
  -- below one of them that was cached is left in it, at any depth.
  pub move_to_trash_lem :
      (parent_link_id : String) (ids : List String) (s : St api) (w : api.World)
      → api.trash_children drive.main_share.share_id parent_link_id ids s.world ≡ (ok tt, w)
      → s.cache.enable_caching ≡ true
      → IsConsistent s.cache
      → (c : Cache api.KeyRing) × (move_to_trash api drive parent_link_id ids s
          ≡ (ok tt, record { cache = c; world = w }))
        × IsConsistent c
        × ((i : String) → contains i ids ≡ true → lookup i c.entries ≡ none)
        × ((i k : String)
            → contains i ids ≡ true
            → lookup i s.cache.entries ≢ none
            → Descends s.cache i k
            → lookup k c.entries ≡ none)
  unfolding move_to_trash
  move_to_trash_lem parent_link_id ids s w taken on h =
      let (c, run, r, gone) = evict_all ids (record s { world = w }) on h in
      (
        c,
        >>=_step (remote (api.trash_children drive.main_share.share_id parent_link_id ids)) _ s
              (ap (λ (q : Outcome ⊤ × api.World). (q.0, record s { world = q.1 })) taken)
            ∙ run,
        r.consistent,
        gone,
        λ i k listed present d. Descends-gone s.cache c i r present (gone i listed) d,
      )

  -- When the server does not, the cache is left alone and its error is returned.
  pub move_to_trash_refused :
      (parent_link_id : String) (ids : List String) (s : St api) (w : api.World) (e : Error)
      → api.trash_children drive.main_share.share_id parent_link_id ids s.world ≡ (err e, w)
      → move_to_trash api drive parent_link_id ids s ≡ (err e, record s { world = w })
  unfolding move_to_trash
  move_to_trash_refused parent_link_id ids s w e refused =
      >>=_stop (remote (api.trash_children drive.main_share.share_id parent_link_id ids)) _ s
        (ap (λ (q : Outcome ⊤ × api.World). (q.0, record s { world = q.1 })) refused)
