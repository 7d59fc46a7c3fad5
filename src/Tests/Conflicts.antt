-- ===== src/Tests/Conflicts.antt =====
-- A search in one folder, and an upload of a file that exists.
use proton_api_bridge.Common.{◌⊎◌, ◌≢◌, inr, true, false, none, some, [], ◌∷◌, ◌≡◌, refl, lookup}
use proton_api_bridge.Action.{ok, err, bind, api_error, draft_exists}
use proton_api_bridge.Proton.{Link, LinkState}
use proton_api_bridge.Drive.{
  St, add_keys, add_keys_from_kr, add_addresses, get_signature_verification_keyring,
}
use proton_api_bridge.Cache.{new_cache}
use proton_api_bridge.Links.{
  unlock_link, get_link_kr_by_id, get_link_kr_by_id_with, get_link_kr_by_id_uncached,
}
use proton_api_bridge.Search.{target_name_hash, search_by_name_in_active_folder}
use proton_api_bridge.Search.Folder.{Matches, search_by_name_in_active_folder_lem}
use proton_api_bridge.Upload.{handle_revision_conflict}
use proton_api_bridge.Upload.Drafts.{IsBroken, unreadable_revisions, existing_draft}
use proton_api_bridge.Tests.Server.{api, drive, link_at, start, draft_revision}

abbrev at_first : St api
at_first = start false

-- The state after a deletion, a change of the server's.
abbrev afterwards : St api
afterwards = record at_first { world = 101 }

hashed : target_name_hash api drive 3 (link_at "root") "docs" at_first ≡ (ok "docs", at_first)
unfolding target_name_hash get_link_kr_by_id get_link_kr_by_id_with get_link_kr_by_id_uncached
    new_cache unlock_link get_signature_verification_keyring add_addresses add_keys_from_kr add_keys
    bind lookup
hashed = refl

notes_is_other : ¬ (Matches "docs" false true LinkState.active (link_at "notes"))
notes_is_other = λ (state, hash, kind). cc hash

search_by_name_in_active_folder_lem_example :
    search_by_name_in_active_folder api drive 3
      (link_at "root")
      "docs"
      false
      true
      LinkState.active
      at_first
    ≡ (ok (some (link_at "docs")), at_first)
search_by_name_in_active_folder_lem_example =
    search_by_name_in_active_folder_lem api drive 3 (link_at "root") "docs" "docs" false true
      LinkState.active (link_at "notes" ∷ []) (link_at "docs") [] at_first at_first 100 100 refl
      refl refl hashed refl refl (notes_is_other, tt) (refl, refl, inr (refl, refl))

abbrev stale : Link
stale = record (link_at "stale") { state = LinkState.draft }

unreadable_revisions_example :
    (IsBroken api drive (api_error 2501) stale
      × (handle_revision_conflict api drive (some stale) none at_first
          ≡ (ok ("", true), afterwards)))
    ⊎ (¬ (IsBroken api drive (api_error 2501) stale)
        × (handle_revision_conflict api drive (some stale) none at_first
            ≡ (err (api_error 2501), at_first)))
unreadable_revisions_example =
    unreadable_revisions api drive stale none (api_error 2501) at_first 100 101 refl refl

existing_draft_example :
    ((drive.replace_existing_draft ≡ false)
      × (handle_revision_conflict api drive (some (link_at "drafted")) none at_first
          ≡ (err draft_exists, at_first)))
    ⊎ (((drive.replace_existing_draft ≡ true)
          × ((link_at "drafted").state ≡ LinkState.draft)
          × (handle_revision_conflict api drive (some (link_at "drafted")) none at_first
              ≡ (ok ("", true), afterwards)))
        ⊎ ((drive.replace_existing_draft ≡ true)
            × ((link_at "drafted").state ≢ LinkState.draft)
            × (handle_revision_conflict api drive (some (link_at "drafted")) none at_first
                ≡ (ok ("revision", false), record at_first { world = 102 }))))
existing_draft_example =
    existing_draft api drive (link_at "drafted") none [] draft_revision [] "revision" at_first 100
      101 101 102 refl tt refl refl refl refl
