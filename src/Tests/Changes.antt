-- ===== src/Tests/Changes.antt =====
-- The errors of a batch, the verifier's token, a search in a small tree, a listing, and a move to the trash.
use proton_api_bridge.Common.{
  ℕ, ◌+◌, String, true, false, none, some, [], ◌∷◌, ◌≡◌, ◌≢◌, refl, lookup, contains, get_elem?,
}
use proton_api_bridge.Action.{ok, bind, other}
use proton_api_bridge.Proton.{LinkType}
use proton_api_bridge.Drive.{
  St, add_keys, add_keys_from_kr, add_addresses, get_signature_verification_keyring,
}
use proton_api_bridge.Cache.{Cache}
use proton_api_bridge.Cache.Consistency.{IsConsistent}
use proton_api_bridge.Cache.Eviction.{Descends}
use proton_api_bridge.Links.{
  unlock_link, get_link, get_link_from, cached_link, get_link_kr_by_id, get_link_kr_by_id_with,
  get_link_kr_by_id_uncached,
}
use proton_api_bridge.Cache.{get, insert_entry, new_cache}
use proton_api_bridge.Folder.{list_directory}
use proton_api_bridge.Folder.Listing.{list_directory_lem}
use proton_api_bridge.Upload.{collect_upload_errors, build_verification_token}
use proton_api_bridge.Upload.Arrivals.{collect_upload_errors_lem, build_verification_token_lem}
use proton_api_bridge.Search.{perform_search_by_name_recursively}
use proton_api_bridge.Search.Found.{
  first_in, Tree, leaf, folder, end, next, Named, Has, has_leaf, has_folder, has_end, has_next,
  search_tree,
}
use proton_api_bridge.Trash.{move_to_trash}
use proton_api_bridge.Trash.Evicted.{move_to_trash_lem}
use proton_api_bridge.Tests.Server.{api, drive, link_at, start}
use proton_api_bridge.Tests.Caches.{with_notes, with_notes-IsConsistent, caching_on}

collect_upload_errors_lem_example :
    collect_upload_errors (none ∷ some (other 3) ∷ some (other 4) ∷ []) none 0 ≡ (some (other 3), 1)
collect_upload_errors_lem_example =
    collect_upload_errors_lem (none ∷ some (other 3) ∷ some (other 4) ∷ [])

build_verification_token_lem_example :
    get_elem? (build_verification_token (3 ∷ 5 ∷ []) (1 ∷ [])) 1 ≡ some 5
build_verification_token_lem_example = build_verification_token_lem (3 ∷ 5 ∷ []) (1 ∷ []) 1

-- The root with a file and a folder that is empty.
abbrev pub tree : Tree ℕ
tree =
    folder (link_at "root") "root" 11
      (next (leaf (link_at "notes") "notes") (next (folder (link_at "docs") "docs" 12 end) end))

named : (link_id : String) (kr : ℕ) → Named api drive (link_at link_id) kr link_id
unfolding get_signature_verification_keyring add_addresses add_keys_from_kr add_keys bind lookup
named link_id kr = (2, refl, refl)

opens :
    (link_id : String) (kr : ℕ) (s : St api)
    → unlock_link api drive (link_at link_id) kr s ≡ (ok (kr + 1), s)
unfolding unlock_link get_signature_verification_keyring add_addresses add_keys_from_kr add_keys
    bind lookup
opens link_id kr s = refl

pub tree_is_served : Has api drive 3 10 tree
tree_is_served =
    has_folder (named "root" 10) refl (λ w. refl) (opens "root" 10)
      (has_next (has_leaf (named "notes" 11) refl) (
        has_next (has_folder (named "docs" 11) refl (λ w. refl) (opens "docs" 11) has_end) has_end))

abbrev pub at_work : St api
at_work = record { cache = with_notes; world = 100 }

search_tree_example :
    perform_search_by_name_recursively api drive 3 10
      (link_at "root")
      "docs"
      LinkType.folder
      false
      at_work
    ≡ (ok (some (link_at "docs")), at_work)
unfolding first_in
search_tree_example =
    search_tree api drive "docs" LinkType.folder false 3 10 tree at_work tree_is_served

move_to_trash_lem_example :
    (c : Cache ℕ) × (move_to_trash api drive "root" ("docs" ∷ []) at_work
      ≡ (ok tt, record { cache = c; world = 101 }))
    × IsConsistent c
    × ((i : String) → contains i ("docs" ∷ []) ≡ true → lookup i c.entries ≡ none)
    × ((i k : String)
        → contains i ("docs" ∷ []) ≡ true
        → lookup i with_notes.entries ≢ none
        → Descends with_notes i k
        → lookup k c.entries ≡ none)
move_to_trash_lem_example =
    move_to_trash_lem api drive "root" ("docs" ∷ []) at_work 101 refl caching_on
      with_notes-IsConsistent

abbrev empty_cache : St api
empty_cache = start false

got : get_link api drive "root" empty_cache ≡ (ok (link_at "root"), empty_cache)
unfolding get_link get_link_from cached_link get insert_entry new_cache
got = refl

ringed : get_link_kr_by_id api drive 3 "" empty_cache ≡ (ok 10, empty_cache)
unfolding get_link_kr_by_id get_link_kr_by_id_with get_link_kr_by_id_uncached new_cache
ringed = refl

list_directory_lem_example : list_directory api drive 3 "root" empty_cache ≡ (
  ok (
      record { link = link_at "notes"; name = "notes"; is_folder = false }
      ∷ record { link = link_at "docs"; name = "docs"; is_folder = true }
      ∷ []),
  empty_cache,
)
list_directory_lem_example =
    list_directory_lem api drive (λ child. child.link_id) 3 "root" (link_at "root")
      (link_at "notes" ∷ link_at "docs" ∷ []) 10 11 empty_cache empty_cache empty_cache got refl
      refl ringed (opens "root" 10 empty_cache) (named "notes" 11, (named "docs" 11, tt))
