-- ===== src/Tests/Caches.antt =====
-- Caches with a folder in the root and a file in the folder, and what removals do to them.
use proton_api_bridge.Common.{
  ℕ, String, Bool, true, false, none, some, List, [], ◌∷◌, ◌==◌, ◌≡◌, ◌≢◌, refl, lookup, insert,
  delete, keys, ◌⊎◌, if◌then◌else◌,
}
use proton_api_bridge.Int.{pos}
use proton_api_bridge.Action.{ok, for_each}
use proton_api_bridge.Proton.{Link, LinkType, LinkState}
use proton_api_bridge.Cache.{
  Cache, new_cache, insert_entry, insert_link, siblings, remove, remove_nolock, set_kr, unlink,
  cached_children, drop_children, remove_children, remove_found,
}
use proton_api_bridge.Cache.Consistency.{
  IsConsistent, new_cache-IsConsistent, insert_entry-IsConsistent, filled, set_kr-Fills,
}
use proton_api_bridge.Cache.Eviction.{Descends, remove_subtree, remove_single}

abbrev link_in : String → String → Link
link_in parent_link_id link_id = record {
  link_id = link_id;
  parent_link_id = parent_link_id;
  type = LinkType.folder;
  state = LinkState.active;
  hash = "";
  size = pos 0;
  name_signature_email = "me";
  signature_email = "me";
  node_key = "";
  node_passphrase = "";
  node_passphrase_signature = "";
  x_attr = "";
  file_properties = none;
}

-- The cache of a process that has read `docs` and then the file `notes` in it.
abbrev with_docs : Cache ℕ
with_docs = (insert_entry "docs" (some (link_in "root" "docs")) none (new_cache true)).1

abbrev pub with_notes : Cache ℕ
with_notes = (insert_entry "notes" (some (link_in "docs" "notes")) (some 4) with_docs).1

insert_entry-IsConsistent_example : IsConsistent with_docs
insert_entry-IsConsistent_example =
    insert_entry-IsConsistent (link_in "root" "docs") none (new_cache true)
      (new_cache-IsConsistent true)

pub with_notes-IsConsistent : IsConsistent with_notes
with_notes-IsConsistent = insert_entry-IsConsistent (link_in "docs" "notes") (some 4) with_docs (
    insert_entry-IsConsistent (link_in "root" "docs") none (new_cache true)
      (new_cache-IsConsistent true))

set_kr-Fills_example :
    IsConsistent (set_kr "docs" 3 with_notes)
    × ((set_kr "docs" 3 with_notes).children ≡ with_notes.children)
    × ((j : String)
        → lookup j (set_kr "docs" 3 with_notes).entries ≡ (
            if "docs" == j
            then filled 3 (lookup j with_notes.entries)
            else lookup j with_notes.entries))
set_kr-Fills_example = set_kr-Fills "docs" 3 with_notes with_notes-IsConsistent

pub caching_on : with_notes.enable_caching ≡ true
unfolding new_cache insert_entry insert_link
caching_on = refl

docs_cached : lookup "docs" with_notes.entries ≢ none
unfolding new_cache insert_entry insert_link insert lookup
docs_cached = λ empty. cc empty

remove_subtree_example :
    (c' : Cache ℕ) × (remove "docs" true with_notes ≡ (ok tt, c'))
    × IsConsistent c'
    × (lookup "docs" c'.entries ≡ none)
    × ((k : String) → Descends with_notes "docs" k → lookup k c'.entries ≡ none)
    × ((j : String)
        → (lookup j c'.entries ≡ lookup j with_notes.entries) ⊎ (lookup j c'.entries ≡ none))
remove_subtree_example =
    remove_subtree "docs" with_notes caching_on with_notes-IsConsistent docs_cached

remove_single_example :
    (c' : Cache ℕ) × (remove "docs" false with_notes ≡ (ok tt, c'))
    × IsConsistent c'
    × ((j : String)
        → lookup j c'.entries ≡ (if "docs" == j then none else lookup j with_notes.entries))
remove_single_example = remove_single "docs" with_notes caching_on with_notes-IsConsistent

-- The removal of `docs` with what is below it leaves no entry, and without that, `notes`.
remaining_entries : Bool → List String
unfolding new_cache insert_entry insert_link siblings insert lookup delete keys remove remove_nolock
    remove_found remove_children unlink cached_children drop_children for_each
remaining_entries deep = keys (remove "docs" deep with_notes).1.entries

removals : (remaining_entries true ≡ []) × (remaining_entries false ≡ "notes" ∷ [])
unfolding remaining_entries
removals = (refl, refl)
