-- ===== src/Invariant/Reads.antt =====
-- file.go, file_download.go, search.go, search_recursive.go and the listing of folder.go.
use proton_api_bridge.Common.{ℕ, zero, suc, String, Bool, Option, none, some, List, [], ◌∷◌}
use proton_api_bridge.Int.{ℤ, pos}
use proton_api_bridge.Action.{Act, Outcome, ok, err, fatal, out_of_fuel, ⊤, pure, ◌>>=◌}
use proton_api_bridge.Action.Keeps.{
  Keeps, Keeps-pure, Keeps-lift, Keeps-bind, Keeps-if, keeps_rules,
}
use proton_api_bridge.Proton.{
  same_state, Link, LinkType, LinkState, RevisionMetadata, RevisionState, RevisionXAttrCommon,
}
use proton_api_bridge.Api.{Api}
use proton_api_bridge.Drive.{Drive, St}
use proton_api_bridge.Links.Invariant.{
  HasConsistentCache, Identifies, Keeps-remote, remove_link_id_from_cache-Keeps, unlock_link-Keeps,
  get_link-Keeps, get_link_kr-Keeps, get_link_kr_by_id-Keeps,
}
use proton_api_bridge.Files.{
  FileSystemAttrs, get_revisions, attrs_of, active_attrs, get_active_revision_attrs,
  get_active_revision_attrs_by_id, get_active_revision, get_active_revision_with_attrs,
}
use proton_api_bridge.Download.{
  FileDownloadReader, Reading, start_reading, copy_n, seek_block, seek_with_sizes, seek,
  download_file, download_file_by_id,
}
use proton_api_bridge.Search.{
  target_name_hash, search_taken, search_active, search_by_name_in_active_folder,
  search_by_name_in_active_folder_by_id, search_children, search_folder,
  perform_search_by_name_recursively, search_by_name_recursively_from_root,
  search_by_name_recursively,
}
use proton_api_bridge.Folder.{
  directory_entry, list_active, list_children_of, list_active_folder, list_directory,
}

pub ruleset read_rules = (
  keeps_rules, Keeps-remote, remove_link_id_from_cache-Keeps, unlock_link-Keeps, get_link-Keeps,
  get_link_kr-Keeps, get_link_kr_by_id-Keeps,
)

module _ (api : Api) (drive : Drive api) (identifies : Identifies api drive) where
  abbrev Keep : {A : Type 0} → Act (St api) A → Type 0
  Keep = Keeps HasConsistentCache

  pub get_revisions-Keeps :
      (link : Link) (state : RevisionState) → Keep (get_revisions api drive link state)
  unfolding get_revisions
  get_revisions-Keeps link state = search read_rules

  attrs_of-Keeps : (spell : String → String) (x : RevisionXAttrCommon) → Keep (attrs_of api spell x)
  unfolding attrs_of
  attrs_of-Keeps spell x = search read_rules

  active_attrs_end :
      (o : Option RevisionXAttrCommon)
      → Keep {A = Option (FileSystemAttrs api.Time)} (elim o [
        | none ↦ pure none
        | some x ↦ attrs_of api api.to_lower x >>= λ attrs. pure (some attrs)
      ])
  active_attrs_end none = search read_rules
  active_attrs_end (some x) = search (read_rules, attrs_of-Keeps)

  active_attrs-Keeps :
      (fuel : ℕ) (link : Link) (m : RevisionMetadata) → Keep (active_attrs api drive fuel link m)
  unfolding active_attrs
  active_attrs-Keeps fuel link m = search (read_rules, active_attrs_end)

  pub get_active_revision_attrs-Keeps :
      (fuel : ℕ) (link : Option Link) → Keep (get_active_revision_attrs api drive fuel link)
  unfolding get_active_revision_attrs
  get_active_revision_attrs-Keeps fuel none = search read_rules
  get_active_revision_attrs-Keeps fuel (some link) = search (read_rules, active_attrs-Keeps)

  pub get_active_revision_attrs_by_id-Keeps :
      (fuel : ℕ) (link_id : String) → Keep (get_active_revision_attrs_by_id api drive fuel link_id)
  unfolding get_active_revision_attrs_by_id
  get_active_revision_attrs_by_id-Keeps fuel link_id =
      search (read_rules, get_active_revision_attrs-Keeps)

  get_active_revision-Keeps :
      (fuel : ℕ) (link : Link) (ms : List RevisionMetadata)
      → Keep (get_active_revision api drive fuel link ms)
  unfolding get_active_revision
  get_active_revision-Keeps fuel link [] = search read_rules
  get_active_revision-Keeps fuel link (one ∷ []) = search read_rules
  get_active_revision-Keeps fuel link (one ∷ two ∷ more) = search read_rules

  pub get_active_revision_with_attrs-Keeps :
      (fuel : ℕ) (link : Option Link) → Keep (get_active_revision_with_attrs api drive fuel link)
  unfolding get_active_revision_with_attrs
  get_active_revision_with_attrs-Keeps fuel none = search read_rules
  get_active_revision_with_attrs-Keeps fuel (some link) =
      search (read_rules, get_revisions-Keeps, get_active_revision-Keeps, attrs_of-Keeps) depth 14
        fits 4000

  reading_end :
      (r : Outcome ⊤) (t : Reading api) (s : St api)
      → HasConsistentCache s
      → HasConsistentCache (start_reading api t.reader (λ _. (r, t)) s).1
  reading_end (ok a) t s h = h
  reading_end (err e) t s h = h
  reading_end fatal t s h = h
  reading_end out_of_fuel t s h = h

  start_reading-Keeps :
      (r : FileDownloadReader api) (steps : Act (Reading api) ⊤) → Keep (start_reading api r steps)
  start_reading-Keeps r steps = record {
    at = λ s h.
        let (end, t) = steps (record { reader = r; world = s.world }) in reading_end end t s h;
  }

  sizes-Keeps :
      (r : FileDownloadReader api) (sizes : Option (List ℤ)) (offset : ℤ)
      → Keep (seek_with_sizes api drive r sizes offset)
  unfolding seek_with_sizes
  sizes-Keeps r none offset = start_reading-Keeps r (copy_n api drive offset)
  sizes-Keeps r (some sizes) offset =
      let (first, skip) = seek_block sizes 0 (pos 0) offset in
      start_reading-Keeps (record r { next_revision = first }) (copy_n api drive skip)

  seek-Keeps :
      (r : FileDownloadReader api) (attrs : Option (FileSystemAttrs api.Time)) (offset : ℤ)
      → Keep (seek api drive r attrs offset)
  unfolding seek
  seek-Keeps r none offset = search read_rules
  seek-Keeps r (some attrs) offset = sizes-Keeps r attrs.block_sizes offset

  pub download_file-Keeps :
      (fuel : ℕ) (link : Link) (offset : ℤ) → Keep (download_file api drive fuel link offset)
  unfolding download_file
  download_file-Keeps fuel link offset =
      search (read_rules, get_active_revision_with_attrs-Keeps, seek-Keeps) depth 14 fits 4000

  pub download_file_by_id-Keeps :
      (fuel : ℕ) (link_id : String) (offset : ℤ)
      → Keep (download_file_by_id api drive fuel link_id offset)
  unfolding download_file_by_id
  download_file_by_id-Keeps fuel link_id offset = search (read_rules, download_file-Keeps)

  pub target_name_hash-Keeps :
      (fuel : ℕ) (folder : Link) (name : String)
      → Keep (target_name_hash api drive fuel folder name)
  unfolding target_name_hash
  target_name_hash-Keeps fuel folder name = search read_rules depth 14 fits 4000

  search_taken-Keeps :
      (fuel : ℕ) (folder : Link) (hash : String) (for_file for_folder : Bool) (state : LinkState)
      (available : List String)
      → Keep (search_taken api drive fuel folder hash for_file for_folder state available)
  unfolding search_taken
  search_taken-Keeps fuel folder hash for_file for_folder state available =
      search read_rules depth 14 fits 4000

  search_active-Keeps :
      (fuel : ℕ) (folder : Link) (name : String) (for_file for_folder : Bool) (state : LinkState)
      → Keep (search_active api drive fuel folder name for_file for_folder state)
  unfolding search_active
  search_active-Keeps fuel folder name for_file for_folder state =
      search (read_rules, target_name_hash-Keeps, search_taken-Keeps) depth 14 fits 4000

  pub search_by_name_in_active_folder-Keeps :
      (fuel : ℕ) (folder : Link) (name : String) (for_file for_folder : Bool) (state : LinkState)
      → Keep (search_by_name_in_active_folder api drive fuel folder name for_file for_folder state)
  unfolding search_by_name_in_active_folder
  search_by_name_in_active_folder-Keeps fuel folder name for_file for_folder state =
      search (read_rules, search_active-Keeps) depth 14 fits 4000

  pub search_by_name_in_active_folder_by_id-Keeps :
      (fuel : ℕ) (folder_id name : String) (for_file for_folder : Bool) (state : LinkState)
      → Keep (
          search_by_name_in_active_folder_by_id api drive fuel folder_id name for_file for_folder
            state)
  unfolding search_by_name_in_active_folder_by_id
  search_by_name_in_active_folder_by_id-Keeps fuel folder_id name for_file for_folder state =
      search (read_rules, search_by_name_in_active_folder-Keeps)

  module _ (find : Link → Act (St api) (Option Link))
      (find-Keeps : (link : Link) → Keep (find link)) where
    children_end :
        (more : List Link)
        → Keep (search_children api drive find more)
        → (found : Option Link)
        → Keep {A = Option Link} (elim found [
          | some link ↦ pure (some link)
          | none ↦ search_children api drive find more
        ])
    children_end more rest (some link) = search read_rules
    children_end more rest none = rest

    search_children-Keeps : (children : List Link) → Keep (search_children api drive find children)
    unfolding search_children
    search_children-Keeps [] = search read_rules
    search_children-Keeps (child ∷ more) =
        Keeps-bind (find child) _ (find-Keeps child)
          (children_end more (search_children-Keeps more))

  search_folder-Keeps :
      (find : api.KeyRing → Link → Act (St api) (Option Link))
      → ((kr : api.KeyRing) (link : Link) → Keep (find kr link))
      → (kr : api.KeyRing) (link : Link) → Keep (search_folder api drive find kr link)
  unfolding search_folder
  search_folder-Keeps find find-Keeps kr link =
      search (read_rules, λ (own : api.KeyRing). search_children-Keeps (find own) (find-Keeps own))
        depth 14 fits 4000

  pub perform_search-Keeps :
      (fuel : ℕ) (kr : api.KeyRing) (link : Link) (name : String) (type : LinkType) (draft : Bool)
      → Keep (perform_search_by_name_recursively api drive fuel kr link name type draft)
  unfolding perform_search_by_name_recursively
  perform_search-Keeps zero kr link name type draft = search read_rules
  perform_search-Keeps (suc fuel) kr link name type draft =
      search
        (
          read_rules,
          search_folder-Keeps
              (λ own child.
                perform_search_by_name_recursively api drive fuel own child name type draft)
              (λ own child. perform_search-Keeps fuel own child name type draft),
        )
        depth 14 fits 4000

  pub search_by_name_recursively_from_root-Keeps :
      (fuel : ℕ) (name : String) (is_folder draft : Bool)
      → Keep (search_by_name_recursively_from_root api drive fuel name is_folder draft)
  unfolding search_by_name_recursively_from_root
  search_by_name_recursively_from_root-Keeps fuel name is_folder draft =
      perform_search-Keeps fuel drive.main_share_kr drive.root_link name _ draft

  pub search_by_name_recursively-Keeps :
      (fuel : ℕ) (folder : Link) (name : String) (is_folder draft : Bool)
      → Keep (search_by_name_recursively api drive fuel folder name is_folder draft)
  unfolding search_by_name_recursively
  search_by_name_recursively-Keeps fuel folder name is_folder draft =
      search (read_rules, perform_search-Keeps)

  directory_entry-Keeps :
      (kr : api.KeyRing) (child : Link) → Keep (directory_entry api drive kr child)
  unfolding directory_entry
  directory_entry-Keeps kr child = search read_rules

  list_active-Keeps :
      (kr : api.KeyRing) (children : List Link) → Keep (list_active api drive kr children)
  unfolding list_active
  list_active-Keeps kr [] = search read_rules
  list_active-Keeps kr (child ∷ more) =
      Keeps-if (same_state child.state LinkState.active)
        (directory_entry api drive kr child >>= λ entry.
          list_active api drive kr more >>= λ entries. pure (entry ∷ entries))
        (list_active api drive kr more)
        (Keeps-bind (directory_entry api drive kr child) _ (directory_entry-Keeps kr child)
          (λ entry.
            Keeps-bind (list_active api drive kr more) (λ entries. pure (entry ∷ entries))
              (list_active-Keeps kr more) (λ entries. Keeps-pure (entry ∷ entries))))
        (list_active-Keeps kr more)

  list_children_of-Keeps :
      (fuel : ℕ) (folder : Link) (children : Option (List Link))
      → Keep (list_children_of api drive fuel folder children)
  unfolding list_children_of
  list_children_of-Keeps fuel folder none = search read_rules
  list_children_of-Keeps fuel folder (some children) = search (read_rules, list_active-Keeps)

  pub list_directory-Keeps :
      (fuel : ℕ) (folder_id : String) → Keep (list_directory api drive fuel folder_id)
  unfolding list_directory list_active_folder
  list_directory-Keeps fuel folder_id =
      search (read_rules, list_children_of-Keeps) depth 14 fits 4000
