-- ===== src/Invariant/Histories.antt =====
-- The public methods of the drive, one call after the other, between which other clients may
-- change the server.
use proton_api_bridge.Common.{ℕ, String, Bool, true, false, Option, ◌≡◌, ap, inl, inr, Bool-cases}
use proton_api_bridge.Int.{ℤ}
use proton_api_bridge.Action.{ok}
use proton_api_bridge.Proton.{Link, LinkState}
use proton_api_bridge.Api.{Api}
use proton_api_bridge.Drive.{Drive, St}
use proton_api_bridge.Cache.{Cache, new_cache, remove, clear_cache}
use proton_api_bridge.Cache.Consistency.{IsConsistent, new_cache-IsConsistent}
use proton_api_bridge.Cache.Eviction.{remove_single, remove-Removes}
use proton_api_bridge.Links.{get_link}
use proton_api_bridge.Links.Invariant.{
  Identifies, remove_off, get_link-Keeps, clear_cache-IsConsistent,
}
use proton_api_bridge.Files.{
  get_active_revision_attrs, get_active_revision_attrs_by_id, get_active_revision_with_attrs,
}
use proton_api_bridge.Download.{download_file, download_file_by_id}
use proton_api_bridge.Search.{
  search_by_name_in_active_folder, search_by_name_in_active_folder_by_id,
  search_by_name_recursively, search_by_name_recursively_from_root,
}
use proton_api_bridge.Upload.{
  FileInput, upload_file, upload_file_by_reader, FileSystem, upload_file_by_path,
}
use proton_api_bridge.Trash.{
  move_file_to_trash_by_id, move_folder_to_trash_by_id, empty_root_folder, empty_trash,
}
use proton_api_bridge.Folder.{
  create_new_folder, move_link, list_directory, create_new_folder_by_id, move_by_id,
}
use proton_api_bridge.Invariant.Reads.{
  get_active_revision_attrs-Keeps, download_file-Keeps, search_by_name_in_active_folder-Keeps,
  get_active_revision_attrs_by_id-Keeps, get_active_revision_with_attrs-Keeps,
  download_file_by_id-Keeps, search_by_name_in_active_folder_by_id-Keeps,
  search_by_name_recursively-Keeps, search_by_name_recursively_from_root-Keeps,
  list_directory-Keeps,
}
use proton_api_bridge.Invariant.Writes.{
  create_new_folder-Keeps, move_link-Keeps, upload_file-Keeps, upload_file_by_reader-Keeps,
  upload_file_by_path-Keeps, move_file_to_trash_by_id-Keeps, move_folder_to_trash_by_id-Keeps,
  empty_root_folder-Keeps, empty_trash-Keeps, create_new_folder_by_id-Keeps, move_by_id-Keeps,
}

-- A call of a public method, with its arguments.
pub data Call (api : Api) : Type 0 where
  link_of : String → Call api
  attrs_of_link : String → Call api
  revision_of : Option Link → Call api
  download : String → ℤ → Call api
  attrs_at : Option Link → Call api
  download_at : Link → ℤ → Call api
  find_in : Link → String → Bool → Bool → LinkState → Call api
  new_folder_in : Link → String → Call api
  move_into : Link → Link → String → Call api
  upload : Link → String → api.Time → FileInput → Call api
  upload_by_id : String → String → api.Time → FileInput → Call api
  upload_by_path : FileSystem api → Link → String → String → Call api
  find_in_folder : String → String → Bool → Bool → LinkState → Call api
  find_below : Link → String → Bool → Bool → Call api
  find_from_root : String → Bool → Bool → Call api
  list_folder : String → Call api
  new_folder : String → String → Call api
  move : String → String → String → Call api
  trash_file : String → Call api
  trash_folder : String → Bool → Call api
  empty_root : Call api
  empty_bin : Call api
  forget : Call api

module _ (api : Api) (drive : Drive api) (fuel : ℕ) where
  -- The state that a call leaves, whatever it ends in.
  unfoldable pub perform : Call api → St api → St api
  perform (link_of i) s = (get_link api drive i s).1
  perform (attrs_of_link i) s = (get_active_revision_attrs_by_id api drive fuel i s).1
  perform (revision_of l) s = (get_active_revision_with_attrs api drive fuel l s).1
  perform (download i offset) s = (download_file_by_id api drive fuel i offset s).1
  perform (attrs_at l) s = (get_active_revision_attrs api drive fuel l s).1
  perform (download_at l offset) s = (download_file api drive fuel l offset s).1
  perform (find_in l name for_file for_folder state) s =
      (search_by_name_in_active_folder api drive fuel l name for_file for_folder state s).1
  perform (new_folder_in l name) s = (create_new_folder api drive fuel l name s).1
  perform (move_into l parent name) s = (move_link api drive fuel l parent name s).1
  perform (upload l name time file) s = (upload_file api drive fuel l name time file 0 s).1
  perform (upload_by_id i name time file) s =
      (upload_file_by_reader api drive fuel i name time file 0 s).1
  perform (upload_by_path fs l name path) s =
      (upload_file_by_path api drive fs fuel l name path 0 s).1
  perform (find_in_folder i name for_file for_folder state) s =
      (search_by_name_in_active_folder_by_id api drive fuel i name for_file for_folder state s).1
  perform (find_below l name folder draft) s =
      (search_by_name_recursively api drive fuel l name folder draft s).1
  perform (find_from_root name folder draft) s =
      (search_by_name_recursively_from_root api drive fuel name folder draft s).1
  perform (list_folder i) s = (list_directory api drive fuel i s).1
  perform (new_folder i name) s = (create_new_folder_by_id api drive fuel i name s).1
  perform (move i parent name) s = (move_by_id api drive fuel i parent name s).1
  perform (trash_file i) s = (move_file_to_trash_by_id api drive i s).1
  perform (trash_folder i only_on_empty) s =
      (move_folder_to_trash_by_id api drive i only_on_empty s).1
  perform empty_root s = (empty_root_folder api drive s).1
  perform empty_bin s = (empty_trash api drive s).1
  perform forget s = record s { cache = clear_cache s.cache }

  -- The states of a drive, from its opening on.
  pub data Reached : St api → Type 0 where
    opened :
        (caching : Bool) (w : api.World) → Reached (record { cache = new_cache caching; world = w })
    called : {s : St api} → Reached s → (c : Call api) → Reached (perform c s)
    changed : {s : St api} → Reached s → (w : api.World) → Reached (record s { world = w })

  module _ (identifies : Identifies api drive) where
    perform-Keeps :
        (c : Call api) (s : St api) → IsConsistent s.cache → IsConsistent (perform c s).cache
    unfolding perform
    perform-Keeps (link_of i) s h = (get_link-Keeps api drive identifies i).at s h
    perform-Keeps (attrs_of_link i) s h =
        (get_active_revision_attrs_by_id-Keeps api drive identifies fuel i).at s h
    perform-Keeps (revision_of l) s h =
        (get_active_revision_with_attrs-Keeps api drive identifies fuel l).at s h
    perform-Keeps (download i offset) s h =
        (download_file_by_id-Keeps api drive identifies fuel i offset).at s h
    perform-Keeps (attrs_at l) s h =
        (get_active_revision_attrs-Keeps api drive identifies fuel l).at s h
    perform-Keeps (download_at l offset) s h =
        (download_file-Keeps api drive identifies fuel l offset).at s h
    perform-Keeps (find_in l name for_file for_folder state) s h =
        (search_by_name_in_active_folder-Keeps api drive identifies fuel l name for_file for_folder
            state).at
          s h
    perform-Keeps (new_folder_in l name) s h =
        (create_new_folder-Keeps api drive identifies fuel l name).at s h
    perform-Keeps (move_into l parent name) s h =
        (move_link-Keeps api drive identifies fuel l parent name).at s h
    perform-Keeps (upload l name time file) s h =
        (upload_file-Keeps api drive identifies fuel l name time file 0).at s h
    perform-Keeps (upload_by_id i name time file) s h =
        (upload_file_by_reader-Keeps api drive identifies fuel i name time file 0).at s h
    perform-Keeps (upload_by_path fs l name path) s h =
        (upload_file_by_path-Keeps api drive identifies fs fuel l name path 0).at s h
    perform-Keeps (find_in_folder i name for_file for_folder state) s h =
        (search_by_name_in_active_folder_by_id-Keeps api drive identifies fuel i name for_file
            for_folder state).at
          s h
    perform-Keeps (find_below l name folder draft) s h =
        (search_by_name_recursively-Keeps api drive identifies fuel l name folder draft).at s h
    perform-Keeps (find_from_root name folder draft) s h =
        (search_by_name_recursively_from_root-Keeps api drive identifies fuel name folder draft).at
          s h
    perform-Keeps (list_folder i) s h = (list_directory-Keeps api drive identifies fuel i).at s h
    perform-Keeps (new_folder i name) s h =
        (create_new_folder_by_id-Keeps api drive identifies fuel i name).at s h
    perform-Keeps (move i parent name) s h =
        (move_by_id-Keeps api drive identifies fuel i parent name).at s h
    perform-Keeps (trash_file i) s h =
        (move_file_to_trash_by_id-Keeps api drive identifies i).at s h
    perform-Keeps (trash_folder i only) s h =
        (move_folder_to_trash_by_id-Keeps api drive identifies i only).at s h
    perform-Keeps empty_root s h = (empty_root_folder-Keeps api drive identifies).at s h
    perform-Keeps empty_bin s h = (empty_trash-Keeps api drive identifies).at s h
    perform-Keeps forget s h = clear_cache-IsConsistent s.cache h

    -- The cache is consistent in every state that is reached.
    pub Reached-IsConsistent : {s : St api} → Reached s → IsConsistent s.cache
    Reached-IsConsistent (opened caching w) = new_cache-IsConsistent caching
    Reached-IsConsistent (called {s = s} r c) = perform-Keeps c s (Reached-IsConsistent r)
    Reached-IsConsistent (changed r w) = Reached-IsConsistent r

    remove_ends :
        (link_id : String) (deep : Bool) (c : Cache api.KeyRing)
        → IsConsistent c
        → (remove link_id deep c).0 ≡ ok tt
    remove_ends link_id deep c h = elim (Bool-cases c.enable_caching) [
      | inr off ↦ ap (λ r. r.0) (remove_off link_id deep c off)
      | inl on ↦ caching deep on
    ]
      where
        caching : (d : Bool) → c.enable_caching ≡ true → (remove link_id d c).0 ≡ ok tt
        caching true on =
            let (c', run, r, gone) = remove-Removes link_id c on h in ap (λ q. q.0) run
        caching false on =
            let (c', run, good, others) = remove_single link_id c on h in ap (λ q. q.0) run

    -- When the server answers a question for a link with a link that has the asked id: whatever
    -- public methods on links, files, folders and the trash were called from the opening of the
    -- drive on, with any arguments and results, errors included, and however the server changed
    -- between the calls, the removal of any link from the cache, with or without its children,
    -- ends without an error and without ending the process.
    pub Reached-remove :
        (s : St api) (link_id : String) (deep : Bool)
        → Reached s
        → (remove link_id deep s.cache).0 ≡ ok tt
    Reached-remove s link_id deep r = remove_ends link_id deep s.cache (Reached-IsConsistent r)
