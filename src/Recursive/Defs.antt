-- ===== src/Recursive/Defs.antt =====
-- folder_recursive.go: `listDirectoriesRecursively`.
use proton_api_bridge.Common.{
  ℕ, zero, suc, ◌+◌, String, ◌<>◌, Bool, Option, none, some, List, [], ◌∷◌, ◌++◌, ◌==◌, ◌&&◌, not,
  eqb, ltb, true, if◌then◌else◌,
}
use proton_api_bridge.Int.{ℤ, pos, negsuc}
use proton_api_bridge.Action.{
  Act, ⊤, out_of_fuel, pure, lift, fail_if, modify, for_each, ◌>>=◌, ◌>>◌,
  data_folder_name_is_empty,
}
use proton_api_bridge.Proton.{Bytes, Link, LinkType, LinkState, same_type, same_state}
use proton_api_bridge.Api.{Api}
use proton_api_bridge.Drive.{Drive, St, remote, get_signature_verification_keyring}
use proton_api_bridge.Links.{unlock_link}
use proton_api_bridge.Download.{FileDownloadReader, download_file}
use proton_api_bridge.Download.Seek.{drain}

-- The calls on the file system, and the lengths of the slices that `io.ReadAll` reads into.
pub record Disk (api : Api) : Type 0 where
  pub write_file : String → Bytes → Act api.World ⊤
  pub make_dir : String → Act api.World ⊤
  pub slice_size : ℕ → ℕ

-- The drive's state, and the slice of paths, which can be nil.
pub record Walk (api : Api) : Type 0 where
  pub st : St api
  pub paths : Option (List String)

module _ {api : Api} where
  abbrev pub on_drive : {A : Type 0} → Act (St api) A → Act (Walk api) A
  on_drive m s = let (r, st) = m s.st in (r, record s { st = st })

  -- `*paths = append(*paths, currentPath)`, unless it is nil
  unfoldable pub add_path : String → Act (Walk api) ⊤
  add_path path =
      modify (λ s. record s {
        paths = elim s.paths [ none ↦ none | some ps ↦ some (ps ++ (path ∷ [])) ];
      })

-- `maxDepth == -1 || curDepth < maxDepth`
unfoldable pub goes_on : ℤ → ℕ → Bool
goes_on (negsuc n) cur_depth = eqb n 0
goes_on (pos max_depth) cur_depth = ltb cur_depth max_depth

module _ (api : Api) (drive : Drive api) (disk : Disk api) (file_fuel : ℕ) where
  -- `io.ReadAll`
  unfoldable pub read_to_end : FileDownloadReader api → Act (St api) Bytes
  unfolding drain
  read_to_end reader s =
      let (r, end) =
        drain api drive file_fuel disk.slice_size (record { reader = reader; world = s.world }) in
      (r, record s { world = end.world })

  -- The name of the link behind the path, which is added to the paths.
  unfoldable pub named_path : api.KeyRing → Link → String → Act (Walk api) String
  unfolding get_signature_verification_keyring add_path
  named_path parent_node_kr link path_so_far = do
    verification_kr ← lift (
        get_signature_verification_keyring api drive
          (link.name_signature_email ∷ link.signature_email ∷ []) [])
    name ← lift (api.link_get_name link parent_node_kr verification_kr)
    add_path (path_so_far <> "/" <> name)
    pure (path_so_far <> "/" <> name)

  -- The copy of one link on the disk.
  unfoldable pub save : Link → String → Bool → Act (Walk api) ⊤
  unfolding download_file read_to_end
  save link current_path is_root_left_out = do
    fail_if (drive.data_folder_name == "") data_folder_name_is_empty
    if same_type link.type LinkType.file
        then (do
          (reader, size, attrs) ← on_drive (download_file api drive file_fuel link (pos 0))
          bytes ← on_drive (read_to_end reader)
          on_drive (
              remote
                (disk.write_file ("./" <> drive.data_folder_name <> "/" <> current_path) bytes)))
        else if is_root_left_out
        then pure tt
        else on_drive
            (remote (disk.make_dir ("./" <> drive.data_folder_name <> "/" <> current_path)))

  -- The children, unless the server gives nil; `visit` is the recursive call.
  unfoldable pub visit_children :
      (api.KeyRing → Link → Act (Walk api) ⊤)
      → api.KeyRing
      → Link
      → Option (List Link)
      → Act (Walk api) ⊤
  unfolding unlock_link for_each
  visit_children visit parent_node_kr link none = pure tt
  visit_children visit parent_node_kr link (some children_links) = do
    link_kr ← on_drive (unlock_link api drive link parent_node_kr)
    for_each (visit link_kr) children_links

  -- The part of the walk below a link.
  unfoldable pub visit_below :
      (api.KeyRing → Link → Act (Walk api) ⊤) → api.KeyRing → Link → Bool → Act (Walk api) ⊤
  unfolding visit_children
  visit_below visit parent_node_kr link within =
      if within && same_type link.type LinkType.folder
      then (do
        children_links ←
            on_drive (remote (api.list_children drive.main_share.share_id link.link_id true))
        visit_children visit parent_node_kr link children_links)
      else pure tt

  -- `listDirectoriesRecursively`, with fuel for the height of the tree
  unfoldable pub list_directories_recursively :
      ℕ → api.KeyRing → Link → Bool → ℤ → ℕ → Bool → String → Act (Walk api) ⊤
  unfolding named_path save visit_below goes_on
  list_directories_recursively zero parent_node_kr link download max_depth cur_depth exclude_root
        path_so_far =
      lift out_of_fuel
  list_directories_recursively (suc fuel) parent_node_kr link download max_depth cur_depth
        exclude_root path_so_far =
      let visit : String → api.KeyRing → Link → Act (Walk api) ⊤ = λ path kr child.
        list_directories_recursively fuel kr child download max_depth (cur_depth + 1) exclude_root
          path in
      if not (same_state link.state LinkState.active) then pure tt else do
        current_path ←
            (if exclude_root && eqb cur_depth 0
              then pure ""
              else named_path parent_node_kr link path_so_far)
        (if download then save link current_path (exclude_root && eqb cur_depth 0) else pure tt)
        visit_below (visit current_path) parent_node_kr link (goes_on max_depth cur_depth)
