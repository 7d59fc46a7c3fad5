-- ===== src/Trash/Defs.antt =====
-- delete.go: moving to the trash, emptying the root folder and the trash.
use proton_api_bridge.Common.{
  String, Bool, true, false, List, [], ◌∷◌, ◌&&◌, not, length, ltb, if◌then◌else◌,
}
use proton_api_bridge.Action.{
  Act, ⊤, fail_if, modify, for_each, ◌>>=◌, ◌>>◌, link_type_must_to_be_file_type,
  link_type_must_to_be_folder_type, folder_is_not_empty,
}
use proton_api_bridge.Proton.{Link, LinkType, LinkState, same_type, same_state}
use proton_api_bridge.Api.{Api}
use proton_api_bridge.Drive.{Drive, St, remote}
use proton_api_bridge.Cache.{clear_cache}
use proton_api_bridge.Links.{get_link, remove_link_id_from_cache}
use proton_api_bridge.Search.{slice}

-- The loops of `EmptyRootFolder`: the links in the active state, and the others.
unfoldable pub active_ids : List Link → List String
active_ids [] = []
active_ids (l ∷ more) =
    if same_state l.state LinkState.active then l.link_id ∷ active_ids more else active_ids more

unfoldable pub inactive_ids : List Link → List String
inactive_ids [] = []
inactive_ids (l ∷ more) =
    if not (same_state l.state LinkState.active)
    then l.link_id ∷ inactive_ids more
    else inactive_ids more

module _ (api : Api) (drive : Drive api) where
  -- `moveToTrash`
  unfoldable pub move_to_trash : String → List String → Act (St api) ⊤
  unfolding for_each remove_link_id_from_cache
  move_to_trash parent_link_id link_ids = do
    remote (api.trash_children drive.main_share.share_id parent_link_id link_ids)
    for_each (λ link_id. remove_link_id_from_cache link_id true) link_ids

  -- `MoveFileToTrashByID`
  unfoldable pub move_file_to_trash_by_id : String → Act (St api) ⊤
  unfolding remove_link_id_from_cache get_link move_to_trash
  move_file_to_trash_by_id link_id = do
    remove_link_id_from_cache link_id false
    file_link ← get_link api drive link_id
    fail_if (not (same_type file_link.type LinkType.file)) link_type_must_to_be_file_type
    move_to_trash file_link.parent_link_id (link_id ∷ [])

  -- `MoveFolderToTrashByID`
  unfoldable pub move_folder_to_trash_by_id : String → Bool → Act (St api) ⊤
  unfolding remove_link_id_from_cache get_link move_to_trash
  move_folder_to_trash_by_id link_id only_on_empty = do
    remove_link_id_from_cache link_id false
    folder_link ← get_link api drive link_id
    fail_if (not (same_type folder_link.type LinkType.folder)) link_type_must_to_be_folder_type
    children ← remote (api.list_children drive.main_share.share_id link_id false)
    fail_if (only_on_empty && ltb 0 (length (slice children))) folder_is_not_empty
    move_to_trash folder_link.parent_link_id (link_id ∷ [])

  -- `ClearCache`
  abbrev pub clear : Act (St api) ⊤
  clear = modify (λ s. record s { cache = clear_cache s.cache })

  -- `EmptyRootFolder`
  unfoldable pub empty_root_folder : Act (St api) ⊤
  unfolding active_ids inactive_ids clear_cache
  empty_root_folder = do
    clear
    links ← remote (api.list_children drive.main_share.share_id drive.main_share.link_id true)
    remote (
        api.trash_children drive.main_share.share_id drive.main_share.link_id
          (active_ids (slice links)))
    remote (
        api.delete_children drive.main_share.share_id drive.main_share.link_id
          (inactive_ids (slice links)))

  -- `EmptyTrash`
  unfoldable pub empty_trash : Act (St api) ⊤
  unfolding clear_cache
  empty_trash = do clear; remote (api.empty_trash drive.main_share.share_id)
