-- ===== src/Search/Defs.antt =====
-- search.go: `SearchByNameInActiveFolder`. search_recursive.go: the search below a folder.
use proton_api_bridge.Common.{
  ℕ, zero, suc, String, Bool, true, Option, none, some, List, [], ◌∷◌, ◌==◌, ◌&&◌, ◌||◌, not,
  length, eqb, if◌then◌else◌,
}
use proton_api_bridge.Action.{
  Act, out_of_fuel, pure, fail, lift, ◌>>=◌, link_type_must_to_be_folder_type,
}
use proton_api_bridge.Proton.{Link, LinkType, LinkState, same_type, same_state}
use proton_api_bridge.Api.{Api}
use proton_api_bridge.Drive.{Drive, St, remote, get_signature_verification_keyring}
use proton_api_bridge.Links.{get_link, get_link_kr_by_id, unlock_link}

-- A nil slice has no elements.
abbrev pub slice : {A : Type 0} → Option (List A) → List A
slice none = []
slice (some xs) = xs

-- The test of the loop for one child.
unfoldable pub is_target : String → Bool → Bool → LinkState → Link → Bool
is_target hash for_file for_folder target_state child =
    same_state child.state target_state
    && ((for_file && same_type child.type LinkType.file && child.hash == hash)
        || (for_folder && same_type child.type LinkType.folder && child.hash == hash))

-- The loop of `SearchByNameInActiveFolder` over the children.
unfoldable pub find_child : (Link → Bool) → List Link → Option Link
find_child test [] = none
find_child test (child ∷ more) = if test child then some child else find_child test more

module _ (api : Api) (drive : Drive api) (fuel : ℕ) where
  -- The hash of a name in a folder.
  unfoldable pub target_name_hash : Link → String → Act (St api) String
  unfolding get_link_kr_by_id unlock_link get_signature_verification_keyring
  target_name_hash folder_link target_name = do
    parent_node_kr ← get_link_kr_by_id api drive fuel folder_link.parent_link_id
    folder_link_kr ← unlock_link api drive folder_link parent_node_kr
    verification_kr ← lift (
        get_signature_verification_keyring api drive (folder_link.signature_email ∷ [])
          (some folder_link_kr ∷ []))
    hash_key ← lift (api.link_get_hash_key folder_link folder_link_kr verification_kr)
    lift (api.get_name_hash target_name hash_key)

  -- The children are listed only if the hash is taken.
  unfoldable pub search_taken :
      Link → String → Bool → Bool → LinkState → List String → Act (St api) (Option Link)
  unfolding find_child is_target
  search_taken folder_link hash for_file for_folder target_state available =
      if eqb (length available) 1 then pure none else do
        children ← remote (api.list_children drive.main_share.share_id folder_link.link_id true)
        pure (find_child (is_target hash for_file for_folder target_state) (slice children))

  -- The search in a folder that is active.
  unfoldable pub search_active :
      Link → String → Bool → Bool → LinkState → Act (St api) (Option Link)
  unfolding target_name_hash search_taken
  search_active folder_link target_name for_file for_folder target_state = do
    hash ← target_name_hash folder_link target_name
    available ←
        remote
          (api.check_available_hashes drive.main_share.share_id folder_link.link_id (hash ∷ []))
    search_taken folder_link hash for_file for_folder target_state available

  -- `SearchByNameInActiveFolder`
  unfoldable pub search_by_name_in_active_folder :
      Link → String → Bool → Bool → LinkState → Act (St api) (Option Link)
  unfolding search_active
  search_by_name_in_active_folder folder_link target_name for_file for_folder target_state =
      if not for_file && not for_folder
      then pure none
      else if not (same_type folder_link.type LinkType.folder)
      then fail link_type_must_to_be_folder_type
      else if not (same_state folder_link.state LinkState.active)
      then pure none
      else search_active folder_link target_name for_file for_folder target_state

  -- `SearchByNameInActiveFolderByID`
  unfoldable pub search_by_name_in_active_folder_by_id :
      String → String → Bool → Bool → LinkState → Act (St api) (Option Link)
  unfolding get_link search_by_name_in_active_folder
  search_by_name_in_active_folder_by_id folder_link_id target_name for_file for_folder
        target_state =
      do
        folder_link ← get_link api drive folder_link_id
        search_by_name_in_active_folder folder_link target_name for_file for_folder target_state

module _ (api : Api) (drive : Drive api) where
  -- Whether the search goes on at a link in this state.
  abbrev pub is_searched : Bool → LinkState → Bool
  is_searched draft_too state =
      same_state state LinkState.active || (draft_too && same_state state LinkState.draft)

  -- The loop over the children: the first that is found; `search` is the recursive call.
  unfoldable pub search_children :
      (Link → Act (St api) (Option Link)) → List Link → Act (St api) (Option Link)
  search_children search [] = pure none
  search_children search (child ∷ more) = do
    found ← search child
    elim found [ some link ↦ pure (some link) | none ↦ search_children search more ]

  -- The children of a folder, with the folder's key ring.
  unfoldable pub search_folder :
      (api.KeyRing → Link → Act (St api) (Option Link))
      → api.KeyRing
      → Link
      → Act (St api) (Option Link)
  unfolding search_children unlock_link
  search_folder search parent_node_kr link =
      if same_type link.type LinkType.folder
      then (do
        children ← remote (api.list_children drive.main_share.share_id link.link_id true)
        link_kr ← unlock_link api drive link parent_node_kr
        search_children (search link_kr) (slice children))
      else pure none

  -- `performSearchByNameRecursively`, with fuel for the depth of the tree
  unfoldable pub perform_search_by_name_recursively :
      ℕ → api.KeyRing → Link → String → LinkType → Bool → Act (St api) (Option Link)
  unfolding search_folder get_signature_verification_keyring
  perform_search_by_name_recursively zero parent_node_kr link target_name link_type draft_too =
      lift out_of_fuel
  perform_search_by_name_recursively (suc fuel) parent_node_kr link target_name link_type
        draft_too =
      let below =
        search_folder
          (λ kr child.
            perform_search_by_name_recursively fuel kr child target_name link_type draft_too)
          parent_node_kr link in
      if not (is_searched draft_too link.state) then pure none else do
        verification_kr ← lift (
            get_signature_verification_keyring api drive
              (link.name_signature_email ∷ link.signature_email ∷ []) [])
        name ← lift (api.link_get_name link parent_node_kr verification_kr)
        if same_type link.type link_type && name == target_name then pure (some link) else below

  -- `searchByNameRecursivelyFromRoot`
  unfoldable pub search_by_name_recursively_from_root :
      ℕ → String → Bool → Bool → Act (St api) (Option Link)
  unfolding perform_search_by_name_recursively
  search_by_name_recursively_from_root fuel target_name is_folder draft_too =
      perform_search_by_name_recursively fuel drive.main_share_kr drive.root_link target_name
        (if is_folder then LinkType.folder else LinkType.file) draft_too

  -- `SearchByNameRecursively`
  unfoldable pub search_by_name_recursively :
      ℕ → Link → String → Bool → Bool → Act (St api) (Option Link)
  unfolding get_link_kr_by_id perform_search_by_name_recursively
  search_by_name_recursively fuel folder_link target_name is_folder draft_too =
      if not (same_type folder_link.type LinkType.folder)
      then fail link_type_must_to_be_folder_type
      else do
        folder_kr ← get_link_kr_by_id api drive fuel folder_link.parent_link_id
        perform_search_by_name_recursively fuel folder_kr folder_link target_name
            (if is_folder then LinkType.folder else LinkType.file) draft_too
