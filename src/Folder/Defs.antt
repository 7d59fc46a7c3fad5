-- ===== src/Folder/Defs.antt =====
-- folder.go: listing a folder, new folders, and moves.
use proton_api_bridge.Common.{
  ℕ, String, Bool, true, false, Option, none, some, List, [], ◌∷◌, ◌==◌, not, if◌then◌else◌,
}
use proton_api_bridge.Action.{
  Act, ⊤, other, pure, fail, lift, fail_if, modify, ◌>>=◌, ◌>>◌, link_must_be_active,
}
use proton_api_bridge.Proton.{Link, LinkState, is_folder, same_state, MoveLinkReq}
use proton_api_bridge.Api.{Api}
use proton_api_bridge.Drive.{Drive, St, remote, get_signature_verification_keyring}
use proton_api_bridge.Links.{
  get_link, get_link_kr, get_link_kr_by_id, unlock_link, remove_link_id_from_cache,
}
use proton_api_bridge.Crypto.{generate_node_keys, get_key_ring, reencrypt_key_packet}

-- `ProtonDirectoryData`
pub record DirectoryData : Type 0 where
  pub link : Link
  pub name : String
  pub is_folder : Bool

module _ (api : Api) (drive : Drive api) where
  -- The data of one child of the folder.
  unfoldable pub directory_entry : api.KeyRing → Link → Act (St api) DirectoryData
  unfolding get_signature_verification_keyring
  directory_entry folder_kr child = do
    verification_kr ← lift (
        get_signature_verification_keyring api drive
          (child.name_signature_email ∷ child.signature_email ∷ []) [])
    name ← lift (api.link_get_name child folder_kr verification_kr)
    pure (record { link = child; name = name; is_folder = is_folder child.type })

  -- The loop of `ListDirectory`: the children that are active.
  unfoldable pub list_active : api.KeyRing → List Link → Act (St api) (List DirectoryData)
  unfolding directory_entry
  list_active folder_kr [] = pure []
  list_active folder_kr (child ∷ more) =
      let rest = list_active folder_kr more in
      if same_state child.state LinkState.active
      then (do entry ← directory_entry folder_kr child; entries ← rest; pure (entry ∷ entries))
      else rest

  -- `moveLinkCompat` for a client whose methods fit; the last error is one that is made there.
  unfoldable pub move_link_compat : String → String → String → MoveLinkReq → Act api.World ⊤
  move_link_compat share_id volume_id link_id req = elim api.move_link_by_volume [
    | some by_volume ↦ by_volume volume_id link_id req
    | none ↦ elim api.move_link [
      | some by_share ↦ by_share share_id link_id req
      | none ↦ fail (other 1)
    ]
  ]

module _ (api : Api) (drive : Drive api) (fuel : ℕ) where
  -- The children of an active folder; for a nil slice no key is needed.
  unfoldable pub list_children_of : Link → Option (List Link) → Act (St api) (List DirectoryData)
  unfolding get_link_kr_by_id unlock_link list_active
  list_children_of folder_link none = pure []
  list_children_of folder_link (some children) = do
    parent_kr ← get_link_kr_by_id api drive fuel folder_link.parent_link_id
    folder_kr ← unlock_link api drive folder_link parent_kr
    list_active api drive folder_kr children

  -- The listing of an active folder.
  unfoldable pub list_active_folder : Link → Act (St api) (List DirectoryData)
  unfolding list_children_of
  list_active_folder folder_link = do
    children ← remote (api.list_children drive.main_share.share_id folder_link.link_id true)
    list_children_of folder_link children

  -- `ListDirectory`
  unfoldable pub list_directory : String → Act (St api) (List DirectoryData)
  unfolding get_link list_active_folder
  list_directory folder_link_id = do
    folder_link ← get_link api drive folder_link_id
    if same_state folder_link.state LinkState.active
        then list_active_folder folder_link
        else pure []

  -- `CreateNewFolder`: the new link's id.
  unfoldable pub create_new_folder : Link → String → Act (St api) String
  unfolding get_link_kr generate_node_keys get_signature_verification_keyring get_key_ring
  create_new_folder parent_link folder_name = do
    parent_node_kr ← get_link_kr api drive fuel (some parent_link)
    (node_key, passphrase_enc, passphrase_signature) ←
        remote (generate_node_keys api parent_node_kr drive.default_addr_kr)
    name ← remote (api.encrypt_name folder_name drive.default_addr_kr parent_node_kr)
    verification_kr ← lift (
        get_signature_verification_keyring api drive (parent_link.signature_email ∷ [])
          (some parent_node_kr ∷ []))
    parent_hash_key ← lift (api.link_get_hash_key parent_link parent_node_kr verification_kr)
    hash ← lift (api.get_name_hash folder_name parent_hash_key)
    new_node_kr ← remote (
        get_key_ring api parent_node_kr drive.default_addr_kr node_key passphrase_enc
          passphrase_signature)
    hash_key ← remote (api.node_hash_key new_node_kr)
    remote (
        api.create_folder drive.main_share.share_id (record {
          parent_link_id = parent_link.link_id;
          name = name;
          hash = hash;
          node_key = node_key;
          node_hash_key = hash_key;
          node_passphrase = passphrase_enc;
          node_passphrase_signature = passphrase_signature;
          signature_address = drive.signature_address;
        }))

  -- `CreateNewFolderByID`
  unfoldable pub create_new_folder_by_id : String → String → Act (St api) String
  unfolding remove_link_id_from_cache get_link create_new_folder
  create_new_folder_by_id parent_link_id folder_name = do
    remove_link_id_from_cache parent_link_id false
    parent_link ← get_link api drive parent_link_id
    create_new_folder parent_link folder_name

  -- The request of `moveLink`.
  unfoldable pub prepare_move : Link → Link → String → Act (St api) MoveLinkReq
  unfolding get_link_kr get_link_kr_by_id get_signature_verification_keyring reencrypt_key_packet
  prepare_move src_link dst_parent_link dst_name = do
    dst_parent_kr ← get_link_kr api drive fuel (some dst_parent_link)
    name ← remote (api.encrypt_name dst_name drive.default_addr_kr dst_parent_kr)
    verification_kr ← lift (
        get_signature_verification_keyring api drive (dst_parent_link.signature_email ∷ [])
          (some dst_parent_kr ∷ []))
    hash_key ← lift (api.link_get_hash_key dst_parent_link dst_parent_kr verification_kr)
    hash ← lift (api.get_name_hash dst_name hash_key)
    src_parent_kr ← get_link_kr_by_id api drive fuel src_link.parent_link_id
    node_passphrase ←
        remote (reencrypt_key_packet api src_parent_kr dst_parent_kr src_link.node_passphrase)
    let email =
        if src_link.name_signature_email == ""
        then drive.signature_address
        else src_link.name_signature_email
    pure (record {
      parent_link_id = dst_parent_link.link_id;
      name = name;
      hash = hash;
      original_hash = src_link.hash;
      node_passphrase = node_passphrase;
      name_signature_email = if api.has_name_signature_email then some email else none;
    })

  -- `moveLink`, and with it `MoveFile` and `MoveFolder`
  unfoldable pub move_link : Link → Link → String → Act (St api) ⊤
  unfolding prepare_move remove_link_id_from_cache move_link_compat
  move_link src_link dst_parent_link dst_name = do
    req ← prepare_move src_link dst_parent_link dst_name
    remove_link_id_from_cache src_link.link_id false
    remote (
        move_link_compat api drive drive.main_share.share_id drive.main_share.volume_id
          src_link.link_id req)
    modify (λ s. record s { world = api.sleep 5 s.world })

  -- `MoveFileByID` and `MoveFolderByID`
  unfoldable pub move_by_id : String → String → String → Act (St api) ⊤
  unfolding remove_link_id_from_cache get_link move_link
  move_by_id src_link_id dst_parent_link_id dst_name = do
    remove_link_id_from_cache src_link_id false
    src_link ← get_link api drive src_link_id
    fail_if (not (same_state src_link.state LinkState.active)) link_must_be_active
    dst_parent_link ← get_link api drive dst_parent_link_id
    fail_if (not (same_state dst_parent_link.state LinkState.active)) link_must_be_active
    move_link src_link dst_parent_link dst_name
