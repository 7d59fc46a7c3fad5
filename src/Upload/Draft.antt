-- ===== src/Upload/Draft.antt =====
-- file_upload.go, `createFileUploadDraft`: the request for a new file, and the conflict with a
-- file of that name.
use proton_api_bridge.Common.{
  ℕ, String, Bool, true, false, Option, none, some, [], ◌∷◌, if◌then◌else◌,
}
use proton_api_bridge.Action.{
  Act, Error, file_name_exist, cant_locate_revision, pure, fail, lift, deref, ◌>>=◌,
}
use proton_api_bridge.Proton.{Link, LinkState, CreateFileReq, CreateFileRes}
use proton_api_bridge.Api.{Api}
use proton_api_bridge.Drive.{Drive, St, remote, get_signature_verification_keyring}
use proton_api_bridge.Links.{get_link_kr, get_link_kr_by_id, unlock_link}
use proton_api_bridge.Crypto.{generate_node_keys, get_key_ring}
use proton_api_bridge.Search.{search_by_name_in_active_folder}
use proton_api_bridge.Upload.Conflict.{on_error, handle_revision_conflict}

-- The file that was created, or the one of that name that exists.
abbrev pub Creation : Type 0
Creation = Option CreateFileRes × Option Link

abbrev is_name_taken : Error → Bool
is_name_taken file_name_exist = true
is_name_taken _ = false

-- A draft: the link, the revision, and the keys for its blocks.
pub record Draft (api : Api) : Type 0 where
  pub link_id : String
  pub revision_id : String
  pub session_key : api.SessionKey
  pub node_kr : api.KeyRing

module _ (api : Api) (drive : Drive api) (fuel : ℕ) where
  -- The request with its keys, the session key and the new node's key ring.
  unfoldable pub prepare_create_file :
      Link → String → String → Act (St api) (CreateFileReq × api.SessionKey × api.KeyRing)
  unfolding get_link_kr generate_node_keys get_signature_verification_keyring get_key_ring
  prepare_create_file parent_link filename mime_type = do
    parent_node_kr ← get_link_kr api drive fuel (some parent_link)
    (node_key, passphrase_enc, passphrase_signature) ←
        remote (generate_node_keys api parent_node_kr drive.default_addr_kr)
    name ← remote (api.encrypt_name filename drive.default_addr_kr parent_node_kr)
    verification_kr ← lift (
        get_signature_verification_keyring api drive (parent_link.signature_email ∷ [])
          (some parent_node_kr ∷ []))
    parent_hash_key ← lift (api.link_get_hash_key parent_link parent_node_kr verification_kr)
    hash ← lift (api.get_name_hash filename parent_hash_key)
    new_node_kr ← remote (
        get_key_ring api parent_node_kr drive.default_addr_kr node_key passphrase_enc
          passphrase_signature)
    (request, session_key) ← remote (
        api.set_content_key_packet
          (record {
            parent_link_id = parent_link.link_id;
            name = name;
            hash = hash;
            mime_type = mime_type;
            content_key_packet = "";
            content_key_packet_signature = "";
            node_key = node_key;
            node_passphrase = passphrase_enc;
            node_passphrase_signature = passphrase_signature;
            signature_address = drive.signature_address;
          })
          new_node_kr)
    pure (request, session_key, new_node_kr)

  -- The search for a draft of the name, after that for an active file.
  unfoldable pub locate_draft : Link → String → Option Link → Act (St api) Creation
  unfolding search_by_name_in_active_folder
  locate_draft parent_link filename (some link) = pure (none, some link)
  locate_draft parent_link filename none = do
    found ←
        search_by_name_in_active_folder api drive fuel parent_link filename true false
          LinkState.draft
    elim found [ some link ↦ pure (none, some link) | none ↦ fail cant_locate_revision ]

  -- The conflict of names in `createFileAction`.
  unfoldable pub locate_existing : Link → String → Error → Act (St api) Creation
  unfolding search_by_name_in_active_folder locate_draft
  locate_existing parent_link filename e =
      if is_name_taken e
      then (do
        found ←
            search_by_name_in_active_folder api drive fuel parent_link filename true false
              LinkState.active
        locate_draft parent_link filename found)
      else fail e

  -- `createFileAction`
  unfoldable pub create_file_action : Link → String → CreateFileReq → Act (St api) Creation
  unfolding locate_existing
  create_file_action parent_link filename request s =
      on_error (locate_existing parent_link filename) (λ created. pure (some created, none))
        (remote (api.create_file drive.main_share.share_id request) s)

  -- `createFileAction` and `handleRevisionConflict`: the creation, the revision and whether the
  -- file must be created again.
  unfoldable pub create_and_resolve :
      Link → String → CreateFileReq → Act (St api) (Creation × String × Bool)
  unfolding create_file_action handle_revision_conflict
  create_and_resolve parent_link filename request = do
    creation ← create_file_action parent_link filename request
    (revision_id, again) ← handle_revision_conflict api drive (creation.1) (creation.0)
    pure (creation, revision_id, again)

  -- The second attempt, if it is asked for; its own wish for another is dropped.
  unfoldable pub resolve_again :
      Link → String → CreateFileReq → Creation × String × Bool → Act (St api) (Creation × String)
  unfolding create_and_resolve
  resolve_again parent_link filename request (creation, revision_id, false) =
      pure (creation, revision_id)
  resolve_again parent_link filename request (creation, revision_id, true) = do
    (creation', revision_id', _) ← create_and_resolve parent_link filename request
    pure (creation', revision_id')

  -- The keys of the draft: those of the link that exists, or the new ones.
  unfoldable pub draft_of :
      api.SessionKey → api.KeyRing → String → Creation → Act (St api) (Draft api)
  unfolding get_link_kr_by_id unlock_link
  draft_of session_key node_kr revision_id (created, some link) = do
    parent_node_kr ← get_link_kr_by_id api drive fuel link.parent_link_id
    link_kr ← unlock_link api drive link parent_node_kr
    link_session_key ← lift (api.link_get_session_key link link_kr)
    pure (record {
      link_id = link.link_id;
      revision_id = revision_id;
      session_key = link_session_key;
      node_kr = link_kr;
    })
  draft_of session_key node_kr revision_id (created, none) = do
    res ← deref created
    pure (record {
      link_id = res.id;
      revision_id = revision_id;
      session_key = session_key;
      node_kr = node_kr;
    })

  -- `createFileUploadDraft`
  unfoldable pub create_file_upload_draft : Link → String → String → Act (St api) (Draft api)
  unfolding prepare_create_file create_and_resolve resolve_again draft_of
  create_file_upload_draft parent_link filename mime_type = do
    (request, session_key, node_kr) ← prepare_create_file parent_link filename mime_type
    first ← create_and_resolve parent_link filename request
    (creation, revision_id) ← resolve_again parent_link filename request first
    draft_of session_key node_kr revision_id creation
