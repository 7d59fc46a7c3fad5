-- ===== src/Files.antt =====
-- file.go: the revisions of a file and the attributes of its active one.
use proton_api_bridge.Common.{ℕ, String, Option, none, some, List, [], ◌∷◌, lookup, if◌then◌else◌}
use proton_api_bridge.Int.{ℤ}
use proton_api_bridge.Action.{
  Act, pure, fail, lift, deref, ◌>>=◌, cant_find_active_revision, link_must_not_be_nil,
}
use proton_api_bridge.Proton.{
  Link, RevisionState, RevisionMetadata, Revision, RevisionXAttrCommon, same_revision_state,
}
use proton_api_bridge.Api.{Api}
use proton_api_bridge.Drive.{Drive, St, remote, get_signature_verification_keyring}
use proton_api_bridge.Links.{get_link, get_link_kr}

pub record FileSystemAttrs (Time : Type 0) : Type 0 where
  pub modification_time : Time
  pub size : ℤ
  pub block_sizes : Option (List ℤ)
  pub digests : String

-- The loop of `GetRevisions`.
unfoldable pub with_state : RevisionState → List RevisionMetadata → List RevisionMetadata
with_state state [] = []
with_state state (r ∷ more) =
    if same_revision_state r.state state then r ∷ with_state state more else with_state state more

module _ (api : Api) (drive : Drive api) where
  -- `GetRevisions`
  unfoldable pub get_revisions : Link → RevisionState → Act (St api) (List RevisionMetadata)
  unfolding with_state
  get_revisions link state = do
    revisions ← remote (api.list_revisions drive.main_share.share_id link.link_id)
    pure (with_state state revisions)

module _ (api : Api) where
  -- The end of both attribute getters: the time and the digest of what was decrypted.
  unfoldable pub attrs_of :
      (String → String) → RevisionXAttrCommon → Act (St api) (FileSystemAttrs api.Time)
  attrs_of spell x = do
    time ← lift (api.parse_time x.modification_time)
    pure (record {
      modification_time = time;
      size = x.size;
      block_sizes = x.block_sizes;
      digests = elim (lookup "SHA1" x.digests) [ some val ↦ spell val | none ↦ "" ];
    })

module _ (api : Api) (drive : Drive api) (fuel : ℕ) where
  -- `GetActiveRevisionAttrs` for a link that is a file; attributes that are missing give nil.
  unfoldable pub active_attrs :
      Link → RevisionMetadata → Act (St api) (Option (FileSystemAttrs api.Time))
  unfolding get_link_kr get_signature_verification_keyring attrs_of
  active_attrs link active_revision = do
    let metadata = record active_revision { x_attr = link.x_attr }
    node_kr ← get_link_kr api drive fuel (some link)
    verification_kr ←
        lift (get_signature_verification_keyring api drive (metadata.signature_email ∷ []) [])
    decrypted ← lift (api.get_dec_x_attr metadata verification_kr node_kr)
    elim decrypted [
      | none ↦ pure none
      | some x ↦ do attrs ← attrs_of api api.to_lower x; pure (some attrs)
    ]

  -- `GetActiveRevisionAttrs`; a link with no file properties ends the process.
  unfoldable pub get_active_revision_attrs :
      Option Link → Act (St api) (Option (FileSystemAttrs api.Time))
  unfolding active_attrs
  get_active_revision_attrs none = fail link_must_not_be_nil
  get_active_revision_attrs (some link) = do
    active_revision ← deref link.file_properties
    active_attrs link active_revision

  -- `GetActiveRevisionAttrsByID`
  unfoldable pub get_active_revision_attrs_by_id :
      String → Act (St api) (Option (FileSystemAttrs api.Time))
  unfolding get_link get_active_revision_attrs
  get_active_revision_attrs_by_id link_id = do
    link ← get_link api drive link_id
    get_active_revision_attrs (some link)

  -- The revision that is the only active one, with all its blocks.
  unfoldable pub get_active_revision : Link → List RevisionMetadata → Act (St api) Revision
  get_active_revision link (one ∷ []) =
      remote (api.get_revision_all_blocks drive.main_share.share_id link.link_id one.id)
  get_active_revision link _ = fail cant_find_active_revision

  -- `GetActiveRevisionWithAttrs`; attributes that are missing end the process here, by the
  -- dereference of the nil that `GetDecXAttrString` gives.
  unfoldable pub get_active_revision_with_attrs :
      Option Link → Act (St api) (Revision × Option (FileSystemAttrs api.Time))
  unfolding get_revisions get_active_revision get_link_kr get_signature_verification_keyring
      attrs_of
  get_active_revision_with_attrs none = fail link_must_not_be_nil
  get_active_revision_with_attrs (some link) = do
    metadata ← get_revisions api drive link RevisionState.active
    revision ← get_active_revision link metadata
    node_kr ← get_link_kr api drive fuel (some link)
    active_revision ← deref link.file_properties
    verification_kr ←
        lift
          (get_signature_verification_keyring api drive (active_revision.signature_email ∷ []) [])
    decrypted ← lift (api.get_dec_x_attr revision.metadata verification_kr node_kr)
    x ← deref decrypted
    attrs ← attrs_of api (λ val. val) x
    pure (revision, some attrs)
