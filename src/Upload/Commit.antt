-- ===== src/Upload/Commit.antt =====
-- file_upload.go: `commitNewRevision`, `uploadFile` and `UploadFileByReader`.
use proton_api_bridge.Common.{ℕ, String, Option, none, some, [], ◌∷◌, map, eqb, ◌==◌, if◌then◌else◌}
use proton_api_bridge.Int.{pos}
use proton_api_bridge.Action.{Act, ⊤, pure, lift, ◌>>=◌, ◌>>◌}
use proton_api_bridge.Proton.{Bytes, Link, RevisionXAttrCommon}
use proton_api_bridge.Api.{Api}
use proton_api_bridge.Drive.{Drive, St, remote}
use proton_api_bridge.Links.{get_link}
use proton_api_bridge.Upload.Blocks.{FileInput, BlockData, upload_and_collect_block_data}
use proton_api_bridge.Upload.Draft.{Draft, create_file_upload_draft}

module _ (api : Api) (drive : Drive api) (fuel : ℕ) where
  -- `commitNewRevision`
  unfoldable pub commit_new_revision :
      api.KeyRing → RevisionXAttrCommon → Bytes → String → String → Act (St api) ⊤
  commit_new_revision node_kr x_attr_common manifest_signature_data link_id revision_id = do
    signature ← remote (api.sign_detached drive.default_addr_kr manifest_signature_data)
    signature_string ← lift (api.get_armored signature)
    x_attr ← remote (api.enc_x_attr drive.default_addr_kr node_kr x_attr_common)
    remote (
        api.commit_revision drive.main_share.share_id link_id revision_id (record {
          manifest_signature = signature_string;
          signature_address = drive.signature_address;
          x_attr = x_attr;
        }))

  -- The attributes that are committed with the blocks.
  abbrev pub x_attr_of : api.Time → BlockData → RevisionXAttrCommon
  x_attr_of mod_time blocks = record {
    modification_time = api.format_time mod_time;
    size = pos blocks.total_file_size;
    block_sizes = some (map pos blocks.block_sizes);
    digests = ("SHA1", blocks.sha1) ∷ [];
  }

  -- "step 2" and "step 3" of `uploadFile`
  unfoldable pub upload_to_draft :
      Draft api → api.Time → FileInput → ℕ → Act (St api) (String × Option RevisionXAttrCommon)
  unfolding upload_and_collect_block_data commit_new_revision
  upload_to_draft draft mod_time file test_param = do
    blocks ← remote (
        upload_and_collect_block_data api drive (some draft.session_key) (some draft.node_kr) file
          draft.link_id draft.revision_id)
    if eqb test_param 2
        then pure ("", none)
        else (commit_new_revision draft.node_kr (x_attr_of mod_time blocks)
              blocks.manifest_signature_data draft.link_id draft.revision_id
            >> pure (draft.link_id, some (x_attr_of mod_time blocks)))

  -- `uploadFile`: the link and the attributes.
  unfoldable pub upload_file :
      Link → String → api.Time → FileInput → ℕ → Act (St api) (String × Option RevisionXAttrCommon)
  unfolding create_file_upload_draft upload_to_draft
  upload_file parent_link filename mod_time file test_param = do
    let detected = api.mime_type_of filename
    draft ←
        create_file_upload_draft api drive fuel parent_link filename
          (if detected == "" then "text/plain" else detected)
    if eqb test_param 1 then pure ("", none) else upload_to_draft draft mod_time file test_param

  -- `UploadFileByReader`
  unfoldable pub upload_file_by_reader :
      String
      → String
      → api.Time
      → FileInput
      → ℕ
      → Act (St api) (String × Option RevisionXAttrCommon)
  unfolding get_link upload_file
  upload_file_by_reader parent_link_id filename mod_time file test_param = do
    parent_link ← get_link api drive parent_link_id
    upload_file parent_link filename mod_time file test_param
