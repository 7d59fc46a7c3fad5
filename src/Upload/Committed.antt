-- ===== src/Upload/Committed.antt =====
-- file_upload.go, `uploadFile` from the draft on: the blocks, and the commit behind them.
use proton_api_bridge.Common.{ℕ, String, some, List, [], ◌∷◌, map, length, ◌≡◌}
use proton_api_bridge.Int.{pos}
use proton_api_bridge.Action.{ok}
use proton_api_bridge.Proton.{Bytes, RevisionXAttrCommon, CommitRevisionReq}
use proton_api_bridge.Api.{Api}
use proton_api_bridge.Drive.{Drive}
use proton_api_bridge.Upload.Draft.{Draft}
use proton_api_bridge.Upload.Chunks.{Chunks}
use proton_api_bridge.Upload.Seals.{Seals}

module _ (api : Api) (drive : Drive api) (fuel : ℕ) where
  -- Manifest and attributes can be signed and encrypted, and the server takes the commit.
  pub record Commits (node_kr : api.KeyRing) (link_id revision_id : String) : Type 0 where
    pub signed :
        (manifest : Bytes) (w : api.World)
        → (m : api.Message) × (text : String) × (w' : api.World) × (api.sign_detached
              drive.default_addr_kr manifest w
            ≡ (ok m, w'))
          × (api.get_armored m ≡ ok text)
    pub encrypted :
        (x : RevisionXAttrCommon) (w : api.World)
        → (text : String) × (w' : api.World) × (api.enc_x_attr drive.default_addr_kr node_kr x w
            ≡ (ok text, w'))
    pub committed :
        (req : CommitRevisionReq) (w : api.World)
        → (w' : api.World) × (api.commit_revision drive.main_share.share_id link_id revision_id req
              w
            ≡ (ok tt, w'))

  -- The calls that commit this manifest and these attributes, from one world to another: the
  -- manifest is signed, the attributes are encrypted, and both are sent with the drive's
  -- address.
  pub record Committed (node_kr : api.KeyRing) (link_id revision_id : String) (manifest : Bytes)
      (x : RevisionXAttrCommon) (w w' : api.World) : Type 0 where
    pub signature : api.Message
    pub text : String
    pub attrs : String
    pub signed_world : api.World
    pub encrypted_world : api.World
    pub signed : api.sign_detached drive.default_addr_kr manifest w ≡ (ok signature, signed_world)
    pub armored : api.get_armored signature ≡ ok text
    pub encrypted :
        api.enc_x_attr drive.default_addr_kr node_kr x signed_world ≡ (ok attrs, encrypted_world)
    pub committed :
        api.commit_revision drive.main_share.share_id link_id revision_id
          (record {
            manifest_signature = text;
            signature_address = drive.signature_address;
            x_attr = attrs;
          })
          encrypted_world
        ≡ (ok tt, w')

  -- The attributes that describe a file with these blocks.
  abbrev pub described : api.Time → Bytes → List Bytes → RevisionXAttrCommon
  described mod_time bytes chunks = record {
    modification_time = api.format_time mod_time;
    size = pos (length bytes);
    block_sizes = some (map pos (map length chunks));
    digests = ("SHA1", api.hex_encode (api.sha1 bytes)) ∷ [];
  }
