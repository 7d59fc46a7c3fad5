-- ===== src/Upload/Collection.antt =====
-- file_upload.go, `uploadAndCollectBlockData`: what the commit is told about the blocks.
use mathlib.Core.List.{Perm}
use mathlib.Core.List.Perm
use proton_api_bridge.Common.{ℕ, ◌+◌, String, List, ◌++◌, length, drop, map, ◌≡◌}
use proton_api_bridge.Action.{Act, ok}
use proton_api_bridge.Proton.{Bytes}
use proton_api_bridge.Api.{Api}
use proton_api_bridge.Drive.{Drive}
use proton_api_bridge.Upload.Batch.{PendingUploadBlock}
use proton_api_bridge.Upload.Accepted.{Delivery}
use proton_api_bridge.Upload.Blocks.{
  upload_block_size, FullRead, Collected, collect_read, collect_blocks, BlockData,
}
use proton_api_bridge.Upload.Chunks.{Chunks, whole_file}
use proton_api_bridge.Upload.Gathered.{manifest_of, gathered}
use proton_api_bridge.Upload.Seals.{Seals, AreBlocks, held, bytes_sent}

module _ (api : Api) (drive : Drive api) (session_key : api.SessionKey) (node_kr : api.KeyRing)
    (link_id revision_id : String) where
  module _ (got : api.World → List Delivery)
      (seals : Seals api drive session_key node_kr link_id revision_id got) (code : Bytes) where
    -- The upload of what waits, whole or not at all.
    abbrev Flushes : Collected → api.World → Act api.World Collected → Type 0
    Flushes c w m =
        (p : List PendingUploadBlock) × (sent : List Delivery) × (w' : api.World) × (m w
          ≡ (ok (record c { pending = p }), w'))
        × (got w' ≡ got w ++ sent)
        × Perm (bytes_sent sent ++ held p) (held c.pending)

    -- One round, behind the upload, with what was read.
    abbrev collect_from : ℕ → ℕ → Bytes → Collected → FullRead → Act api.World Collected
    collect_from fuel i bytes c r =
        collect_read api drive session_key node_kr link_id revision_id code
          (collect_blocks api drive session_key node_kr link_id revision_id code fuel (i + 1)
            (whole_file (drop upload_block_size bytes)))
          i c r

    -- The loop takes the whole file, block by block; a block is sent, or waits.
    abbrev Collects : ℕ → ℕ → Bytes → Collected → api.World → Type 0
    Collects fuel i bytes c w =
        (chunks : List Bytes) × (blocks : List PendingUploadBlock) × (p : List PendingUploadBlock)
        × (sent : List Delivery) × (w' : api.World) × Chunks bytes chunks
        × AreBlocks api drive session_key node_kr link_id revision_id code i chunks blocks
        × (collect_blocks api drive session_key node_kr link_id revision_id code fuel i
              (whole_file bytes) c w
            ≡ (ok (gathered api c chunks blocks p), w'))
        × (got w' ≡ got w ++ sent)
        × Perm (bytes_sent sent ++ held p) (held c.pending ++ held blocks)

  -- What the commit is told about these blocks and the file.
  abbrev pub data_of : List Bytes → List PendingUploadBlock → ℕ → Bytes → BlockData
  data_of chunks blocks size bytes = record {
    manifest_signature_data = manifest_of api blocks;
    total_file_size = size;
    block_sizes = map length chunks;
    sha1 = api.hex_encode (api.sha1 bytes);
  }
