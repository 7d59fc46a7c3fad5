-- ===== src/Upload/Blocks.antt =====
-- file_upload.go, `uploadAndCollectBlockData`: the file is read, encrypted and sent block by block.
use proton_api_bridge.Common.{
  ℕ, zero, suc, ◌+◌, ◌-◌, ◌%◌, String, Option, none, some, List, [], ◌∷◌, ◌++◌, ◌&&◌, length, take,
  drop, eqb, ltb, if◌then◌else◌,
}
use proton_api_bridge.Action.{
  Act, out_of_fuel, Error, eof, unexpected_eof, pure, fail, lift, ◌>>=◌, ◌>>◌,
  missing_input_upload_and_collect_block_data,
}
use proton_api_bridge.Proton.{Bytes, BlockUploadInfo}
use proton_api_bridge.Api.{Api}
use proton_api_bridge.Drive.{Drive}
use proton_api_bridge.Upload.Tokens.{build_verification_token, get_revision_verification_compat}
use proton_api_bridge.Upload.Batch.{PendingUploadBlock, upload_pending_blocks}

-- `UPLOAD_BLOCK_SIZE` and `UPLOAD_BATCH_BLOCK_SIZE`
abbrev pub upload_block_size : ℕ
upload_block_size = 4194304

abbrev pub upload_batch_block_size : ℕ
upload_batch_block_size = 8

-- An `io.Reader`: the bytes that it gives, and the error other than `io.EOF` that it reports
-- behind them.
pub record FileInput : Type 0 where
  pub bytes : Bytes
  pub failure : Option Error

-- What the loop takes from `io.ReadFull`: a full block; what was read before the end of the file;
-- the end of the file with nothing read; or an error that is not the end of the file.
pub data FullRead : Type 0 where
  full : Bytes → FullRead
  partial : Bytes → FullRead
  nothing : FullRead
  failed : Error → FullRead

-- What was read where the file ends.
abbrev pub last_read : Bytes → FullRead
last_read [] = nothing
last_read (b ∷ bytes) = partial (b ∷ bytes)

-- `io.ReadFull(file, data)` that gives less than `data` holds, with the test of its error. A
-- reader's own `io.ErrUnexpectedEOF` counts as the end of the file.
abbrev pub short_read : Option Error → Bytes → FullRead
short_read (some eof) bytes = last_read bytes
short_read (some unexpected_eof) bytes = last_read bytes
short_read (some e) bytes = failed e
short_read none bytes = last_read bytes

-- `io.ReadFull(file, data)` for a block of that length
unfoldable pub read_full : ℕ → FileInput → FullRead
read_full size file =
    if ltb (length file.bytes) size
    then short_read file.failure file.bytes
    else full (take size file.bytes)

-- What the loop has collected.
pub record Collected : Type 0 where
  pub pending : List PendingUploadBlock
  pub manifest_signature_data : Bytes
  pub total_file_size : ℕ
  pub block_sizes : List ℕ
  pub sha1_digests : Bytes

abbrev pub nothing_collected : Collected
nothing_collected = record {
  pending = [];
  manifest_signature_data = [];
  total_file_size = 0;
  block_sizes = [];
  sha1_digests = [];
}

module _ (api : Api) (drive : Drive api) (session_key : api.SessionKey) (node_kr : api.KeyRing)
    (link_id revision_id : String) (verification_code : Bytes) where
  -- The part of the loop's body behind the read, for block `i`.
  unfoldable pub collect_block : ℕ → Bytes → Collected → Act api.World Collected
  unfolding build_verification_token
  collect_block i content c = do
    enc_data ← api.session_encrypt session_key content
    enc_signature ← api.sign_detached_encrypted drive.default_addr_kr content node_kr
    enc_signature_str ← lift (api.get_armored enc_signature)
    let info : BlockUploadInfo = record {
      index = i;
      size = length enc_data;
      enc_signature = enc_signature_str;
      hash = api.base64_encode (api.sha256 enc_data);
      verifier_token =
          if api.has_verifier
          then some (api.base64_encode (build_verification_token verification_code enc_data))
          else none;
    }
    pure (record {
      pending = c.pending ++ (record { block_upload_info = info; enc_data = enc_data } ∷ []);
      manifest_signature_data = c.manifest_signature_data ++ api.sha256 enc_data;
      total_file_size = c.total_file_size + length content;
      block_sizes = c.block_sizes ++ (length content ∷ []);
      sha1_digests = c.sha1_digests ++ content;
    })

  -- The upload of a full batch, before block `i` is read.
  unfoldable pub flush_batch : ℕ → Collected → Act api.World Collected
  unfolding upload_pending_blocks
  flush_batch i c =
      if ltb 0 (i - 1) && eqb ((i - 1) % upload_batch_block_size) 0
      then (upload_pending_blocks api drive link_id revision_id c.pending
          >> pure (record c { pending = [] }))
      else pure c

  -- The body behind the upload, from what was read; `continue` is the next round.
  unfoldable pub collect_read :
      (Collected → Act api.World Collected) → ℕ → Collected → FullRead → Act api.World Collected
  unfolding collect_block
  collect_read continue i c (full content) = do c' ← collect_block i content c; continue c'
  collect_read continue i c (partial content) = collect_block i content c
  collect_read continue i c nothing = pure c
  collect_read continue i c (failed e) = fail e

  -- The loop from block `i` on; each round but the last takes a block of the file, so its length
  -- bounds the rounds.
  unfoldable pub collect_blocks : ℕ → ℕ → FileInput → Collected → Act api.World Collected
  unfolding flush_batch collect_read read_full
  collect_blocks zero i file c = lift out_of_fuel
  collect_blocks (suc fuel) i file c = do
    c' ← flush_batch i c
    collect_read
        (collect_blocks fuel (i + 1) (record file { bytes = drop upload_block_size file.bytes })) i
        c' (read_full upload_block_size file)

-- The data that the commit needs: manifest, size, block sizes and SHA-1 digest.
pub record BlockData : Type 0 where
  pub manifest_signature_data : Bytes
  pub total_file_size : ℕ
  pub block_sizes : List ℕ
  pub sha1 : String

module _ (api : Api) (drive : Drive api) where
  -- `uploadAndCollectBlockData` with both keys
  unfoldable pub collect_with_keys :
      api.SessionKey → api.KeyRing → FileInput → String → String → Act api.World BlockData
  unfolding get_revision_verification_compat collect_blocks upload_pending_blocks
  collect_with_keys session_key node_kr file link_id revision_id = do
    verification ←
        get_revision_verification_compat api drive.main_share.share_id drive.main_share.volume_id
          link_id revision_id
    verification_code ← lift (api.base64_decode (verification.0))
    c ←
        collect_blocks api drive session_key node_kr link_id revision_id verification_code
          (suc (suc (length file.bytes))) 1 file nothing_collected
    upload_pending_blocks api drive link_id revision_id c.pending
    pure (record {
      manifest_signature_data = c.manifest_signature_data;
      total_file_size = c.total_file_size;
      block_sizes = c.block_sizes;
      sha1 = api.hex_encode (api.sha1 c.sha1_digests);
    })

  -- `uploadAndCollectBlockData`
  unfoldable pub upload_and_collect_block_data :
      Option api.SessionKey
      → Option api.KeyRing
      → FileInput
      → String
      → String
      → Act api.World BlockData
  unfolding collect_with_keys
  upload_and_collect_block_data (some session_key) (some node_kr) file link_id revision_id =
      collect_with_keys session_key node_kr file link_id revision_id
  upload_and_collect_block_data _ _ file link_id revision_id =
      fail missing_input_upload_and_collect_block_data
