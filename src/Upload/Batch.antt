-- ===== src/Upload/Batch.antt =====
-- file_upload.go, `uploadPendingBlocks`: the blocks that wait are announced and sent at once.
use proton_api_bridge.Common.{
  ℕ, zero, suc, String, Bool, true, false, Option, none, some, List, [], ◌∷◌, map, length,
  if◌then◌else◌,
}
use proton_api_bridge.Action.{
  Act, Outcome, ⊤, ok, err, fatal, out_of_fuel, Error, pure, bind, lift, gets, ◌>>=◌, ◌>>◌,
}
use proton_api_bridge.Proton.{Bytes, BlockUploadInfo, BlockUploadReq, BlockUploadLink}
use proton_api_bridge.Api.{Api}
use proton_api_bridge.Drive.{Drive}
use proton_api_bridge.Upload.Tokens.{collect_upload_errors, validate_upload_batch_cardinality}

-- `PendingUploadBlocks`
pub record PendingUploadBlock : Type 0 where
  pub block_upload_info : BlockUploadInfo
  pub enc_data : Bytes

-- A goroutine of a batch: the link and the block that it is started with.
abbrev pub Job : Type 0
Job = BlockUploadLink × PendingUploadBlock

-- The goroutines that the loop over the links starts. A link with no block at its place ends the
-- process.
unfoldable pub jobs_of : List BlockUploadLink → List PendingUploadBlock → Outcome (List Job)
unfolding bind
jobs_of [] pending = ok []
jobs_of (link ∷ links) [] = fatal
jobs_of (link ∷ links) (block ∷ pending) =
    bind (jobs_of links pending) (λ jobs. ok ((link, block) ∷ jobs))

module _ {A : Type 0} where
  -- The item at a place, or the last one if the place is past it, and the others.
  unfoldable pub pick : ℕ → A → List A → A × List A
  pick k x [] = (x, [])
  pick zero x (y ∷ ys) = (x, y ∷ ys)
  pick (suc k) x (y ∷ ys) = let (z, zs) = pick k y ys in (z, x ∷ zs)

  -- The items in another order: each place is that of the next one among those left, and the
  -- items left behind the last place keep theirs. Every order of the items is one of these.
  unfoldable pub arrange : List ℕ → List A → List A
  unfolding pick
  arrange [] xs = xs
  arrange (k ∷ order) [] = []
  arrange (k ∷ order) (x ∷ xs) = (pick k x xs).0 ∷ arrange order ((pick k x xs).1)

module _ (api : Api) where
  -- `uploadBlockWrapper`, with the context that the first error cancels
  unfoldable pub upload_at : Bool → Job → Act api.World ⊤
  upload_at cancelled (link, block) =
      api.upload_block cancelled link.bare_url link.token block.enc_data

  -- What follows the end of one upload; an error cancels the context of the others.
  abbrev pub upload_next :
      (Bool → Act api.World (List (Option Error)))
      → Bool
      → Outcome ⊤ × api.World
      → Outcome (List (Option Error)) × api.World
  upload_next others cancelled (ok _, w) =
      (others cancelled >>= λ arrivals. pure (none ∷ arrivals)) w
  upload_next others cancelled (err e, w) = (others true >>= λ arrivals. pure (some e ∷ arrivals)) w
  upload_next others cancelled (fatal, w) = (fatal, w)
  upload_next others cancelled (out_of_fuel, w) = (out_of_fuel, w)

  -- The goroutines of a batch in the order in which they end, each with one result; `none` stands
  -- for a nil error.
  unfoldable pub run_uploads : Bool → List Job → Act api.World (List (Option Error))
  unfolding upload_at
  run_uploads cancelled [] w = (ok [], w)
  run_uploads cancelled (job ∷ jobs) w =
      upload_next (λ c. run_uploads c jobs) cancelled (upload_at cancelled job w)

  -- A nil error or the error itself.
  abbrev pub report : Option Error → Act api.World ⊤
  report none w = (ok tt, w)
  report (some e) w = (err e, w)

  -- The announcement of the blocks that wait.
  abbrev pub request : Drive api → String → String → List PendingUploadBlock → BlockUploadReq
  request drive link_id revision_id pending = record {
    address_id = drive.main_share.address_id;
    share_id = drive.main_share.share_id;
    volume_id = if api.has_volume_id then some drive.main_share.volume_id else none;
    link_id = link_id;
    revision_id = revision_id;
    block_list = map (λ b. b.block_upload_info) pending;
  }

  -- `uploadPendingBlocks` for blocks that wait; the caller empties the list after a success.
  unfoldable pub upload_batch :
      Drive api → String → String → List PendingUploadBlock → Act api.World ⊤
  unfolding jobs_of arrange run_uploads collect_upload_errors validate_upload_batch_cardinality
  upload_batch drive link_id revision_id pending = do
    links ← api.request_block_upload (request drive link_id revision_id pending)
    lift (validate_upload_batch_cardinality (length links) (length pending))
    jobs ← lift (jobs_of links pending)
    order ← gets (api.schedule (length links))
    arrivals ← run_uploads false (arrange order jobs)
    report ((collect_upload_errors arrivals none 0).0)

  -- `uploadPendingBlocks`
  unfoldable pub upload_pending_blocks :
      Drive api → String → String → List PendingUploadBlock → Act api.World ⊤
  unfolding upload_batch
  upload_pending_blocks drive link_id revision_id [] = pure tt
  upload_pending_blocks drive link_id revision_id (b ∷ pending) =
      upload_batch drive link_id revision_id (b ∷ pending)
