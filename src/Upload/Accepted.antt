-- ===== src/Upload/Accepted.antt =====
-- file_upload.go, `uploadPendingBlocks`: a batch that the server accepts.
use mathlib.Core.List.{Perm}
use mathlib.Core.List.Perm
use proton_api_bridge.Common.{
  some, if◌then◌else◌, ℕ, zero, suc, String, false, Option, none, List, [], ◌∷◌, ◌++◌, map,
  append_nil, append_assoc, sym, length, length-map, eqb, if_then, ◌≡◌, refl, ap, ◌∙◌, arith,
}
use proton_api_bridge.Action.{Outcome, ok, bind, ⊤, Error, lift, >>=_step}
use proton_api_bridge.Proton.{Bytes, BlockUploadReq, BlockUploadLink}
use proton_api_bridge.Api.{Api}
use proton_api_bridge.Drive.{Drive}
use proton_api_bridge.Upload.Tokens.{collect_upload_errors, validate_upload_batch_cardinality}
use proton_api_bridge.Upload.Arrivals.{first_error, collect_upload_errors_lem}
use proton_api_bridge.Upload.Batch.{
  PendingUploadBlock, Job, jobs_of, pick, arrange, upload_at, run_uploads, upload_next, report,
  upload_batch, upload_pending_blocks, request,
}

-- What the server takes: a link that it gave, by its address and token, and the bytes sent to it.
pub record Delivery : Type 0 where
  pub bare_url : String
  pub token : String
  pub enc_data : Bytes

abbrev pub delivery_of : Job → Delivery
delivery_of (link, block) = record {
  bare_url = link.bare_url;
  token = link.token;
  enc_data = block.enc_data;
}

-- The links and the blocks at the same places.
abbrev pub pairs : List BlockUploadLink → List PendingUploadBlock → List Job
pairs [] pending = []
pairs (link ∷ links) [] = []
pairs (link ∷ links) (block ∷ pending) = (link, block) ∷ pairs links pending

module _ {A : Type 0} where
  pick-Perm : (k : ℕ) (x : A) (xs : List A) → Perm ((pick k x xs).0 ∷ (pick k x xs).1) (x ∷ xs)
  unfolding pick
  pick-Perm k x [] = Perm.rfl
  pick-Perm zero x (y ∷ ys) = Perm.rfl
  pick-Perm (suc k) x (y ∷ ys) =
      Perm.trans (Perm.swap x ((pick k y ys).0) ((pick k y ys).1)) (Perm.cons x (pick-Perm k y ys))

  -- Whatever the places are, the items are the same.
  arrange-Perm : (order : List ℕ) (xs : List A) → Perm (arrange order xs) xs
  unfolding arrange
  arrange-Perm [] xs = Perm.rfl
  arrange-Perm (k ∷ order) [] = Perm.rfl
  arrange-Perm (k ∷ order) (x ∷ xs) =
      Perm.trans (Perm.cons _ (arrange-Perm order ((pick k x xs).1))) (pick-Perm k x xs)

jobs_of-pairs :
    (links : List BlockUploadLink) (pending : List PendingUploadBlock)
    → length links ≡ length pending
    → jobs_of links pending ≡ ok (pairs links pending)
unfolding jobs_of bind
jobs_of-pairs [] pending same = refl
jobs_of-pairs (link ∷ links) [] same = absurd (omega (arith, same))
jobs_of-pairs (link ∷ links) (block ∷ pending) same =
    ap (λ r. bind r (λ jobs. ok ((link, block) ∷ jobs)))
      (jobs_of-pairs links pending (omega (arith, same)))

pub pairs-enc_data :
    (links : List BlockUploadLink) (pending : List PendingUploadBlock)
    → length links ≡ length pending
    → map (λ d. d.enc_data) (map delivery_of (pairs links pending)) ≡ map (λ b. b.enc_data) pending
pairs-enc_data [] [] same = refl
pairs-enc_data [] (block ∷ pending) same = absurd (omega (arith, same))
pairs-enc_data (link ∷ links) [] same = absurd (omega (arith, same))
pairs-enc_data (link ∷ links) (block ∷ pending) same =
    ap (λ more. block.enc_data ∷ more) (pairs-enc_data links pending (omega (arith, same)))

module _ (api : Api) where
  -- A server that gives a link for every block that is announced, and keeps the bytes sent to a
  -- link behind what it got before.
  pub record Accepts (got : api.World → List Delivery) : Type 0 where
    pub announced :
        (req : BlockUploadReq) (w : api.World)
        → (links : List BlockUploadLink) × (w' : api.World) × (api.request_block_upload req w
            ≡ (ok links, w'))
          × (length links ≡ length req.block_list)
          × (got w' ≡ got w)
    pub taken :
        (url token : String) (bytes : Bytes) (w : api.World)
        → (w' : api.World) × (api.upload_block false url token bytes w ≡ (ok tt, w'))
          × (got w' ≡ got w ++ (record { bare_url = url; token = token; enc_data = bytes } ∷ []))

  -- The links that the server gives when the blocks that wait are announced to it in their order;
  -- none if no block waits.
  abbrev pub AreGiven :
      Drive api
      → String
      → String
      → api.World
      → List PendingUploadBlock
      → List BlockUploadLink
      → Type 0
  AreGiven drive link_id revision_id w [] links = links ≡ []
  AreGiven drive link_id revision_id w (b ∷ pending) links =
      (w' : api.World) × (api.request_block_upload
          (record {
            address_id = drive.main_share.address_id;
            share_id = drive.main_share.share_id;
            volume_id = if api.has_volume_id then some drive.main_share.volume_id else none;
            link_id = link_id;
            revision_id = revision_id;
            block_list = map (λ p. p.block_upload_info) (b ∷ pending);
          })
          w
        ≡ (ok links, w'))

  module _ (got : api.World → List Delivery) (accepts : Accepts got) where
    run_uploads_run :
        (jobs : List Job) (w : api.World)
        → (arrivals : List (Option Error)) × (w' : api.World) × (run_uploads api false jobs w
            ≡ (ok arrivals, w'))
          × (first_error arrivals ≡ none)
          × (got w' ≡ got w ++ map delivery_of jobs)
    unfolding run_uploads upload_at
    run_uploads_run [] w = ([], w, refl, refl, sym (append_nil (got w)))
    run_uploads_run ((link, block) ∷ jobs) w =
        let (w1, ran, here) = accepts.taken link.bare_url link.token block.enc_data w in
        let (arrivals, w2, ran2, fine, there) = run_uploads_run jobs w1 in
        (
          none ∷ arrivals,
          w2,
          ap (upload_next api (λ c. run_uploads api c jobs) false) ran
              ∙ >>=_step (run_uploads api false jobs) _ w1 ran2,
          fine,
          there
              ∙ ap (λ ds. ds ++ map delivery_of jobs) here
              ∙ append_assoc (got w) (delivery_of (link, block) ∷ []) (map delivery_of jobs),
        )

    -- The number of links is right, so the uploads start.
    validate_run :
        (n m : ℕ) (w : api.World)
        → n ≡ m
        → lift (validate_upload_batch_cardinality n m) w ≡ (ok tt, w)
    unfolding validate_upload_batch_cardinality
    validate_run n m w same =
        ap (λ (r : Outcome ⊤). (r, w)) (if_then {b = eqb n m} _ _ (ground (arith, same)))

    report_run :
        (arrivals : List (Option Error)) (w : api.World)
        → first_error arrivals ≡ none
        → report api ((collect_upload_errors arrivals none 0).0) w ≡ (ok tt, w)
    report_run arrivals w fine =
        ap (λ (r : Option Error × ℕ). report api r.0 w) (collect_upload_errors_lem arrivals)
        ∙ ap (λ e. report api e w) fine

    -- When the server gives a link for every block that is announced and keeps the bytes sent to
    -- a link behind what it got before, and whatever the order in which the uploads end: the
    -- upload of any blocks that wait succeeds, and the server has got exactly the bytes of each
    -- block under the address and the token of the link that it gave at the block's place when
    -- all of them were announced in their order, each once, in some order, and nothing else.
    pub upload_pending_blocks_run :
        (drive : Drive api) (link_id revision_id : String) (pending : List PendingUploadBlock)
        (w : api.World)
        → (links : List BlockUploadLink) × (sent : List Delivery) × (w' : api.World)
          × (upload_pending_blocks api drive link_id revision_id pending w ≡ (ok tt, w'))
          × AreGiven drive link_id revision_id w pending links
          × (length links ≡ length pending)
          × (got w' ≡ got w ++ sent)
          × Perm sent (map delivery_of (pairs links pending))
    unfolding upload_pending_blocks upload_batch
    upload_pending_blocks_run drive link_id revision_id [] w =
        ([], [], w, refl, refl, refl, sym (append_nil (got w)), Perm.nil)
    upload_pending_blocks_run drive link_id revision_id (b ∷ pending) w =
        let (links, w1, ran1, same, kept) =
          accepts.announced (request api drive link_id revision_id (b ∷ pending)) w in
        let lengths : length links ≡ length (b ∷ pending) =
          same ∙ length-map (λ p. p.block_upload_info) (b ∷ pending) in
        let order = api.schedule (length links) w1 in
        let jobs = arrange order (pairs links (b ∷ pending)) in
        let (arrivals, w2, ran2, fine, grown) = run_uploads_run jobs w1 in
        (
          links,
          map delivery_of jobs,
          w2,
          >>=_step (api.request_block_upload (request api drive link_id revision_id (b ∷ pending)))
                _ w ran1
              ∙ >>=_step
                  (lift (validate_upload_batch_cardinality (length links) (length (b ∷ pending)))) _
                  w1 (validate_run _ _ w1 lengths)
              ∙ >>=_step (lift (jobs_of links (b ∷ pending))) _ w1 (
                  ap (λ (r : Outcome (List Job)). (r, w1))
                    (jobs_of-pairs links (b ∷ pending) lengths))
              ∙ >>=_step (run_uploads api false jobs) _ w1 ran2
              ∙ report_run arrivals w2 fine,
          (w1, ran1),
          lengths,
          grown ∙ ap (λ ds. ds ++ map delivery_of jobs) kept,
          Perm.map delivery_of (arrange-Perm order (pairs links (b ∷ pending))),
        )
