-- ===== src/Tests/Uploads.antt =====
-- A server that keeps the blocks it is sent, and uploads to it.
use mathlib.Core.List.{Perm}
use proton_api_bridge.Common.{
  true, zero, suc, String, none, List, [], ◌∷◌, ◌++◌, map, length, length-map, ◌≡◌, refl,
}
use proton_api_bridge.Action.{ok}
use proton_api_bridge.Proton.{Bytes, BlockUploadInfo, BlockUploadLink}
use proton_api_bridge.Api.{Api}
use proton_api_bridge.Cache.{new_cache}
use proton_api_bridge.Drive.{Drive, St}
use proton_api_bridge.Upload.{PendingUploadBlock, upload_pending_blocks}
use proton_api_bridge.Upload.Accepted.{
  Delivery, AreGiven, Accepts, delivery_of, pairs, upload_pending_blocks_run,
}
use proton_api_bridge.Upload.Chunks.{Chunks}
use proton_api_bridge.Upload.Seals.{Seals}
use proton_api_bridge.Upload.Draft.{Draft}
use proton_api_bridge.Upload.Committed.{Committed}
use proton_api_bridge.Tests.Server.{api_on, drive_on}

abbrev kept : String → String → Bytes → List Delivery → List Delivery
kept url token bytes w = w ++ (record { bare_url = url; token = token; enc_data = bytes } ∷ [])

-- What was encrypted has a 0 in front.
abbrev unsealed : Bytes → Bytes
unsealed [] = []
unsealed (zero ∷ bytes) = bytes
unsealed (suc b ∷ bytes) = suc b ∷ bytes

abbrev api : Api
api = api_on (List Delivery) (λ w. w) (λ w. 0) (λ seconds w. w) kept unsealed

abbrev drive : Drive api
drive = drive_on (List Delivery) (λ w. w) (λ w. 0) (λ seconds w. w) kept unsealed

accepts : Accepts api (λ w. w)
accepts = record {
  announced = λ req w. (_, w, refl, length-map _ req.block_list, refl);
  taken = λ url token bytes w. (kept url token bytes w, refl, refl);
}

abbrev block_info : BlockUploadInfo
block_info = record {
  index = 1;
  size = 2;
  enc_signature = "";
  hash = "hash";
  verifier_token = none;
}

abbrev two_blocks : List PendingUploadBlock
two_blocks =
    record { block_upload_info = block_info; enc_data = 7 ∷ [] }
    ∷ record { block_upload_info = block_info; enc_data = 8 ∷ [] }
    ∷ []

upload_pending_blocks_run_example :
    (links : List BlockUploadLink) × (sent : List Delivery) × (w' : List Delivery)
    × (upload_pending_blocks api drive "link" "revision" two_blocks [] ≡ (ok tt, w'))
    × AreGiven api drive "link" "revision" [] two_blocks links
    × (length links ≡ 2)
    × (w' ≡ sent)
    × Perm sent (map delivery_of (pairs links two_blocks))
upload_pending_blocks_run_example =
    upload_pending_blocks_run api (λ w. w) accepts drive "link" "revision" two_blocks []

abbrev draft : Draft api
draft = record { link_id = "link"; revision_id = "revision"; session_key = 1; node_kr = 3 }

abbrev before : St api
before = record { cache = new_cache true; world = [] }
