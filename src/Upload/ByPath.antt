-- ===== src/Upload/ByPath.antt =====
-- file_upload.go, `UploadFileByPath`.
use proton_api_bridge.Common.{ℕ, String, Option}
use proton_api_bridge.Action.{Act, ◌>>=◌}
use proton_api_bridge.Proton.{Link, RevisionXAttrCommon}
use proton_api_bridge.Api.{Api}
use proton_api_bridge.Drive.{Drive, St, remote}
use proton_api_bridge.Upload.Blocks.{FileInput}
use proton_api_bridge.Upload.Commit.{upload_file}

-- `os.Open` with the file's reader, and the time of the last change from `os.Stat`.
pub record FileSystem (api : Api) : Type 0 where
  pub open_file : String → Act api.World FileInput
  pub mod_time : String → Act api.World api.Time

-- `UploadFileByPath`
unfoldable pub upload_file_by_path :
    (api : Api)
    → Drive api
    → FileSystem api
    → ℕ
    → Link
    → String
    → String
    → ℕ
    → Act (St api) (String × Option RevisionXAttrCommon)
unfolding upload_file
upload_file_by_path api drive fs fuel parent_link filename file_path test_param = do
  file ← remote (fs.open_file file_path)
  mod_time ← remote (fs.mod_time file_path)
  upload_file api drive fuel parent_link filename mod_time file test_param
