-- ===== src/Upload/Tokens.antt =====
-- file_upload.go: `buildVerificationToken`, `collectUploadErrors`, `validateUploadBatchCardinality`,
-- `getRevisionVerificationCompat` and `recoverBrokenConflictState`.
use proton_api_bridge.Common.{
  ℕ, ◌+◌, String, Bool, true, false, Option, none, some, List, [], ◌∷◌, ◌&&◌, bit_xor, eqb,
  if◌then◌else◌,
}
use proton_api_bridge.Action.{
  Act, Outcome, ⊤, ok, err, Error, api_error, other, ◌>>◌, internal_error_on_file_upload, pure,
  fail,
}
use proton_api_bridge.Proton.{Bytes, LinkState, same_state}
use proton_api_bridge.Api.{Api}

-- `buildVerificationToken`
unfoldable pub build_verification_token : Bytes → Bytes → Bytes
build_verification_token [] enc_data = []
build_verification_token (c ∷ code) [] = c ∷ build_verification_token code []
build_verification_token (c ∷ code) (e ∷ enc_data) =
    bit_xor c e ∷ build_verification_token code enc_data

-- `collectUploadErrors`, over the errors in the order of their arrival: the first one, and how
-- often the uploads were cancelled.
unfoldable pub collect_upload_errors : List (Option Error) → Option Error → ℕ → Option Error × ℕ
collect_upload_errors [] first_err cancelled = (first_err, cancelled)
collect_upload_errors (none ∷ more) first_err cancelled =
    collect_upload_errors more first_err cancelled
collect_upload_errors (some e ∷ more) none cancelled =
    collect_upload_errors more (some e) (cancelled + 1)
collect_upload_errors (some e ∷ more) (some first) cancelled =
    collect_upload_errors more (some first) cancelled

-- The error of a wrong number of links, one of those that callers only pass on.
abbrev pub wrong_cardinality : Error
wrong_cardinality = other 0

-- `validateUploadBatchCardinality`
unfoldable pub validate_upload_batch_cardinality : ℕ → ℕ → Outcome ⊤
validate_upload_batch_cardinality resp_count pending_count =
    if eqb resp_count pending_count then ok tt else err wrong_cardinality

-- `fileOrFolderNotFoundCode`
abbrev pub file_or_folder_not_found_code : ℕ
file_or_folder_not_found_code = 2501

-- `errors.As(err, &apiErr)` with the comparison of the code
abbrev pub is_not_found : Error → Bool
is_not_found (api_error code) = eqb code file_or_folder_not_found_code
is_not_found _ = false

-- `recoverBrokenConflictState`: whether to recreate the draft.
unfoldable pub recover_broken_conflict_state :
    {S : Type 0} → Error → LinkState → Act S ⊤ → Act S Bool
recover_broken_conflict_state e link_state delete_stale_link =
    if is_not_found e && same_state link_state LinkState.draft
    then (delete_stale_link >> pure true)
    else fail e

module _ (api : Api) where
  -- `getRevisionVerificationCompat` for a client whose methods fit: the one by volume if there is
  -- one, else the one by share.
  unfoldable pub get_revision_verification_compat :
      String → String → String → String → Act api.World (String × String)
  get_revision_verification_compat share_id volume_id link_id revision_id =
      elim api.revision_verification_by_volume [
        | some by_volume ↦ by_volume volume_id link_id revision_id
        | none ↦ elim api.revision_verification [
          | some by_share ↦ by_share share_id link_id revision_id
          | none ↦ fail internal_error_on_file_upload
        ]
      ]
