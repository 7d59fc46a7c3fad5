-- ===== src/Upload/Arrivals.antt =====
-- file_upload.go, `collectUploadErrors` and `buildVerificationToken`: what the errors of a batch
-- come to, and what a verification token determines.
use proton_api_bridge.Common.{
  ℕ, zero, suc, Option, none, some, List, [], ◌∷◌, get_elem?, bit_xor, is_some, ◌≡◌, refl,
  if◌then◌else◌,
}
use proton_api_bridge.Action.{Error}
use proton_api_bridge.Proton.{Bytes}
use proton_api_bridge.Upload.Tokens.{collect_upload_errors, build_verification_token}

-- The first error among the arrivals.
abbrev pub first_error : List (Option Error) → Option Error
first_error [] = none
first_error (none ∷ more) = first_error more
first_error (some e ∷ more) = some e

collect_after_first :
    (arrivals : List (Option Error)) (e : Error) (cancelled : ℕ)
    → collect_upload_errors arrivals (some e) cancelled ≡ (some e, cancelled)
unfolding collect_upload_errors
collect_after_first [] e cancelled = refl
collect_after_first (none ∷ more) e cancelled = collect_after_first more e cancelled
collect_after_first (some f ∷ more) e cancelled = collect_after_first more e cancelled

-- The error of a batch is the first that arrives, and the other uploads are cancelled exactly
-- once if one arrives and not at all otherwise.
pub collect_upload_errors_lem :
    (arrivals : List (Option Error))
    → collect_upload_errors arrivals none 0
      ≡ (first_error arrivals, if is_some (first_error arrivals) then 1 else 0)
unfolding collect_upload_errors
collect_upload_errors_lem [] = refl
collect_upload_errors_lem (none ∷ more) = collect_upload_errors_lem more
collect_upload_errors_lem (some e ∷ more) = collect_after_first more e 1

-- A byte of the code with the byte of the block at its place, if the block is that long.
abbrev pub mix : Option ℕ → Option ℕ → Option ℕ
mix none e = none
mix (some c) none = some c
mix (some c) (some e) = some (bit_xor c e)

-- The verification token has a byte at exactly the places of the code: the code's byte, mixed by
-- exclusive or with the block's byte at that place if there is one.
pub build_verification_token_lem :
    (code enc_data : Bytes) (i : ℕ)
    → get_elem? (build_verification_token code enc_data) i
      ≡ mix (get_elem? code i) (get_elem? enc_data i)
unfolding build_verification_token
build_verification_token_lem [] enc_data i = refl
build_verification_token_lem (c ∷ code) [] zero = refl
build_verification_token_lem (c ∷ code) [] (suc i) = build_verification_token_lem code [] i
build_verification_token_lem (c ∷ code) (e ∷ enc_data) zero = refl
build_verification_token_lem (c ∷ code) (e ∷ enc_data) (suc i) =
    build_verification_token_lem code enc_data i
