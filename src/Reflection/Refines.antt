-- ===== src/Reflection/Refines.antt =====
-- compat_reflect.go with its two uses, `getRevisionVerificationCompat` and `moveLinkCompat`: the
-- typed functions that the other modules use are what reflection gives.
use proton_api_bridge.Common.{String, Option, none, some, List, [], ◌∷◌, ◌≡◌, refl, ◌∙◌}
use proton_api_bridge.Action.{Act, Outcome, Error, ⊤, fail, other, internal_error_on_file_upload}
use proton_api_bridge.Proton.{MoveLinkReq}
use proton_api_bridge.Api.{Api}
use proton_api_bridge.Drive.{Drive}
use proton_api_bridge.Upload.{get_revision_verification_compat}
use proton_api_bridge.Folder.{move_link_compat}
use proton_api_bridge.Reflection.Values.{Value, Conversions, Target}
use proton_api_bridge.Reflection.Calls.{Called, not_called, returned, find_and_call_method}
use proton_api_bridge.Reflection.Compat.{
  string_value, verification_result, move_result, verification_by_reflection, move_by_reflection,
}
use proton_api_bridge.Reflection.Fits.{
  Verifies, Verifies-result, Moves, Moves-result, Offers, chosen, find_run, or_try_run,
}

-- The function for these arguments, if there is one.
abbrev pub applied : {F G : Type 0} → (F → G) → Option F → Option G
applied call none = none
applied call (some f) = some (call f)

abbrev either :
    {World A F : Type 0}
    → (F → Act World A)
    → (F → Act World A)
    → Option F
    → Option F
    → Error
    → Act World A
either by_volume by_share f g e = elim f [
  | some m ↦ by_volume m
  | none ↦ elim g [ some m ↦ by_share m | none ↦ fail e ]
]

chosen-applied :
    {World A F : Type 0} (go : Conversions) (Gives : Outcome A → List Value → Type 0)
    (result : Called → Option (Outcome A)) (not_tried : result not_called ≡ none)
    (reads : (o : Outcome A) (values : List Value)
      → Gives o values
      → result (returned values) ≡ some o)
    (by_volume by_share : F → Act World A) (f g : Option F) (e : Error) (w : World)
    → chosen go Gives result not_tried reads (applied by_volume f) (applied by_share g) e w
      ≡ either by_volume by_share f g e w
chosen-applied go Gives result not_tried reads by_volume by_share (some f) g e w = refl
chosen-applied go Gives result not_tried reads by_volume by_share none (some g) e w = refl
chosen-applied go Gives result not_tried reads by_volume by_share none none e w = refl

module _ (api : Api) (go : Conversions) (target : Target api.World) (ctx : Value) where
  -- The context and three arguments.
  abbrev pub arguments : String → String → Value → List (Option Value)
  arguments place link_id last =
      some ctx ∷ some (string_value place) ∷ some (string_value link_id) ∷ some last ∷ []

  -- For a client that has each of the two verification methods exactly if the typed model has
  -- it, and whose methods take the arguments and give the typed result, a struct or a pointer to
  -- one with a nil error or any value with an error, `getRevisionVerificationCompat` by
  -- reflection gives what the typed function gives.
  pub verification_refines :
      (share_id volume_id link_id revision_id : String) (w : api.World)
      → Offers go Verifies
          (target.method_by_name "GetRevisionVerificationByVolume")
          (arguments volume_id link_id (string_value revision_id))
          (applied (λ f. f volume_id link_id revision_id) api.revision_verification_by_volume)
      → Offers go Verifies
          (target.method_by_name "GetRevisionVerification")
          (arguments share_id link_id (string_value revision_id))
          (applied (λ f. f share_id link_id revision_id) api.revision_verification)
      → verification_by_reflection go (some target) ctx share_id volume_id link_id revision_id w
        ≡ get_revision_verification_compat api share_id volume_id link_id revision_id w
  unfolding verification_by_reflection get_revision_verification_compat
  verification_refines share_id volume_id link_id revision_id w by_volume by_share =
      or_try_run go Verifies verification_result refl Verifies-result
        (applied (λ f. f volume_id link_id revision_id) api.revision_verification_by_volume)
        (applied (λ f. f share_id link_id revision_id) api.revision_verification)
        (find_and_call_method go (some target) "GetRevisionVerificationByVolume"
          (arguments volume_id link_id (string_value revision_id)))
        (find_and_call_method go (some target) "GetRevisionVerification"
          (arguments share_id link_id (string_value revision_id)))
        internal_error_on_file_upload w
        (find_run go Verifies verification_result refl Verifies-result target
          "GetRevisionVerificationByVolume" (arguments volume_id link_id (string_value revision_id))
          by_volume)
        (find_run go Verifies verification_result refl Verifies-result target
          "GetRevisionVerification" (arguments share_id link_id (string_value revision_id))
          by_share)
      ∙ chosen-applied go Verifies verification_result refl Verifies-result
          (λ (f : String → String → String → Act api.World (String × String)).
            f volume_id link_id revision_id)
          (λ f. f share_id link_id revision_id) api.revision_verification_by_volume
          api.revision_verification internal_error_on_file_upload w

  -- For a client that has each of the two methods that move a link exactly if the typed model
  -- has it, and whose methods take the arguments and give the typed result as a nil error or an
  -- error, `moveLinkCompat` by reflection gives what the typed function gives.
  pub move_refines :
      (drive : Drive api) (req_value : MoveLinkReq → Value) (share_id volume_id link_id : String)
      (req : MoveLinkReq) (w : api.World)
      → Offers go Moves
          (target.method_by_name "MoveLinkByVolume")
          (arguments volume_id link_id (req_value req))
          (applied (λ f. f volume_id link_id req) api.move_link_by_volume)
      → Offers go Moves
          (target.method_by_name "MoveLink")
          (arguments share_id link_id (req_value req))
          (applied (λ f. f share_id link_id req) api.move_link)
      → move_by_reflection go (some target) ctx share_id volume_id link_id (req_value req) w
        ≡ move_link_compat api drive share_id volume_id link_id req w
  unfolding move_by_reflection move_link_compat
  move_refines drive req_value share_id volume_id link_id req w by_volume by_share =
      or_try_run go Moves move_result refl Moves-result
        (applied (λ f. f volume_id link_id req) api.move_link_by_volume)
        (applied (λ f. f share_id link_id req) api.move_link)
        (find_and_call_method go (some target) "MoveLinkByVolume"
          (arguments volume_id link_id (req_value req)))
        (find_and_call_method go (some target) "MoveLink"
          (arguments share_id link_id (req_value req)))
        (other 1) w
        (find_run go Moves move_result refl Moves-result target "MoveLinkByVolume"
          (arguments volume_id link_id (req_value req)) by_volume)
        (find_run go Moves move_result refl Moves-result target "MoveLink"
          (arguments share_id link_id (req_value req)) by_share)
      ∙ chosen-applied go Moves move_result refl Moves-result
          (λ (f : String → String → MoveLinkReq → Act api.World ⊤). f volume_id link_id req)
          (λ f. f share_id link_id req) api.move_link_by_volume api.move_link (other 1) w
