-- ===== src/Reflection/Compat.antt =====
-- file_upload.go, `getRevisionVerificationCompat`; folder.go, `moveLinkCompat`.
use proton_api_bridge.Common.{String, Option, none, some, [], ◌∷◌, false}
use proton_api_bridge.Action.{
  Outcome, Error, ⊤, ok, err, bind, other, internal_error_on_file_upload,
}
use proton_api_bridge.Reflection.Values.{
  Value, pointer, struct, text, Fields, field_by_name, Conversions, Target, string_kind,
}
use proton_api_bridge.Reflection.Calls.{
  Called, not_called, failed, returned, find_and_call_method, extract_error_result,
}

-- A text as an argument.
abbrev pub string_value : String → Value
string_value = text (record { name = "string"; kind = string_kind; implements_error = false })

-- The text of a field that is one.
abbrev pub text_of : Option Value → Option String
text_of (some (text t s)) = some s
text_of _ = none

-- The two fields of the result.
unfoldable pub verification_fields : Fields → Outcome (String × String)
unfolding field_by_name
verification_fields fs =
    both (text_of (field_by_name "VerificationCode" fs))
      (text_of (field_by_name "ContentKeyPacket" fs))
  where
    both : Option String → Option String → Outcome (String × String)
    both (some code) (some packet) = ok (code, packet)
    both _ _ = err internal_error_on_file_upload

-- The result as a struct, or behind a pointer.
unfoldable pub verification_of : Value → Outcome (String × String)
unfolding verification_fields
verification_of (struct t fs) = verification_fields fs
verification_of (pointer t (struct u fs)) = verification_fields fs
verification_of _ = err internal_error_on_file_upload

-- What a method gave that was tried: nothing if there is none.
unfoldable pub verification_result : Called → Option (Outcome (String × String))
unfolding extract_error_result verification_of bind
verification_result not_called = none
verification_result (failed e) = some (err e)
verification_result (returned (result ∷ error ∷ [])) = some (
    bind (extract_error_result error)
      (λ call_err. elim call_err [ some e ↦ err e | none ↦ verification_of result ]))
verification_result (returned _) = some (err internal_error_on_file_upload)

unfoldable pub move_result : Called → Option (Outcome ⊤)
unfolding extract_error_result bind
move_result not_called = none
move_result (failed e) = some (err e)
move_result (returned (error ∷ [])) = some (
    bind (extract_error_result error) (λ call_err. elim call_err [ some e ↦ err e | none ↦ ok tt ]))
move_result (returned _) = some (err (other 14))

module _ {World A : Type 0} where
  -- After a method was tried: its outcome, or what comes next if there is none.
  abbrev pub tried : Option (Outcome A) → World → (World → Outcome A × World) → Outcome A × World
  tried (some outcome) w next = (outcome, w)
  tried none w next = next w

  -- The second method is tried only if the first is missing.
  unfoldable pub or_try :
      (Called → Option (Outcome A))
      → (World → Called × World)
      → (World → Called × World)
      → Error
      → World
      → Outcome A × World
  or_try result first second e w =
      let (called, w1) = first w in
      tried (result called) w1
        (λ v. let (called', w2) = second v in tried (result called') w2 (λ u. (err e, u)))

module _ {World : Type 0} (go : Conversions) (client : Option (Target World)) (ctx : Value) where
  -- `getRevisionVerificationCompat`.
  unfoldable pub verification_by_reflection :
      String → String → String → String → World → Outcome (String × String) × World
  unfolding find_and_call_method verification_result or_try
  verification_by_reflection share_id volume_id link_id revision_id =
      or_try verification_result
        (find_and_call_method go client "GetRevisionVerificationByVolume" (
          some ctx
          ∷ some (string_value volume_id)
          ∷ some (string_value link_id)
          ∷ some (string_value revision_id)
          ∷ []))
        (find_and_call_method go client "GetRevisionVerification" (
          some ctx
          ∷ some (string_value share_id)
          ∷ some (string_value link_id)
          ∷ some (string_value revision_id)
          ∷ []))
        internal_error_on_file_upload

  -- `moveLinkCompat`; the request is a value here.
  unfoldable pub move_by_reflection : String → String → String → Value → World → Outcome ⊤ × World
  unfolding find_and_call_method move_result or_try
  move_by_reflection share_id volume_id link_id req =
      or_try move_result
        (find_and_call_method go client "MoveLinkByVolume"
          (some ctx ∷ some (string_value volume_id) ∷ some (string_value link_id) ∷ some req ∷ []))
        (find_and_call_method go client "MoveLink"
          (some ctx ∷ some (string_value share_id) ∷ some (string_value link_id) ∷ some req ∷ []))
        (other 1)
