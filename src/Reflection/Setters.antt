-- ===== src/Reflection/Setters.antt =====
-- file_upload.go, `setStringFieldIfPresent` and `setVerifierTokenIfPresent`; folder.go,
-- `setNilPointerFieldIfPresent`.
use proton_api_bridge.Common.{String, Bool, true, false, Option, none, some, ◌==◌, if◌then◌else◌}
use proton_api_bridge.Reflection.Values.{
  Kind, pointer_kind, Value, nil_value, pointer, struct, text, Fields, no_field, field, hidden,
  type_of, Conversions,
}

-- What is behind a pointer to a struct; any other target is left alone.
abbrev pub on_struct : (Fields → Fields) → Value → Value
on_struct set (pointer t (struct u fs)) = pointer t (struct u (set fs))
on_struct set v = v

abbrev pub changed : Option Value → Value → Value
changed none v = v
changed (some new) v = new

-- The field of this name, if it can be set and `change` has a new value for it.
unfoldable pub set_field : (Value → Option Value) → String → Fields → Fields
set_field change name no_field = no_field
set_field change name (field n v more) =
    let rest = set_field change name more in
    if n == name then field n (changed (change v) v) more else field n v rest
set_field change name (hidden n v more) =
    let rest = set_field change name more in if n == name then hidden n v more else hidden n v rest

abbrev pub is_text : Value → Bool
is_text (text t s) = true
is_text _ = false

-- Whether there is a field of this name that can be set and is a text.
unfoldable pub has_text : String → Fields → Bool
has_text name no_field = false
has_text name (field n v more) = if n == name then is_text v else has_text name more
has_text name (hidden n v more) = if n == name then false else has_text name more

abbrev pub new_text : String → Value → Option Value
new_text value (text t s) = some (text t value)
new_text value _ = none

-- `setStringFieldIfPresent`
unfoldable pub set_string_field_if_present : Value → String → String → Value
unfolding set_field
set_string_field_if_present target name value = on_struct (set_field (new_text value) name) target

abbrev pub is_pointer_kind : Kind → Bool
is_pointer_kind pointer_kind = true
is_pointer_kind _ = false

-- `setNilPointerFieldIfPresent`
unfoldable pub set_nil_pointer_field_if_present : Value → String → Value
unfolding set_field
set_nil_pointer_field_if_present target name =
    on_struct
      (set_field
        (λ v. if is_pointer_kind ((type_of v).kind) then some (nil_value (type_of v)) else none)
        name)
      target

-- A new verifier with the token, if its struct has the field for it.
unfoldable pub new_verifier : Conversions → String → Value → Option Value
unfolding set_field has_text
new_verifier go token v =
    if is_pointer_kind ((type_of v).kind)
    then elim (go.new_of (type_of v)) [
      | none ↦ none
      | some made ↦
          if has_text "Token" (made.1)
          then some
              (pointer (type_of v) (struct (made.0) (set_field (new_text token) "Token" (made.1))))
          else none
    ]
    else none

-- `setVerifierTokenIfPresent`
unfoldable pub set_verifier_token_if_present : Conversions → Value → String → Value
unfolding set_field new_verifier
set_verifier_token_if_present go info token =
    on_struct (set_field (new_verifier go token) "Verifier") info
