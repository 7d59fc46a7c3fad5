-- ===== src/Reflection/Settings.antt =====
-- file_upload.go, `setStringFieldIfPresent`: what can be read after a field was set.
use proton_api_bridge.Common.{
  String, Bool, true, false, Option, some, ◌==◌, ◌&&◌, if◌then◌else◌, ◌≡◌, refl, sym, ◌∙◌, inl, inr,
  Bool-cases, test_of_eq, test_refl, String-cases,
}
use proton_api_bridge.Reflection.Values.{
  GoType, Value, nil_value, pointer, struct, text, error_value, plain, Fields, no_field, field,
  hidden, field_by_name,
}
use proton_api_bridge.Reflection.Setters.{
  set_field, is_text, has_text, new_text, changed, set_string_field_if_present,
}

-- A text with these letters, of the type of the value.
abbrev pub with_text : String → Option Value → Option Value
with_text value (some (text t s)) = some (text t value)
with_text value o = o

set_text :
    (value : String) (v : Value)
    → some (changed (new_text value v) v) ≡ (if is_text v then with_text value (some v) else some v)
set_text value (text t s) = refl
set_text value (nil_value t) = refl
set_text value (pointer t v) = refl
set_text value (struct t fs) = refl
set_text value (error_value t e) = refl
set_text value (plain t k) = refl

-- What the field `other` is, after these fields were set.
abbrev pub after : String → String → Fields → String → Option Value
after name value fs other =
    if name == other && has_text name fs
    then with_text value (field_by_name other fs)
    else field_by_name other fs

no_test : (b : Bool) → (b && false) ≡ false
no_test true = refl
no_test false = refl

not_asked : (n name other : String) → (n == name) ≡ false → n ≡ other → (name == other) ≡ false
not_asked n name other differs same = elim (String-cases name other) [
  | inl is ↦ absurd (cc (differs, test_of_eq n name (same ∙ sym is)))
  | inr not ↦ not
]

set_field_run :
    (name value other : String) (fs : Fields)
    → field_by_name other (set_field (new_text value) name fs) ≡ after name value fs other
unfolding set_field field_by_name has_text
set_field_run name value other no_field = rw (no_test (name == other)) refl
set_field_run name value other (field n v more) = elim (String-cases n name) [
  | inl here ↦ elim (Bool-cases (name == other)) [
    | inl asked ↦ rw (here, test_refl name, asked) (set_text value v)
    | inr left ↦ rw (here, test_refl name, left) refl
  ]
  | inr later ↦ elim (String-cases n other) [
    | inl same ↦ rw (later, not_asked n name other later same) (rw (test_of_eq n other same) refl)
    | inr beyond ↦ rw (later, beyond) (set_field_run name value other more)
  ]
]
set_field_run name value other (hidden n v more) = elim (String-cases n name) [
  | inl here ↦ rw (here, test_refl name, no_test (name == other)) refl
  | inr later ↦ elim (String-cases n other) [
    | inl same ↦ rw (later, not_asked n name other later same) (rw (test_of_eq n other same) refl)
    | inr beyond ↦ rw (later, beyond) (set_field_run name value other more)
  ]
]

-- For a pointer to a struct, setting a field by its name to a text gives a pointer to a struct
-- of the same type in which that field has the text, with its own type, if it was there, was a
-- text and could be set, and in which every other field, or that one otherwise, is as before.
pub set_string_field_if_present_lem :
    (t u : GoType) (fs : Fields) (name value other : String)
    → (fs' : Fields) × (set_string_field_if_present (pointer t (struct u fs)) name value
        ≡ pointer t (struct u fs'))
      × (field_by_name other fs' ≡ after name value fs other)
unfolding set_string_field_if_present
set_string_field_if_present_lem t u fs name value other =
    (set_field (new_text value) name fs, refl, set_field_run name value other fs)
