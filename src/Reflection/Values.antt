-- ===== src/Reflection/Values.antt =====
-- compat_reflect.go: Go's values as the package reflect shows them.
use proton_api_bridge.Common.{
  ℕ, String, Bool, true, false, Option, none, some, List, ◌==◌, if◌then◌else◌,
}
use proton_api_bridge.Action.{Error}

-- `reflect.Kind`; the kinds that the code does not ask for are one.
pub data Kind : Type 0 where
  interface_kind pointer_kind map_kind slice_kind func_kind chan_kind struct_kind string_kind
        plain_kind :
      Kind

-- `reflect.Type`: its kind, and whether it implements `error`.
pub record GoType : Type 0 where
  pub name : String
  pub kind : Kind
  pub implements_error : Bool

mutual
  -- `reflect.Value`: a nil of a type that has one, a pointer, a struct, a text, a value that is an
  -- error, or another value, told apart by a number.
  pub data Value : Type 0 where
    nil_value : GoType → Value
    pointer : GoType → Value → Value
    struct : GoType → Fields → Value
    text : GoType → String → Value
    error_value : GoType → Error → Value
    plain : GoType → ℕ → Value

  -- The fields of a struct by their names; a hidden one cannot be set.
  pub data Fields : Type 0 where
    no_field : Fields
    field : String → Value → Fields → Fields
    hidden : String → Value → Fields → Fields

-- `Value.Type`
abbrev pub type_of : Value → GoType
type_of (nil_value t) = t
type_of (pointer t v) = t
type_of (struct t fs) = t
type_of (text t s) = t
type_of (error_value t e) = t
type_of (plain t n) = t

-- `Value.IsNil`, for the kinds that have a nil
abbrev pub is_nil : Value → Bool
is_nil (nil_value t) = true
is_nil _ = false

-- `Value.Interface().(error)`
abbrev pub as_error : Value → Option Error
as_error (error_value t e) = some e
as_error _ = none

-- `Value.FieldByName`
unfoldable pub field_by_name : String → Fields → Option Value
field_by_name name no_field = none
field_by_name name (field n v more) = if n == name then some v else field_by_name name more
field_by_name name (hidden n v more) = if n == name then some v else field_by_name name more

-- The conversions of Go's values; a conversion that panics gives nothing. For a type of pointers to
-- structs, the new struct that `reflect.New` makes, with its type.
pub record Conversions : Type 0 where
  pub assignable_to : GoType → GoType → Bool
  pub convertible_to : GoType → GoType → Bool
  pub convert : Value → GoType → Option Value
  pub new_of : GoType → Option (GoType × Fields)

-- A method of the client: the types of its arguments, and the call, which can panic.
pub record Method (World : Type 0) : Type 0 where
  pub params : List GoType
  pub call : List Value → World → Option (List Value) × World

-- The client, as the code sees it: its methods by their names.
pub record Target (World : Type 0) : Type 0 where
  pub method_by_name : String → Option (Method World)
