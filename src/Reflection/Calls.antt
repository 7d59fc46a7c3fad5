-- ===== src/Reflection/Calls.antt =====
-- compat_reflect.go: `findAndCallMethod` and what it uses.
use proton_api_bridge.Common.{
  String, Bool, true, false, Option, none, some, List, [], ◌∷◌, ◌&&◌, not, length, eqb,
  if◌then◌else◌,
}
use proton_api_bridge.Action.{Outcome, Error, ok, err, fatal, bind, other}
use proton_api_bridge.Reflection.Values.{
  Kind, interface_kind, pointer_kind, map_kind, slice_kind, func_kind, chan_kind, GoType, Value,
  nil_value, type_of, is_nil, as_error, Conversions, Method, Target,
}

-- `isNilableKind`, which is also the first switch of `getCallableValue`
unfoldable pub is_nilable_kind : Kind → Bool
is_nilable_kind interface_kind = true
is_nilable_kind pointer_kind = true
is_nilable_kind map_kind = true
is_nilable_kind slice_kind = true
is_nilable_kind func_kind = true
is_nilable_kind chan_kind = true
is_nilable_kind _ = false

-- Errors with a text only.
abbrev pub not_assignable : Error
not_assignable = other 10

abbrev pub incompatible_argument_count : Error
incompatible_argument_count = other 11

abbrev pub method_panic : Error
method_panic = other 12

abbrev pub not_an_error : Error
not_an_error = other 13

-- `getCallableValue`; nil is the argument without a value.
unfoldable pub get_callable_value : Conversions → GoType → Option Value → Outcome Value
unfolding is_nilable_kind
get_callable_value go param_type none =
    if is_nilable_kind param_type.kind then ok (nil_value param_type) else err not_assignable
get_callable_value go param_type (some v) =
    if go.assignable_to (type_of v) param_type
    then ok v
    else if go.convertible_to (type_of v) param_type
    then elim (go.convert v param_type) [ some converted ↦ ok converted | none ↦ fatal ]
    else err not_assignable

-- The loop over the arguments.
unfoldable pub call_args : Conversions → List GoType → List (Option Value) → Outcome (List Value)
unfolding get_callable_value bind
call_args go (p ∷ params) (a ∷ args) =
    bind (get_callable_value go p a) (λ v. bind (call_args go params args) (λ more. ok (v ∷ more)))
call_args go _ _ = ok []

-- The three results of `findAndCallMethod`: not called, an error, or the values of the method.
pub data Called : Type 0 where
  not_called : Called
  failed : Error → Called
  returned : List Value → Called

module _ {World : Type 0} (go : Conversions) where
  -- The call with the arguments that were found; a panic is recovered as an error.
  unfoldable pub call_method : Method World → Outcome (List Value) → World → Called × World
  call_method method (ok args) w =
      let (results, w') = method.call args w in
      (elim results [ some values ↦ returned values | none ↦ failed method_panic ], w')
  call_method method (err e) w = (failed e, w)
  call_method method _ w = (failed method_panic, w)

  -- The call of the method that was found, if there is one.
  unfoldable pub call_found : Option (Method World) → List (Option Value) → World → Called × World
  unfolding call_method call_args
  call_found none args w = (not_called, w)
  call_found (some method) args w =
      if eqb (length method.params) (length args)
      then call_method method (call_args go method.params args) w
      else (failed incompatible_argument_count, w)

  -- `findAndCallMethod`; a nil target is the missing one.
  unfoldable pub find_and_call_method :
      Option (Target World) → String → List (Option Value) → World → Called × World
  unfolding call_found
  find_and_call_method none method_name args w = (not_called, w)
  find_and_call_method (some target) method_name args w =
      call_found (target.method_by_name method_name) args w

-- `extractErrorResult`: the error that a value is, if it is not nil.
unfoldable pub extract_error_result : Value → Outcome (Option Error)
unfolding is_nilable_kind
extract_error_result value =
    if not ((type_of value).implements_error)
    then err not_an_error
    else if is_nilable_kind ((type_of value).kind) && is_nil value
    then ok none
    else elim (as_error value) [ some e ↦ ok (some e) | none ↦ err not_an_error ]
