-- ===== src/Reflection/Fits.antt =====
-- compat_reflect.go with its two uses: a client whose methods fit is used as the typed functions
-- use it.
use proton_api_bridge.Common.{
  String, Bool, true, false, Option, none, some, List, [], ◌∷◌, length, eqb, ◌&&◌, if◌then◌else◌,
  ◌≡◌, refl, ap, ◌∙◌,
}
use proton_api_bridge.Action.{Act, Outcome, Error, ⊤, ok, err, fail, bind}
use proton_api_bridge.Reflection.Values.{
  GoType, Value, nil_value, pointer, struct, text, error_value, Fields, field_by_name, Conversions,
  Method, Target,
}
use proton_api_bridge.Reflection.Calls.{
  Called, not_called, returned, is_nilable_kind, call_args, call_method, call_found,
  find_and_call_method, extract_error_result,
}
use proton_api_bridge.Reflection.Compat.{
  verification_fields, verification_of, verification_result, move_result, tried, or_try,
}

-- The values of a verification method: a struct with the two texts, also behind a pointer, and a
-- nil error; or an error.
pub data Verifies : Outcome (String × String) → List Value → Type 0 where
  by_struct :
      {code packet : String} {t tc tp te : GoType} {fs : Fields}
      → field_by_name "VerificationCode" fs ≡ some (text tc code)
      → field_by_name "ContentKeyPacket" fs ≡ some (text tp packet)
      → te.implements_error ≡ true
      → is_nilable_kind te.kind ≡ true
      → Verifies (ok (code, packet)) (struct t fs ∷ nil_value te ∷ [])
  by_pointer :
      {code packet : String} {p t tc tp te : GoType} {fs : Fields}
      → field_by_name "VerificationCode" fs ≡ some (text tc code)
      → field_by_name "ContentKeyPacket" fs ≡ some (text tp packet)
      → te.implements_error ≡ true
      → is_nilable_kind te.kind ≡ true
      → Verifies (ok (code, packet)) (pointer p (struct t fs) ∷ nil_value te ∷ [])
  by_error :
      {e : Error} {te : GoType} {v : Value}
      → te.implements_error ≡ true
      → Verifies (err e) (v ∷ error_value te e ∷ [])

-- The value of a move method: a nil error or an error.
pub data Moves : Outcome ⊤ → List Value → Type 0 where
  moved :
      {te : GoType}
      → te.implements_error ≡ true
      → is_nilable_kind te.kind ≡ true
      → Moves (ok tt) (nil_value te ∷ [])
  refused :
      {e : Error} {te : GoType} → te.implements_error ≡ true → Moves (err e) (error_value te e ∷ [])

extract_nil :
    (te : GoType)
    → te.implements_error ≡ true
    → is_nilable_kind te.kind ≡ true
    → extract_error_result (nil_value te) ≡ ok none
unfolding extract_error_result
extract_nil te is_error nilable = rw (is_error, nilable) refl

nilable_error : (e : Error) (b : Bool) → (if b && false then ok none else ok (some e)) ≡ ok (some e)
nilable_error e true = refl
nilable_error e false = refl

extract_error :
    (te : GoType) (e : Error)
    → te.implements_error ≡ true
    → extract_error_result (error_value te e) ≡ ok (some e)
unfolding extract_error_result
extract_error te e is_error = rw is_error (nilable_error e (is_nilable_kind te.kind))

pub Verifies-result :
    (o : Outcome (String × String)) (values : List Value)
    → Verifies o values
    → verification_result (returned values) ≡ some o
unfolding verification_result verification_of verification_fields bind
Verifies-result o values (by_struct {te = te} code packet is_error nilable) =
    rw (extract_nil te is_error nilable, code, packet) refl
Verifies-result o values (by_pointer {te = te} code packet is_error nilable) =
    rw (extract_nil te is_error nilable, code, packet) refl
Verifies-result o values (by_error {e = e} {te = te} is_error) =
    rw (extract_error te e is_error) refl

pub Moves-result :
    (o : Outcome ⊤) (values : List Value) → Moves o values → move_result (returned values) ≡ some o
unfolding move_result bind
Moves-result o values (moved {te = te} is_error nilable) = rw (extract_nil te is_error nilable) refl
Moves-result o values (refused {e = e} {te = te} is_error) = rw (extract_error te e is_error) refl

module _ {World A : Type 0} (go : Conversions) (Gives : Outcome A → List Value → Type 0) where
  -- The method takes these arguments, and its values are those of the function's result.
  pub record Fits (method : Method World) (args : List (Option Value)) (f : Act World A)
      : Type 0 where
    pub counted : eqb (length method.params) (length args) ≡ true
    pub taken : List Value
    pub takes : call_args go method.params args ≡ ok taken
    pub gives :
        (w : World)
        → (values : List Value) × (method.call taken w ≡ (some values, (f w).1))
          × Gives ((f w).0) values

  -- There is such a method exactly if there is the function.
  pub data Offers
      : Option (Method World) → List (Option Value) → Option (Act World A) → Type 0 where
    missing : {args : List (Option Value)} → Offers none args none
    offers :
        {method : Method World} {args : List (Option Value)} {f : Act World A}
        → Fits method args f
        → Offers (some method) args (some f)

  module _ (result : Called → Option (Outcome A)) (not_tried : result not_called ≡ none)
      (reads : (o : Outcome A) (values : List Value)
        → Gives o values
        → result (returned values) ≡ some o) where
    -- What trying a method gives, by the function.
    abbrev pub Tried : Option (Act World A) → World → Called × World → Type 0
    Tried none w p = (result (p.0) ≡ none) × (p.1 ≡ w)
    Tried (some f) w p = (result (p.0) ≡ some ((f w).0)) × (p.1 ≡ (f w).1)

    call_run :
        (args : List (Option Value)) {method : Option (Method World)} {f : Option (Act World A)}
        → Offers method args f
        → (w : World) → Tried f w (call_found go method args w)
    unfolding call_found call_method
    call_run args missing w = (not_tried, refl)
    call_run args (offers {method = method} {f = f} fits) w =
        let (values, called, given) = fits.gives w in
        rw (fits.counted, fits.takes, called) (reads ((f w).0) values given, refl)

    pub find_run :
        (target : Target World) (name : String) (args : List (Option Value))
        {f : Option (Act World A)}
        → Offers (target.method_by_name name) args f
        → (w : World) → Tried f w (find_and_call_method go (some target) name args w)
    unfolding find_and_call_method
    find_run target name args offered w = call_run args offered w

    abbrev pub chosen : Option (Act World A) → Option (Act World A) → Error → Act World A
    chosen (some f) g e = f
    chosen none (some g) e = g
    chosen none none e = fail e

    tried_eq :
        {o o' : Option (Outcome A)} {v v' : World} (next : World → Outcome A × World)
        → o ≡ o'
        → v ≡ v'
        → tried o v next ≡ tried o' v' next
    tried_eq {o = o} {v' = v'} next same there =
        ap (λ x. tried o x next) there ∙ ap (λ x. tried x v' next) same

    pub or_try_run :
        (f g : Option (Act World A)) (first second : World → Called × World) (e : Error) (w : World)
        → ((v : World) → Tried f v (first v))
        → ((v : World) → Tried g v (second v))
        → or_try result first second e w ≡ chosen f g e w
    unfolding or_try
    or_try_run (some f) g first second e w a b = let (x, y) = a w in tried_eq _ x y
    or_try_run none (some g) first second e w a b =
        let (x, y) = a w in let (p, q) = b w in tried_eq _ x y ∙ tried_eq _ p q
    or_try_run none none first second e w a b =
        let (x, y) = a w in let (p, q) = b w in tried_eq _ x y ∙ tried_eq _ p q
