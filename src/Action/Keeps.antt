-- ===== src/Action/Keeps.antt =====
-- Invariants of actions, one rule for each way to build an action.
use proton_api_bridge.Common.{Bool, true, false, Option, none, some, List, [], ◌∷◌, if◌then◌else◌}
use proton_api_bridge.Action.{
  Act, Outcome, ⊤, ok, err, fatal, out_of_fuel, Error, pure, fail, lift, gets, deref, fail_if,
  and_then, for_each, ◌>>=◌,
}

-- `m` keeps `P`, whatever it ends in.
pub record Keeps {S A : Type 0} (P : S → Type 0) (m : Act S A) : Type 0 where
  pub at : (s : S) → P s → P (m s).1

module _ {S A : Type 0} {P : S → Type 0} where
  pub Keeps-pure : (a : A) → Keeps P (pure a)
  Keeps-pure a = record { at = λ s h. h }

  pub Keeps-lift : (r : Outcome A) → Keeps P (lift r)
  Keeps-lift r = record { at = λ s h. h }

  pub Keeps-fail : (e : Error) → Keeps P (fail {A = A} e)
  Keeps-fail e = record { at = λ s h. h }

  pub Keeps-gets : (f : S → A) → Keeps P (gets f)
  Keeps-gets f = record { at = λ s h. h }

  pub Keeps-deref : (o : Option A) → Keeps P (deref o)
  Keeps-deref none = record { at = λ s h. h }
  Keeps-deref (some a) = record { at = λ s h. h }

  pub Keeps-if : (b : Bool) (m n : Act S A) → Keeps P m → Keeps P n → Keeps P (if b then m else n)
  Keeps-if true m n km kn = km
  Keeps-if false m n km kn = kn

module _ {S A B : Type 0} {P : S → Type 0} where
  Keeps-and_then :
      (r : Outcome A) (s : S) (f : A → Act S B)
      → P s
      → ((a : A) → Keeps P (f a))
      → P (and_then (r, s) f).1
  Keeps-and_then (ok a) s f h kf = (kf a).at s h
  Keeps-and_then (err e) s f h kf = h
  Keeps-and_then fatal s f h kf = h
  Keeps-and_then out_of_fuel s f h kf = h

  pub Keeps-bind :
      (m : Act S A) (f : A → Act S B) → Keeps P m → ((a : A) → Keeps P (f a)) → Keeps P (m >>= f)
  Keeps-bind m f km kf = record {
    at = λ s h. let (r, s') = m s in Keeps-and_then r s' f (km.at s h) kf;
  }

module _ {S : Type 0} {P : S → Type 0} where
  pub Keeps-fail_if : (b : Bool) (e : Error) → Keeps P (fail_if {S = S} b e)
  Keeps-fail_if true e = record { at = λ s h. h }
  Keeps-fail_if false e = record { at = λ s h. h }

module _ {S A : Type 0} {P : S → Type 0} where
  pub Keeps-for_each :
      (f : A → Act S ⊤) (xs : List A) → ((a : A) → Keeps P (f a)) → Keeps P (for_each f xs)
  unfolding for_each
  Keeps-for_each f [] kf = Keeps-pure tt
  Keeps-for_each f (x ∷ xs) kf =
      Keeps-bind (f x) (λ _. for_each f xs) (kf x) (λ _. Keeps-for_each f xs kf)

pub ruleset keeps_rules = (
  Keeps-pure, Keeps-lift, Keeps-fail, Keeps-gets, Keeps-deref, Keeps-if, Keeps-bind, Keeps-fail_if,
)
