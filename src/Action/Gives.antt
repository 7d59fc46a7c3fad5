-- ===== src/Action/Gives.antt =====
-- What actions give when they succeed, one rule for each way to build an action.
use proton_api_bridge.Common.{◌≡◌, subst}
use proton_api_bridge.Action.{Act, Outcome, ok, err, fatal, out_of_fuel, pure, and_then, ◌>>=◌}

-- A value that `m` gives has `P`, from any state.
pub record Gives {S A : Type 0} (P : A → Type 0) (m : Act S A) : Type 0 where
  pub at : (s : S) (a : A) (s' : S) → m s ≡ (ok a, s') → P a

module _ {S A : Type 0} {P : A → Type 0} where
  pub Gives-pure : (a : A) → P a → Gives {S = S} P (pure a)
  Gives-pure a h = record { at = λ s b s' e. subst P (cc e) h }

module _ {S A B : Type 0} {P : B → Type 0} where
  Gives-and_then :
      (p : Outcome A × S) (f : A → Act S B) (b : B) (s' : S)
      → ((a : A) → Gives P (f a))
      → and_then p f ≡ (ok b, s')
      → P b
  Gives-and_then (ok a, s) f b s' gives e = (gives a).at s b s' e
  Gives-and_then (err x, s) f b s' gives e = absurd (cc e)
  Gives-and_then (fatal, s) f b s' gives e = absurd (cc e)
  Gives-and_then (out_of_fuel, s) f b s' gives e = absurd (cc e)

  pub Gives-bind : (m : Act S A) (f : A → Act S B) → ((a : A) → Gives P (f a)) → Gives P (m >>= f)
  Gives-bind m f gives = record { at = λ s b s' e. Gives-and_then (m s) f b s' gives e }

pub ruleset gives_rules = (Gives-pure, Gives-bind)
