-- ===== src/Action.antt =====
-- What a call of the program can end in, and the actions that the operations are written in:
-- error.go and common/error.go, Go's `error` results, `log.Fatalln` and run-time panics.
pub mod Keeps
pub mod Gives
use proton_api_bridge.Common.{
  ℕ, Bool, true, false, Option, none, some, List, [], ◌∷◌, ◌≡◌, ap, if◌then◌else◌, if_then, if_else,
}

-- The errors of error.go and common/error.go, and those that come from outside: an API error with
-- its code, the two sentinels of `io`, the sentinel for a taken name, and all others by a number.
pub data Error : Type 0 where
  main_share_preconditions_failed data_folder_name_is_empty link_type_must_to_be_folder_type : Error
  link_type_must_to_be_file_type folder_is_not_empty cant_locate_revision : Error
  internal_error_on_file_upload missing_input_upload_and_collect_block_data : Error
  link_must_not_be_nil link_must_be_active downloaded_block_hash_verification_failed : Error
  draft_exists cant_find_active_revision cant_find_draft_revision : Error
  wrong_usage_of_get_link_kr wrong_usage_of_get_link seek_offset_after_skipping_blocks : Error
  no_keyring_for_signature_verification : Error
  key_pass_or_salted_key_pass_must_be_not_nil failed_to_unlock_user_keys : Error
  username_and_password_required two_fa_code_required mailbox_password_required : Error
  api_error : ℕ → Error
  eof unexpected_eof file_name_exist : Error
  other : ℕ → Error

-- A call returns a value or an error, ends the process (`log.Fatalln`, a nil dereference), or has
-- used up the fuel that bounds its recursion.
pub data Outcome {ℓ} (A : Type ℓ) : Type ℓ where
  ok : A → Outcome A
  err : Error → Outcome A
  fatal : Outcome A
  out_of_fuel : Outcome A

abbrev pub ⊤ : Type 0
⊤ = Unit

-- An operation on a state: what was written stays written after an error.
abbrev pub Act : Type 0 → Type 0 → Type 0
Act S A = S → Outcome A × S

module _ {S A : Type 0} where
  abbrev pub pure : A → Act S A
  pure a s = (ok a, s)

  abbrev pub fail : Error → Act S A
  fail e s = (err e, s)

  -- an outcome that touches no state
  abbrev pub lift : Outcome A → Act S A
  lift r s = (r, s)

  abbrev pub gets : (S → A) → Act S A
  gets f s = (ok (f s), s)

-- What follows a step: the rest after a success, and nothing after any other end.
abbrev pub and_then : {S A B : Type 0} → Outcome A × S → (A → Act S B) → Outcome B × S
and_then (ok a, s) f = f a s
and_then (err e, s) f = (err e, s)
and_then (fatal, s) f = (fatal, s)
and_then (out_of_fuel, s) f = (out_of_fuel, s)

-- The value behind a pointer; nil ends the process.
abbrev pub deref : {S A : Type 0} → Option A → Act S A
deref none s = (fatal, s)
deref (some a) s = (ok a, s)

infixl 5 ◌>>=◌ ◌>>◌
abbrev pub ◌>>=◌ : {S A B : Type 0} → Act S A → (A → Act S B) → Act S B
◌>>=◌ m f s = and_then (m s) f

abbrev pub ◌>>◌ : {S A B : Type 0} → Act S A → Act S B → Act S B
m >> k = m >>= λ _. k

abbrev pub modify : {S : Type 0} → (S → S) → Act S ⊤
modify f s = (ok tt, f s)

-- `if c { return err }`
abbrev pub fail_if : {S : Type 0} → Bool → Error → Act S ⊤
fail_if true e = fail e
fail_if false e = pure tt

-- `for _, x := range xs { if err := f(x); err != nil { return err } }`
unfoldable pub for_each : {S A : Type 0} → (A → Act S ⊤) → List A → Act S ⊤
for_each f [] = pure tt
for_each f (x ∷ xs) = f x >> for_each f xs

-- The chain on outcomes alone, for code that keeps no state.
unfoldable pub bind : {A B : Type 0} → Outcome A → (A → Outcome B) → Outcome B
bind (ok a) f = f a
bind (err e) f = err e
bind fatal f = fatal
bind out_of_fuel f = out_of_fuel

-- A step that succeeds is followed by the rest, from the state that it leaves.
pub >>=_step :
    {S A B : Type 0} (m : Act S A) (f : A → Act S B) (s : S) {a : A} {s' : S}
    → m s ≡ (ok a, s')
    → (m >>= f) s ≡ f a s'
>>=_step m f s run = ap (λ r. and_then r f) run

-- A step that ends in an error is followed by nothing.
pub >>=_stop :
    {S A B : Type 0} (m : Act S A) (f : A → Act S B) (s : S) {e : Error} {s' : S}
    → m s ≡ (err e, s')
    → (m >>= f) s ≡ (err e, s')
>>=_stop m f s run = ap (λ r. and_then r f) run

-- A step that ends the process is followed by nothing.
pub >>=_fatal :
    {S A B : Type 0} (m : Act S A) (f : A → Act S B) (s : S) {s' : S}
    → m s ≡ (fatal, s')
    → (m >>= f) s ≡ (fatal, s')
>>=_fatal m f s run = ap (λ r. and_then r f) run

-- The branch of a test, run from a state.
pub then_step :
    {S A : Type 0} (m k : Act S A) {b : Bool} (s : S) → b ≡ true → (if b then m else k) s ≡ m s
then_step {S} {A} m k s on = ap (λ (f : Act S A). f s) (if_then m k on)

pub else_step :
    {S A : Type 0} (m k : Act S A) {b : Bool} (s : S) → b ≡ false → (if b then m else k) s ≡ k s
else_step {S} {A} m k s off = ap (λ (f : Act S A). f s) (if_else m k off)
