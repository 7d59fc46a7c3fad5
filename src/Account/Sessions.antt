-- ===== src/Account/Sessions.antt =====
-- common/user.go, `Login`: a login with a password, and one with the credential that it left.
use proton_api_bridge.Common.{
  String, Bool, true, false, not, Option, none, some, List, [], Map, ◌==◌, ◌&&◌, ◌≡◌, refl, ap, ◌∙◌,
  inl, inr, Bool-cases, if◌then◌else◌,
}
use proton_api_bridge.Action.{
  Act, Outcome, ok, err, Error, lift, fail, pure, >>=_step, two_fa_code_required,
  mailbox_password_required,
}
use proton_api_bridge.Proton.{Bytes, Address}
use proton_api_bridge.Api.{Api}
use proton_api_bridge.Account.Config.{Config, FirstLoginCredential}
use proton_api_bridge.Account.Service.{Service, Auth}
use proton_api_bridge.Account.Login.{
  LoginSt, AccountKrs, by_email, calling, salted, get_account_krs, second_factor, key_password,
}

module _ (api : Api) (service : Service api) where
  -- The account's server: any client gets its user and addresses, and the salts are salts for the
  -- account's key.
  pub record Answers (user : service.User) (addresses : List Address) (salted_of : Bytes → Bytes)
      : Type 0 where
    pub salts : service.Salts
    pub key_id : String
    pub user_known : (c : service.Client) (w : api.World) → service.get_user c w ≡ (ok user, w)
    pub addresses_known :
        (c : service.Client) (w : api.World) → service.get_addresses c w ≡ (ok addresses, w)
    pub primary : service.primary_key_id user ≡ ok key_id
    pub salting :
        (key_pass : Bytes) → service.salt_for_key salts key_pass key_id ≡ ok (salted_of key_pass)

  -- What a first login lacks for this account.
  abbrev pub missing : FirstLoginCredential → Auth → Option Error
  missing given auth =
      if auth.has_totp && given.two_fa == ""
      then some two_fa_code_required
      else if auth.two_password_mode && given.mailbox_password == ""
      then some mailbox_password_required
      else none

  -- The password of the keys, where none is lacking.
  abbrev pub key_pass_of : FirstLoginCredential → Auth → String
  key_pass_of given auth = if auth.two_password_mode then given.mailbox_password else given.password

  pub calling_run :
      {A : Type 0} (call : Act api.World A) (s : LoginSt api) {a : A} {w : api.World}
      → call s.world ≡ (ok a, w)
      → calling call s ≡ (ok a, record s { world = w })
  calling_run call s ran = ap (λ r. (r.0, record s { world = r.1 })) ran

  -- Whether a code is sent.
  abbrev pub sends_code : FirstLoginCredential → Auth → Bool
  sends_code given auth = auth.has_totp && not (given.two_fa == "")

  -- The server takes the given code of this client, if one is sent.
  abbrev pub Passes : service.Client → String → api.World → api.World → Bool → Type 0
  Passes client code w w1 true = service.auth_2fa client code w ≡ (ok tt, w1)
  Passes client code w w1 false = w ≡ w1

  pub second_factor_run :
      (client : service.Client) (auth : Auth) (given : FirstLoginCredential) (config : Config)
      (w w1 : api.World)
      → Passes client given.two_fa w w1 (sends_code given auth)
      → second_factor api service client auth given (record { config = config; world = w }) ≡ (
        (if auth.has_totp && given.two_fa == "" then err two_fa_code_required else ok tt),
        record { config = config; world = w1 },
      )
  unfolding second_factor
  second_factor_run client auth given config w w1 passes =
      by_tests auth.has_totp (given.two_fa == "") passes
    where
      by_tests :
          (totp empty : Bool)
          → Passes client given.two_fa w w1 (totp && not empty)
          → (if totp
                then (if empty
                    then fail two_fa_code_required
                    else calling {api = api} (service.auth_2fa client given.two_fa))
                else pure tt)
              (record { config = config; world = w })
            ≡ (
              (if totp && empty then err two_fa_code_required else ok tt),
              record { config = config; world = w1 },
            )
      by_tests false empty p = ap (λ v. (ok tt, record { config = config; world = v })) p
      by_tests true true p =
          ap (λ v. (err two_fa_code_required, record { config = config; world = v })) p
      by_tests true false p =
          calling_run (service.auth_2fa client given.two_fa) (record { config = config; world = w })
            p

  pub key_password_run :
      (auth : Auth) (given : FirstLoginCredential) (s : LoginSt api)
      → key_password api service auth given s ≡ (
        (if auth.two_password_mode && given.mailbox_password == ""
            then err mailbox_password_required
            else ok (key_pass_of given auth)),
        s,
      )
  unfolding key_password
  key_password_run auth given s = elim (Bool-cases auth.two_password_mode) [
    | inr off ↦ rw off refl
    | inl on ↦ rw on (elim (Bool-cases (given.mailbox_password == "")) [
      | inl empty ↦ rw empty refl
      | inr set ↦ rw set refl
    ])
  ]

  module _ (user : service.User) (addresses : List Address) (salted_of : Bytes → Bytes)
      (answers : Answers user addresses salted_of) where
    abbrev pub krs_of : api.KeyRing → Map api.KeyRing → Bytes → AccountKrs api
    krs_of user_kr addr_krs salted_bytes = record {
      user_kr = user_kr;
      addr_krs = addr_krs;
      addrs = by_email addresses [];
      salted_key_pass = salted_bytes;
    }

    pub salted_run :
        (client : service.Client) (key_pass : Bytes) (w : api.World)
        → service.get_salts client w ≡ (ok answers.salts, w)
        → salted api service client user (some key_pass) none w ≡ (ok (salted_of key_pass), w)
    unfolding salted
    salted_run client key_pass w given =
        >>=_step (service.get_salts client) _ w given
        ∙ >>=_step (lift (service.primary_key_id user)) _ w
            (ap (λ (r : Outcome String). (r, w)) answers.primary)
        ∙ ap (λ (r : Outcome Bytes). (r, w)) (answers.salting key_pass)

    pub krs_run :
        (client : service.Client) (key_pass salted_key_pass : Option Bytes) (bytes : Bytes)
        (user_kr : api.KeyRing) (addr_krs : Map api.KeyRing) (w : api.World)
        → salted api service client user key_pass salted_key_pass w ≡ (ok bytes, w)
        → service.unlock user addresses bytes ≡ ok (user_kr, addr_krs)
        → get_account_krs api service client key_pass salted_key_pass w
          ≡ (ok (krs_of user_kr addr_krs bytes), w)
    unfolding get_account_krs
    krs_run client key_pass salted_key_pass bytes user_kr addr_krs w is_salted unlocked =
        >>=_step (service.get_user client) _ w (answers.user_known client w)
        ∙ >>=_step (service.get_addresses client) _ w (answers.addresses_known client w)
        ∙ >>=_step (salted api service client user key_pass salted_key_pass) _ w is_salted
        ∙ >>=_step (lift (service.unlock user addresses bytes)) _ w
            (ap (λ (r : Outcome (api.KeyRing × Map api.KeyRing)). (r, w)) unlocked)
