-- ===== src/Account/RoundTrip.antt =====
-- common/user.go, `Login`: a login with a password, and one with the credential that it left.
use proton_api_bridge.Common.{
  true, false, Option, none, some, List, [], Map, ◌==◌, ◌||◌, ◌&&◌, ◌≡◌, refl, ap, ◌∙◌, ◌⊎◌, inl,
  inr, Bool-cases,
}
use proton_api_bridge.Action.{
  ok, err, Error, >>=_step, >>=_stop, else_step, two_fa_code_required, mailbox_password_required,
}
use proton_api_bridge.Proton.{Bytes, Address}
use proton_api_bridge.Api.{Api}
use proton_api_bridge.Account.Config.{Config, Credential, FirstLoginCredential}
use proton_api_bridge.Account.Service.{Service, Auth}
use proton_api_bridge.Account.Login.{
  LoginSt, by_email, calling, get_proton_manager, with_hooks, LoggedIn, second_factor, key_password,
  credential_of, login_with, login_first, login,
}
use proton_api_bridge.Account.Sessions.{
  Answers, missing, key_pass_of, calling_run, Passes, sends_code, second_factor_run,
  key_password_run,
}

module _ (api : Api) (service : Service api) where
  -- The manager of a configuration.
  abbrev pub manager_of : Config → service.Manager
  manager_of config = get_proton_manager api service config.app_version config.user_agent

  -- What is lacking, by the two tests.
  missing_cases :
      (given : FirstLoginCredential) (auth : Auth)
      → ((auth.has_totp && given.two_fa == "") ≡ true
          × missing api service given auth ≡ some two_fa_code_required)
        ⊎ (((auth.has_totp && given.two_fa == "") ≡ false
              × (auth.two_password_mode && given.mailbox_password == "") ≡ true
              × missing api service given auth ≡ some mailbox_password_required)
            ⊎ ((auth.has_totp && given.two_fa == "") ≡ false
                × (auth.two_password_mode && given.mailbox_password == "") ≡ false
                × missing api service given auth ≡ none))
  missing_cases given auth = elim (Bool-cases (auth.has_totp && given.two_fa == "")) [
    | inl no_code ↦ inl (no_code, rw no_code refl)
    | inr coded ↦ elim (Bool-cases (auth.two_password_mode && given.mailbox_password == "")) [
      | inl no_password ↦ inr (inl (coded, no_password, (rw coded (rw no_password refl))))
      | inr keyed ↦ inr (inr (coded, keyed, (rw coded (rw keyed refl))))
    ]
  ]

  module _ (s : LoginSt api) (fresh : service.Client) (auth : Auth) (w w1 : api.World)
      (first : s.config.use_reusable_login ≡ false)
      (named : (s.config.first_login_credential.username == ""
          || s.config.first_login_credential.password == "")
        ≡ false)
      (accepted : service.new_client_with_login
          (manager_of s.config)
          s.config.first_login_credential.username
          (api.bytes_of s.config.first_login_credential.password)
          s.world
        ≡ (ok (fresh, auth), w))
      (passes : Passes api service
        (with_hooks api service fresh s.config.drive_sdk_version)
        s.config.first_login_credential.two_fa
        w
        w1
        (sends_code api service s.config.first_login_credential auth)) where
    login_first_run :
        login api service s
        ≡ login_with api service
            (manager_of s.config)
            (with_hooks api service fresh s.config.drive_sdk_version)
            auth
            s.config.first_login_credential
            (record s { world = w })
    unfolding login login_first
    login_first_run =
        else_step _ _ s first
        ∙ else_step _ _ s named
        ∙ >>=_step
            (calling (
              service.new_client_with_login (manager_of s.config)
                s.config.first_login_credential.username
                (api.bytes_of s.config.first_login_credential.password)))
            _ s
            (calling_run api service
              (service.new_client_with_login (manager_of s.config)
                s.config.first_login_credential.username
                (api.bytes_of s.config.first_login_credential.password))
              s accepted)

    -- When a login with a name and a password is accepted, and the server takes the given code
    -- for the second factor from the login's client if one is sent: without the code that the
    -- account asks for, or with it and without the mailbox password that the account asks for,
    -- the login ends with the error for what is missing, the code first, and leaves the
    -- configuration as it was.
    pub login-missing :
        (e : Error)
        → missing api service s.config.first_login_credential auth ≡ some e
        → login api service s ≡ (err e, record s { world = w1 })
    unfolding login_with
    login-missing e lacks = elim (missing_cases given auth) [
      | inl (no_code, is) ↦
          login_first_run
          ∙ >>=_stop (second_factor api service client auth given) _ (record s { world = w })
              (second_factor_run api service client auth given s.config w w1 passes
                ∙ rw no_code (ap (λ (x : Error). (err x, s')) cc))
      | inr (inl (coded, no_password, is)) ↦
          login_first_run
          ∙ >>=_step (second_factor api service client auth given) _ (record s { world = w })
              (second_factor_run api service client auth given s.config w w1 passes ∙ rw coded refl)
          ∙ >>=_stop (key_password api service auth given) _ s' (
              key_password_run api service auth given s'
              ∙ rw no_password (ap (λ (x : Error). (err x, s')) cc))
      | inr (inr (coded, keyed, is)) ↦ cc
    ]
      where
        given : FirstLoginCredential
        given = s.config.first_login_credential

        client : service.Client
        client = with_hooks api service fresh s.config.drive_sdk_version

        s' : LoginSt api
        s' = record s { world = w1 }

    module _ (user : service.User) (addresses : List Address) (salted_of : Bytes → Bytes)
        (answers : Answers api service user addresses salted_of)
        (salts_given : service.get_salts
            (with_hooks api service fresh s.config.drive_sdk_version)
            w1
          ≡ (ok answers.salts, w1))
        (user_kr : api.KeyRing) (addr_krs : Map api.KeyRing)
        (complete : missing api service s.config.first_login_credential auth ≡ none)
        (unlocked : service.unlock user addresses (
            salted_of (api.bytes_of (key_pass_of api service s.config.first_login_credential auth)))
          ≡ ok (user_kr, addr_krs))
        (no_file : (s.config.credential_cache_file == "") ≡ true)
        (decoded : api.base64_decode (
            api.base64_encode (
              salted_of
                (api.bytes_of (key_pass_of api service s.config.first_login_credential auth))))
          ≡ ok (
              salted_of (
                api.bytes_of (key_pass_of api service s.config.first_login_credential auth)))) where
      abbrev salted_bytes : Bytes
      salted_bytes =
          salted_of (api.bytes_of (key_pass_of api service s.config.first_login_credential auth))

      -- The configuration that the first login leaves.
      abbrev pub kept : Config
      kept = record (s.config) { reusable_credential = credential_of api service auth salted_bytes }

      -- What a login gives that has this credential.
      abbrev pub logged_in : Option Credential → service.Client → LoggedIn api service
      logged_in credential client = record {
        manager = manager_of s.config;
        client = with_hooks api service client s.config.drive_sdk_version;
        credential = credential;
        user_kr = user_kr;
        addr_krs = addr_krs;
        addrs = by_email addresses [];
      }
