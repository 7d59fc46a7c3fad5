-- ===== src/Account/Login.antt =====
-- common/user.go, common/keyring.go and common/proton_manager.go: login and logout.
use proton_api_bridge.Common.{
  ℕ, String, Option, none, some, List, [], ◌∷◌, Map, insert, ◌==◌, ◌||◌, if◌then◌else◌,
}
use proton_api_bridge.Action.{
  Act, ⊤, pure, fail, lift, modify, ◌>>=◌, ◌>>◌, key_pass_or_salted_key_pass_must_be_not_nil,
  username_and_password_required, two_fa_code_required, mailbox_password_required,
}
use proton_api_bridge.Proton.{Bytes, Address}
use proton_api_bridge.Api.{Api}
use proton_api_bridge.Account.Config.{Config, Credential, FirstLoginCredential}
use proton_api_bridge.Account.Service.{
  Service, Auth, with_app_version, with_retry_count, with_user_agent,
}

-- `defaultAPIRequestRetryCount`
abbrev pub default_api_request_retry_count : ℕ
default_api_request_retry_count = 3

-- The configuration, which a login writes the credential into, and everything outside.
pub record LoginSt (api : Api) : Type 0 where
  pub config : Config
  pub world : api.World

-- What `getAccountKRs` gives: key rings, addresses by email, and the salted key password.
pub record AccountKrs (api : Api) : Type 0 where
  pub user_kr : api.KeyRing
  pub addr_krs : Map api.KeyRing
  pub addrs : Map Address
  pub salted_key_pass : Bytes

-- The map of addresses.
unfoldable pub by_email : List Address → Map Address → Map Address
by_email [] m = m
by_email (addr ∷ more) m = by_email more (insert addr.email addr m)

module _ {api : Api} {A : Type 0} where
  -- A call outside, while the configuration is at hand.
  abbrev pub calling : Act api.World A → Act (LoginSt api) A
  calling call s = let (r, w) = call s.world in (r, record s { world = w })

module _ (api : Api) (service : Service api) where
  -- `getProtonManager`
  unfoldable pub get_proton_manager : String → String → service.Manager
  get_proton_manager app_version user_agent = service.new_manager (
      with_app_version app_version
      ∷ with_retry_count default_api_request_retry_count
      ∷ with_user_agent user_agent
      ∷ [])

  -- `attachDriveSDKHeaderHook`
  unfoldable pub attach_drive_sdk_header_hook : service.Client → String → service.Client
  attach_drive_sdk_header_hook client version =
      if version == "" then client else service.add_header client "x-pm-drive-sdk-version" version

  -- The client with its hook and its two handlers.
  unfoldable pub with_hooks : service.Client → String → service.Client
  unfolding attach_drive_sdk_header_hook
  with_hooks client version =
      service.add_deauth_handler
        (service.add_auth_handler (attach_drive_sdk_header_hook client version))

  -- `cacheCredentialToFile`
  unfoldable pub cache_credential_to_file : Act (LoginSt api) ⊤
  cache_credential_to_file s =
      (if s.config.credential_cache_file == "" then pure tt else (do
        str ← lift (service.marshal s.config.reusable_credential)
        calling (service.create_file s.config.credential_cache_file)
        calling (service.write_string s.config.credential_cache_file str)))
        s

  -- The salted key password: the one that is given, or the key password with the account's salt.
  unfoldable pub salted :
      service.Client → service.User → Option Bytes → Option Bytes → Act api.World Bytes
  salted client user key_pass (some salted_key_pass) = pure salted_key_pass
  salted client user none none = fail key_pass_or_salted_key_pass_must_be_not_nil
  salted client user (some key_pass) none = do
    salts ← service.get_salts client
    key_id ← lift (service.primary_key_id user)
    lift (service.salt_for_key salts key_pass key_id)

  -- `getAccountKRs`. Its test of the number of keys has no effect, since no error can be set there.
  unfoldable pub get_account_krs :
      service.Client → Option Bytes → Option Bytes → Act api.World (AccountKrs api)
  unfolding salted by_email
  get_account_krs client key_pass salted_key_pass = do
    user ← service.get_user client
    addrs_arr ← service.get_addresses client
    salted_bytes ← salted client user key_pass salted_key_pass
    (user_kr, addr_krs) ← lift (service.unlock user addrs_arr salted_bytes)
    pure (record {
      user_kr = user_kr;
      addr_krs = addr_krs;
      addrs = by_email addrs_arr [];
      salted_key_pass = salted_bytes;
    })

  -- What `Login` gives.
  pub record LoggedIn : Type 0 where
    pub manager : service.Manager
    pub client : service.Client
    pub credential : Option Credential
    pub user_kr : api.KeyRing
    pub addr_krs : Map api.KeyRing
    pub addrs : Map Address

  -- The branch of `Login` for a credential of an earlier login.
  unfoldable pub login_again : service.Manager → Config → Act (LoginSt api) LoggedIn
  unfolding with_hooks cache_credential_to_file get_account_krs
  login_again m config = do
    let fresh =
        service.new_client m config.reusable_credential.uid config.reusable_credential.access_token
          config.reusable_credential.refresh_token
    let client = with_hooks fresh config.drive_sdk_version
    cache_credential_to_file
    salted_bytes ← lift (api.base64_decode config.reusable_credential.salted_key_pass)
    krs ← calling (get_account_krs client none (some salted_bytes))
    pure (record {
      manager = m;
      client = client;
      credential = none;
      user_kr = krs.user_kr;
      addr_krs = krs.addr_krs;
      addrs = krs.addrs;
    })

  -- The second factor.
  unfoldable pub second_factor : service.Client → Auth → FirstLoginCredential → Act (LoginSt api) ⊤
  second_factor client auth given =
      if auth.has_totp
      then (if given.two_fa == ""
          then fail two_fa_code_required
          else calling (service.auth_2fa client given.two_fa))
      else pure tt

  -- The password of the keys.
  unfoldable pub key_password : Auth → FirstLoginCredential → Act (LoginSt api) String
  key_password auth given =
      if auth.two_password_mode
      then (if given.mailbox_password == ""
          then fail mailbox_password_required
          else pure given.mailbox_password)
      else pure given.password

  -- The credential that a later login can use.
  abbrev pub credential_of : Auth → Bytes → Credential
  credential_of auth salted_bytes = record {
    uid = auth.uid;
    access_token = auth.access_token;
    refresh_token = auth.refresh_token;
    salted_key_pass = api.base64_encode salted_bytes;
  }

  -- The part of a first login behind the client's.
  unfoldable pub login_with :
      service.Manager → service.Client → Auth → FirstLoginCredential → Act (LoginSt api) LoggedIn
  unfolding second_factor key_password get_account_krs cache_credential_to_file
  login_with m client auth given = do
    second_factor client auth given
    key_pass ← key_password auth given
    krs ← calling (get_account_krs client (some (api.bytes_of key_pass)) none)
    modify (λ s. record s {
      config = record (s.config) { reusable_credential = credential_of auth krs.salted_key_pass };
    })
    cache_credential_to_file
    pure (record {
      manager = m;
      client = client;
      credential = some (credential_of auth krs.salted_key_pass);
      user_kr = krs.user_kr;
      addr_krs = krs.addr_krs;
      addrs = krs.addrs;
    })

  -- The branch of `Login` for a name and a password.
  unfoldable pub login_first : service.Manager → Config → Act (LoginSt api) LoggedIn
  unfolding with_hooks login_with
  login_first m config =
      if config.first_login_credential.username == ""
        || config.first_login_credential.password == ""
      then fail username_and_password_required
      else (do
        (fresh, auth) ← calling (
            service.new_client_with_login m config.first_login_credential.username
              (api.bytes_of config.first_login_credential.password))
        login_with m (with_hooks fresh config.drive_sdk_version) auth config.first_login_credential)

  -- `Login`
  unfoldable pub login : Act (LoginSt api) LoggedIn
  unfolding get_proton_manager login_again login_first
  login s =
      let m = get_proton_manager s.config.app_version s.config.user_agent in
      (if s.config.use_reusable_login then login_again m s.config else login_first m s.config) s

  -- The loop of `Logout` over the key rings of the addresses.
  unfoldable pub clear_all : List (String × api.KeyRing) → api.World → api.World
  clear_all [] w = w
  clear_all ((id, kr) ∷ more) w = clear_all more (service.clear_private_params kr w)

  -- The part of `Logout` before the client and the manager are closed.
  unfoldable pub log_out_user :
      Config → service.Client → api.KeyRing → Map api.KeyRing → Act api.World ⊤
  unfolding clear_all
  log_out_user config client user_kr addr_krs =
      if config.credential_cache_file == ""
      then (do
        service.auth_delete client
        modify (λ w. clear_all addr_krs (service.clear_private_params user_kr w)))
      else pure tt

  -- `Logout`; client and manager are closed whatever it ends in.
  unfoldable pub logout :
      Config → service.Manager → service.Client → api.KeyRing → Map api.KeyRing → Act api.World ⊤
  unfolding log_out_user
  logout config m client user_kr addr_krs w =
      let (r, w') = log_out_user config client user_kr addr_krs w in
      (r, service.close_manager m (service.close_client client w'))
