-- ===== src/Tests/Accounts.antt =====
-- A small account: logins, and the opening of its drive.
use proton_api_bridge.Common.{
  ℕ, ◌+◌, eqb, ◌==◌, if◌then◌else◌, String, true, false, none, List, [], ◌∷◌, ◌≡◌, refl, lookup,
}
use proton_api_bridge.Action.{
  ⊤, ok, err, other, main_share_preconditions_failed, two_fa_code_required,
}
use proton_api_bridge.Proton.{Bytes, Address}
use proton_api_bridge.Cache.{new_cache}
use proton_api_bridge.Account.{LoginSt, LoggedIn, login, open_drive}
use proton_api_bridge.Account.Config.{Config}
use proton_api_bridge.Account.Service.{Service, Auth, Volume, ShareMetadata}
use proton_api_bridge.Account.RoundTrip.{login-missing}
use proton_api_bridge.Account.MainShare.{open_drive_lem, open_drive_refused}
use proton_api_bridge.Tests.Server.{api, drive, link_at}

abbrev me : Address
me = record { id = "address"; email = "me" }

abbrev volumes : List Volume
volumes =
    record { is_active = false; share_id = "old" }
    ∷ record { is_active = true; share_id = "share" }
    ∷ []

abbrev main_metadata : ShareMetadata
main_metadata = record { share_id = "share"; link_id = "root"; is_primary = true; is_main = true }

abbrev other_metadata : ShareMetadata
other_metadata = record {
  share_id = "photos";
  link_id = "root";
  is_primary = true;
  is_main = false;
}

abbrev auth : Auth
auth = record {
  uid = "uid";
  access_token = "access";
  refresh_token = "refresh";
  has_totp = true;
  two_password_mode = false;
}

-- A service with these shares.
abbrev service_with : List ShareMetadata → Service api
service_with shares = record {
  Manager = ⊤;
  Client = ℕ;
  User = ⊤;
  Salts = ⊤;
  new_manager = λ options. tt;
  new_client = λ m uid access refresh. 7;
  new_client_with_login = λ m name password w. (ok (8, auth), w);
  add_header = λ client name value. client;
  add_auth_handler = λ client. client;
  add_deauth_handler = λ client. client;
  auth_2fa = λ client code w. if code == "123456" then (ok tt, w + 1) else (err (other 8002), w);
  auth_delete = λ client w. (ok tt, w);
  close_manager = λ m w. w;
  close_client = λ client w. w;
  get_user = λ client w. (ok tt, w);
  get_addresses = λ client w. (ok (me ∷ []), w);
  get_salts = λ client w. if eqb client 8 then (ok tt, w) else (err (other 9101), w);
  primary_key_id = λ user. ok "key";
  salt_for_key = λ salts key_pass key_id. ok (3 ∷ 5 ∷ []);
  unlock = λ user addresses salted. ok (4, ("address", 5) ∷ []);
  clear_private_params = λ kr w. w;
  marshal = λ credential. ok "json";
  create_file = λ name w. (ok tt, w);
  write_string = λ name content w. (ok tt, w);
  list_volumes = λ client w. (ok volumes, w);
  get_share = λ client share_id w. (ok drive.main_share, w);
  list_shares = λ client all w. (ok shares, w);
  share_get_key_ring = λ share kr. ok 10;
}

abbrev service : Service api
service = service_with (other_metadata ∷ main_metadata ∷ [])

abbrev config_with : String → Config
config_with code = record {
  app_version = "app";
  drive_sdk_version = "";
  user_agent = "";
  first_login_credential = record {
    username = "me";
    password = "secret";
    mailbox_password = "";
    two_fa = code;
  };
  reusable_credential = record {
    uid = "";
    access_token = "";
    refresh_token = "";
    salted_key_pass = "";
  };
  use_reusable_login = false;
  credential_cache_file = "";
  destructive_integration_test = false;
  empty_trash_after_integration_test = false;
  replace_existing_draft = false;
  enable_caching = true;
  concurrent_block_upload_count = 20;
  concurrent_file_crypto_count = 4;
  data_folder_name = "data";
}

abbrev salted : Bytes → Bytes
salted key_pass = 3 ∷ 5 ∷ []

abbrev without_code : LoginSt api
without_code = record { config = config_with ""; world = 100 }

login-missing_example : login api service without_code ≡ (err two_fa_code_required, without_code)
login-missing_example =
    login-missing api service without_code 8 auth 100 100 refl refl refl refl two_fa_code_required
      refl

abbrev with_code : LoginSt api
with_code = record { config = config_with "123456"; world = 100 }

-- What a login gives.
abbrev account_with : (shares : List ShareMetadata) → LoggedIn api (service_with shares)
account_with shares = record {
  manager = tt;
  client = 8;
  credential = none;
  user_kr = 4;
  addr_krs = ("address", 5) ∷ [];
  addrs = ("me", me) ∷ [];
}

-- The configuration with the credential.
abbrev with_credential : Config
with_credential = record (config_with "123456") {
  reusable_credential = record {
    uid = "uid";
    access_token = "access";
    refresh_token = "refresh";
    salted_key_pass = "hash";
  };
  use_reusable_login = true;
}

open_drive_lem_example :
    open_drive api service
      (account_with (other_metadata ∷ main_metadata ∷ []))
      (config_with "")
      without_code
    ≡ (
      ok (record {
        drive = drive;
        state = record { cache = new_cache true; world = 100 };
        credential = none;
      }),
      without_code,
    )
unfolding lookup
open_drive_lem_example =
    open_drive_lem api service (account_with (other_metadata ∷ main_metadata ∷ [])) (config_with "")
      without_code (record { is_active = false; share_id = "old" } ∷ [])
      (record { is_active = true; share_id = "share" }) [] (refl, tt) refl drive.main_share
      (other_metadata ∷ main_metadata ∷ []) refl refl refl (other_metadata ∷ []) [] main_metadata
      (link_at "root") 10 refl (refl, refl, refl, refl) refl refl

open_drive_refused_example :
    open_drive api
      (service_with (other_metadata ∷ []))
      (account_with (other_metadata ∷ []))
      (config_with "")
      without_code
    ≡ (err main_share_preconditions_failed, without_code)
open_drive_refused_example =
    open_drive_refused api (service_with (other_metadata ∷ [])) (account_with (other_metadata ∷ []))
      (config_with "") without_code (record { is_active = false; share_id = "old" } ∷ [])
      (record { is_active = true; share_id = "share" }) [] (refl, tt) refl drive.main_share
      (other_metadata ∷ []) refl refl refl ((λ (share, link, primary, main). cc main), tt)
