-- ===== src/Account/Config.antt =====
-- common/config.go, and `ProtonDriveCredential` of common/user.go.
use proton_api_bridge.Common.{ℕ, String, Bool, true, false, ◌==◌}

-- `FirstLoginCredentialData`
pub record FirstLoginCredential : Type 0 where
  pub username : String
  pub password : String
  pub mailbox_password : String
  pub two_fa : String

-- `ReusableCredentialData`, and `ProtonDriveCredential`, which has the same fields.
pub record Credential : Type 0 where
  pub uid : String
  pub access_token : String
  pub refresh_token : String
  pub salted_key_pass : String

-- `Config`; the two credentials are behind pointers that are never nil in the configurations of
-- the program.
pub record Config : Type 0 where
  pub app_version : String
  pub drive_sdk_version : String
  pub user_agent : String
  pub first_login_credential : FirstLoginCredential
  pub reusable_credential : Credential
  pub use_reusable_login : Bool
  pub credential_cache_file : String
  pub destructive_integration_test : Bool
  pub empty_trash_after_integration_test : Bool
  pub replace_existing_draft : Bool
  pub enable_caching : Bool
  pub concurrent_block_upload_count : ℕ
  pub concurrent_file_crypto_count : ℕ
  pub data_folder_name : String

-- `NewConfigWithDefaultValues`; the argument is `runtime.GOMAXPROCS(0)`.
unfoldable pub new_config_with_default_values : ℕ → Config
new_config_with_default_values processors = record {
  app_version = "";
  drive_sdk_version = "";
  user_agent = "";
  first_login_credential = record {
    username = "";
    password = "";
    mailbox_password = "";
    two_fa = "";
  };
  reusable_credential = record {
    uid = "";
    access_token = "";
    refresh_token = "";
    salted_key_pass = "";
  };
  use_reusable_login = false;
  credential_cache_file = "";
  destructive_integration_test = false;
  empty_trash_after_integration_test = false;
  replace_existing_draft = false;
  enable_caching = true;
  concurrent_block_upload_count = 20;
  concurrent_file_crypto_count = processors;
  data_folder_name = "data";
}

-- `NewConfigForIntegrationTests`; `get_env` is `os.Getenv`.
unfoldable pub new_config_for_integration_tests : (String → String) → ℕ → Config
new_config_for_integration_tests get_env processors = record {
  app_version = get_env "PROTON_API_BRIDGE_APP_VERSION";
  drive_sdk_version = get_env "PROTON_API_BRIDGE_DRIVE_SDK_VERSION";
  user_agent = get_env "PROTON_API_BRIDGE_USER_AGENT";
  first_login_credential = record {
    username = get_env "PROTON_API_BRIDGE_TEST_USERNAME";
    password = get_env "PROTON_API_BRIDGE_TEST_PASSWORD";
    mailbox_password = "";
    two_fa = get_env "PROTON_API_BRIDGE_TEST_TWOFA";
  };
  reusable_credential = record {
    uid = get_env "PROTON_API_BRIDGE_TEST_UID";
    access_token = get_env "PROTON_API_BRIDGE_TEST_ACCESS_TOKEN";
    refresh_token = get_env "PROTON_API_BRIDGE_TEST_REFRESH_TOKEN";
    salted_key_pass = get_env "PROTON_API_BRIDGE_TEST_SALTEDKEYPASS";
  };
  use_reusable_login = get_env "PROTON_API_BRIDGE_TEST_USE_REUSABLE_LOGIN" == "1";
  credential_cache_file = ".credential";
  destructive_integration_test = true;
  empty_trash_after_integration_test = true;
  replace_existing_draft = false;
  enable_caching = true;
  concurrent_block_upload_count = 20;
  concurrent_file_crypto_count = processors;
  data_folder_name = "data";
}
