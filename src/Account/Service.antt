-- ===== src/Account/Service.antt =====
-- The calls that login and the opening of a drive make outside the program, as one record of
-- operations: the manager and the client of go-proton-api before the drive has them, the file for
-- the credential, and the shares and volumes of an account.
use proton_api_bridge.Common.{ℕ, String, Bool, Option, List, Map}
use proton_api_bridge.Action.{Outcome, Act, ⊤}
use proton_api_bridge.Proton.{Bytes, Share, Address}
use proton_api_bridge.Api.{Api}
use proton_api_bridge.Account.Config.{Credential}

-- `proton.Option`
pub data ManagerOption : Type 0 where
  with_app_version : String → ManagerOption
  with_retry_count : ℕ → ManagerOption
  with_user_agent : String → ManagerOption

-- `proton.Auth`: whether a TOTP code is wanted, and whether there are two passwords.
pub record Auth : Type 0 where
  pub uid : String
  pub access_token : String
  pub refresh_token : String
  pub has_totp : Bool
  pub two_password_mode : Bool

-- `proton.Volume`, and `proton.ShareMetadata` with its flags and type as the tests on them.
pub record Volume : Type 0 where
  pub is_active : Bool
  pub share_id : String

pub record ShareMetadata : Type 0 where
  pub share_id : String
  pub link_id : String
  pub is_primary : Bool
  pub is_main : Bool

pub record Service (api : Api) : Type 1 where
  pub Manager : Type 0
  pub Client : Type 0
  pub User : Type 0
  pub Salts : Type 0
  pub new_manager : List ManagerOption → Manager
  pub new_client : Manager → String → String → String → Client
  pub new_client_with_login : Manager → String → Bytes → Act api.World (Client × Auth)
  pub add_header : Client → String → String → Client
  pub add_auth_handler : Client → Client
  pub add_deauth_handler : Client → Client
  pub auth_2fa : Client → String → Act api.World ⊤
  pub auth_delete : Client → Act api.World ⊤
  pub close_manager : Manager → api.World → api.World
  pub close_client : Client → api.World → api.World
  -- The account and its keys.
  pub get_user : Client → Act api.World User
  pub get_addresses : Client → Act api.World (List Address)
  pub get_salts : Client → Act api.World Salts
  pub primary_key_id : User → Outcome String
  pub salt_for_key : Salts → Bytes → String → Outcome Bytes
  pub unlock : User → List Address → Bytes → Outcome (api.KeyRing × Map api.KeyRing)
  pub clear_private_params : api.KeyRing → api.World → api.World
  -- The file.
  pub marshal : Credential → Outcome String
  pub create_file : String → Act api.World ⊤
  pub write_string : String → String → Act api.World ⊤
  -- Volumes and shares.
  pub list_volumes : Client → Act api.World (List Volume)
  pub get_share : Client → String → Act api.World Share
  pub list_shares : Client → Bool → Act api.World (List ShareMetadata)
  pub share_get_key_ring : Share → Option api.KeyRing → Outcome api.KeyRing
