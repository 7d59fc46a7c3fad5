-- ===== src/Account/Opening.antt =====
-- drive.go, `NewProtonDrive`, with shares.go and volumes.go.
use proton_api_bridge.Common.{
  String, Bool, true, false, Option, List, [], ◌∷◌, lookup, ◌==◌, ◌&&◌, ◌||◌, not, if◌then◌else◌,
}
use proton_api_bridge.Action.{Act, ok, lift, fail_if, ◌>>=◌, ◌>>◌, main_share_preconditions_failed}
use proton_api_bridge.Proton.{Share}
use proton_api_bridge.Api.{Api}
use proton_api_bridge.Drive.{Drive, St}
use proton_api_bridge.Cache.{new_cache}
use proton_api_bridge.Account.Config.{Config, Credential}
use proton_api_bridge.Account.Service.{Service, Volume, ShareMetadata}
use proton_api_bridge.Account.Login.{LoginSt, LoggedIn, calling, login}

-- The share of the first active volume, or the empty text.
unfoldable pub main_share_id : List Volume → String
main_share_id [] = ""
main_share_id (v ∷ more) = if v.is_active then v.share_id else main_share_id more

-- The test for one share, and its loop.
abbrev pub is_main_share : Share → ShareMetadata → Bool
is_main_share main s =
    (s.share_id == main.share_id && s.link_id == main.link_id) && (s.is_primary && s.is_main)

unfoldable pub main_share_check : Share → List ShareMetadata → Bool
main_share_check main [] = false
main_share_check main (s ∷ more) = is_main_share main s || main_share_check main more

module _ (api : Api) (service : Service api) where
  -- `listAllVolumes`, `getShareByID` and `getAllShares`
  abbrev pub list_all_volumes : service.Client → Act api.World (List Volume)
  list_all_volumes client = service.list_volumes client

  abbrev pub get_share_by_id : service.Client → String → Act api.World Share
  get_share_by_id client share_id = service.get_share client share_id

  abbrev pub get_all_shares : service.Client → Act api.World (List ShareMetadata)
  get_all_shares client = service.list_shares client true

  -- `About`
  abbrev pub about : service.Client → Act api.World service.User
  about client = service.get_user client

  -- An open drive: the drive, its state at the beginning, and the credential of the login.
  pub record Opened : Type 0 where
    pub drive : Drive api
    pub state : St api
    pub credential : Option Credential

  -- The part of `NewProtonDrive` behind the login.
  unfoldable pub open_drive : LoggedIn api service → Config → Act (LoginSt api) Opened
  unfolding main_share_id main_share_check new_cache
  open_drive account config = do
    volumes ← calling (list_all_volumes account.client)
    main_share ← calling (get_share_by_id account.client (main_share_id volumes))
    shares ← calling (get_all_shares account.client)
    fail_if (not (main_share_check main_share shares)) main_share_preconditions_failed
    root_link ← calling (api.get_link main_share.share_id main_share.link_id)
    let addr_kr = lookup main_share.address_id account.addr_krs
    main_share_kr ← lift (service.share_get_key_ring main_share addr_kr)
    let opened_drive : Drive api = record {
      main_share = main_share;
      root_link = root_link;
      main_share_kr = main_share_kr;
      default_addr_kr = addr_kr;
      replace_existing_draft = config.replace_existing_draft;
      data_folder_name = config.data_folder_name;
      addr_krs = account.addr_krs;
      addr_data = account.addrs;
      signature_address = main_share.creator;
    }
    λ s. (
      ok (record {
        drive = opened_drive;
        state = record { cache = new_cache config.enable_caching; world = s.world };
        credential = account.credential;
      }),
      s,
    )

  -- `NewProtonDrive`
  unfoldable pub new_proton_drive : Act (LoginSt api) Opened
  unfolding login open_drive
  new_proton_drive = do account ← login api service; λ s. open_drive account s.config s
