-- ===== src/Account/MainShare.antt =====
-- drive.go, `NewProtonDrive`: the share that a drive opens, and the test of it.
use proton_api_bridge.Common.{
  Bool, true, false, ◌==◌, ◌&&◌, eq_of_test, test_of_eq, Bool-cases, and_cases, inl, inr, List, [],
  ◌∷◌, ◌++◌, All, lookup, not, ◌||◌, ◌≡◌, refl, ap, ◌∙◌, if_then, if_else,
}
use proton_api_bridge.Action.{
  Act, Outcome, ok, err, lift, fail_if, >>=_step, >>=_stop, main_share_preconditions_failed,
}
use proton_api_bridge.Proton.{Link, Share}
use proton_api_bridge.Api.{Api}
use proton_api_bridge.Cache.{new_cache}
use proton_api_bridge.Account.Config.{Config}
use proton_api_bridge.Account.Service.{Service, Volume, ShareMetadata}
use proton_api_bridge.Account.Login.{LoginSt, LoggedIn, calling}
use proton_api_bridge.Account.Opening.{main_share_id, is_main_share, main_share_check, open_drive}

-- The first volume that is active gives the share.
main_share_id-append :
    (before : List Volume) (v : Volume) (after : List Volume)
    → All (λ u. u.is_active ≡ false) before
    → v.is_active ≡ true
    → main_share_id (before ++ v ∷ after) ≡ v.share_id
unfolding main_share_id
main_share_id-append [] v after none_active active = if_then _ _ active
main_share_id-append (u ∷ before) v after (here, there) active =
    if_else _ _ here ∙ main_share_id-append before v after there active

-- The listed share is this one, primary, and of the main type.
abbrev pub IsMain : Share → ShareMetadata → Type 0
IsMain main m =
    (m.share_id ≡ main.share_id)
    × (m.link_id ≡ main.link_id)
    × (m.is_primary ≡ true)
    × (m.is_main ≡ true)

is_main_share-IsMain :
    (main : Share) (m : ShareMetadata) → is_main_share main m ≡ true → IsMain main m
is_main_share-IsMain main m e =
    let (same, kinds) =
      and_cases (m.share_id == main.share_id && m.link_id == main.link_id)
        (m.is_primary && m.is_main) e in
    let (share, link) = and_cases (m.share_id == main.share_id) (m.link_id == main.link_id) same in
    let (primary, main_type) = and_cases m.is_primary m.is_main kinds in
    (
      eq_of_test m.share_id main.share_id share,
      eq_of_test m.link_id main.link_id link,
      primary,
      main_type,
    )

IsMain-is_main_share :
    (main : Share) (m : ShareMetadata) → IsMain main m → is_main_share main m ≡ true
IsMain-is_main_share main m (share, link, primary, main_type) =
    rw
      (
        test_of_eq m.share_id main.share_id share,
        test_of_eq m.link_id main.link_id link,
        primary,
        main_type,
      )
      refl

not-IsMain : (main : Share) (m : ShareMetadata) → ¬ (IsMain main m) → is_main_share main m ≡ false
not-IsMain main m other = elim (Bool-cases (is_main_share main m)) [
  | inl is ↦ absurd (other (is_main_share-IsMain main m is))
  | inr off ↦ off
]

main_share_check-All :
    (main : Share) (shares : List ShareMetadata)
    → All (λ m. ¬ (IsMain main m)) shares
    → main_share_check main shares ≡ false
unfolding main_share_check
main_share_check-All main [] fails = refl
main_share_check-All main (m ∷ more) (here, there) =
    rw (not-IsMain main m here) (main_share_check-All main more there)

or_true : (b : Bool) → (b || true) ≡ true
or_true true = refl
or_true false = refl

main_share_check-append :
    (main : Share) (before : List ShareMetadata) (m : ShareMetadata) (after : List ShareMetadata)
    → is_main_share main m ≡ true
    → main_share_check main (before ++ m ∷ after) ≡ true
unfolding main_share_check
main_share_check-append main [] m after is = ap (λ b. b || main_share_check main after) is
main_share_check-append main (u ∷ before) m after is =
    ap (λ b. is_main_share main u || b) (main_share_check-append main before m after is)
    ∙ or_true (is_main_share main u)

module _ (api : Api) (service : Service api) (account : LoggedIn api service) (config : Config)
    (s : LoginSt api) (before : List Volume) (v : Volume) (after : List Volume)
    (none_active : All (λ u. u.is_active ≡ false) before) (active : v.is_active ≡ true)
    (main : Share) (shares : List ShareMetadata)
    (volumes_listed : service.list_volumes account.client s.world
      ≡ (ok (before ++ v ∷ after), s.world))
    (share_found : service.get_share account.client v.share_id s.world ≡ (ok main, s.world))
    (shares_listed : service.list_shares account.client true s.world ≡ (ok shares, s.world)) where
  calling_run :
      {A : Type 0} (call : Act api.World A) {a : A}
      → call s.world ≡ (ok a, s.world)
      → calling call s ≡ (ok a, s)
  calling_run call ran = ap (λ r. (r.0, record s { world = r.1 })) ran

  main_share_run :
      calling (service.get_share account.client (main_share_id (before ++ v ∷ after))) s
      ≡ (ok main, s)
  main_share_run =
      rw (main_share_id-append before v after none_active active)
        (calling_run (service.get_share account.client v.share_id) share_found)

  -- When the volumes, the share of the first active one and the shares are found, and none of
  -- the listed shares has that share's id and its link's id and is primary and of the main kind,
  -- the opening of the drive ends with ErrMainSharePreconditionsFailed.
  pub open_drive_refused :
      All (λ m. ¬ (IsMain main m)) shares
      → open_drive api service account config s ≡ (err main_share_preconditions_failed, s)
  unfolding open_drive
  open_drive_refused not_main =
      >>=_step (calling (service.list_volumes account.client)) _ s
        (calling_run (service.list_volumes account.client) volumes_listed)
      ∙ >>=_step (calling (service.get_share account.client (main_share_id (before ++ v ∷ after))))
          _ s main_share_run
      ∙ >>=_step (calling (service.list_shares account.client true)) _ s
          (calling_run (service.list_shares account.client true) shares_listed)
      ∙ >>=_stop (fail_if (not (main_share_check main shares)) main_share_preconditions_failed) _ s
          (ap (λ b. fail_if {S = LoginSt api} (not b) main_share_preconditions_failed s)
            (main_share_check-All main shares not_main))

  -- When the volumes, the share of the first active one, the shares, the root link and the key
  -- ring of the share are found, and one of the listed shares has that share's id and its link's
  -- id and is primary and of the main kind: the drive that is opened has that share, its root
  -- link, its key ring and its creator's address for signatures, and starts with an empty cache
  -- that is on exactly if the configuration says so.
  pub open_drive_lem :
      (first more : List ShareMetadata) (m : ShareMetadata) (root_link : Link)
      (main_kr : api.KeyRing)
      → shares ≡ first ++ m ∷ more
      → IsMain main m
      → api.get_link main.share_id main.link_id s.world ≡ (ok root_link, s.world)
      → service.share_get_key_ring main (lookup main.address_id account.addr_krs) ≡ ok main_kr
      → open_drive api service account config s ≡ (
        ok (record {
          drive = record {
            main_share = main;
            root_link = root_link;
            main_share_kr = main_kr;
            default_addr_kr = lookup main.address_id account.addr_krs;
            replace_existing_draft = config.replace_existing_draft;
            data_folder_name = config.data_folder_name;
            addr_krs = account.addr_krs;
            addr_data = account.addrs;
            signature_address = main.creator;
          };
          state = record { cache = new_cache config.enable_caching; world = s.world };
          credential = account.credential;
        }),
        s,
      )
  unfolding open_drive
  open_drive_lem first more m root_link main_kr split is found opened =
      >>=_step (calling (service.list_volumes account.client)) _ s
        (calling_run (service.list_volumes account.client) volumes_listed)
      ∙ >>=_step (calling (service.get_share account.client (main_share_id (before ++ v ∷ after))))
          _ s main_share_run
      ∙ >>=_step (calling (service.list_shares account.client true)) _ s
          (calling_run (service.list_shares account.client true) shares_listed)
      ∙ >>=_step (fail_if (not (main_share_check main shares)) main_share_preconditions_failed) _ s
          (ap (λ b. fail_if {S = LoginSt api} (not b) main_share_preconditions_failed s)
            (ap (main_share_check main) split
              ∙ main_share_check-append main first m more (IsMain-is_main_share main m is)))
      ∙ >>=_step (calling (api.get_link main.share_id main.link_id)) _ s
          (calling_run (api.get_link main.share_id main.link_id) found)
      ∙ >>=_step (lift (service.share_get_key_ring main (lookup main.address_id account.addr_krs)))
          _ s (ap (λ (r : Outcome api.KeyRing). (r, s)) opened)
