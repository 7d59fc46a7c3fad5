-- ===== src/Drive.antt =====
-- drive.go: the drive, the state of its process, and the key ring that verifies signatures.
use proton_api_bridge.Common.{
  String, Bool, Option, none, some, List, [], ◌∷◌, Map, lookup, eqb, if◌then◌else◌,
}
use proton_api_bridge.Action.{Outcome, ok, err, Act, no_keyring_for_signature_verification, bind}
use proton_api_bridge.Proton.{Link, Share, Address}
use proton_api_bridge.Api.{Api}
use proton_api_bridge.Cache.{Cache}

-- `ProtonDrive` without what changes: the cache and the client's side are in `St`. A map that
-- has no key ring for the main share's address gives a nil one.
pub record Drive (api : Api) : Type 0 where
  pub main_share : Share
  pub root_link : Link
  pub main_share_kr : api.KeyRing
  pub default_addr_kr : Option api.KeyRing
  pub replace_existing_draft : Bool
  pub data_folder_name : String
  pub addr_krs : Map api.KeyRing
  pub addr_data : Map Address
  pub signature_address : String

-- What a call of a method changes.
pub record St (api : Api) : Type 0 where
  pub cache : Cache api.KeyRing
  pub world : api.World

module _ {api : Api} {A : Type 0} where
  -- A call of code outside the process.
  abbrev pub remote : Act api.World A → Act (St api) A
  remote call s = let (r, w) = call s.world in (r, record s { world = w })

  -- A method of the cache.
  abbrev pub on_cache : Act (Cache api.KeyRing) A → Act (St api) A
  on_cache method s = let (r, c) = method s.cache in (r, record s { cache = c })

module _ (api : Api) where
  -- The inner loop of `addKeysFromKR`.
  unfoldable pub add_keys : api.KeyRing → List api.Key → Outcome api.KeyRing
  unfolding bind
  add_keys kr [] = ok kr
  add_keys kr (key ∷ more) = bind (api.add_key kr key) (λ grown. add_keys grown more)

  -- `addKeysFromKR`; the key ring that it extends is returned.
  unfoldable pub add_keys_from_kr : api.KeyRing → List (Option api.KeyRing) → Outcome api.KeyRing
  unfolding bind add_keys
  add_keys_from_kr kr [] = ok kr
  add_keys_from_kr kr (new ∷ more) =
      bind (api.get_keys new)
        (λ found. bind (add_keys kr found) (λ grown. add_keys_from_kr grown more))

module _ (api : Api) (drive : Drive api) where
  -- The loop over the email addresses.
  unfoldable pub add_addresses : api.KeyRing → List String → Outcome api.KeyRing
  unfolding bind add_keys_from_kr
  add_addresses kr [] = ok kr
  add_addresses kr (email ∷ more) = elim (lookup email drive.addr_data) [
    | none ↦ add_addresses kr more
    | some addr ↦
        bind (add_keys_from_kr api kr (lookup addr.id drive.addr_krs ∷ []))
          (λ grown. add_addresses grown more)
  ]

  -- `getSignatureVerificationKeyring`
  unfoldable pub get_signature_verification_keyring :
      List String → List (Option api.KeyRing) → Outcome api.KeyRing
  unfolding bind add_addresses
  get_signature_verification_keyring emails verification_krs = bind api.new_key_ring λ empty.
      bind (add_addresses empty emails) λ own.
        bind (add_keys_from_kr api own verification_krs) λ all.
          if eqb (api.count_entities all) 0
          then err no_keyring_for_signature_verification
          else ok all
