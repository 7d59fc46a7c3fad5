-- ===== src/Tests/Moves.antt =====
-- A move that the server has no method for.
use proton_api_bridge.Common.{
  ℕ, String, true, none, some, ◌==◌, ◌≡◌, refl, lookup, insert, inr, if◌then◌else◌,
}
use proton_api_bridge.Action.{ok, err, other, bind}
use proton_api_bridge.Proton.{MoveLinkReq}
use proton_api_bridge.Drive.{
  St, add_keys, add_keys_from_kr, add_addresses, get_signature_verification_keyring,
}
use proton_api_bridge.Cache.{Cache, new_cache, get, siblings, insert_link, insert_entry, set_kr}
use proton_api_bridge.Cache.Consistency.{IsConsistent, new_cache-IsConsistent}
use proton_api_bridge.Crypto.{reencrypt_key_packet}
use proton_api_bridge.Links.{
  cached_link, get_link_from, get_link, unlock_link, get_link_kr_by_id_from,
  get_link_kr_by_id_cached, get_link_kr_by_id_with, decrypt_and_cache, insert_and_retry,
  get_link_kr_found, get_link_kr_from, get_link_kr_cached, get_link_kr_choose, get_link_kr_with,
  get_link_kr, get_link_kr_by_id,
}
use proton_api_bridge.Invariant.Writes.{prepare_move-Keeps}
use proton_api_bridge.Folder.{prepare_move, move_link, move_link_compat}
use proton_api_bridge.Folder.Moves.{Names, move_link_evicts}
use proton_api_bridge.Tests.Server.{api, drive, link_at, start}
use proton_api_bridge.Tests.Walks.{identifies}

abbrev req : MoveLinkReq
req = record {
  parent_link_id = "root";
  name = "new";
  hash = "new";
  original_hash = "notes";
  node_passphrase = "armored";
  name_signature_email = some "me";
}

-- The state when the request is ready.
abbrev ready : St api
ready = (prepare_move api drive 4 (link_at "notes") (link_at "root") "new" (start true)).1

prepared :
    prepare_move api drive 4 (link_at "notes") (link_at "root") "new" (start true) ≡ (ok req, ready)
unfolding prepare_move cached_link get_link_from get_link unlock_link get_link_kr_by_id_from
    get_link_kr_by_id_cached get_link_kr_by_id_with decrypt_and_cache insert_and_retry
    get_link_kr_found get_link_kr_from get_link_kr_cached get_link_kr_choose get_link_kr_with
    get_link_kr get_link_kr_by_id new_cache get siblings insert_link insert_entry set_kr lookup
    insert add_keys add_keys_from_kr add_addresses get_signature_verification_keyring bind
    reencrypt_key_packet
prepared = refl

ready_on : ready.cache.enable_caching ≡ true
unfolding prepare_move cached_link get_link_from get_link unlock_link get_link_kr_by_id_from
    get_link_kr_by_id_cached get_link_kr_by_id_with decrypt_and_cache insert_and_retry
    get_link_kr_found get_link_kr_from get_link_kr_cached get_link_kr_choose get_link_kr_with
    get_link_kr get_link_kr_by_id new_cache get siblings insert_link insert_entry set_kr lookup
    insert add_keys add_keys_from_kr add_addresses get_signature_verification_keyring bind
    reencrypt_key_packet
ready_on = refl

no_method :
    move_link_compat api drive "share" "volume" "notes" req ready.world
    ≡ (err (other 1), ready.world)
unfolding move_link_compat
no_method = refl

move_link_evicts_example :
    (c : Cache ℕ) × (move_link api drive 4 (link_at "notes") (link_at "root") "new" (start true)
      ≡ (err (other 1), record { cache = c; world = ready.world }))
    × Names api drive 4 (link_at "notes") (link_at "root") req
    × IsConsistent c
    × ((j : String)
        → lookup j c.entries ≡ (if "notes" == j then none else lookup j ready.cache.entries))
move_link_evicts_example =
    move_link_evicts api drive 4 (link_at "notes") (link_at "root") "new" req (start true) ready
      ready.world (inr (other 1)) prepared ready_on
      ((prepare_move-Keeps api drive identifies 4 (link_at "notes") (link_at "root") "new").at
        (start true) (new_cache-IsConsistent true))
      no_method
