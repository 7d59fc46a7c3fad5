-- ===== src/Folder/Moves.antt =====
-- folder.go, `moveLink`: what a move leaves in the cache.
use proton_api_bridge.Common.{
  ℕ, String, true, false, Option, none, ◌==◌, lookup, ◌≡◌, refl, ap, ◌∙◌, ◌⊎◌, inl, inr,
  if◌then◌else◌,
}
use proton_api_bridge.Action.{Outcome, Error, ⊤, ok, err, ◌>>=◌, modify, >>=_step, >>=_stop}
use proton_api_bridge.Action.Gives.{Gives, gives_rules}
use proton_api_bridge.Proton.{Link, MoveLinkReq}
use proton_api_bridge.Api.{Api}
use proton_api_bridge.Drive.{Drive, St, remote}
use proton_api_bridge.Cache.{Cache}
use proton_api_bridge.Cache.Consistency.{IsConsistent}
use proton_api_bridge.Cache.Eviction.{remove_single}
use proton_api_bridge.Links.{remove_link_id_from_cache}
use proton_api_bridge.Folder.Defs.{prepare_move, move_link, move_link_compat}

module _ (api : Api) (drive : Drive api) (fuel : ℕ) where
  -- The request names the new parent and the old hash.
  abbrev pub Names : Link → Link → MoveLinkReq → Type 0
  Names src dst req = (req.parent_link_id ≡ dst.link_id) × (req.original_hash ≡ src.hash)

  request-Names :
      (src dst : Link) (name hash node_passphrase : String) (email : Option String)
      → Names src dst (record {
        parent_link_id = dst.link_id;
        name = name;
        hash = hash;
        original_hash = src.hash;
        node_passphrase = node_passphrase;
        name_signature_email = email;
      })
  request-Names src dst name hash node_passphrase email = (refl, refl)

  prepare_move-Gives :
      (src dst : Link) (name : String)
      → Gives (Names src dst) (prepare_move api drive fuel src dst name)
  unfolding prepare_move
  prepare_move-Gives src dst name = search (gives_rules, request-Names) depth 14 fits 4000

  -- The end of the move, and the pause behind it if it succeeded.
  abbrev pub moved_end : ⊤ ⊎ Error → Outcome ⊤
  moved_end (inl x) = ok tt
  moved_end (inr e) = err e

  abbrev pub pause : ⊤ ⊎ Error → api.World → api.World
  pause (inl x) w = api.sleep 5 w
  pause (inr e) w = w

  -- The last two steps of the move.
  finish_run :
      (link_id : String) (req : MoveLinkReq) (s : St api) (w : api.World) (r : ⊤ ⊎ Error)
      → move_link_compat api drive drive.main_share.share_id drive.main_share.volume_id link_id req
          s.world
        ≡ (moved_end r, w)
      → (remote (
              move_link_compat api drive drive.main_share.share_id drive.main_share.volume_id
                link_id req)
            >>= λ _. modify (λ t. record t { world = api.sleep 5 t.world }))
          s
        ≡ (moved_end r, record s { world = pause r w })
  finish_run link_id req s w (inl x) ran =
      >>=_step
        (remote (
          move_link_compat api drive drive.main_share.share_id drive.main_share.volume_id link_id
            req))
        _ s (ap (λ (q : Outcome ⊤ × api.World). (q.0, record s { world = q.1 })) ran)
  finish_run link_id req s w (inr e) ran =
      >>=_stop
        (remote (
          move_link_compat api drive drive.main_share.share_id drive.main_share.volume_id link_id
            req))
        _ s (ap (λ (q : Outcome ⊤ × api.World). (q.0, record s { world = q.1 })) ran)

  -- When the request of a move is ready, with a consistent cache that is on, and the server
  -- takes the move or refuses it: the request names the new parent and the link's old hash, the
  -- move ends as the server's answer says, and the cache that it leaves is consistent and has
  -- every entry as before but that of the link, which is gone also after a refusal.
  pub move_link_evicts :
      (src dst : Link) (name : String) (req : MoveLinkReq) (s s1 : St api) (w : api.World)
      (r : ⊤ ⊎ Error)
      → prepare_move api drive fuel src dst name s ≡ (ok req, s1)
      → s1.cache.enable_caching ≡ true
      → IsConsistent s1.cache
      → move_link_compat api drive drive.main_share.share_id drive.main_share.volume_id src.link_id
          req s1.world
        ≡ (moved_end r, w)
      → (c : Cache api.KeyRing) × (move_link api drive fuel src dst name s
          ≡ (moved_end r, record { cache = c; world = pause r w }))
        × Names src dst req
        × IsConsistent c
        × ((j : String)
            → lookup j c.entries ≡ (if src.link_id == j then none else lookup j s1.cache.entries))
  unfolding move_link remove_link_id_from_cache
  move_link_evicts src dst name req s s1 w r prepared on h moved =
      let (c, run, good, others) = remove_single src.link_id s1.cache on h in
      (
        c,
        >>=_step (prepare_move api drive fuel src dst name) _ s prepared
            ∙ >>=_step (remove_link_id_from_cache {api = api} src.link_id false) _ s1
                (ap (λ (q : Outcome ⊤ × Cache api.KeyRing). (q.0, record s1 { cache = q.1 })) run)
            ∙ finish_run src.link_id req (record s1 { cache = c }) w r moved,
        (prepare_move-Gives src dst name).at s req s1 prepared,
        good,
        others,
      )
