-- ===== src/Folder/Listing.antt =====
-- folder.go, `ListDirectory`: what a listing has.
use proton_api_bridge.Common.{
  ℕ, String, true, Option, some, List, [], ◌∷◌, All, ◌≡◌, refl, sym, ap, ◌∙◌, inl, inr, Bool-cases,
  if_then, if_else, if◌then◌else◌,
}
use proton_api_bridge.Action.{Outcome, ok, lift, >>=_step, then_step, else_step}
use proton_api_bridge.Proton.{Link, LinkState, is_folder, same_state}
use proton_api_bridge.Api.{Api}
use proton_api_bridge.Drive.{Drive, St, remote, get_signature_verification_keyring}
use proton_api_bridge.Links.{get_link, get_link_kr_by_id, unlock_link}
use proton_api_bridge.Folder.Defs.{
  DirectoryData, directory_entry, list_active, list_children_of, list_active_folder, list_directory,
}

-- The links in the active state, with these names.
abbrev pub active_entries : (Link → String) → List Link → List DirectoryData
active_entries name_of [] = []
active_entries name_of (child ∷ more) =
    if same_state child.state LinkState.active
    then record { link = child; name = name_of child; is_folder = is_folder child.type }
      ∷ active_entries name_of more
    else active_entries name_of more

module _ (api : Api) (drive : Drive api) (name_of : Link → String) where
  -- The link's name opens with this key ring.
  abbrev pub Opens : api.KeyRing → Link → Type 0
  Opens kr child =
      (v : api.KeyRing) × (get_signature_verification_keyring api drive
          (child.name_signature_email ∷ child.signature_email ∷ []) []
        ≡ ok v)
      × (api.link_get_name child kr v ≡ ok (name_of child))

  directory_entry_run :
      (kr : api.KeyRing) (child : Link) (s : St api)
      → Opens kr child
      → directory_entry api drive kr child s
        ≡ (ok (record { link = child; name = name_of child; is_folder = is_folder child.type }), s)
  unfolding directory_entry
  directory_entry_run kr child s (v, keyed, named) =
      >>=_step
        (lift (
          get_signature_verification_keyring api drive
            (child.name_signature_email ∷ child.signature_email ∷ []) []))
        _ s (ap (λ (q : Outcome api.KeyRing). (q, s)) keyed)
      ∙ >>=_step (lift (api.link_get_name child kr v)) _ s
          (ap (λ (q : Outcome String). (q, s)) named)

  list_active_run :
      (kr : api.KeyRing) (children : List Link) (s : St api)
      → All (Opens kr) children
      → list_active api drive kr children s ≡ (ok (active_entries name_of children), s)
  unfolding list_active
  list_active_run kr [] s opens = refl
  list_active_run kr (child ∷ more) s (here, rest) =
      elim (Bool-cases (same_state child.state LinkState.active)) [
        | inl on ↦
            then_step _ _ s on
            ∙ >>=_step (directory_entry api drive kr child) _ s
                (directory_entry_run kr child s here)
            ∙ >>=_step (list_active api drive kr more) _ s (list_active_run kr more s rest)
            ∙ ap (λ (q : List DirectoryData). (ok q, s)) (sym (if_then _ _ on))
        | inr off ↦
            else_step _ _ s off
            ∙ list_active_run kr more s rest
            ∙ ap (λ (q : List DirectoryData). (ok q, s)) (sym (if_else _ _ off))
      ]

  -- When the folder is an active link, its children are listed, the key rings of its parent and
  -- of the folder are found, and the names of the children open with the folder's,
  -- `ListDirectory` gives exactly the children in the active state, in their order, each with
  -- its name and whether it is a folder, and changes nothing beyond what finding the link and
  -- the key ring changed.
  pub list_directory_lem :
      (fuel : ℕ) (folder_link_id : String) (folder : Link) (children : List Link)
      (parent_kr kr : api.KeyRing) (s s1 s2 : St api)
      → get_link api drive folder_link_id s ≡ (ok folder, s1)
      → same_state folder.state LinkState.active ≡ true
      → api.list_children drive.main_share.share_id folder.link_id true s1.world
        ≡ (ok (some children), s1.world)
      → get_link_kr_by_id api drive fuel folder.parent_link_id s1 ≡ (ok parent_kr, s2)
      → unlock_link api drive folder parent_kr s2 ≡ (ok kr, s2)
      → All (Opens kr) children
      → list_directory api drive fuel folder_link_id s ≡ (ok (active_entries name_of children), s2)
  unfolding list_directory list_active_folder list_children_of
  list_directory_lem fuel folder_link_id folder children parent_kr kr s s1 s2 got active listed
        ringed unlocked opens =
      >>=_step (get_link api drive folder_link_id) _ s got
      ∙ then_step _ _ s1 active
      ∙ >>=_step (remote (api.list_children drive.main_share.share_id folder.link_id true)) _ s1 (
          ap (λ (q : Outcome (Option (List Link)) × api.World). (q.0, record s1 { world = q.1 }))
            listed)
      ∙ >>=_step (get_link_kr_by_id api drive fuel folder.parent_link_id) _ s1 ringed
      ∙ >>=_step (unlock_link api drive folder parent_kr) _ s2 unlocked
      ∙ list_active_run kr children s2 opens
