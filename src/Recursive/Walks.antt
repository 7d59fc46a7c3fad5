-- ===== src/Recursive/Walks.antt =====
-- folder_recursive.go, `listDirectoriesRecursively`: the paths that a walk lists, in a tree of
-- links that the server has.
use proton_api_bridge.Common.{
  ℕ, suc, ◌+◌, String, ◌<>◌, Bool, true, false, Option, some, List, [], ◌∷◌, ◌++◌, ◌&&◌, not, eqb,
  append_nil, append_assoc, ◌≡◌, refl, ap, sym, ◌∙◌, inl, inr, Bool-cases, if◌then◌else◌,
}
use proton_api_bridge.Action.{Act, Outcome, ⊤, ok, pure, lift, for_each, >>=_step, then_step}
use proton_api_bridge.Proton.{Link, LinkType, LinkState, same_type, same_state}
use proton_api_bridge.Api.{Api}
use proton_api_bridge.Drive.{Drive, St, remote, get_signature_verification_keyring}
use proton_api_bridge.Links.{unlock_link}
use proton_api_bridge.Search.Found.{
  Tree, Forest, root_of, links_of, Named, Has, has_leaf, has_folder, HasAll, has_end, has_next,
}
use proton_api_bridge.Recursive.Defs.{
  Disk, Walk, on_drive, add_path, goes_on, named_path, visit_children, visit_below,
  list_directories_recursively,
}
use proton_api_bridge.Recursive.Paths.{
  max_depth_of, is_within, path_at, entries, entries_all, picked, picked-append, picked_below,
  from_root, goes_on_lem,
}

module _ (api : Api) (drive : Drive api) (disk : Disk api) (file_fuel : ℕ) where
  abbrev pub at : St api → List String → Walk api
  at s ps = record { st = s; paths = some ps }

  on_drive_run :
      {A : Type 0} (m : Act (St api) A) (s : St api) (ps : List String) {a : A}
      → m s ≡ (ok a, s)
      → on_drive m (at s ps) ≡ (ok a, at s ps)
  on_drive_run m s ps ran = ap (λ r. (r.0, at r.1 ps)) ran

  named_path_run :
      (kr : api.KeyRing) (l : Link) (name path : String) (s : St api) (ps : List String)
      → Named api drive l kr name
      → named_path api drive disk file_fuel kr l path (at s ps)
        ≡ (ok (path <> "/" <> name), at s (ps ++ (path <> "/" <> name) ∷ []))
  unfolding named_path add_path
  named_path_run kr l name path s ps (v, keyed, named) =
      >>=_step
        (lift (
          get_signature_verification_keyring api drive
            (l.name_signature_email ∷ l.signature_email ∷ []) []))
        _ (at s ps) (ap (λ (q : Outcome api.KeyRing). (q, at s ps)) keyed)
      ∙ >>=_step (lift (api.link_get_name l kr v)) _ (at s ps)
          (ap (λ (q : Outcome String). (q, at s ps)) named)

  module _ (limit : Option ℕ) (ex : Bool) where
    abbrev pub walk : ℕ → api.KeyRing → Link → ℕ → String → Act (Walk api) ⊤
    walk fuel kr l d path =
        list_directories_recursively api drive disk file_fuel fuel kr l false (max_depth_of limit) d
          ex path

    -- The path of one link within the limit.
    path_run :
        (kr : api.KeyRing) (l : Link) (name path : String) (d : ℕ) (s : St api) (ps : List String)
        → Named api drive l kr name
        → is_within limit d ≡ true
        → (if ex && eqb d 0 then pure "" else named_path api drive disk file_fuel kr l path)
            (at s ps)
          ≡ (
            ok (path_at ex d path name),
            at s (ps ++ picked limit ex ((d, path_at ex d path name) ∷ [])),
          )
    unfolding picked
    path_run kr l name path d s ps named within = elim (Bool-cases (ex && eqb d 0)) [
      | inl on ↦ rw (within, on) (ap (λ q. (ok "", at s q)) (sym (append_nil ps)))
      | inr off ↦ rw (within, off) (named_path_run kr l name path s ps named)
    ]

    walk_link :
        (fuel : ℕ) (kr : api.KeyRing) (l : Link) (name path : String) (d : ℕ) (s : St api)
        (ps below : List String)
        → Named api drive l kr name
        → is_within limit d ≡ true
        → ((qs : List String)
            → visit_below api drive disk file_fuel
                (λ own child. walk fuel own child (d + 1) (path_at ex d path name))
                kr
                l
                (goes_on (max_depth_of limit) d)
                (at s qs)
              ≡ (ok tt, at s (qs ++ below)))
        → walk (suc fuel) kr l d path (at s ps) ≡ (
          ok tt,
          at s (
              ps
              ++ (if not (same_state l.state LinkState.active)
                  then []
                  else picked limit ex ((d, path_at ex d path name) ∷ []) ++ below)),
        )
    unfolding list_directories_recursively
    walk_link fuel kr l name path d s ps below named within run =
        elim (Bool-cases (same_state l.state LinkState.active)) [
          | inr off ↦ rw off (ap (λ q. (ok tt, at s q)) (sym (append_nil ps)))
          | inl on ↦ rw on (
              >>=_step
                (if ex && eqb d 0 then pure "" else named_path api drive disk file_fuel kr l path) _
                (at s ps) (path_run kr l name path d s ps named within)
              ∙ run (ps ++ picked limit ex ((d, path_at ex d path name) ∷ []))
              ∙ ap (λ q. (ok tt, at s q))
                  (append_assoc ps (picked limit ex ((d, path_at ex d path name) ∷ [])) below))
        ]

    -- What is picked at one link and below it.
    picked-cons :
        (l : Link) (d : ℕ) (here : String) (more : List (ℕ × String))
        → (if not (same_state l.state LinkState.active)
            then []
            else picked limit ex ((d, here) ∷ []) ++ picked limit ex more)
          ≡ picked limit ex
              (if not (same_state l.state LinkState.active) then [] else (d, here) ∷ more)
    unfolding picked
    picked-cons l d here more = elim (Bool-cases (same_state l.state LinkState.active)) [
      | inr off ↦ rw off refl
      | inl on ↦ rw on (sym (picked-append limit ex ((d, here) ∷ []) more))
    ]

    leaf_run :
        (visit : api.KeyRing → Link → Act (Walk api) ⊤) (kr : api.KeyRing) (l : Link) (d : ℕ)
        (s : St api) (ps : List String)
        → same_type l.type LinkType.folder ≡ false
        → visit_below api drive disk file_fuel visit kr l (goes_on (max_depth_of limit) d) (at s ps)
          ≡ (ok tt, at s (ps ++ []))
    unfolding visit_below
    leaf_run visit kr l d s ps is_file = elim (Bool-cases (goes_on (max_depth_of limit) d)) [
      | inl on ↦ rw (on, is_file) (ap (λ q. (ok tt, at s q)) (sym (append_nil ps)))
      | inr off ↦ rw off (ap (λ q. (ok tt, at s q)) (sym (append_nil ps)))
    ]

    folder_run :
        (visit : api.KeyRing → Link → Act (Walk api) ⊤) (kr own : api.KeyRing) (l : Link)
        (children : List Link) (s : St api) (ps : List String) {r : Walk api}
        → same_type l.type LinkType.folder ≡ true
        → ((w : api.World)
            → api.list_children drive.main_share.share_id l.link_id true w
              ≡ (ok (some children), w))
        → unlock_link api drive l kr s ≡ (ok own, s)
        → for_each (visit own) children (at s ps) ≡ (ok tt, r)
        → visit_below api drive disk file_fuel visit kr l true (at s ps) ≡ (ok tt, r)
    unfolding visit_below visit_children
    folder_run visit kr own l children s ps is_folder listed opens run =
        then_step _ _ (at s ps) is_folder
        ∙ >>=_step (on_drive (remote (api.list_children drive.main_share.share_id l.link_id true)))
            _ (at s ps)
            (on_drive_run (remote (api.list_children drive.main_share.share_id l.link_id true)) s ps
              (ap
                (λ (q : Outcome (Option (List Link)) × api.World). (q.0, record s { world = q.1 }))
                (listed s.world)))
        ∙ >>=_step (on_drive (unlock_link api drive l kr)) _ (at s ps)
            (on_drive_run (unlock_link api drive l kr) s ps opens)
        ∙ run

    stop_run :
        (visit : api.KeyRing → Link → Act (Walk api) ⊤) (kr : api.KeyRing) (l : Link) (s : St api)
        (ps : List String)
        → visit_below api drive disk file_fuel visit kr l false (at s ps) ≡ (ok tt, at s ps)
    unfolding visit_below
    stop_run visit kr l s ps = refl

    mutual
      unfolding entries picked for_each

      Has-walk :
          {n : ℕ} {kr : api.KeyRing} {t : Tree api.KeyRing} (d : ℕ) (path : String) (s : St api)
          (ps : List String)
          → Has api drive n kr t
          → is_within limit d ≡ true
          → walk n kr (root_of t) d path (at s ps)
            ≡ (ok tt, at s (ps ++ picked limit ex (entries ex d path t)))
      Has-walk {kr} d path s ps (has_leaf {n = n} {l = l} {name = name} named is_file) within =
          walk_link n kr l name path d s ps [] named within (λ qs.
            leaf_run (λ own child. walk n own child (d + 1) (path_at ex d path name)) kr l d s qs
              is_file)
          ∙ ap (λ q. (ok tt, at s (ps ++ q))) (picked-cons l d (path_at ex d path name) [])
      Has-walk {kr} d path s ps
            (has_folder {n = n} {own = own} {l = l} {name = name} {kids = kids} named is_folder
              listed opens below)
            within =
          walk_link n kr l name path d s ps
            (picked limit ex (entries_all ex (d + 1) (path_at ex d path name) kids)) named within
            (λ qs. elim (Bool-cases (goes_on (max_depth_of limit) d)) [
              | inl on ↦ rw on (
                  folder_run (λ own child. walk n own child (d + 1) (path_at ex d path name)) kr own
                    l (links_of kids) s qs is_folder listed (opens s)
                    (HasAll-walk (d + 1) (path_at ex d path name) s qs below
                      (goes_on_lem limit d on)))
              | inr off ↦ rw off (
                  stop_run (λ own child. walk n own child (d + 1) (path_at ex d path name)) kr l s
                    qs
                  ∙ ap (λ q. (ok tt, at s q))
                      (sym (
                        ap (λ q. qs ++ q)
                          (picked_below limit ex d (path_at ex d path name) kids off)
                        ∙ append_nil qs)))
            ])
          ∙ ap (λ q. (ok tt, at s (ps ++ q)))
              (picked-cons l d (path_at ex d path name)
                (entries_all ex (d + 1) (path_at ex d path name) kids))

      HasAll-walk :
          {n : ℕ} {kr : api.KeyRing} {kids : Forest api.KeyRing} (d : ℕ) (path : String)
          (s : St api) (ps : List String)
          → HasAll api drive n kr kids
          → is_within limit d ≡ true
          → for_each (λ child. walk n kr child d path) (links_of kids) (at s ps)
            ≡ (ok tt, at s (ps ++ picked limit ex (entries_all ex d path kids)))
      HasAll-walk d path s ps has_end within = ap (λ q. (ok tt, at s q)) (sym (append_nil ps))
      HasAll-walk {n} {kr} d path s ps (has_next {t = t} {more = more} here rest) within =
          >>=_step (walk n kr (root_of t) d path) _ (at s ps) (Has-walk d path s ps here within)
          ∙ HasAll-walk d path s (ps ++ picked limit ex (entries ex d path t)) rest within
          ∙ ap (λ q. (ok tt, at s q))
              (append_assoc ps (picked limit ex (entries ex d path t))
                  (picked limit ex (entries_all ex d path more))
                ∙ ap (λ q. ps ++ q)
                    (sym
                      (picked-append limit ex (entries ex d path t) (entries_all ex d path more))))

    -- In a tree that the server has, whose names and key rings open, with fuel for its height,
    -- the walk that does not download ends without an error, changes neither cache nor server,
    -- and adds to the paths those of the active links of the tree, the parent before its
    -- children, without what stands below a link that is not active, down to the greatest depth
    -- if there is one, and without the root's own if that is left out.
    pub list_directories_recursively_lem :
        (n : ℕ) (kr : api.KeyRing) (t : Tree api.KeyRing) (s : St api) (ps : List String)
        → Has api drive n kr t
        → list_directories_recursively api drive disk file_fuel n kr
            (root_of t)
            false
            (max_depth_of limit)
            0
            ex
            ""
            (record { st = s; paths = some ps })
          ≡ (ok tt, record { st = s; paths = some (ps ++ picked limit ex (entries ex 0 "" t)) })
    list_directories_recursively_lem n kr t s ps has = Has-walk 0 "" s ps has (from_root limit)
