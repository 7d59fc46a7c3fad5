-- ===== src/Search/Folder.antt =====
-- search.go, `SearchByNameInActiveFolder`: a name that is taken in the folder.
use proton_api_bridge.Common.{
  String, ℕ, Bool, true, false, Option, some, List, [], ◌∷◌, ◌++◌, ◌&&◌, ◌||◌, ◌==◌, ◌⊎◌, inl, inr,
  and_cases, or_cases, Bool-cases, eq_of_test, test_of_eq, not, All, refl, ◌≡◌, ap, ◌∙◌, if_then,
  if_else,
}
use proton_api_bridge.Action.{Outcome, ok, >>=_step, else_step}
use proton_api_bridge.Proton.{
  Link, LinkType, LinkState, same_type, same_state, LinkType-same, LinkState-same, same_state_refl,
}
use proton_api_bridge.Api.{Api}
use proton_api_bridge.Drive.{Drive, St, remote}
use proton_api_bridge.Search.Defs.{
  is_target, find_child, target_name_hash, search_taken, search_active,
  search_by_name_in_active_folder,
}

-- A child with the state and the hash, and of a kind that is searched for.
abbrev pub Matches : String → Bool → Bool → LinkState → Link → Type 0
Matches hash for_file for_folder state l =
    (l.state ≡ state)
    × (l.hash ≡ hash)
    × ((for_file ≡ true × l.type ≡ LinkType.file) ⊎ (for_folder ≡ true × l.type ≡ LinkType.folder))

is_target-Matches :
    (hash : String) (for_file for_folder : Bool) (state : LinkState) (l : Link)
    → is_target hash for_file for_folder state l ≡ true
    → Matches hash for_file for_folder state l
unfolding is_target
is_target-Matches hash for_file for_folder state l e =
    let (states, kinds) =
      and_cases (same_state l.state state)
        ((for_file && same_type l.type LinkType.file && l.hash == hash)
          || (for_folder && same_type l.type LinkType.folder && l.hash == hash))
        e in
    elim (or_cases (for_file && same_type l.type LinkType.file && l.hash == hash)
      (for_folder && same_type l.type LinkType.folder && l.hash == hash) kinds) [
        | inl file ↦
            let (kind, hashes) =
              and_cases (for_file && same_type l.type LinkType.file) (l.hash == hash) file in
            let (wanted, type) = and_cases for_file (same_type l.type LinkType.file) kind in
            (
              LinkState-same l.state state states,
              eq_of_test l.hash hash hashes,
              inl (wanted, LinkType-same l.type LinkType.file type),
            )
        | inr folder ↦
            let (kind, hashes) =
              and_cases (for_folder && same_type l.type LinkType.folder) (l.hash == hash) folder in
            let (wanted, type) = and_cases for_folder (same_type l.type LinkType.folder) kind in
            (
              LinkState-same l.state state states,
              eq_of_test l.hash hash hashes,
              inr (wanted, LinkType-same l.type LinkType.folder type),
            )
      ]

or_true : (b : Bool) → (b || true) ≡ true
or_true true = refl
or_true false = refl

Matches-is_target :
    (hash : String) (for_file for_folder : Bool) (state : LinkState) (l : Link)
    → Matches hash for_file for_folder state l
    → is_target hash for_file for_folder state l ≡ true
unfolding is_target
Matches-is_target hash for_file for_folder state l (states, hashes, inl (wanted, type)) =
    rw (states, same_state_refl state, type, test_of_eq l.hash hash hashes, wanted) refl
Matches-is_target hash for_file for_folder state l (states, hashes, inr (wanted, type)) =
    rw (states, same_state_refl state, type, test_of_eq l.hash hash hashes, wanted)
      (or_true (for_file && false && true))

not-Matches :
    (hash : String) (for_file for_folder : Bool) (state : LinkState) (ls : List Link)
    → All (λ l. ¬ (Matches hash for_file for_folder state l)) ls
    → All (λ l. is_target hash for_file for_folder state l ≡ false) ls
not-Matches hash for_file for_folder state [] none_before = tt
not-Matches hash for_file for_folder state (l ∷ ls) (here, rest) = (
  elim (Bool-cases (is_target hash for_file for_folder state l)) [
    | inl is ↦ absurd (here (is_target-Matches hash for_file for_folder state l is))
    | inr off ↦ off
  ],
  not-Matches hash for_file for_folder state ls rest,
)

-- The first child that the test accepts is found.
find_child-append :
    (test : Link → Bool) (before : List Link) (child : Link) (after : List Link)
    → All (λ l. test l ≡ false) before
    → test child ≡ true
    → find_child test (before ++ child ∷ after) ≡ some child
unfolding find_child
find_child-append test [] child after none_before found = if_then _ _ found
find_child-append test (l ∷ before) child after (here, rest) found =
    if_else _ _ here ∙ find_child-append test before child after rest found

module _ (api : Api) (drive : Drive api) (fuel : ℕ) where
  -- When the folder is an active folder, a kind of link is searched for, the name's hash is
  -- found and reported as taken, and the children are listed, the search gives the first child
  -- that is in the state that is searched for, is a file or a folder as is searched for, and has
  -- the hash; none of the children before it is so.
  pub search_by_name_in_active_folder_lem :
      (folder_link : Link) (target_name hash : String) (for_file for_folder : Bool)
      (target_state : LinkState) (before : List Link) (child : Link) (after : List Link)
      (s s1 : St api) (w1 w2 : api.World)
      → (not for_file && not for_folder) ≡ false
      → same_type folder_link.type LinkType.folder ≡ true
      → same_state folder_link.state LinkState.active ≡ true
      → target_name_hash api drive fuel folder_link target_name s ≡ (ok hash, s1)
      → api.check_available_hashes drive.main_share.share_id folder_link.link_id
          (hash ∷ [])
          s1.world
        ≡ (ok [], w1)
      → api.list_children drive.main_share.share_id folder_link.link_id true w1
        ≡ (ok (some (before ++ child ∷ after)), w2)
      → All (λ l. ¬ (Matches hash for_file for_folder target_state l)) before
      → Matches hash for_file for_folder target_state child
      → search_by_name_in_active_folder api drive fuel folder_link target_name for_file for_folder
          target_state s
        ≡ (ok (some child), record s1 { world = w2 })
  unfolding search_by_name_in_active_folder search_active search_taken
  search_by_name_in_active_folder_lem folder_link target_name hash for_file for_folder target_state
        before child after s s1 w1 w2 some_kind a_folder active hashed taken listed none_before
        found =
      else_step _ _ s some_kind
      ∙ else_step _ _ s (ap not a_folder)
      ∙ else_step _ _ s (ap not active)
      ∙ >>=_step (target_name_hash api drive fuel folder_link target_name) _ s hashed
      ∙ >>=_step
          (remote
            (api.check_available_hashes drive.main_share.share_id folder_link.link_id (hash ∷ [])))
          _ s1
          (ap (λ (q : Outcome (List String) × api.World). (q.0, record s1 { world = q.1 })) taken)
      ∙ >>=_step (remote (api.list_children drive.main_share.share_id folder_link.link_id true)) _
          (record s1 { world = w1 })
          (ap (λ (q : Outcome (Option (List Link)) × api.World). (q.0, record s1 { world = q.1 }))
            listed)
      ∙ ap (λ (r : Option Link). (ok r, record s1 { world = w2 }))
          (find_child-append (is_target hash for_file for_folder target_state) before child after
            (not-Matches hash for_file for_folder target_state before none_before)
            (Matches-is_target hash for_file for_folder target_state child found))
