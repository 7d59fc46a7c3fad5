-- ===== src/Search/Found.antt =====
-- search.go, search_recursive.go: what a search gives, in a tree of links that the server has.
use proton_api_bridge.Common.{
  ℕ, suc, String, Bool, true, false, Option, none, some, List, [], ◌∷◌, ◌==◌, ◌&&◌, not, ◌≡◌, refl,
  ap, ◌∙◌, if◌then◌else◌,
}
use proton_api_bridge.Action.{Act, Outcome, ok, pure, lift, >>=_step, then_step, else_step}
use proton_api_bridge.Proton.{Link, LinkType, LinkState, same_type}
use proton_api_bridge.Api.{Api}
use proton_api_bridge.Drive.{Drive, St, remote, get_signature_verification_keyring}
use proton_api_bridge.Links.{unlock_link}
use proton_api_bridge.Search.Defs.{
  is_searched, search_children, search_folder, perform_search_by_name_recursively,
}

mutual
  -- A link with its name; a folder with its key ring and what is in it.
  pub data Tree (KeyRing : Type 0) : Type 0 where
    leaf : Link → String → Tree KeyRing
    folder : Link → String → KeyRing → Forest KeyRing → Tree KeyRing

  pub data Forest (KeyRing : Type 0) : Type 0 where
    end : Forest KeyRing
    next : Tree KeyRing → Forest KeyRing → Forest KeyRing

abbrev pub root_of : {KeyRing : Type 0} → Tree KeyRing → Link
root_of (leaf l name) = l
root_of (folder l name kr kids) = l

abbrev pub links_of : {KeyRing : Type 0} → Forest KeyRing → List Link
links_of end = []
links_of (next t more) = root_of t ∷ links_of more

abbrev pub or_else : {A : Type 0} → Option A → Option A → Option A
or_else none b = b
or_else (some a) b = some a

module _ {KeyRing : Type 0} (searched : LinkState → Bool) (is_wanted : Link → String → Bool) where
  -- The first wanted link in the order parent before children, without what is below a link
  -- whose state is not searched.
  unfoldable mutual
    pub first_in : Tree KeyRing → Option Link
    first_in (leaf l name) =
        if not (searched l.state) then none else if is_wanted l name then some l else none
    first_in (folder l name kr kids) =
        if not (searched l.state)
        then none
        else if is_wanted l name
        then some l
        else first_among kids

    pub first_among : Forest KeyRing → Option Link
    first_among end = none
    first_among (next t more) = or_else (first_in t) (first_among more)

module _ (api : Api) (drive : Drive api) where
  -- The link's name opens with its parent's key ring.
  abbrev pub Named : Link → api.KeyRing → String → Type 0
  Named l parent_kr name =
      (v : api.KeyRing) × (get_signature_verification_keyring api drive
          (l.name_signature_email ∷ l.signature_email ∷ []) []
        ≡ ok v)
      × (api.link_get_name l parent_kr v ≡ ok name)

  mutual
    -- The server has this tree, whose height the number bounds, and its names and key rings open.
    pub data Has : ℕ → api.KeyRing → Tree api.KeyRing → Type 0 where
      has_leaf :
          {n : ℕ} {kr : api.KeyRing} {l : Link} {name : String}
          → Named l kr name
          → same_type l.type LinkType.folder ≡ false
          → Has (suc n) kr (leaf l name)
      has_folder :
          {n : ℕ} {kr own : api.KeyRing} {l : Link} {name : String} {kids : Forest api.KeyRing}
          → Named l kr name
          → same_type l.type LinkType.folder ≡ true
          → ((w : api.World)
              → api.list_children drive.main_share.share_id l.link_id true w
                ≡ (ok (some (links_of kids)), w))
          → ((s : St api) → unlock_link api drive l kr s ≡ (ok own, s))
          → HasAll n own kids
          → Has (suc n) kr (folder l name own kids)

    pub data HasAll : ℕ → api.KeyRing → Forest api.KeyRing → Type 0 where
      has_end : {n : ℕ} {kr : api.KeyRing} → HasAll n kr end
      has_next :
          {n : ℕ} {kr : api.KeyRing} {t : Tree api.KeyRing} {more : Forest api.KeyRing}
          → Has n kr t
          → HasAll n kr more
          → HasAll n kr (next t more)

  if_run :
      {A : Type 0} (b : Bool) (a : A) (m : Act (St api) A) (s : St api) {r : A}
      → m s ≡ (ok r, s)
      → (if b then pure a else m) s ≡ (ok (if b then a else r), s)
  if_run true a m s run = refl
  if_run false a m s run = run

  module _ (target_name : String) (link_type : LinkType) (draft_too : Bool) where
    abbrev pub wanted : Link → String → Bool
    wanted l name = same_type l.type link_type && name == target_name

    -- The search at one link, from what it gives below it.
    search_link :
        (fuel : ℕ) (kr : api.KeyRing) (l : Link) (name : String) (s : St api) {r : Option Link}
        → Named l kr name
        → search_folder api drive
            (λ own child.
              perform_search_by_name_recursively api drive fuel own child target_name link_type
                draft_too)
            kr
            l
            s
          ≡ (ok r, s)
        → perform_search_by_name_recursively api drive
            (suc fuel)
            kr
            l
            target_name
            link_type
            draft_too
            s
          ≡ (
            ok (
                if not (is_searched api drive draft_too l.state)
                then none
                else if wanted l name
                then some l
                else r),
            s,
          )
    unfolding perform_search_by_name_recursively
    search_link fuel kr l name s (v, keyed, named) run =
        if_run (not (is_searched api drive draft_too l.state)) none _ s (
          >>=_step
            (lift (
              get_signature_verification_keyring api drive
                (l.name_signature_email ∷ l.signature_email ∷ []) []))
            _ s (ap (λ (q : Outcome api.KeyRing). (q, s)) keyed)
          ∙ >>=_step (lift (api.link_get_name l kr v)) _ s
              (ap (λ (q : Outcome String). (q, s)) named)
          ∙ if_run (wanted l name) (some l) _ s run)

    -- What is done with the result for one child.
    children_next :
        (search : Link → Act (St api) (Option Link)) (child : Link) (more : List Link) (s : St api)
        (a b : Option Link)
        → search child s ≡ (ok a, s)
        → search_children api drive search more s ≡ (ok b, s)
        → search_children api drive search (child ∷ more) s ≡ (ok (or_else a b), s)
    unfolding search_children
    children_next search child more s none b here rest = >>=_step (search child) _ s here ∙ rest
    children_next search child more s (some l) b here rest = >>=_step (search child) _ s here

    folder_run :
        (search : api.KeyRing → Link → Act (St api) (Option Link)) (kr own : api.KeyRing) (l : Link)
        (kids : List Link) (s : St api) {r : Option Link}
        → same_type l.type LinkType.folder ≡ true
        → ((w : api.World)
            → api.list_children drive.main_share.share_id l.link_id true w ≡ (ok (some kids), w))
        → unlock_link api drive l kr s ≡ (ok own, s)
        → search_children api drive (search own) kids s ≡ (ok r, s)
        → search_folder api drive search kr l s ≡ (ok r, s)
    unfolding search_folder
    folder_run search kr own l kids s is_folder listed opens run =
        then_step _ _ s is_folder
        ∙ >>=_step (remote (api.list_children drive.main_share.share_id l.link_id true)) _ s (
            ap (λ (q : Outcome (Option (List Link)) × api.World). (q.0, record s { world = q.1 }))
              (listed s.world))
        ∙ >>=_step (unlock_link api drive l kr) _ s opens
        ∙ run

    leaf_run :
        (search : api.KeyRing → Link → Act (St api) (Option Link)) (kr : api.KeyRing) (l : Link)
        (s : St api)
        → same_type l.type LinkType.folder ≡ false
        → search_folder api drive search kr l s ≡ (ok none, s)
    unfolding search_folder
    leaf_run search kr l s is_file = else_step _ _ s is_file

    mutual
      unfolding search_children first_in

      Has-run :
          {n : ℕ} {kr : api.KeyRing} {t : Tree api.KeyRing} (s : St api)
          → Has n kr t
          → perform_search_by_name_recursively api drive n kr
              (root_of t)
              target_name
              link_type
              draft_too
              s
            ≡ (ok (first_in (is_searched api drive draft_too) wanted t), s)
      Has-run {kr} s (has_leaf {n = n} {l = l} {name = name} named is_file) =
          search_link n kr l name s named (
            leaf_run
              (λ own child.
                perform_search_by_name_recursively api drive n own child target_name link_type
                  draft_too)
              kr l s is_file)
      Has-run {kr} s
            (has_folder {n = n} {own = own} {l = l} {name = name} {kids = kids} named is_folder
              listed opens below) =
          search_link n kr l name s named (
            folder_run
              (λ k child.
                perform_search_by_name_recursively api drive n k child target_name link_type
                  draft_too)
              kr own l (links_of kids) s is_folder listed (opens s) (HasAll-run s below))

      HasAll-run :
          {n : ℕ} {kr : api.KeyRing} {kids : Forest api.KeyRing} (s : St api)
          → HasAll n kr kids
          → search_children api drive
              (λ child.
                perform_search_by_name_recursively api drive n kr child target_name link_type
                  draft_too)
              (links_of kids)
              s
            ≡ (ok (first_among (is_searched api drive draft_too) wanted kids), s)
      HasAll-run s has_end = refl
      HasAll-run {n} {kr} s (has_next {t = t} {more = more} here rest) =
          children_next
            (λ child.
              perform_search_by_name_recursively api drive n kr child target_name link_type
                draft_too)
            (root_of t) (links_of more) s (first_in (is_searched api drive draft_too) wanted t)
            (first_among (is_searched api drive draft_too) wanted more) (Has-run s here)
            (HasAll-run s rest)

    -- In a tree that the server has, whose names and key rings open, with fuel for its height,
    -- the recursive search gives the first link in the order parent before children that has the
    -- type and the name, without what stands below a link whose state is not searched, and
    -- changes neither cache nor server.
    pub search_tree :
        (n : ℕ) (kr : api.KeyRing) (t : Tree api.KeyRing) (s : St api)
        → Has n kr t
        → perform_search_by_name_recursively api drive n kr
            (root_of t)
            target_name
            link_type
            draft_too
            s
          ≡ (ok (first_in (is_searched api drive draft_too) wanted t), s)
    search_tree n kr t s has = Has-run s has
