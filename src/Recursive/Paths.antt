-- ===== src/Recursive/Paths.antt =====
-- folder_recursive.go, `listDirectoriesRecursively`: the links of a tree with their paths, and
-- which of them a walk lists.
use proton_api_bridge.Common.{
  ℕ, ◌+◌, ◌<◌, String, ◌<>◌, Bool, true, false, Option, none, some, List, [], ◌∷◌, ◌++◌, ◌&&◌, not,
  eqb, leb, ◌≡◌, refl, ◌∙◌, inl, inr, Bool-cases, arith, if◌then◌else◌,
}
use proton_api_bridge.Int.{ℤ, pos, negsuc}
use proton_api_bridge.Proton.{LinkState, same_state}
use proton_api_bridge.Search.Found.{Tree, leaf, folder, Forest, end, next}
use proton_api_bridge.Recursive.Defs.{goes_on}

-- How deep a walk goes, with -1 for no limit.
abbrev pub max_depth_of : Option ℕ → ℤ
max_depth_of none = negsuc 0
max_depth_of (some m) = pos m

abbrev pub is_within : Option ℕ → ℕ → Bool
is_within none d = true
is_within (some m) d = leb d m

-- The path of a link; the one of a root that is left out is empty.
abbrev pub path_at : Bool → ℕ → String → String → String
path_at exclude_root d path name = if exclude_root && eqb d 0 then "" else path <> "/" <> name

module _ {KeyRing : Type 0} (exclude_root : Bool) where
  unfoldable mutual
    -- The active links of a tree with their depths and paths, the parent before its children,
    -- without what stands below a link that is not active.
    pub entries : ℕ → String → Tree KeyRing → List (ℕ × String)
    entries d path (leaf l name) =
        if not (same_state l.state LinkState.active)
        then []
        else (d, path_at exclude_root d path name) ∷ []
    entries d path (folder l name kr kids) =
        if not (same_state l.state LinkState.active)
        then []
        else (d, path_at exclude_root d path name)
          ∷ entries_all (d + 1) (path_at exclude_root d path name) kids

    pub entries_all : ℕ → String → Forest KeyRing → List (ℕ × String)
    entries_all d path end = []
    entries_all d path (next t more) = entries d path t ++ entries_all d path more

-- The paths within the limit, without the root's if that is left out.
unfoldable pub picked : Option ℕ → Bool → List (ℕ × String) → List String
picked limit exclude_root [] = []
picked limit exclude_root ((d, path) ∷ more) =
    if is_within limit d && not (exclude_root && eqb d 0)
    then path ∷ picked limit exclude_root more
    else picked limit exclude_root more

pub picked-append :
    (limit : Option ℕ) (ex : Bool) (xs ys : List (ℕ × String))
    → picked limit ex (xs ++ ys) ≡ picked limit ex xs ++ picked limit ex ys
unfolding picked
picked-append limit ex [] ys = refl
picked-append limit ex ((d, path) ∷ xs) ys =
    elim (Bool-cases (is_within limit d && not (ex && eqb d 0))) [
      | inl on ↦ rw (on, picked-append limit ex xs ys) refl
      | inr off ↦ rw (off, picked-append limit ex xs ys) refl
    ]

beyond : (m d : ℕ) → m < d → is_within (some m) d ≡ false
beyond m d deep = ground arith

pub from_root : (limit : Option ℕ) → is_within limit 0 ≡ true
from_root none = refl
from_root (some m) = ground arith

pub goes_on_lem :
    (limit : Option ℕ) (d : ℕ)
    → goes_on (max_depth_of limit) d ≡ true
    → is_within limit (d + 1) ≡ true
unfolding goes_on
goes_on_lem none d on = refl
goes_on_lem (some m) d on = ground arith

module _ {KeyRing : Type 0} (m : ℕ) (ex : Bool) where
  -- Nothing is picked below the limit.
  mutual
    unfolding entries picked

    picked-entries :
        (d : ℕ) (path : String) (t : Tree KeyRing)
        → m < d
        → picked (some m) ex (entries ex d path t) ≡ []
    picked-entries d path (leaf l name) deep =
        elim (Bool-cases (same_state l.state LinkState.active)) [
          | inl on ↦ rw (on, beyond m d deep) refl
          | inr off ↦ rw off refl
        ]
    picked-entries d path (folder l name kr kids) deep =
        elim (Bool-cases (same_state l.state LinkState.active)) [
          | inl on ↦
              rw (on, beyond m d deep)
                (picked-entries_all (d + 1) (path_at ex d path name) kids (omega arith))
          | inr off ↦ rw off refl
        ]

    picked-entries_all :
        (d : ℕ) (path : String) (kids : Forest KeyRing)
        → m < d
        → picked (some m) ex (entries_all ex d path kids) ≡ []
    picked-entries_all d path end deep = refl
    picked-entries_all d path (next t more) deep =
        picked-append (some m) ex (entries ex d path t) (entries_all ex d path more)
        ∙ rw (picked-entries d path t deep, picked-entries_all d path more deep) refl

pub picked_below :
    {KeyRing : Type 0} (limit : Option ℕ) (ex : Bool) (d : ℕ) (path : String)
    (kids : Forest KeyRing)
    → goes_on (max_depth_of limit) d ≡ false
    → picked limit ex (entries_all ex (d + 1) path kids) ≡ []
unfolding goes_on
picked_below none ex d path kids off = absurd (ground arith)
picked_below (some m) ex d path kids off = picked-entries_all m ex (d + 1) path kids (ground arith)
