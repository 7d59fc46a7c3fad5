-- ===== src/Upload/Sent.antt =====
-- file_upload.go, `uploadAndCollectBlockData`: what was sent and what waits, in any order.
use mathlib.Core.List.{Perm}
use mathlib.Core.List.Perm
use proton_api_bridge.Common.{
  List, [], ◌∷◌, ◌++◌, map, append_assoc, ◌≡◌, refl, sym, ap, ◌∙◌, subst,
}

map-append : {A B : Type 0} (f : A → B) (xs ys : List A) → map f (xs ++ ys) ≡ map f xs ++ map f ys
map-append f [] ys = refl
map-append f (x ∷ xs) ys = ap (λ zs. f x ∷ zs) (map-append f xs ys)

module _ {D B X : Type 0} (f : D → X) (g : B → X) where
  -- A block is added to those that wait, and the rest of the loop sends them or lets them wait.
  pub sent_more :
      (s1 s2 : List D) (p r : List B) (b : B) (c bs : List X)
      → Perm (map f s1 ++ map g p) c
      → Perm (map f s2 ++ map g r) (map g (p ++ (b ∷ [])) ++ bs)
      → Perm (map f (s1 ++ s2) ++ map g r) (c ++ (g b ∷ bs))
  sent_more s1 s2 p r b c bs before behind =
      let after : Perm (map f s2 ++ map g r) (map g p ++ (g b ∷ bs)) =
        subst (Perm (map f s2 ++ map g r))
          (ap (λ xs. xs ++ bs) (map-append g p (b ∷ [])) ∙ append_assoc (map g p) (g b ∷ []) bs)
          behind in
      subst (λ xs. Perm xs (c ++ (g b ∷ bs)))
        (sym (
          ap (λ xs. xs ++ map g r) (map-append f s1 s2)
          ∙ append_assoc (map f s1) (map f s2) (map g r)))
        (Perm.trans (Perm.append_left (map f s1) after) (
          subst (λ xs. Perm xs (c ++ (g b ∷ bs))) (append_assoc (map f s1) (map g p) (g b ∷ bs))
            (Perm.append_right (g b ∷ bs) before)))

  -- The last block waits.
  pub sent_last :
      (s : List D) (p : List B) (b : B) (c : List X)
      → Perm (map f s ++ map g p) c
      → Perm (map f s ++ map g (p ++ (b ∷ []))) (c ++ (g b ∷ []))
  sent_last s p b c before =
      subst (λ xs. Perm xs (c ++ (g b ∷ [])))
        (append_assoc (map f s) (map g p) (g b ∷ [])
          ∙ ap (λ xs. map f s ++ xs) (sym (map-append g p (b ∷ []))))
        (Perm.append_right (g b ∷ []) before)

  -- What waits is sent.
  pub sent_rest :
      (s1 s2 : List D) (p : List B) (bs : List X)
      → Perm (map f s1 ++ map g p) bs
      → Perm (map f s2) (map g p)
      → Perm (map f (s1 ++ s2)) bs
  sent_rest s1 s2 p bs before rest =
      subst (λ xs. Perm xs bs) (sym (map-append f s1 s2))
        (Perm.trans (Perm.append_left (map f s1) rest) before)
