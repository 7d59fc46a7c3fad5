-- ===== src/Cache/Removal.antt =====
-- cache.go, `_remove_nolock`: what a removal does to the cache, and the loop over the children.
use proton_api_bridge.Common.{
  ℕ, ◌≤◌, ◌<◌, String, true, none, some, List, [], ◌∷◌, lookup, length, contains, ◌==◌, ◌≡◌, ◌≢◌,
  refl, ◌∙◌, ◌⊎◌, inl, inr, arith, Option-cases, Bool-cases, eq_of_test,
}
use proton_api_bridge.Action.{Act, Outcome, ⊤, ok, for_each, >>=_step}
use proton_api_bridge.Proton.{Link}
use proton_api_bridge.Cache.Defs.{CacheEntry, Cache}
use proton_api_bridge.Cache.Consistency.{IsConsistent}

module _ {KeyRing : Type 0} where
  -- The link under `k` is cached with the parent `j`.
  pub record IsChild (c : Cache KeyRing) (j k : String) : Type 0 where
    pub entry : CacheEntry KeyRing
    pub link : Link
    pub cached : lookup k c.entries ≡ some entry
    pub holds : entry.link ≡ some link
    pub parent : link.parent_link_id ≡ j

  -- What a removal with children does to a consistent cache.
  pub record Removal (c c' : Cache KeyRing) : Type 0 where
    pub consistent : IsConsistent c'
    pub caching : c'.enable_caching ≡ c.enable_caching
    pub shrinks :
        (j : String) → (lookup j c'.entries ≡ lookup j c.entries) ⊎ (lookup j c'.entries ≡ none)
    pub size : length c'.entries ≤ length c.entries
    pub closed :
        (j k : String)
        → IsChild c j k
        → lookup j c.entries ≢ none
        → lookup j c'.entries ≡ none
        → lookup k c'.entries ≡ none

  pub absent_stays :
      (j : String) (c c' : Cache KeyRing)
      → Removal c c'
      → lookup j c.entries ≡ none
      → lookup j c'.entries ≡ none
  absent_stays j c c' r absent = elim (r.shrinks j) [ inl same ↦ same ∙ absent | inr gone ↦ gone ]

  pub Removal-refl : (c : Cache KeyRing) → IsConsistent c → Removal c c
  Removal-refl c h = record {
    consistent = h;
    caching = refl;
    shrinks = λ j. inl refl;
    size = omega arith;
    closed = λ j k child present gone. absurd (present gone);
  }

  pub Removal-trans : (a b c : Cache KeyRing) → Removal a b → Removal b c → Removal a c
  Removal-trans a b c p q = record {
    consistent = q.consistent;
    caching = q.caching ∙ p.caching;
    shrinks = λ j. elim (p.shrinks j) [
      | inl same ↦ elim (q.shrinks j) [ inl again ↦ inl (again ∙ same) | inr gone ↦ inr gone ]
      | inr gone ↦ inr (absent_stays j b c q gone)
    ];
    size = omega (arith, p.size, q.size);
    closed = λ j k child present gone. elim (Option-cases (lookup j b.entries)) [
      | inl early ↦ absent_stays k b c q (p.closed j k child present early)
      | inr (e, late) ↦ elim (p.shrinks k) [
        | inr vanished ↦ absent_stays k b c q vanished
        | inl same ↦
            q.closed j k
              (record {
                entry = child.entry;
                link = child.link;
                cached = same ∙ child.cached;
                holds = child.holds;
                parent = child.parent;
              })
              (λ empty. cc) gone
      ]
    ];
  }

  -- The removal of `link_id`, as a run from `c`.
  abbrev pub Removes : (Outcome ⊤ × Cache KeyRing) → Cache KeyRing → String → Type 0
  Removes run c link_id =
      (c' : Cache KeyRing) × (run ≡ (ok tt, c')) × Removal c c' × (lookup link_id c'.entries ≡ none)

  -- The loop, from what one call does.
  pub Removes-all :
      (call : String → Act (Cache KeyRing) ⊤) (bound : ℕ)
      → ((k : String) (c : Cache KeyRing)
          → length c.entries < bound
          → IsConsistent c
          → Removes (call k c) c k)
      → (ks : List String) (c : Cache KeyRing) → length c.entries < bound
      → IsConsistent c
      → (c' : Cache KeyRing) × (for_each call ks c ≡ (ok tt, c'))
        × Removal c c'
        × ((k : String) → contains k ks ≡ true → lookup k c'.entries ≡ none)
  unfolding for_each
  Removes-all call bound one [] c small h = (c, refl, Removal-refl c h, λ k listed. cc)
  Removes-all call bound one (k ∷ ks) c small h =
      let (c1, run, first, gone) = one k c small h in
      let (c2, runs, rest, all_gone) =
        Removes-all call bound one ks c1 (omega (arith, first.size)) first.consistent in
      (
        c2,
        >>=_step (call k) (λ _. for_each call ks) c run ∙ runs,
        Removal-trans c c1 c2 first rest,
        λ j listed. elim (Bool-cases (k == j)) [
          | inl same ↦ rw (← eq_of_test k j same) (absent_stays k c1 c2 rest gone)
          | inr other ↦ all_gone j (ground arith)
        ],
      )
