-- ===== src/Cache/Eviction.antt =====
-- cache.go, `_remove` and `removeLinkIDFromCache`: a whole removal, with and without children.
use proton_api_bridge.Common.{
  ℕ, zero, suc, ◌<◌, String, Bool, true, false, none, some, Map, lookup, insert, delete, length,
  contains, ◌==◌, ◌≡◌, ◌≢◌, refl, sym, subst, ◌∙◌, ◌⊎◌, inl, inr, arith, ap, lookup-delete,
  lookup-delete_self, length-delete-lt, length-delete-le, String-cases, Option-cases, Bool-cases,
  eq_of_test, if◌then◌else◌, if_then, if_both,
}
use proton_api_bridge.Action.{Act, ⊤, ok, pure, for_each, >>=_step}
use proton_api_bridge.Proton.{Link}
use proton_api_bridge.Cache.Defs.{
  CacheEntry, Cache, remove_nolock, remove, remove_children, unlink, cached_children, drop_children,
}
use proton_api_bridge.Cache.Consistency.{IsConsistent}
use proton_api_bridge.Cache.Removal.{
  Removal, Removes, IsChild, absent_stays, Removal-refl, Removes-all,
}
use proton_api_bridge.Cache.Detach.{
  detached, detached-IsConsistent, IsChild-listed, drop_children-Removal,
}

module _ {KeyRing : Type 0} where
  unlink_run :
      (link : Link) (known : Map ⊤) (c : Cache KeyRing)
      → lookup link.parent_link_id c.children ≡ some known
      → lookup link.link_id known ≡ some tt
      → unlink link c ≡ (
        ok tt,
        record c { children = insert link.parent_link_id (delete link.link_id known) c.children },
      )
  unfolding unlink
  unlink_run link known c at_parent has_link = rw (at_parent, has_link, unlink)

  -- An entry that is found is detached, and then its children are removed.
  remove_nolock_found :
      (fuel : ℕ) (link_id : String) (deep : Bool) (e : CacheEntry KeyRing) (link : Link)
      (known : Map ⊤) (c : Cache KeyRing)
      → lookup link_id c.entries ≡ some e
      → e.link ≡ some link
      → lookup link.parent_link_id c.children ≡ some known
      → lookup link.link_id known ≡ some tt
      → remove_nolock (suc fuel) link_id deep c
        ≡ (if deep then remove_children (λ k. remove_nolock fuel k true) link.link_id else pure tt)
            (detached link_id link known c)
  unfolding remove_nolock
  remove_nolock_found fuel link_id deep e link known c found holds at_parent has_link =
      rw (found, holds, remove_nolock)
        (>>=_step (unlink link)
          (λ _.
            if deep then remove_children (λ k. remove_nolock fuel k true) link.link_id else pure tt)
          (record c { entries = delete link_id c.entries })
          (unlink_run link known _ at_parent has_link))

  remove_children_run :
      (call : String → Act (Cache KeyRing) ⊤) (link_id : String) (c : Cache KeyRing)
      {c2 : Cache KeyRing}
      → for_each call (cached_children link_id c) c ≡ (ok tt, c2)
      → remove_children call link_id c
        ≡ (ok tt, record c2 { children = delete link_id c2.children })
  unfolding remove_children drop_children
  remove_children_run call link_id c runs =
      >>=_step (for_each call (cached_children link_id c)) (λ _. drop_children link_id) c runs

  -- From the detached cache to the end of the call: the removal of the link that was found.
  detached-Removal :
      (link_id : String) (e : CacheEntry KeyRing) (known : Map ⊤) (c c2 : Cache KeyRing)
      (link : Link)
      → link.link_id ≡ link_id
      → IsConsistent c
      → IsConsistent (detached link_id link known c)
      → Removal (detached link_id link known c) c2
      → ((k : String)
          → contains k (cached_children link_id (detached link_id link known c)) ≡ true
          → lookup k c2.entries ≡ none)
      → Removal c (record c2 { children = delete link_id c2.children })
  detached-Removal link_id e known c c2 link keyed h h1 r gone =
      let c1 = detached link_id link known c in
      record {
        consistent = drop_children-Removal link_id c1 c2 h1 r gone;
        caching = r.caching;
        shrinks = λ j. ground (arith, r.shrinks j, lookup-delete j link_id c.entries);
        size = omega (arith, r.size, length-delete-le link_id c.entries);
        closed = λ j k child present absent. elim (Bool-cases (link_id == k)) [
          | inl same ↦
              rw (← eq_of_test _ _ same)
                (absent_stays link_id c1 c2 r (lookup-delete_self link_id c.entries))
          | inr other ↦
              let moved : IsChild c1 j k = record {
                entry = child.entry;
                link = child.link;
                cached = ground (arith, child.cached, lookup-delete k link_id c.entries);
                holds = child.holds;
                parent = child.parent;
              } in
              elim (Bool-cases (link_id == j)) [
                | inl top ↦ gone k (
                    IsChild-listed link_id k c1 h1
                      (subst (λ i. IsChild c1 i k) (sym (eq_of_test _ _ top)) moved))
                | inr below ↦
                    r.closed j k moved
                      (λ empty. present (ground (arith, empty, lookup-delete j link_id c.entries)))
                      absent
              ]
        ];
      }

  -- One call, from what the calls for the children do.
  remove_nolock-Removes_step :
      (fuel : ℕ)
      → ((k : String) (c : Cache KeyRing)
          → length c.entries < fuel
          → IsConsistent c
          → Removes (remove_nolock fuel k true c) c k)
      → (link_id : String) (c : Cache KeyRing) → length c.entries < suc fuel
      → IsConsistent c
      → Removes (remove_nolock (suc fuel) link_id true c) c link_id
  unfolding remove_nolock
  remove_nolock-Removes_step fuel one link_id c small h =
      elim (Option-cases (lookup link_id c.entries)) [
        | inl absent ↦ (c, rw (absent, remove_nolock), Removal-refl c h, absent)
        | inr (e, found) ↦
            let o = h.owned link_id e found in
            let c1 = detached link_id o.link o.listed.known c in
            let h1 =
              detached-IsConsistent link_id o.link o.listed.known c o.keyed o.listed.has_parent h in
            let (c2, runs, r, gone) =
              Removes-all (λ k. remove_nolock fuel k true) fuel one (cached_children link_id c1) c1
                (omega (arith, length-delete-lt link_id c.entries found)) h1 in
            (
              record c2 { children = delete link_id c2.children },
              remove_nolock_found fuel link_id true e o.link o.listed.known c found o.holds
                    o.listed.has_parent (rw o.keyed o.listed.has_link)
                  ∙ ap (λ i. remove_children (λ k. remove_nolock fuel k true) i c1) o.keyed
                  ∙ remove_children_run _ link_id c1 runs,
              detached-Removal link_id e o.listed.known c c2 o.link o.keyed h h1 r gone,
              absent_stays link_id c1 c2 r (lookup-delete_self link_id c.entries),
            )
      ]

  -- With more fuel than entries every call removes its entry and ends well.
  remove_nolock-Removes :
      (fuel : ℕ) (link_id : String) (c : Cache KeyRing)
      → length c.entries < fuel
      → IsConsistent c
      → Removes (remove_nolock fuel link_id true c) c link_id
  remove_nolock-Removes zero link_id c small h = absurd (omega arith)
  remove_nolock-Removes (suc fuel) link_id c small h =
      remove_nolock-Removes_step fuel
        (λ k d below consistent. remove_nolock-Removes fuel k d below consistent) link_id c small h

  -- The cached links under `link_id`, at any depth.
  pub data Descends (c : Cache KeyRing) (link_id : String) : String → Type 0 where
    child : {k : String} → IsChild c link_id k → Descends c link_id k
    deeper : {j k : String} → Descends c link_id j → IsChild c j k → Descends c link_id k

  Descends-cached :
      (c : Cache KeyRing) (link_id : String) {k : String}
      → Descends c link_id k
      → lookup k c.entries ≢ none
  Descends-cached c link_id (child i) empty = cc (i.cached, empty)
  Descends-cached c link_id (deeper d i) empty = cc (i.cached, empty)

  pub Descends-gone :
      (c c' : Cache KeyRing) (link_id : String) {k : String}
      → Removal c c'
      → lookup link_id c.entries ≢ none
      → lookup link_id c'.entries ≡ none
      → Descends c link_id k
      → lookup k c'.entries ≡ none
  Descends-gone c c' link_id r present gone (child i) = r.closed link_id _ i present gone
  Descends-gone c c' link_id r present gone (deeper d i) =
      r.closed _ _ i (Descends-cached c link_id d) (Descends-gone c c' link_id r present gone d)

  -- One call of `_remove` with children.
  pub remove-Removes :
      (link_id : String) (c : Cache KeyRing)
      → c.enable_caching ≡ true
      → IsConsistent c
      → Removes (remove link_id true c) c link_id
  unfolding remove
  remove-Removes link_id c on h =
      let (c', run, r, gone) =
        remove_nolock-Removes (suc (length c.entries)) link_id c (omega arith) h in
      (c', if_then _ _ on ∙ run, r, gone)

  -- Removing a cached link with its children from a consistent cache that is on ends without an
  -- error and without ending the process; the cache stays consistent, the link and every cached
  -- link below it at any depth are gone, and every other entry is gone or unchanged.
  pub remove_subtree :
      (link_id : String) (c : Cache KeyRing)
      → c.enable_caching ≡ true
      → IsConsistent c
      → lookup link_id c.entries ≢ none
      → (c' : Cache KeyRing) × (remove link_id true c ≡ (ok tt, c'))
        × IsConsistent c'
        × (lookup link_id c'.entries ≡ none)
        × ((k : String) → Descends c link_id k → lookup k c'.entries ≡ none)
        × ((j : String) → (lookup j c'.entries ≡ lookup j c.entries) ⊎ (lookup j c'.entries ≡ none))
  remove_subtree link_id c on h present =
      let (c', run, r, gone) = remove-Removes link_id c on h in
      (c', run, r.consistent, gone, (λ k d. Descends-gone c c' link_id r present gone d), r.shrinks)

  -- Removing a link without its children from a consistent cache that is on ends without an
  -- error and without ending the process, keeps the cache consistent, and takes out the entry of
  -- that link and no other.
  pub remove_single :
      (link_id : String) (c : Cache KeyRing)
      → c.enable_caching ≡ true
      → IsConsistent c
      → (c' : Cache KeyRing) × (remove link_id false c ≡ (ok tt, c'))
        × IsConsistent c'
        × ((j : String) → lookup j c'.entries ≡ (if link_id == j then none else lookup j c.entries))
  unfolding remove
  remove_single link_id c on h = elim (Option-cases (lookup link_id c.entries)) [
    | inl absent ↦ (
      c,
      if_then _ _ on ∙ rw (absent, remove_nolock),
      h,
      λ j. elim (String-cases link_id j) [
        | inl same ↦
            if_both (λ o. lookup j c.entries ≡ o) (link_id == j)
              (subst (λ k. lookup k c.entries ≡ none) same absent) refl
        | inr other ↦ rw other
      ],
    )
    | inr (e, found) ↦
        let o = h.owned link_id e found in
        (
          detached link_id o.link o.listed.known c,
          if_then _ _ on
              ∙ remove_nolock_found (length c.entries) link_id false e o.link o.listed.known c found
                  o.holds o.listed.has_parent (rw o.keyed o.listed.has_link),
          detached-IsConsistent link_id o.link o.listed.known c o.keyed o.listed.has_parent h,
          λ j. lookup-delete j link_id c.entries,
        )
  ]
