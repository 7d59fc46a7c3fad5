-- ===== src/Cache/Detach.antt =====
-- cache.go, `_remove_nolock`: an entry leaves its parent's map, and its own map is dropped.
use proton_api_bridge.Common.{
  String, true, none, some, Map, lookup, insert, delete, contains, ◌==◌, ◌≡◌, sym, ◌∙◌, inl, inr,
  arith, ap, lookup-delete, contains-keys, Bool-cases, eq_of_test,
}
use proton_api_bridge.Action.{⊤}
use proton_api_bridge.Proton.{Link}
use proton_api_bridge.Cache.Defs.{CacheEntry, Cache, cached_children}
use proton_api_bridge.Cache.Consistency.{Listed-detach, Owned, IsConsistent}
use proton_api_bridge.Cache.Removal.{Removal, IsChild}

module _ {KeyRing : Type 0} where
  -- The cache after `_remove_nolock` has deleted the entry and unlinked it from its parent.
  abbrev pub detached : String → Link → Map ⊤ → Cache KeyRing → Cache KeyRing
  detached link_id link known c = record c {
    entries = delete link_id c.entries;
    children = insert link.parent_link_id (delete link.link_id known) c.children;
  }

  pub detached-IsConsistent :
      (link_id : String) (link : Link) (known : Map ⊤) (c : Cache KeyRing)
      → link.link_id ≡ link_id
      → lookup link.parent_link_id c.children ≡ some known
      → IsConsistent c
      → IsConsistent (detached link_id link known c)
  detached-IsConsistent link_id link known c keyed at_parent h = record {
    owned = λ j e found. elim (Bool-cases (link_id == j)) [
      | inl same ↦ absurd (ground (arith, found, lookup-delete j link_id c.entries))
      | inr other ↦
          let o = h.owned j e (ground (arith, found, lookup-delete j link_id c.entries)) in
          record {
            link = o.link;
            holds = o.holds;
            keyed = o.keyed;
            listed =
                Listed-detach _ o.link.parent_link_id link.link_id j known c.children at_parent
                  (rw keyed other) o.listed;
          }
    ];
  }

  -- A cached child of `j` is among the keys that the loop over `j`'s children visits.
  pub IsChild-listed :
      (j k : String) (c : Cache KeyRing)
      → IsConsistent c
      → IsChild c j k
      → contains k (cached_children j c) ≡ true
  unfolding cached_children
  IsChild-listed j k c h child =
      let o = h.owned k child.entry child.cached in
      let same_parent : o.link.parent_link_id ≡ j = cc (o.holds, child.holds, child.parent) in
      let at_parent : lookup j c.children ≡ some o.listed.known =
        sym (ap (λ p. lookup p c.children) same_parent) ∙ o.listed.has_parent in
      ground (arith, at_parent, o.listed.has_link, contains-keys k o.listed.known)

  -- Deleting the map of a link's children, once they are gone.
  pub drop_children-Removal :
      (link_id : String) (c1 c2 : Cache KeyRing)
      → IsConsistent c1
      → Removal c1 c2
      → ((k : String) → contains k (cached_children link_id c1) ≡ true → lookup k c2.entries ≡ none)
      → IsConsistent (record c2 { children = delete link_id c2.children })
  drop_children-Removal link_id c1 c2 h r gone = record {
    owned = λ j e found.
        let o = r.consistent.owned j e found in
        elim (Bool-cases (link_id == o.link.parent_link_id)) [
          | inl same ↦ absurd (stays j e found (IsChild-of_owned j e o (sym (eq_of_test _ _ same))))
          | inr other ↦ record {
            link = o.link;
            holds = o.holds;
            keyed = o.keyed;
            listed = record {
              known = o.listed.known;
              has_parent = ground (
                arith,
                other,
                o.listed.has_parent,
                lookup-delete o.link.parent_link_id link_id c2.children,
              );
              has_link = o.listed.has_link;
            };
          }
        ];
  }
    where
      IsChild-of_owned :
          (j : String) (e : CacheEntry KeyRing) (o : Owned c2 j e)
          → o.link.parent_link_id ≡ link_id
          → lookup j c1.entries ≡ some e
          → IsChild c1 link_id j
      IsChild-of_owned j e o parent cached = record {
        entry = e;
        link = o.link;
        cached = cached;
        holds = o.holds;
        parent = parent;
      }

      stays :
          (j : String) (e : CacheEntry KeyRing)
          → lookup j c2.entries ≡ some e
          → (lookup j c1.entries ≡ some e → IsChild c1 link_id j)
          → ⊥
      stays j e found child = elim (r.shrinks j) [
        | inl same ↦ cc (found, gone j (IsChild-listed link_id j c1 h (child (sym same ∙ found))))
        | inr absent ↦ cc (found, absent)
      ]
