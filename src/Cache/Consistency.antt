-- ===== src/Cache/Consistency.antt =====
-- cache.go: the invariant that the checks of `_remove_nolock` ask for.
use proton_api_bridge.Common.{
  String, ap, test_of_eq, Bool, false, Option, none, some, refl, if◌then◌else◌, if_then, if_else,
  sym, Map, lookup, insert, delete, ◌==◌, ◌≡◌, ◌∙◌, inl, inr, arith, lookup-insert,
  lookup-insert_self, if_both, lookup-delete, String-cases, Option-cases, test_refl,
}
use proton_api_bridge.Action.{⊤, Outcome}
use proton_api_bridge.Proton.{Link}
use proton_api_bridge.Cache.Defs.{
  CacheEntry, Cache, siblings, insert_link, insert_entry, set_kr, new_cache,
}

-- The link stands in the map of its parent's cached children.
pub record Listed (parent link_id : String) (children : Map (Map ⊤)) : Type 0 where
  pub known : Map ⊤
  pub has_parent : lookup parent children ≡ some known
  pub has_link : lookup link_id known ≡ some tt

pub record Owned {KeyRing : Type 0} (c : Cache KeyRing) (link_id : String) (e : CacheEntry KeyRing)
    : Type 0 where
  pub link : Link
  pub holds : e.link ≡ some link
  pub keyed : link.link_id ≡ link_id
  pub listed : Listed link.parent_link_id link_id c.children

pub record IsConsistent {KeyRing : Type 0} (c : Cache KeyRing) : Type 0 where
  pub owned :
      (link_id : String) (e : CacheEntry KeyRing)
      → lookup link_id c.entries ≡ some e
      → Owned c link_id e

-- Taking another link out of a parent's map leaves this one listed.
pub Listed-detach :
    (p q i j : String) (known : Map ⊤) (children : Map (Map ⊤))
    → lookup p children ≡ some known
    → (i == j) ≡ false
    → Listed q j children
    → Listed q j (insert p (delete i known) children)
Listed-detach p q i j known children at_p ne l = elim (String-cases p q) [
  | inl same ↦ record {
    known = delete i known;
    has_parent = ground (arith, lookup-insert q p (delete i known) children, test_refl q);
    has_link = ground (arith, lookup-delete j i known, l.has_parent, l.has_link);
  }
  | inr other ↦ record {
    known = l.known;
    has_parent = ground (arith, lookup-insert q p (delete i known) children, l.has_parent);
    has_link = l.has_link;
  }
]

-- So does putting one in.
pub Listed-attach :
    (p q i j : String) (known : Map ⊤) (children : Map (Map ⊤))
    → lookup p children ≡ some known
    → Listed q j children
    → Listed q j (insert p (insert i tt known) children)
Listed-attach p q i j known children at_p l = elim (String-cases p q) [
  | inl same ↦ record {
    known = insert i tt known;
    has_parent = ground (arith, lookup-insert q p (insert i tt known) children, test_refl q);
    has_link = ground (arith, lookup-insert j i tt known, l.has_parent, l.has_link);
  }
  | inr other ↦ record {
    known = l.known;
    has_parent = ground (arith, lookup-insert q p (insert i tt known) children, l.has_parent);
    has_link = l.has_link;
  }
]

module _ {KeyRing : Type 0} where
  insert_link-Listed :
      (link : Link) (q j : String) (c : Cache KeyRing)
      → Listed q j c.children
      → Listed q j (insert_link link c).children
  unfolding insert_link
  insert_link-Listed link q j c l = elim (Option-cases (lookup link.parent_link_id c.children)) [
    | inr (known, at_p) ↦
        rw (at_p, siblings) (Listed-attach _ q link.link_id j known c.children at_p l)
    | inl absent ↦ elim (String-cases link.parent_link_id q) [
      | inl same ↦ absurd (cc (same, l.has_parent, absent))
      | inr other ↦ record {
        known = l.known;
        has_parent = ground (
          arith,
          lookup-insert q link.parent_link_id (insert link.link_id tt (siblings link c)) c.children,
          l.has_parent,
        );
        has_link = l.has_link;
      }
    ]
  ]

  insert_link-Listed_self :
      (link : Link) (c : Cache KeyRing)
      → Listed link.parent_link_id link.link_id (insert_link link c).children
  unfolding insert_link
  insert_link-Listed_self link c = record {
    known = insert link.link_id tt (siblings link c);
    has_parent = ground (
      arith,
      lookup-insert link.parent_link_id link.parent_link_id
          (insert link.link_id tt (siblings link c)) c.children,
      test_refl link.parent_link_id,
    );
    has_link = lookup-insert_self link.link_id tt (siblings link c);
  }

  insert_link-IsConsistent :
      (link : Link) (kr : Option KeyRing) (c : Cache KeyRing)
      → IsConsistent c
      → IsConsistent (
          insert_link link (record c {
            entries = insert link.link_id (record { link = some link; kr = kr }) c.entries;
          }))
  unfolding insert_link
  insert_link-IsConsistent link kr c h = record {
    owned = λ j e found. elim (String-cases link.link_id j) [
      | inl same ↦ record {
        link = link;
        holds = ground (
          arith,
          found,
          lookup-insert j link.link_id (record { link = some link; kr = kr }) c.entries,
          test_refl j,
        );
        keyed = same;
        listed = rw (← same) (insert_link-Listed_self link c);
      }
      | inr other ↦
          let o = h.owned j e (
            ground (
              arith,
              found,
              lookup-insert j link.link_id (record { link = some link; kr = kr }) c.entries,
            )) in
          record {
            link = o.link;
            holds = o.holds;
            keyed = o.keyed;
            listed = insert_link-Listed link o.link.parent_link_id j c o.listed;
          }
    ];
  }

  -- Inserting a link under its own id keeps a consistent cache consistent, whether caching is on
  -- or off.
  pub insert_entry-IsConsistent :
      (link : Link) (kr : Option KeyRing) (c : Cache KeyRing)
      → IsConsistent c
      → IsConsistent (insert_entry link.link_id (some link) kr c).1
  unfolding insert_entry
  insert_entry-IsConsistent link kr c h =
      if_both (λ (r : Outcome ⊤ × Cache KeyRing). IsConsistent r.1) c.enable_caching
        (insert_link-IsConsistent link kr c h) h

  -- Filling in a key ring keeps every entry with its parent's children.
  pub set_kr-IsConsistent :
      (link_id : String) (kr : KeyRing) (c : Cache KeyRing)
      → IsConsistent c
      → IsConsistent (set_kr link_id kr c)
  unfolding set_kr
  set_kr-IsConsistent link_id kr c h = elim (Option-cases (lookup link_id c.entries)) [
    | inl absent ↦ rw (absent, set_kr) h
    | inr (old, present) ↦
        rw (present, set_kr)
          (record {
            owned = λ j e found. elim (String-cases link_id j) [
              | inl same ↦
                  let o = h.owned link_id old present in
                  record {
                    link = o.link;
                    holds = ground (
                      arith,
                      found,
                      o.holds,
                      lookup-insert j link_id (record { link = old.link; kr = some kr }) c.entries,
                      test_refl j,
                    );
                    keyed = o.keyed ∙ same;
                    listed = rw (← same) o.listed;
                  }
              | inr other ↦
                  let o = h.owned j e (
                    ground (
                      arith,
                      found,
                      lookup-insert j link_id (record { link = old.link; kr = some kr }) c.entries,
                    )) in
                  record { link = o.link; holds = o.holds; keyed = o.keyed; listed = o.listed }
            ];
          })
  ]

  -- An entry with this key ring in place of its own.
  abbrev pub filled : KeyRing → Option (CacheEntry KeyRing) → Option (CacheEntry KeyRing)
  filled kr none = none
  filled kr (some e) = some (record { link = e.link; kr = some kr })

  -- Filling in a key ring for an id keeps a consistent cache consistent and its children's maps
  -- as they were, gives the id's entry, if it is cached, this key ring and its old link, and
  -- leaves every other entry as it was.
  pub set_kr-Fills :
      (link_id : String) (kr : KeyRing) (c : Cache KeyRing)
      → IsConsistent c
      → IsConsistent (set_kr link_id kr c)
        × ((set_kr link_id kr c).children ≡ c.children)
        × ((j : String)
            → lookup j (set_kr link_id kr c).entries
              ≡ (if link_id == j then filled kr (lookup j c.entries) else lookup j c.entries))
  unfolding set_kr
  set_kr-Fills link_id kr c h = (
    set_kr-IsConsistent link_id kr c h,
    elim (Option-cases (lookup link_id c.entries)) [
      | inl absent ↦ rw (absent, set_kr) refl
      | inr (old, present) ↦ rw (present, set_kr) refl
    ],
    λ j. elim (Option-cases (lookup link_id c.entries)) [
      | inl absent ↦ elim (String-cases link_id j) [
        | inl same ↦
            rw (absent, set_kr)
              (absent_filled same absent ∙ sym (if_then _ _ (test_of_eq link_id j same)))
        | inr other ↦ rw (absent, set_kr) (sym (if_else _ _ other))
      ]
      | inr (old, present) ↦ elim (String-cases link_id j) [
        | inl same ↦
            rw (present, set_kr)
              (lookup-insert j link_id (record { link = old.link; kr = some kr }) c.entries
                ∙ if_then _ _ (test_of_eq link_id j same)
                ∙ sym (ap (filled kr) (ap (λ i. lookup i c.entries) (sym same) ∙ present))
                ∙ sym (if_then _ _ (test_of_eq link_id j same)))
        | inr other ↦
            rw (present, set_kr)
              (lookup-insert j link_id (record { link = old.link; kr = some kr }) c.entries
                ∙ if_else _ _ other
                ∙ sym (if_else _ _ other))
      ]
    ],
  )
    where
      absent_filled :
          {j : String}
          → link_id ≡ j
          → lookup link_id c.entries ≡ none
          → lookup j c.entries ≡ filled kr (lookup j c.entries)
      absent_filled same absent =
          let at_j = ap (λ i. lookup i c.entries) (sym same) ∙ absent in
          at_j ∙ sym (ap (filled kr) at_j)

  pub new_cache-IsConsistent : (enable : Bool) → IsConsistent {KeyRing = KeyRing} (new_cache enable)
  unfolding new_cache lookup
  new_cache-IsConsistent enable = record { owned = λ i e found. cc }
