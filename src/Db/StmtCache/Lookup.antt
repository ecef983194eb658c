-- ===== src/Db/StmtCache/Lookup.antt =====
-- src/db/StmtCache.cpp: find after insert and erase, and the entry that insert pushes out.
use hical.Base.{
  ◌≤◌, ◌<◌, ◌≡◌, refl, ap, ◌∙◌, true, false, List, [], ◌∷◌, none, some, Text, text_eq,
  text_eq_sound, text_eq_refl, length, if◌then◌else◌, arith, Option-cases, inl, inr, is_some,
}
use hical.Db.StmtCache.{
  Entry, StmtCache, lookup, without, last_entry, without_last, find, insert, erase,
}
use hical.Db.StmtCache.Lru.{Distinct, IsCache, lookup-sql, lookup-without_self}

module _ {S : Type 0} where
  lookup_past :
      (other : Text) (e : Entry S) (es : List (Entry S))
      → text_eq e.sql other ≡ false
      → lookup other (e ∷ es) ≡ lookup other es
  unfolding lookup
  lookup_past other e es h = ground arith

  lookup-head :
      (sql : Text) (e : Entry S) (es : List (Entry S)) → e.sql ≡ sql → lookup sql (e ∷ es) ≡ some e
  unfolding lookup
  lookup-head sql e es h = ground (arith, text_eq_refl sql)

  lookup-insert :
      (c : StmtCache S) (sql : Text) (stmt : S)
      → 0 < c.max_size
      → (lookup sql (insert c sql stmt).0.lru_list ≡ some (record { sql = sql; stmt = stmt }))
        × ((insert c sql stmt).0.max_size ≡ c.max_size)
  unfolding insert
  lookup-insert c sql stmt h =
      let new : Entry S = record { sql = sql; stmt = stmt } in
      elim (Option-cases (lookup sql c.lru_list)) [
        | inl e ↦ ground (
          arith,
          lookup-head sql new c.lru_list refl,
          lookup-head sql new (without_last c.lru_list) refl,
        )
        | inr (e, p) ↦ ground (
          arith,
          lookup-sql sql c.lru_list e p,
          lookup-head sql (record { sql = e.sql; stmt = stmt }) (without sql c.lru_list),
        )
      ]

  find_hit :
      (c : StmtCache S) (sql : Text) (e : Entry S)
      → 0 < c.max_size
      → lookup sql c.lru_list ≡ some e
      → (find c sql).1 ≡ some e.stmt
  unfolding find
  find_hit c sql e h p = ground arith

  -- A statement that was inserted is found, where the cache is not switched off.
  pub find-insert :
      (c : StmtCache S) (sql : Text) (stmt : S)
      → 0 < c.max_size
      → (find (insert c sql stmt).0 sql).1 ≡ some stmt
  find-insert c sql stmt h =
      let (p, m) = lookup-insert c sql stmt h in
      find_hit (insert c sql stmt).0 sql (record { sql = sql; stmt = stmt }) (omega (arith, m)) p

  last-lookup :
      (es : List (Entry S)) (back : Entry S)
      → last_entry es ≡ some back
      → is_some (lookup back.sql es) ≡ true
  unfolding last_entry lookup
  last-lookup [] back h = cc
  last-lookup (e ∷ []) back h = ground (arith, text_eq_refl e.sql)
  last-lookup (e ∷ f ∷ es) back h = ground (arith, last-lookup (f ∷ es) back)

  lookup-without_last :
      (other : Text) (es : List (Entry S)) (back : Entry S)
      → Distinct es
      → last_entry es ≡ some back
      → lookup other (without_last es) ≡ (if text_eq back.sql other then none else lookup other es)
  unfolding last_entry without_last lookup
  lookup-without_last other [] back d h = cc
  lookup-without_last other (e ∷ []) back d h = ground arith
  lookup-without_last other (e ∷ f ∷ es) back (d, ds) h = ground (
    arith,
    lookup-without_last other (f ∷ es) back ds,
    last-lookup (f ∷ es) back h,
    text_eq_sound e.sql other,
    text_eq_sound back.sql other,
    d,
  )

  -- A new text in a full cache, which is not switched off and has one entry for each text, pushes out
  -- the least recent entry and no other: its statement is returned, its text is not found any more, and
  -- every other text that was not inserted is found as before.
  pub insert_evicts :
      (c : StmtCache S) (sql other : Text) (stmt : S) (back : Entry S)
      → IsCache c
      → 0 < c.max_size
      → c.max_size ≤ length c.lru_list
      → lookup sql c.lru_list ≡ none
      → last_entry c.lru_list ≡ some back
      → text_eq sql other ≡ false
      → ((insert c sql stmt).1 ≡ some back.stmt)
        × (lookup other (insert c sql stmt).0.lru_list
            ≡ (if text_eq back.sql other then none else lookup other c.lru_list))
  unfolding insert
  insert_evicts c sql other stmt back w on full absent last ne =
      let front =
        lookup_past other (record { sql = sql; stmt = stmt }) (without_last c.lru_list) ne in
      let rest = lookup-without_last other c.lru_list back w.distinct last in
      (
        ground (arith, absent, last),
        ap (lookup other) {y = record { sql = sql; stmt = stmt } ∷ without_last c.lru_list}
              (ground (arith, absent))
            ∙ front
            ∙ rest,
      )

  -- A statement that was erased is not found, in a cache with one entry for each text.
  pub find-erase : (c : StmtCache S) (sql : Text) → IsCache c → (find (erase c sql).0 sql).1 ≡ none
  unfolding find erase
  find-erase c sql w = ground (arith, lookup-without_self sql c.lru_list w.distinct)
