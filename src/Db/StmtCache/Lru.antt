-- ===== src/Db/StmtCache/Lru.antt =====
-- src/db/StmtCache.cpp: the size and the texts of the cache under find, insert, erase and clear.
use hical.Base.{
  suc, ◌≤◌, ◌<◌, ◌≡◌, refl, ap, ◌∙◌, Bool, true, false, List, [], ◌∷◌, none, some, Text, text_eq,
  text_eq_sound, length, leb, ◌==◌, if◌then◌else◌, arith, subst, Option-cases, Bool-cases, inl, inr,
}
use hical.Db.StmtCache.{Entry, StmtCache, lookup, without, without_last, find, insert, erase, clear}

module _ {S : Type 0} where
  -- No text has two entries.
  abbrev pub Distinct : List (Entry S) → Type 0
  Distinct [] = Unit
  Distinct (e ∷ es) = (lookup e.sql es ≡ none) × Distinct es

  pub record IsCache (c : StmtCache S) : Type 0 where
    pub fits : length c.lru_list ≤ c.max_size
    pub distinct : Distinct c.lru_list

  pub lookup-sql :
      (sql : Text) (es : List (Entry S)) (e : Entry S) → lookup sql es ≡ some e → e.sql ≡ sql
  unfolding lookup
  lookup-sql sql [] e h = cc
  lookup-sql sql (f ∷ es) e h = ground (arith, lookup-sql sql es e, text_eq_sound f.sql sql)

  lookup-without_ne :
      (sql other : Text) (es : List (Entry S))
      → text_eq sql other ≡ false
      → lookup other (without sql es) ≡ lookup other es
  unfolding lookup without
  lookup-without_ne sql other [] h = refl
  lookup-without_ne sql other (e ∷ es) h =
      ground (arith, lookup-without_ne sql other es, text_eq_sound e.sql sql)

  -- What is absent stays absent.
  lookup-without-none :
      (sql other : Text) (es : List (Entry S))
      → lookup other es ≡ none
      → lookup other (without sql es) ≡ none
  unfolding lookup without
  lookup-without-none sql other [] h = refl
  lookup-without-none sql other (e ∷ es) h = ground (arith, lookup-without-none sql other es)

  pub lookup-without_self :
      (sql : Text) (es : List (Entry S)) → Distinct es → lookup sql (without sql es) ≡ none
  unfolding lookup without
  lookup-without_self sql [] d = refl
  lookup-without_self sql (e ∷ es) (d, ds) =
      ground (arith, lookup-without_self sql es ds, text_eq_sound e.sql sql)

  Distinct-either :
      (b : Bool) (xs ys : List (Entry S))
      → Distinct xs
      → Distinct ys
      → Distinct (if b then xs else ys)
  Distinct-either true xs ys d e = d
  Distinct-either false xs ys d e = e

  Distinct-without : (sql : Text) (es : List (Entry S)) → Distinct es → Distinct (without sql es)
  unfolding without
  Distinct-without sql [] d = tt
  Distinct-without sql (e ∷ es) (d, ds) =
      Distinct-either (text_eq e.sql sql) es (e ∷ without sql es) ds
        (lookup-without-none sql e.sql es d, Distinct-without sql es ds)

  length-without :
      (sql : Text) (es : List (Entry S)) (e : Entry S)
      → lookup sql es ≡ some e
      → suc (length (without sql es)) ≡ length es
  unfolding lookup without
  length-without sql [] e h = cc
  length-without sql (f ∷ es) e h = ground (arith, length-without sql es e)

  length-without_le : (sql : Text) (es : List (Entry S)) → length (without sql es) ≤ length es
  unfolding without
  length-without_le sql [] = omega arith
  length-without_le sql (f ∷ es) = ground (arith, length-without_le sql es)

  lookup-without_last-none :
      (other : Text) (es : List (Entry S))
      → lookup other es ≡ none
      → lookup other (without_last es) ≡ none
  unfolding lookup without_last
  lookup-without_last-none other [] h = refl
  lookup-without_last-none other (e ∷ []) h = refl
  lookup-without_last-none other (e ∷ f ∷ es) h =
      ground (arith, lookup-without_last-none other (f ∷ es))

  Distinct-without_last : (es : List (Entry S)) → Distinct es → Distinct (without_last es)
  unfolding without_last
  Distinct-without_last [] d = tt
  Distinct-without_last (e ∷ []) d = tt
  Distinct-without_last (e ∷ f ∷ es) (d, ds) =
      (lookup-without_last-none e.sql (f ∷ es) d, Distinct-without_last (f ∷ es) ds)

  length-without_last :
      (es : List (Entry S)) → 0 < length es → suc (length (without_last es)) ≡ length es
  unfolding without_last
  length-without_last [] h = absurd (omega arith)
  length-without_last (e ∷ []) h = refl
  length-without_last (e ∷ f ∷ es) h = omega (arith, length-without_last (f ∷ es))

  -- Moved to the front, or put there.
  front-IsCache :
      (c : StmtCache S) (sql : Text) (e f : Entry S)
      → IsCache c
      → lookup sql c.lru_list ≡ some e
      → f.sql ≡ sql
      → IsCache (record c { lru_list = f ∷ without sql c.lru_list })
  front-IsCache c sql e f w h p = record {
    fits = omega (arith, w.fits, length-without sql c.lru_list e h);
    distinct = (
      ap (λ x. lookup x (without sql c.lru_list)) p ∙ lookup-without_self sql c.lru_list w.distinct,
      Distinct-without sql c.lru_list w.distinct,
    );
  }

  find-IsCache : (c : StmtCache S) (sql : Text) → IsCache c → IsCache (find c sql).0
  unfolding find
  find-IsCache c sql w = elim (Bool-cases (c.max_size == 0)) [
    | inl z ↦ subst IsCache (ground (arith, z)) w
    | inr z ↦ elim (Option-cases (lookup sql c.lru_list)) [
      | inl h ↦ subst IsCache (ground (arith, z, h)) w
      | inr (e, h) ↦
          subst IsCache {x = record c { lru_list = e ∷ without sql c.lru_list }}
            (ground (arith, z, h)) (front-IsCache c sql e e w h (lookup-sql sql c.lru_list e h))
    ]
  ]

  insert-IsCache :
      (c : StmtCache S) (sql : Text) (stmt : S) → IsCache c → IsCache (insert c sql stmt).0
  unfolding insert
  insert-IsCache c sql stmt w = elim (Bool-cases (c.max_size == 0)) [
    | inl z ↦ subst IsCache (ground (arith, z)) w
    | inr z ↦ elim (Option-cases (lookup sql c.lru_list)) [
      | inl h ↦ elim (Bool-cases (leb c.max_size (length c.lru_list))) [
        | inl l ↦
            subst IsCache
              {x = record c {
                lru_list = record { sql = sql; stmt = stmt } ∷ without_last c.lru_list;
              }}
              (ground (arith, z, h, l))
              record {
                fits = omega (arith, w.fits, length-without_last c.lru_list (ground (arith, z, l)));
                distinct = (
                  lookup-without_last-none sql c.lru_list h,
                  Distinct-without_last c.lru_list w.distinct,
                );
              }
        | inr l ↦
            subst IsCache
              {x = record c { lru_list = record { sql = sql; stmt = stmt } ∷ c.lru_list }}
              (ground (arith, z, h, l))
              record { fits = ground (arith, l); distinct = (h, w.distinct) }
      ]
      | inr (e, h) ↦
          subst IsCache
            {x = record c {
              lru_list = record { sql = e.sql; stmt = stmt } ∷ without sql c.lru_list;
            }}
            (ground (arith, z, h))
            (front-IsCache c sql e (record { sql = e.sql; stmt = stmt }) w h
              (lookup-sql sql c.lru_list e h))
    ]
  ]

  erase-IsCache : (c : StmtCache S) (sql : Text) → IsCache c → IsCache (erase c sql).0
  unfolding erase
  erase-IsCache c sql w = elim (Option-cases (lookup sql c.lru_list)) [
    | inl h ↦ subst IsCache (ground (arith, h)) w
    | inr (e, h) ↦
        subst IsCache {x = record c { lru_list = without sql c.lru_list }} (ground (arith, h))
          record {
            fits = omega (arith, w.fits, length-without_le sql c.lru_list);
            distinct = Distinct-without sql c.lru_list w.distinct;
          }
  ]

  -- Every operation keeps a cache in bounds and with one entry for each text.
  pub step-IsCache :
      (c : StmtCache S) (sql : Text) (stmt : S)
      → IsCache c
      → IsCache (find c sql).0
        × IsCache (insert c sql stmt).0
        × IsCache (erase c sql).0
        × IsCache (clear c).0
  unfolding clear
  step-IsCache c sql stmt w = (
    find-IsCache c sql w,
    insert-IsCache c sql stmt w,
    erase-IsCache c sql w,
    record { fits = omega arith; distinct = tt },
  )
