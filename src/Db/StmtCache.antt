-- ===== src/Db/StmtCache.antt =====
-- src/db/StmtCache.cpp: the least-recently-used cache of prepared statements. The list has the most
-- recent entry first; the map of the code points from each text to its entry, so a look-up in the map
-- is a search of the list, by text.
use hical.Base.{
  ℕ, ◌≤◌, ◌≡◌, Bool, true, false, not, ◌&&◌, List, [], ◌∷◌, ◌++◌, map, Option, none, some, Text,
  text_eq, length, leb, ◌==◌, if◌then◌else◌,
}
pub mod Lru
pub mod Lookup

-- An entry of lruList_: S is boost::mysql::statement.
pub record Entry (S : Type 0) : Type 0 where
  pub sql : Text
  pub stmt : S

pub record StmtCache (S : Type 0) : Type 0 where
  pub max_size : ℕ
  pub lru_list : List (Entry S)

module _ {S : Type 0} where
  -- `map_.find(sql)`
  unfoldable pub lookup : Text → List (Entry S) → Option (Entry S)
  unfolding text_eq
  lookup sql [] = none
  lookup sql (e ∷ es) = let rest = lookup sql es in if text_eq e.sql sql then some e else rest

  -- The list without the entry of that text.
  unfoldable pub without : Text → List (Entry S) → List (Entry S)
  unfolding text_eq
  without sql [] = []
  without sql (e ∷ es) = let rest = without sql es in if text_eq e.sql sql then es else e ∷ rest

  -- `lruList_.back()` and `pop_back()`
  unfoldable pub last_entry : List (Entry S) → Option (Entry S)
  last_entry [] = none
  last_entry (e ∷ []) = some e
  last_entry (e ∷ f ∷ es) = last_entry (f ∷ es)

  unfoldable pub without_last : List (Entry S) → List (Entry S)
  without_last [] = []
  without_last (e ∷ []) = []
  without_last (e ∷ f ∷ es) = e ∷ without_last (f ∷ es)

  -- find: the statement, whose entry is moved to the front.
  unfoldable pub find : StmtCache S → Text → StmtCache S × Option S
  unfolding lookup without
  find c sql = if c.max_size == 0 then (c, none) else elim (lookup sql c.lru_list) [
    | none ↦ (c, none)
    | some e ↦ (record c { lru_list = e ∷ without sql c.lru_list }, some e.stmt)
  ]

  -- insert: the statement that the caller has to close, if any.
  unfoldable pub insert : StmtCache S → Text → S → StmtCache S × Option S
  unfolding lookup without last_entry without_last
  insert c sql stmt = if c.max_size == 0 then (c, some stmt) else elim (lookup sql c.lru_list) [
    | some e ↦
        (record c { lru_list = record { sql = e.sql; stmt = stmt } ∷ without sql c.lru_list }, none)
    | none ↦
        if leb c.max_size (length c.lru_list)
        then (
          record c { lru_list = record { sql = sql; stmt = stmt } ∷ without_last c.lru_list },
          elim (last_entry c.lru_list) [ none ↦ none | some back ↦ some back.stmt ],
        )
        else (record c { lru_list = record { sql = sql; stmt = stmt } ∷ c.lru_list }, none)
  ]

  unfoldable pub erase : StmtCache S → Text → StmtCache S × Option S
  unfolding lookup without
  erase c sql = elim (lookup sql c.lru_list) [
    | none ↦ (c, none)
    | some e ↦ (record c { lru_list = without sql c.lru_list }, some e.stmt)
  ]

  unfoldable pub clear : StmtCache S → StmtCache S × List S
  clear c = (record c { lru_list = [] }, map (λ e. e.stmt) c.lru_list)
