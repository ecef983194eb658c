-- ===== src/Examples/StmtCache.antt =====
-- Runs of the statement cache model of src/db/StmtCache.cpp.
use hical.Base.{ℕ, ◌≡◌, refl, false, [], ◌∷◌, none, some, codes, arith, text_eq, if◌then◌else◌}
use hical.Db.StmtCache.{StmtCache, lookup, find, insert, erase, clear, without, last_entry}
use hical.Db.StmtCache.Lru.{IsCache, step-IsCache}
use hical.Db.StmtCache.Lookup.{insert_evicts}

-- A cache of two statements, which are numbers here; the first is the most recent.
abbrev full : StmtCache ℕ
full = record {
  max_size = 2;
  lru_list =
      record { sql = codes "SELECT 1"; stmt = 11 }
      ∷ record { sql = codes "SELECT 2"; stmt = 22 }
      ∷ [];
}

full-IsCache : IsCache full
unfolding lookup text_eq
full-IsCache = record { fits = omega arith; distinct = (refl, (refl, tt)) }

step-IsCache_example :
    IsCache (find full (codes "SELECT 2")).0
    × IsCache (insert full (codes "SELECT 2") 33).0
    × IsCache (erase full (codes "SELECT 2")).0
    × IsCache (clear full).0
step-IsCache_example = step-IsCache full (codes "SELECT 2") 33 full-IsCache

absent : lookup (codes "SELECT 3") full.lru_list ≡ none
unfolding lookup text_eq
absent = refl

last : last_entry full.lru_list ≡ some (record { sql = codes "SELECT 2"; stmt = 22 })
unfolding last_entry
last = refl

differs : text_eq (codes "SELECT 3") (codes "SELECT 1") ≡ false
unfolding text_eq
differs = refl

insert_evicts_example :
    ((insert full (codes "SELECT 3") 33).1 ≡ some 22)
    × (lookup (codes "SELECT 1") (insert full (codes "SELECT 3") 33).0.lru_list ≡ (
        if text_eq (codes "SELECT 2") (codes "SELECT 1")
        then none
        else lookup (codes "SELECT 1") full.lru_list))
insert_evicts_example =
    insert_evicts full (codes "SELECT 3") (codes "SELECT 1") 33
      (record { sql = codes "SELECT 2"; stmt = 22 }) full-IsCache (omega arith) (omega arith) absent
      last differs

-- A hit moves the entry to the front.
found : find full (codes "SELECT 2") ≡ (
  record full {
    lru_list =
        record { sql = codes "SELECT 2"; stmt = 22 }
        ∷ record { sql = codes "SELECT 1"; stmt = 11 }
        ∷ [];
  },
  some 22,
)
unfolding find lookup without text_eq
found = refl
