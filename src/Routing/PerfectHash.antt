-- ===== src/Routing/PerfectHash.antt =====
-- RuntimePerfectHashLookup of src/core/PerfectHashRouter.h: a table of slots without a collision.
use hical.Base.{
  ℕ, zero, suc, ◌+◌, ◌*◌, ◌/◌, ◌%◌, ◌^◌, ◌-◌, ◌≡◌, refl, Bool, true, false, not, ◌&&◌, ◌||◌, List,
  [], ◌∷◌, ◌++◌, Option, none, some, Text, text_eq, length, leb, ltb, ◌==◌, if◌then◌else◌, map,
  get_elem?, set, is_some, bit_xor, bit_or,
}
use hical.Routing.Method.{HttpMethod, index, same_method}
pub mod Build

abbrev pub word64 : ℕ
word64 = 2 ^ 64

-- A method and a path; its place in the list of the keys is the index_ of the code.
pub record Key : Type 0 where
  pub method : HttpMethod
  pub path : Text

pub record Entry : Type 0 where
  pub key : Key
  pub index_ : ℕ

-- A slot that holds no entry is none: its path has a null pointer.
pub record PerfectHash : Type 0 where
  pub keys : List Entry
  pub seed : ℕ
  pub shift : ℕ
  pub entries : List (Option Entry)

unfoldable pub same_key : Key → Key → Bool
unfolding text_eq
same_key k l = same_method k.method l.method && text_eq k.path l.path

-- `x |= x >> 1` and so on, of a word of 64 bits.
abbrev pub smear : ℕ → ℕ → ℕ
smear bits x = bit_or x (x / 2 ^ bits)

unfoldable pub next_pow2 : ℕ → ℕ
next_pow2 x =
    if x == 0 then 1 else smear 32 (smear 16 (smear 8 (smear 4 (smear 2 (smear 1 (x - 1)))))) + 1

-- `while (x >>= 1) ++r`, with fuel for the 64 bits of x.
unfoldable pub log2_floor : ℕ → ℕ → ℕ
log2_floor zero x = 0
log2_floor (suc fuel) x = let rest = log2_floor fuel (x / 2) in if x / 2 == 0 then 0 else suc rest

-- The loop of hashPathMethod over the path.
unfoldable pub hash_path : Text → ℕ → ℕ
hash_path [] h = h
hash_path (c ∷ cs) h = hash_path cs ((h * 32 + h + c) % word64)

unfoldable pub mix : ℕ → ℕ
mix h =
    let a = bit_xor h (h / 2 ^ 33) in
    let b = (a * 0xFF51AFD7ED558CCD) % word64 in bit_xor b (b / 2 ^ 33)

unfoldable pub hash_path_method : Key → ℕ
unfolding hash_path mix
hash_path_method k = mix ((hash_path k.path 5381 * 33 + index k.method) % word64)

-- `(hash * seed) >> shift`
abbrev pub slot_of : ℕ → ℕ → ℕ → ℕ
slot_of hash seed shift = (hash * seed) % word64 / 2 ^ shift

-- The slots of the keys are pairwise different: the slots that are taken are a list here.
abbrev pub taken : ℕ → List ℕ → Bool
taken slot [] = false
taken slot (s ∷ ss) = slot == s || taken slot ss

unfoldable pub no_conflict : ℕ → ℕ → List ℕ → List ℕ → Bool
no_conflict seed shift [] occupied = true
no_conflict seed shift (h ∷ hs) occupied =
    let rest = no_conflict seed shift hs (slot_of h seed shift ∷ occupied) in
    if taken (slot_of h seed shift) occupied then false else rest

-- The candidates, odd and below 100000: `left` of them are still to be tried.
unfoldable pub search_seed : ℕ → ℕ → ℕ → List ℕ → Option ℕ
unfolding no_conflict
search_seed zero cand shift hashes = none
search_seed (suc left) cand shift hashes =
    let rest = search_seed left (cand + 2) shift hashes in
    elim (no_conflict cand shift hashes []) [ true ↦ some cand | false ↦ rest ]

-- The entries, numbered from `i`.
abbrev pub numbered : ℕ → List Key → List Entry
numbered i [] = []
numbered i (k ∷ ks) = record { key = k; index_ = i } ∷ numbered (suc i) ks

abbrev pub empty_slots : ℕ → List (Option Entry)
empty_slots zero = []
empty_slots (suc n) = none ∷ empty_slots n

unfoldable pub place : ℕ → ℕ → List Entry → List (Option Entry) → List (Option Entry)
place seed shift [] table = table
place seed shift (e ∷ es) table =
    place seed shift es (set table (slot_of (hash_path_method e.key) seed shift) (some e))

-- The constructor with a seed.
unfoldable pub with_seed : List Entry → ℕ → ℕ → PerfectHash
with_seed keys seed shift = record {
  keys = keys;
  seed = seed;
  shift = shift;
  entries = place seed shift keys (empty_slots (2 ^ (64 - shift)));
}

abbrev pub no_lookup : PerfectHash
no_lookup = record { keys = []; seed = 0; shift = 0; entries = [] }

unfoldable pub build_from_keys : List Key → PerfectHash
unfolding with_seed
build_from_keys keys =
    let n = length keys in
    let table_size = next_pow2 (if ltb 1 n then n + n / 2 else 2) in
    let shift = 64 - log2_floor 64 table_size in
    if n == 0 || ltb 256 n
    then no_lookup
    else elim (search_seed 50000 1 shift (map hash_path_method keys)) [
      | none ↦ no_lookup
      | some seed ↦ with_seed (numbered 0 keys) seed shift
    ]

abbrev pub valid : PerfectHash → Bool
valid p = not (p.seed == 0)

-- SIZE_MAX is none.
unfoldable pub hash_lookup : PerfectHash → Key → Option ℕ
hash_lookup p k =
    if p.seed == 0
    then none
    else elim (get_elem? p.entries (slot_of (hash_path_method k) p.seed p.shift)) [
      | none ↦ none
      | some slot ↦ elim slot [
        | none ↦ none
        | some e ↦ if same_key e.key k then some e.index_ else none
      ]
    ]
