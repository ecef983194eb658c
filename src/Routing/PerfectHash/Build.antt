-- ===== src/Routing/PerfectHash/Build.antt =====
-- buildFromKeys of src/core/PerfectHashRouter.h, and the table that it makes.
use hical.Base.{
  if_holds, ltb, ◌-◌, ◌/◌, ◌^◌, ℕ, zero, suc, ◌+◌, ◌≡◌, refl, ◌||◌, List, [], ◌∷◌, Option, none,
  some, length, ◌==◌, if◌then◌else◌, get_elem?, set, arith, All, ap, ◌∙◌, inl, inr, Bool-cases,
  Option-cases, subst, map,
}
use hical.Routing.PerfectHash.{
  Key, Entry, PerfectHash, same_key, place, slot_of, hash_path_method, numbered, empty_slots,
  with_seed, build_from_keys, hash_lookup, no_lookup, search_seed, log2_floor, next_pow2,
}
use hical.Routing.Allow.Agree.{same_key_sound}

-- Each entry of the table is the one that the keys have at its index.
abbrev pub IsTable : PerfectHash → Type 0
IsTable p =
    (slot : ℕ) (e : Entry)
    → get_elem? p.entries slot ≡ some (some e)
    → get_elem? p.keys e.index_ ≡ some e

-- An index that was found is that of the key.
pub hash_lookup_sound :
    (p : PerfectHash) (k : Key) (i : ℕ)
    → IsTable p
    → hash_lookup p k ≡ some i
    → (e : Entry) × (get_elem? p.keys i ≡ some e) × (e.key ≡ k)
unfolding hash_lookup
hash_lookup_sound p k i t h =
    let slot = slot_of (hash_path_method k) p.seed p.shift in
    elim (Option-cases (get_elem? p.entries slot)) [
      | inl missing ↦ absurd (ground arith)
      | inr found ↦ at_slot p k i t h found.0 found.1
    ]
  where
    entry_at :
        (p : PerfectHash) (k : Key) (i : ℕ)
        → IsTable p
        → hash_lookup p k ≡ some i
        → (e : Entry)
        → get_elem? p.entries (slot_of (hash_path_method k) p.seed p.shift) ≡ some (some e)
        → (f : Entry) × (get_elem? p.keys i ≡ some f) × (f.key ≡ k)
    entry_at p k i t h e g = elim (Bool-cases (same_key e.key k)) [
      | inl same ↦ (
        e,
        subst (λ j. get_elem? p.keys j ≡ some e) {x = e.index_} (ground arith)
            (t (slot_of (hash_path_method k) p.seed p.shift) e g),
        same_key_sound e.key k same,
      )
      | inr other ↦ absurd (ground arith)
    ]

    at_slot :
        (p : PerfectHash) (k : Key) (i : ℕ)
        → IsTable p
        → hash_lookup p k ≡ some i
        → (o : Option Entry)
        → get_elem? p.entries (slot_of (hash_path_method k) p.seed p.shift) ≡ some o
        → (f : Entry) × (get_elem? p.keys i ≡ some f) × (f.key ≡ k)
    at_slot p k i t h none g = absurd (ground arith)
    at_slot p k i t h (some e) g = entry_at p k i t h e g

Holds : (Entry → Type 0) → List (Option Entry) → Type 0
Holds Q table = (slot : ℕ) (e : Entry) → get_elem? table slot ≡ some (some e) → Q e

set-Holds :
    (Q : Entry → Type 0) (table : List (Option Entry)) (i : ℕ) (e : Entry)
    → Holds Q table
    → Q e
    → Holds Q (set table i (some e))
unfolding Holds
set-Holds Q [] i e h q slot f g = absurd (ground arith)
set-Holds Q (x ∷ xs) zero e h q zero f g = subst Q (ground arith) q
set-Holds Q (x ∷ xs) zero e h q (suc slot) f g = h (suc slot) f g
set-Holds Q (x ∷ xs) (suc i) e h q zero f g = h zero f g
set-Holds Q (x ∷ xs) (suc i) e h q (suc slot) f g = set-Holds Q xs i e (λ s. h (suc s)) q slot f g

place-Holds :
    (Q : Entry → Type 0) (seed shift : ℕ) (es : List Entry) (table : List (Option Entry))
    → All Q es
    → Holds Q table
    → Holds Q (place seed shift es table)
unfolding place
place-Holds Q seed shift [] table a h = h
place-Holds Q seed shift (e ∷ es) table a h =
    let slot = slot_of (hash_path_method e.key) seed shift in
    place-Holds Q seed shift es (set table slot (some e)) a.1 (set-Holds Q table slot e h a.0)

empty-Holds : (Q : Entry → Type 0) (n : ℕ) → Holds Q (empty_slots n)
unfolding Holds
empty-Holds Q zero slot e g = absurd (ground arith)
empty-Holds Q (suc n) zero e g = absurd (ground arith)
empty-Holds Q (suc n) (suc slot) e g = empty-Holds Q n slot e g

numbered_at :
    (keys : List Entry) (i : ℕ) (ks : List Key)
    → ((j : ℕ) (e : Entry) → get_elem? (numbered i ks) j ≡ some e → get_elem? keys (i + j) ≡ some e)
    → All (λ e. get_elem? keys e.index_ ≡ some e) (numbered i ks)
numbered_at keys i [] h = tt
numbered_at keys i (k ∷ ks) h = (
  ap (get_elem? keys) {y = i + 0} (omega arith) ∙ h 0 (record { key = k; index_ = i }) refl,
  numbered_at keys (suc i) ks
      (λ j e g. ap (get_elem? keys) {y = i + suc j} (omega arith) ∙ h (suc j) e g),
)

with_seed-IsTable :
    (ks : List Key) (seed shift : ℕ) → IsTable (with_seed (numbered 0 ks) seed shift)
unfolding with_seed Holds
with_seed-IsTable ks seed shift =
    let Q : Entry → Type 0 = λ e. get_elem? (numbered 0 ks) e.index_ ≡ some e in
    place-Holds Q seed shift (numbered 0 ks) (empty_slots (2 ^ (64 - shift)))
      (numbered_at (numbered 0 ks) 0 ks
        (λ j e g. ap (get_elem? (numbered 0 ks)) {x = 0 + j} {y = j} (omega arith) ∙ g))
      (empty-Holds Q (2 ^ (64 - shift)))

no_lookup-IsTable : IsTable no_lookup
no_lookup-IsTable slot e g = absurd (ground arith)

found-IsTable :
    (ks : List Key) (shift : ℕ) (o : Option ℕ)
    → IsTable (elim o as (λ _. PerfectHash) [
      | none ↦ no_lookup
      | some seed ↦ with_seed (numbered 0 ks) seed shift
    ])
found-IsTable ks shift none = no_lookup-IsTable
found-IsTable ks shift (some seed) = with_seed-IsTable ks seed shift

pub build_from_keys-IsTable : (keys : List Key) → IsTable (build_from_keys keys)
unfolding build_from_keys
build_from_keys-IsTable keys =
    let n = length keys in
    let shift = 64 - log2_floor 64 (next_pow2 (if ltb 1 n then n + n / 2 else 2)) in
    let found = search_seed 50000 1 shift (map hash_path_method keys) in
    if_holds IsTable (n == 0 || ltb 256 n) no_lookup
      (elim found as (λ _. PerfectHash) [
        | none ↦ no_lookup
        | some seed ↦ with_seed (numbered 0 keys) seed shift
      ])
      no_lookup-IsTable (found-IsTable keys shift found)
