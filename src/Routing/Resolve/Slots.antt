-- ===== src/Routing/Resolve/Slots.antt =====
-- The slots that setPerfectHashLookup of src/core/Router.cpp fills.
use hical.Base.{
  ℕ, zero, suc, ◌<◌, ◌≡◌, refl, true, false, List, [], ◌∷◌, Option, some, length, ◌==◌, get_elem?,
  set, arith, sym, ap, ◌∙◌, inl, inr, Bool-cases, Option-cases, is_some, ==_iff, get_elem?-set_self,
  get_elem?-set_ne, length-set, ◌≢◌,
}
use hical.Routing.PerfectHash.{Key, Entry, PerfectHash, same_key, hash_lookup}
use hical.Routing.PerfectHash.Build.{IsTable, hash_lookup_sound}
use hical.Routing.Table.{RouteEntry, find_static}
use hical.Routing.Allow.Agree.{same_key_sound}
use hical.Routing.Resolve.{fill_map, null_slots}

-- An index has one key.
hash_lookup_injective :
    (p : PerfectHash) (k l : Key) (i : ℕ)
    → IsTable p
    → hash_lookup p k ≡ some i
    → hash_lookup p l ≡ some i
    → k ≡ l
hash_lookup_injective p k l i t g h =
    let (e, at_e, key_e) = hash_lookup_sound p k i t g in
    let (f, at_f, key_f) = hash_lookup_sound p l i t h in sym key_e ∙ same_entry (at_e) at_f ∙ key_f
  where
    same_entry : {e f : Entry} {o : Option Entry} → o ≡ some e → o ≡ some f → e.key ≡ f.key
    same_entry {e} {f} a b = ap (λ x. x.key) {x = e} {y = f} cc

pub get_elem?_lt {ℓ} :
    {A : Type ℓ} (xs : List A) (i : ℕ) (x : A) → get_elem? xs i ≡ some x → i < length xs
get_elem?_lt [] i x h = absurd (ground arith)
get_elem?_lt (y ∷ ys) zero x h = omega arith
get_elem?_lt (y ∷ ys) (suc i) x h = omega (arith, get_elem?_lt ys i x h)

-- A write elsewhere, or of the same key, keeps a slot.
set_keeps :
    (slots : List (Option Key)) (i j : ℕ) (k l : Key)
    → get_elem? slots i ≡ some (some k)
    → (j ≡ i → l ≡ k)
    → get_elem? (set slots j (some l)) i ≡ some (some k)
set_keeps slots i j k l h same = elim (Bool-cases (j == i)) [
  | inl eq ↦
      let e = (==_iff j i).0 eq in
      ap (λ n. get_elem? (set slots n (some l)) i) e
      ∙ get_elem?-set_self slots i (some l) (get_elem?_lt slots i (some k) h)
      ∙ ap (λ x. some (some x)) (same e)
  | inr ne ↦ get_elem?-set_ne slots j i (some l) (differs j i ne) ∙ h
]
  where
    differs : (j i : ℕ) → (j == i) ≡ false → j ≢ i
    differs j i h e = ground arith

pub length-null_slots : (n : ℕ) → length (null_slots n) ≡ n
length-null_slots zero = refl
length-null_slots (suc n) = ap suc (length-null_slots n)

module _ {R : Type 0} where
  length-fill_map :
      (p : PerfectHash) (es : List (RouteEntry R)) (slots : List (Option Key))
      → length (fill_map p es slots) ≡ length slots
  unfolding fill_map
  length-fill_map p [] slots = refl
  length-fill_map p (e ∷ es) slots = elim (Option-cases (hash_lookup p e.key)) [
    | inl n ↦ ground (arith, length-fill_map p es slots)
    | inr f ↦ ground (
      arith,
      length-fill_map p es (set slots f.0 (some e.key)),
      length-set slots f.0 (some e.key),
    )
  ]

  -- A slot that has the key of its index keeps it.
  fill_map_keeps :
      (p : PerfectHash) (t : IsTable p) (k : Key) (i : ℕ) (found : hash_lookup p k ≡ some i)
      (es : List (RouteEntry R)) (slots : List (Option Key))
      → get_elem? slots i ≡ some (some k)
      → get_elem? (fill_map p es slots) i ≡ some (some k)
  unfolding fill_map
  fill_map_keeps p t k i found [] slots h = h
  fill_map_keeps p t k i found (e ∷ es) slots h = elim (Option-cases (hash_lookup p e.key)) [
    | inl n ↦ ground (arith, fill_map_keeps p t k i found es slots h)
    | inr f ↦ ground (
      arith,
      fill_map_keeps p t k i found es (set slots f.0 (some e.key)) (
          set_keeps slots i f.0 k e.key h
            (λ eq. hash_lookup_injective p e.key k i t (f.1 ∙ ap some eq) found)),
    )
  ]

  pub fill_map_has :
      (p : PerfectHash) (t : IsTable p) (k : Key) (i : ℕ) (found : hash_lookup p k ≡ some i)
      (es : List (RouteEntry R)) (slots : List (Option Key))
      → i < length slots
      → is_some (find_static k es) ≡ true
      → get_elem? (fill_map p es slots) i ≡ some (some k)
  unfolding fill_map find_static
  fill_map_has p t k i found [] slots h s = absurd (ground arith)
  fill_map_has p t k i found (e ∷ es) slots h s = elim (Bool-cases (same_key e.key k)) [
    | inl same ↦
        let here = ap (hash_lookup p) (same_key_sound e.key k same) ∙ found in
        ground (
          arith,
          here,
          fill_map_keeps p t k i found es (set slots i (some e.key)) (
              get_elem?-set_self slots i (some e.key) h
              ∙ ap (λ x. some (some x)) (same_key_sound e.key k same)),
        )
    | inr other ↦ elim (Option-cases (hash_lookup p e.key)) [
      | inl n ↦ ground (arith, fill_map_has p t k i found es slots h)
      | inr f ↦ ground (
        arith,
        length-set slots f.0 (some e.key),
        fill_map_has p t k i found es (set slots f.0 (some e.key)),
      )
    ]
  ]
