-- ===== src/Routing/Resolve/Hashed.antt =====
-- setPerfectHashLookup of src/core/Router.cpp: what resolveRoute finds with the perfect hash.
use hical.Base.{
  ℕ, ◌<◌, ◌≡◌, refl, true, not, Option, none, some, length, ◌==◌, if◌then◌else◌, get_elem?, arith,
  sym, ap, ◌∙◌, inl, inr, Bool-cases, Option-cases, subst, is_some, ltb,
}
use hical.Routing.Path.{k_max_path_segments}
use hical.Routing.Decode.{slashes, request_path}
use hical.Routing.PerfectHash.{Key, Entry, PerfectHash, hash_lookup, valid}
use hical.Routing.PerfectHash.Build.{IsTable, hash_lookup_sound}
use hical.Routing.Table.{HttpRequest, RouteEntry, Router, find_static}
use hical.Routing.Resolve.{
  ResolveResult, no_result, resolve_route, resolve_dynamic, find_hashed, null_slots,
  set_perfect_hash_lookup,
}
use hical.Routing.Resolve.Allowed.{find_hashed-none}
use hical.Routing.Resolve.Slots.{fill_map_has, length-null_slots, get_elem?_lt}

module _ {R : Type 0} where
  -- Every key of the perfect hash is a static route.
  abbrev pub IsRegistered : PerfectHash → Router R → Type 0
  IsRegistered p r =
      (i : ℕ) (e : Entry)
      → get_elem? p.keys i ≡ some e
      → is_some (find_static e.key r.static_routes) ≡ true

  registered_at :
      (p : PerfectHash) (r : Router R) (k : Key) (i : ℕ)
      → IsTable p
      → IsRegistered p r
      → hash_lookup p k ≡ some i
      → is_some (find_static k r.static_routes) ≡ true
  registered_at p r k i t c h =
      let (e, at_e, key_e) = hash_lookup_sound p k i t h in
      subst (λ x. is_some (find_static x r.static_routes) ≡ true) key_e (c i e at_e)

  -- What the hash finds is what the map of the static routes has.
  find_hashed_sound :
      (p : PerfectHash) (r : Router R) (k : Key) (i : ℕ)
      → IsTable p
      → IsRegistered p r
      → valid p ≡ true
      → hash_lookup p k ≡ some i
      → find_hashed (set_perfect_hash_lookup r p) k ≡ some (find_static k r.static_routes)
  unfolding find_hashed set_perfect_hash_lookup
  find_hashed_sound p r k i t c v h =
      let (e, at_e, key_e) = hash_lookup_sound p k i t h in
      ground (
        arith,
        h,
        fill_map_has p t k i h r.static_routes (null_slots (length p.keys))
            (in_slots i (get_elem?_lt p.keys i e at_e)) (registered_at p r k i t c h),
      )
    where
      in_slots : (i : ℕ) → i < length p.keys → i < length (null_slots (length p.keys))
      in_slots i lt = omega (arith, length-null_slots (length p.keys))

  find_hashed_missing :
      (p : PerfectHash) (r : Router R) (k : Key)
      → hash_lookup p k ≡ none
      → find_hashed (set_perfect_hash_lookup r p) k ≡ none
  unfolding find_hashed set_perfect_hash_lookup
  find_hashed_missing p r k h = ground (arith, h)

  set_seed :
      (p : PerfectHash) (r : Router R)
      → (p.seed == 0) ≡ true
      → ((set_perfect_hash_lookup r p).phr_lookup.seed == 0) ≡ true
  unfolding set_perfect_hash_lookup
  set_seed p r h = h

  -- The rest of resolveRoute, by what the hash has found.
  abbrev after_hash :
      Router R → HttpRequest → Option (Option (RouteEntry R)) → ResolveResult R × HttpRequest
  after_hash r req o = elim o as (λ _. ResolveResult R × HttpRequest) [
    | some pointer ↦ (record no_result { static_entry = pointer }, req)
    | none ↦
        elim (find_static (record { method = req.method; path = request_path req.path })
            r.static_routes)
          as (λ _. ResolveResult R × HttpRequest) [
            | some e ↦ (record no_result { static_entry = some e }, req)
            | none ↦ resolve_dynamic r req (request_path req.path)
          ]
  ]

  resolve_route-after_hash :
      (r : Router R) (req : HttpRequest)
      → resolve_route r req ≡ (
          if ltb k_max_path_segments (slashes req.path)
          then (record no_result { path_too_deep = true }, req)
          else after_hash r req
              (find_hashed r (record { method = req.method; path = request_path req.path })))
  unfolding resolve_route
  resolve_route-after_hash r req = refl

  after_hash-set :
      (p : PerfectHash) (r : Router R) (req : HttpRequest) (o : Option (Option (RouteEntry R)))
      → after_hash (set_perfect_hash_lookup r p) req o ≡ after_hash r req o
  unfolding set_perfect_hash_lookup resolve_dynamic
  after_hash-set p r req (some pointer) = refl
  after_hash-set p r req none = refl

  -- A pointer to the static route gives what the search for it gives.
  after_hash_static :
      (r : Router R) (req : HttpRequest)
      → is_some (
          find_static
            (record { method = req.method; path = request_path req.path })
            r.static_routes)
        ≡ true
      → after_hash r req (
          some (
            find_static
              (record { method = req.method; path = request_path req.path })
              r.static_routes))
        ≡ after_hash r req none
  after_hash_static r req h =
      static_found (resolve_dynamic r req (request_path req.path))
        (find_static (record { method = req.method; path = request_path req.path }) r.static_routes)
        h
    where
      static_found :
          (d : ResolveResult R × HttpRequest) (o : Option (RouteEntry R))
          → is_some o ≡ true
          → (record no_result { static_entry = o }, req)
            ≡ elim o as (λ _. ResolveResult R × HttpRequest) [
              | some e ↦ (record no_result { static_entry = some e }, req)
              | none ↦ d
            ]
      static_found d none e = absurd (ground arith)
      static_found d (some e) h = refl

  after_hash_same :
      (p : PerfectHash) (r : Router R) (req : HttpRequest)
      → IsTable p
      → IsRegistered p r
      → after_hash r req (
          find_hashed
            (set_perfect_hash_lookup r p)
            (record { method = req.method; path = request_path req.path }))
        ≡ after_hash r req none
  after_hash_same p r req t c =
      let key : Key = record { method = req.method; path = request_path req.path } in
      elim (Bool-cases (p.seed == 0)) [
        | inl z ↦
            ap (after_hash r req)
              (find_hashed-none (set_perfect_hash_lookup r p) key (set_seed p r z))
        | inr nz ↦ elim (Option-cases (hash_lookup p key)) [
          | inl n ↦ ap (after_hash r req) (find_hashed_missing p r key n)
          | inr f ↦
              ap (after_hash r req) (find_hashed_sound p r key f.0 t c (ap not nz) f.1)
              ∙ after_hash_static r req (registered_at p r key f.0 t c f.1)
        ]
      ]

  -- A perfect hash whose table is sound, and whose keys are static routes of a router without one,
  -- changes no result of the router.
  pub resolve_route-set_perfect_hash_lookup :
      (p : PerfectHash) (r : Router R) (req : HttpRequest)
      → IsTable p
      → IsRegistered p r
      → (r.phr_lookup.seed == 0) ≡ true
      → resolve_route (set_perfect_hash_lookup r p) req ≡ resolve_route r req
  resolve_route-set_perfect_hash_lookup p r req t c n =
      let key : Key = record { method = req.method; path = request_path req.path } in
      let at_depth : ResolveResult R × HttpRequest → ResolveResult R × HttpRequest = λ x.
        if ltb k_max_path_segments (slashes req.path)
        then (record no_result { path_too_deep = true }, req)
        else x in
      resolve_route-after_hash (set_perfect_hash_lookup r p) req
      ∙ ap at_depth (
          after_hash-set p r req (find_hashed (set_perfect_hash_lookup r p) key)
          ∙ after_hash_same p r req t c
          ∙ ap (after_hash r req) (sym (find_hashed-none r key n)))
      ∙ sym (resolve_route-after_hash r req)
