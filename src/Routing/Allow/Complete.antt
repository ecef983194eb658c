-- ===== src/Routing/Allow/Complete.antt =====
-- The index of first segments in src/core/Router.cpp against the routes, under every
-- registration.
use hical.Base.{
  if_holds, drop, is_empty, front, contains, ◌≡◌, refl, Bool, true, false, not, ◌||◌, List, ◌==◌,
  ◌⊎◌, inl, inr, ap, subst, ◌∙◌, sym, Option-cases, if◌then◌else◌, arith, Text, starts_with,
  is_some,
}
use hical.Routing.Method.{HttpMethod}
use hical.Routing.Path.{
  first_path_segment, is_param_segment, segment, match_param_path, before_star, is_wildcard_route,
  is_param_route,
}
use hical.Routing.PerfectHash.{PerfectHash}
use hical.Routing.Table.{
  Handler, Router, RouteKind, add_wildcard, add_param, add_static, index_route_first_segment, route,
  empty_router,
}
use hical.Routing.Allow.{any_param, any_wildcard}
use hical.Routing.Allow.Masks.{listed, indexed}
use hical.Routing.Allow.Index.{
  index_route_grows, index_static_self, index_param_self, index_wildcard_self,
}
use hical.Routing.Table.{RouteEntry, index_dynamic, index_segment, index_wildcard_segment_prefix}
use hical.Routing.Allow.Listed.{listed-add_wildcard, listed-add_param, listed-add_static}

module _ {R : Type 0} where
  -- The index has every method of a path that the tables have.
  abbrev pub IsComplete : Router R → Type 0
  IsComplete r = (m : HttpMethod) (path : Text) → listed r m path ≡ true → indexed r m path ≡ true

  -- The tables do not change with the index.
  tables :
      Router R
      → List (RouteEntry R) × (Text → List HttpMethod) × (HttpMethod → Text → Bool) × PerfectHash
  tables r = (r.static_routes, r.static_path_methods, listed r, r.phr_lookup)

  tables-index :
      (r : Router R) (n : HttpMethod) (pattern : Text) (kind : RouteKind)
      → tables (index_route_first_segment r n pattern kind) ≡ tables r
  unfolding tables index_route_first_segment index_dynamic index_segment
      index_wildcard_segment_prefix
  tables-index r n pattern RouteKind.h_static = refl
  tables-index r n pattern RouteKind.h_param =
      if_holds (λ x. tables x ≡ tables r) (is_param_segment (first_path_segment pattern))
        (index_dynamic r n) (index_segment r n (first_path_segment pattern)) refl refl
  tables-index r n pattern RouteKind.h_wildcard =
      let prefix = before_star pattern in
      let rest = drop 1 prefix in
      if_holds (λ x. tables x ≡ tables r) (is_empty prefix || not (front prefix == b'/'))
        (index_dynamic r n)
        (if not (contains b'/' rest)
          then index_wildcard_segment_prefix r n rest
          else index_segment r n (segment rest))
        refl
        (if_holds (λ x. tables x ≡ tables r) (not (contains b'/' rest))
          (index_wildcard_segment_prefix r n rest) (index_segment r n (segment rest)) refl refl)

  pub listed-index :
      (r : Router R) (n : HttpMethod) (pattern : Text) (kind : RouteKind) (m : HttpMethod)
      (path : Text)
      → listed (index_route_first_segment r n pattern kind) m path ≡ listed r m path
  unfolding tables
  listed-index r n pattern kind m path = ap (λ t. t.2 m path) (tables-index r n pattern kind)

  pub static_routes-index :
      (r : Router R) (n : HttpMethod) (pattern : Text) (kind : RouteKind)
      → (index_route_first_segment r n pattern kind).static_routes ≡ r.static_routes
  unfolding tables
  static_routes-index r n pattern kind = ap (λ t. t.0) (tables-index r n pattern kind)

  pub static_path_methods-index :
      (r : Router R) (n : HttpMethod) (pattern : Text) (kind : RouteKind)
      → (index_route_first_segment r n pattern kind).static_path_methods ≡ r.static_path_methods
  unfolding tables
  static_path_methods-index r n pattern kind = ap (λ t. t.1) (tables-index r n pattern kind)

  phr_lookup-index :
      (r : Router R) (n : HttpMethod) (pattern : Text) (kind : RouteKind)
      → (index_route_first_segment r n pattern kind).phr_lookup ≡ r.phr_lookup
  unfolding tables
  phr_lookup-index r n pattern kind = ap (λ t. t.3) (tables-index r n pattern kind)

  -- A registration sets no perfect hash.
  pub route-phr_lookup :
      (r : Router R) (n : HttpMethod) (pattern : Text) (h : Handler R)
      → (route r n pattern h).phr_lookup ≡ r.phr_lookup
  unfolding route add_wildcard add_param add_static
  route-phr_lookup r n pattern h =
      let wildcard =
        index_route_first_segment (add_wildcard r n pattern h) n pattern RouteKind.h_wildcard in
      let param = index_route_first_segment (add_param r n pattern h) n pattern RouteKind.h_param in
      let static =
        index_route_first_segment (add_static r n pattern h) n pattern RouteKind.h_static in
      if_holds (λ x. x.phr_lookup ≡ r.phr_lookup) (is_wildcard_route pattern) wildcard
        (if is_param_route pattern then param else static)
        (phr_lookup-index (add_wildcard r n pattern h) n pattern RouteKind.h_wildcard)
        (if_holds (λ x. x.phr_lookup ≡ r.phr_lookup) (is_param_route pattern) param static
          (phr_lookup-index (add_param r n pattern h) n pattern RouteKind.h_param)
          (phr_lookup-index (add_static r n pattern h) n pattern RouteKind.h_static))

  -- An update of the tables that the index follows.
  module _ (r new : Router R) (n : HttpMethod) (pattern : Text) (kind : RouteKind)
      (c : IsComplete r) (Hit : Text → Type 0)
      (same : (m : HttpMethod) (path : Text) → indexed r m path ≡ true → indexed new m path ≡ true)
      (split : (m : HttpMethod) (path : Text)
        → listed new m path ≡ true
        → (listed r m path ≡ true) ⊎ ((n ≡ m) × Hit path))
      (found : (path : Text)
        → Hit path
        → indexed (index_route_first_segment new n pattern kind) n path ≡ true) where
    update-IsComplete : IsComplete (index_route_first_segment new n pattern kind)
    update-IsComplete m path e =
        elim (split m path (sym (listed-index new n pattern kind m path) ∙ e)) [
          | inl old ↦ index_route_grows new m n path pattern kind (same m path (c m path old))
          | inr hit ↦
              subst (λ k. indexed (index_route_first_segment new n pattern kind) k path ≡ true)
                hit.0 (found path hit.1)
        ]

  module _ (r : Router R) (n : HttpMethod) (pattern : Text) (h : Handler R) (c : IsComplete r) where
    add_wildcard-IsComplete :
        IsComplete
          (index_route_first_segment (add_wildcard r n pattern h) n pattern RouteKind.h_wildcard)
    unfolding add_wildcard
    add_wildcard-IsComplete =
        update-IsComplete r (add_wildcard r n pattern h) n pattern RouteKind.h_wildcard c
          (λ path. starts_with (before_star pattern) path ≡ true) (λ m path e. e)
          (λ m path. listed-add_wildcard r n m pattern path h)
          (λ path. index_wildcard_self (add_wildcard r n pattern h) n n path pattern)

    add_param-IsComplete :
        IsComplete (index_route_first_segment (add_param r n pattern h) n pattern RouteKind.h_param)
    unfolding add_param
    add_param-IsComplete =
        update-IsComplete r (add_param r n pattern h) n pattern RouteKind.h_param c
          (λ path. is_some (match_param_path false pattern path) ≡ true) (λ m path e. e)
          (λ m path. listed-add_param r n m pattern path h)
          (λ path e. elim (Option-cases (match_param_path false pattern path)) [
            | inl none_found ↦ absurd (ground arith)
            | inr found ↦
                index_param_self (add_param r n pattern h) n n path false pattern found.0 found.1
          ])

    add_static-IsComplete :
        IsComplete
          (index_route_first_segment (add_static r n pattern h) n pattern RouteKind.h_static)
    unfolding add_static
    add_static-IsComplete =
        update-IsComplete r (add_static r n pattern h) n pattern RouteKind.h_static c
          (λ path. pattern ≡ path) (λ m path e. e)
          (λ m path. listed-add_static r n m pattern path h)
          (λ path e.
            subst
              (λ p.
                indexed
                  (index_route_first_segment (add_static r n pattern h) n pattern
                    RouteKind.h_static)
                  n p
                ≡ true)
              e (index_static_self (add_static r n pattern h) n n pattern))

  pub route-IsComplete :
      (r : Router R) (n : HttpMethod) (pattern : Text) (h : Handler R)
      → IsComplete r
      → IsComplete (route r n pattern h)
  unfolding route
  route-IsComplete r n pattern h c =
      let wildcard =
        index_route_first_segment (add_wildcard r n pattern h) n pattern RouteKind.h_wildcard in
      let param = index_route_first_segment (add_param r n pattern h) n pattern RouteKind.h_param in
      let static =
        index_route_first_segment (add_static r n pattern h) n pattern RouteKind.h_static in
      if_holds IsComplete (is_wildcard_route pattern) wildcard
        (if is_param_route pattern then param else static) (add_wildcard-IsComplete r n pattern h c)
        (if_holds IsComplete (is_param_route pattern) param static
          (add_param-IsComplete r n pattern h c) (add_static-IsComplete r n pattern h c))

pub empty-IsComplete : (R : Type 0) → IsComplete (empty_router {R = R})
unfolding any_param any_wildcard
empty-IsComplete R m path h = absurd (ground arith)
