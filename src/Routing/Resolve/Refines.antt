-- ===== src/Routing/Resolve/Refines.antt =====
-- resolveRoute and dispatch of src/core/Router.cpp where no route of the method has the path.
use hical.Base.{
  ◌≡◌, Bool, true, false, not, ◌&&◌, ◌||◌, [], inl, inr, ap, ◌∙◌, sym, Option-cases, arith, Text,
  is_some, some, none, ltb,
}
use hical.Routing.Method.{HttpMethod, same_method, k_methods, allowed_methods_from_mask}
use hical.Routing.Path.{k_max_path_segments}
use hical.Routing.Decode.{slashes, request_path}
use hical.Routing.PerfectHash.{Key}
use hical.Routing.Table.{HttpRequest, RouteEntry, Router, find_static}
use hical.Routing.Allow.{allow_mask, any_param, any_wildcard}
use hical.Routing.Resolve.{resolve_route, resolve_dynamic, find_param, find_wildcard, is_match}
use hical.Routing.Resolve.Allowed.{
  Built, allow_names, add_allowed-allow_names, has_route, allow_mask-has_route, Built-no_hash,
  resolve_dynamic_matches,
}

module _ {R : Type 0} (r : Router R) where
  -- Whether the request would be matched under another method.
  abbrev pub matches_as : HttpRequest → HttpMethod → Bool
  matches_as req m =
      not (same_method m req.method) && is_match (resolve_route r (record req { method = m })).0

module _ {R : Type 0} (r : Router R) (b : Built r) where
  -- The key of a request.
  abbrev key_of : HttpRequest → Key
  key_of req = record { method = req.method; path = request_path req.path }

  resolve_route_static :
      (req : HttpRequest) (e : RouteEntry R)
      → ltb k_max_path_segments (slashes req.path) ≡ false
      → find_static (key_of req) r.static_routes ≡ some e
      → is_match (resolve_route r req).0 ≡ true
  unfolding resolve_route
  resolve_route_static req e d h = ground (arith, Built-no_hash r b (key_of req))

  resolve_route_dynamic :
      (req : HttpRequest)
      → ltb k_max_path_segments (slashes req.path) ≡ false
      → find_static (key_of req) r.static_routes ≡ none
      → resolve_route r req ≡ resolve_dynamic r req (request_path req.path)
  unfolding resolve_route
  resolve_route_dynamic req d h = ground (arith, Built-no_hash r b (key_of req))

  -- A request is matched exactly when a route of its method has its path.
  pub resolve_route-has_route :
      (req : HttpRequest)
      → ltb k_max_path_segments (slashes req.path) ≡ false
      → is_match (resolve_route r req).0 ≡ has_route r req.method (request_path req.path)
  resolve_route-has_route req d = elim (Option-cases (find_static (key_of req) r.static_routes)) [
    | inr e ↦ ground (arith, resolve_route_static req e.0 d e.1, e.1)
    | inl ne ↦
        ap (λ x. is_match x.0) (resolve_route_dynamic req d ne)
        ∙ resolve_dynamic_matches r req (request_path req.path)
        ∙ ap
            (λ o.
              is_some o
              || any_param (r.param_routes_by_method req.method) (request_path req.path)
              || any_wildcard (r.wildcard_routes_by_method req.method) (request_path req.path))
            (sym ne)
  ]

  resolve_dynamic_allowed :
      (req : HttpRequest) (path : Text)
      → is_match (resolve_dynamic r req path).0 ≡ false
      → (resolve_dynamic r req path).0.allowed_methods
        ≡ allowed_methods_from_mask (allow_mask r req.method path)
  unfolding resolve_dynamic
  resolve_dynamic_allowed req path h =
      elim (Option-cases (find_param (r.param_routes_by_method req.method) path)) [
        | inr p ↦ absurd (ground arith)
        | inl np ↦
            elim (Option-cases (find_wildcard (r.wildcard_routes_by_method req.method) path)) [
              | inr w ↦ absurd (ground arith)
              | inl nw ↦ ground arith
            ]
      ]

  resolve_dynamic_depth :
      (req : HttpRequest) (path : Text) → (resolve_dynamic r req path).0.path_too_deep ≡ false
  unfolding resolve_dynamic
  resolve_dynamic_depth req path =
      elim (Option-cases (find_param (r.param_routes_by_method req.method) path)) [
        | inr p ↦ ground (arith, p.1)
        | inl np ↦
            elim (Option-cases (find_wildcard (r.wildcard_routes_by_method req.method) path)) [
              | inr w ↦ ground (arith, w.1)
              | inl nw ↦ ground arith
            ]
      ]

  resolve_route_shallow :
      (req : HttpRequest) (e : RouteEntry R)
      → ltb k_max_path_segments (slashes req.path) ≡ false
      → find_static (key_of req) r.static_routes ≡ some e
      → (resolve_route r req).0.path_too_deep ≡ false
  unfolding resolve_route
  resolve_route_shallow req e d h = ground (arith, Built-no_hash r b (key_of req))

  pub resolve_route_depth :
      (req : HttpRequest)
      → ltb k_max_path_segments (slashes req.path) ≡ false
      → (resolve_route r req).0.path_too_deep ≡ false
  resolve_route_depth req d = elim (Option-cases (find_static (key_of req) r.static_routes)) [
    | inr e ↦ resolve_route_shallow req e.0 d e.1
    | inl ne ↦
        ap (λ x. x.0.path_too_deep) (resolve_route_dynamic req d ne)
        ∙ resolve_dynamic_depth req (request_path req.path)
  ]

  -- A router that registrations built, a path of at most 32 slashes and no match: the methods that
  -- are allowed are those, other than the request's, under which the same request is matched.
  pub resolve_route-allowed :
      (req : HttpRequest)
      → ltb k_max_path_segments (slashes req.path) ≡ false
      → is_match (resolve_route r req).0 ≡ false
      → (resolve_route r req).0.allowed_methods ≡ allow_names (matches_as r req) k_methods []
  unfolding allowed_methods_from_mask
  resolve_route-allowed req d h = elim (Option-cases (find_static (key_of req) r.static_routes)) [
    | inr e ↦ absurd (ground (arith, resolve_route_static req e.0 d e.1))
    | inl ne ↦
        ap (λ x. x.0.allowed_methods) (resolve_route_dynamic req d ne)
        ∙ resolve_dynamic_allowed req (request_path req.path)
            (sym (ap (λ x. is_match x.0) (resolve_route_dynamic req d ne)) ∙ h)
        ∙ add_allowed-allow_names (allow_mask r req.method (request_path req.path))
            (matches_as r req) k_methods []
            (λ m.
              allow_mask-has_route r b m req.method (request_path req.path)
              ∙ ap (λ x. not (same_method m req.method) && x)
                  (sym (resolve_route-has_route (record req { method = m }) d)))
  ]
