-- ===== src/Routing/Dispatch/Registered.antt =====
-- dispatch of src/core/Router.cpp on a static route that was just registered.
use hical.Base.{
  ◌≡◌, false, List, [], ◌∷◌, inl, inr, ap, ◌∙◌, Bool-cases, arith, Text, Option, some, ltb,
}
use hical.Routing.Method.{HttpMethod}
use hical.Routing.Path.{Param, is_wildcard_route, is_param_route, k_max_path_segments}
use hical.Routing.Decode.{slashes, needs_decode}
use hical.Routing.PerfectHash.{Key, same_key}
use hical.Routing.Table.{
  HttpRequest, Handler, Router, RouteEntry, RouteKind, route, add_static, assign_static,
  find_static, index_route_first_segment,
}
use hical.Routing.Allow.Agree.{same_key_refl, same_key_sound}
use hical.Routing.Allow.Complete.{static_routes-index}
use hical.Routing.Resolve.{resolve_route}
use hical.Routing.Resolve.Allowed.{Built, Built-no_hash}
use hical.Routing.Dispatch.{run_handler, dispatch, dispatch_resolved}

module _ {R : Type 0} where
  abbrev entry_of : Handler R → Key → Option (RouteEntry R)
  entry_of h k = some (record { key = k; handler = h })

  find_static-assign_static_self :
      (k : Key) (h : Handler R) (es : List (RouteEntry R))
      → find_static k (assign_static k h es) ≡ some (record { key = k; handler = h })
  unfolding find_static assign_static
  find_static-assign_static_self k h [] = ground (arith, same_key_refl k)
  find_static-assign_static_self k h (e ∷ es) = elim (Bool-cases (same_key e.key k)) [
    | inl eq ↦ ground (arith, ap (entry_of h) (same_key_sound e.key k eq))
    | inr ne ↦ ground (arith, find_static-assign_static_self k h es)
  ]

  module _ (r : Router R) (m : HttpMethod) (path : Text) (h : Handler R)
      (plain : is_wildcard_route path ≡ false) (fixed : is_param_route path ≡ false) where
    route-static :
        route r m path h
        ≡ index_route_first_segment (add_static r m path h) m path RouteKind.h_static
    unfolding route
    route-static = ground (arith, plain, fixed)

    find_static-route :
        find_static (record { method = m; path = path }) (route r m path h).static_routes
        ≡ some (record { key = record { method = m; path = path }; handler = h })
    unfolding add_static
    find_static-route =
        ap (λ x. find_static (record { method = m; path = path }) x.static_routes) route-static
        ∙ ap (find_static (record { method = m; path = path }))
            (static_routes-index (add_static r m path h) m path RouteKind.h_static)
        ∙ find_static-assign_static_self (record { method = m; path = path }) h r.static_routes

  dispatch-static :
      (r : Router R) (req : HttpRequest) (e : RouteEntry R)
      → Built r
      → ltb k_max_path_segments (slashes req.path) ≡ false
      → needs_decode req.path ≡ false
      → find_static (record { method = req.method; path = req.path }) r.static_routes ≡ some e
      → dispatch r req ≡ run_handler e.handler req
  unfolding dispatch resolve_route dispatch_resolved
  dispatch-static r req e b d n f =
      ground (arith, Built-no_hash r b (record { method = req.method; path = req.path }), f)

  -- In a router that registrations built, a path without a star or a brace, without percent and plus
  -- and with at most 32 slashes is registered: a request of that method and path is then answered by
  -- the handler, whatever was registered before.
  pub dispatch-route :
      (r : Router R) (m : HttpMethod) (path : Text) (h : Handler R) (params : List Param)
      → Built r
      → is_wildcard_route path ≡ false
      → is_param_route path ≡ false
      → needs_decode path ≡ false
      → ltb k_max_path_segments (slashes path) ≡ false
      → dispatch (route r m path h) (record { method = m; path = path; path_params = params })
        ≡ run_handler h (record { method = m; path = path; path_params = params })
  dispatch-route r m path h params b plain fixed n d =
      dispatch-static (route r m path h) (record { method = m; path = path; path_params = params })
        (record { key = record { method = m; path = path }; handler = h })
        (Built.built_route r m path h b) d n (find_static-route r m path h plain fixed)
