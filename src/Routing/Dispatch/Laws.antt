-- ===== src/Routing/Dispatch/Laws.antt =====
-- dispatch and dispatchSync of src/core/Router.cpp against a search of the routes.
use hical.Base.{
  if_holds, ◌≡◌, refl, Bool, true, false, not, ◌||◌, List, [], ◌∷◌, ◌++◌, ap, ◌∙◌, if◌then◌else◌,
  arith, Text, codes, is_some, Option, some, none, is_empty, ltb,
}
use hical.Routing.Method.{HttpMethod, http_method_to_string, k_methods}
use hical.Routing.Path.{k_max_path_segments}
use hical.Routing.Decode.{slashes}
use hical.Routing.Table.{
  HttpRequest, Handler, Router, RouteEntry, ParamRouteEntry, WildcardRouteEntry,
}
use hical.Routing.Resolve.{ResolveResult, resolve_route, is_match}
use hical.Routing.Resolve.Allowed.{Built, allow_names}
use hical.Routing.Resolve.Refines.{matches_as, resolve_route-allowed, resolve_route_depth}
use hical.Routing.Dispatch.{
  HttpResponse, run_handler, run_sync_handler, dispatch, dispatch_sync, dispatch_resolved,
  dispatch_sync_resolved,
}

module _ {R : Type 0} where
  run_sync_handler-run_handler :
      (h : Handler R) (req : HttpRequest) (response : HttpResponse R)
      → run_sync_handler h req ≡ some response
      → run_handler h req ≡ response
  unfolding run_sync_handler run_handler
  run_sync_handler-run_handler (Handler.compile_time_chain h) req response e = absurd (ground arith)
  run_sync_handler-run_handler (Handler.sync_handler h) req response e = ground arith
  run_sync_handler-run_handler (Handler.async_handler h) req response e = absurd (ground arith)

  module _ (req : HttpRequest) (response : HttpResponse R) where
    agrees_by_field :
        (s : Option (RouteEntry R)) (p : Option (ParamRouteEntry R))
        (w : Option (WildcardRouteEntry R)) (allowed : Text) (deep : Bool)
        → dispatch_sync_resolved req (record {
          static_entry = s;
          param_entry = p;
          wildcard_entry = w;
          allowed_methods = allowed;
          path_too_deep = deep;
        })
          ≡ some response
        → dispatch_resolved req (record {
          static_entry = s;
          param_entry = p;
          wildcard_entry = w;
          allowed_methods = allowed;
          path_too_deep = deep;
        })
          ≡ response
    unfolding dispatch_sync_resolved dispatch_resolved
    agrees_by_field s p w allowed true e = ground arith
    agrees_by_field (some s) p w allowed false e =
        run_sync_handler-run_handler s.handler req response e
    agrees_by_field none (some p) w allowed false e =
        run_sync_handler-run_handler p.handler req response e
    agrees_by_field none none (some w) allowed false e =
        run_sync_handler-run_handler w.handler req response e
    agrees_by_field none none none allowed false e = absurd (ground arith)

    agrees :
        (result : ResolveResult R)
        → dispatch_sync_resolved req result ≡ some response
        → dispatch_resolved req result ≡ response
    agrees result =
        agrees_by_field result.static_entry result.param_entry result.wildcard_entry
          result.allowed_methods result.path_too_deep

  -- Where the synchronous dispatch answers, the asynchronous one gives the same response.
  pub dispatch_sync-dispatch :
      (r : Router R) (req : HttpRequest) (response : HttpResponse R)
      → dispatch_sync r req ≡ some response
      → dispatch r req ≡ response
  unfolding dispatch_sync dispatch
  dispatch_sync-dispatch r req response =
      agrees (resolve_route r req).1 response (resolve_route r req).0

double_negation : (b : Bool) → not (not b) ≡ b
double_negation true = refl
double_negation false = refl

-- A name that was added stays, and no method has an empty name.
is_empty-append : (out more : Text) → is_empty out ≡ false → is_empty (out ++ more) ≡ false
is_empty-append [] more h = absurd (ground arith)
is_empty-append (x ∷ xs) more h = refl

append-http_method_to_string :
    (out : Text) (m : HttpMethod) → is_empty (out ++ http_method_to_string m) ≡ false
append-http_method_to_string (x ∷ xs) m = refl
append-http_method_to_string [] HttpMethod.h_get = refl
append-http_method_to_string [] HttpMethod.h_post = refl
append-http_method_to_string [] HttpMethod.h_put = refl
append-http_method_to_string [] HttpMethod.h_delete = refl
append-http_method_to_string [] HttpMethod.h_patch = refl
append-http_method_to_string [] HttpMethod.h_head = refl
append-http_method_to_string [] HttpMethod.h_options = refl
append-http_method_to_string [] HttpMethod.h_unknown = refl

abbrev pub any_method : (HttpMethod → Bool) → List HttpMethod → Bool
any_method admits [] = false
any_method admits (m ∷ ms) = admits m || any_method admits ms

allow_names_kept :
    (admits : HttpMethod → Bool) (ms : List HttpMethod) (out : Text)
    → is_empty out ≡ false
    → is_empty (allow_names admits ms out) ≡ false
allow_names_kept admits [] out h = h
allow_names_kept admits (m ∷ ms) out h =
    let added = (if is_empty out then out else out ++ codes ", ") ++ http_method_to_string m in
    if_holds (λ t. is_empty t ≡ false) (admits m) (allow_names admits ms added)
      (allow_names admits ms out)
      (allow_names_kept admits ms added
        (append-http_method_to_string (if is_empty out then out else out ++ codes ", ") m))
      (allow_names_kept admits ms out h)

first_name :
    (b any : Bool) (added skipped : Text)
    → is_empty added ≡ false
    → is_empty skipped ≡ not any
    → is_empty (if b then added else skipped) ≡ not (b || any)
first_name true any added skipped p q = p
first_name false any added skipped p q = q

is_empty-allow_names :
    (admits : HttpMethod → Bool) (ms : List HttpMethod)
    → is_empty (allow_names admits ms []) ≡ not (any_method admits ms)
is_empty-allow_names admits [] = refl
is_empty-allow_names admits (m ∷ ms) =
    first_name (admits m) (any_method admits ms) (allow_names admits ms (http_method_to_string m))
      (allow_names admits ms [])
      (allow_names_kept admits ms (http_method_to_string m) (append-http_method_to_string [] m))
      (is_empty-allow_names admits ms)

module _ {R : Type 0} where
  unmatched_by_field :
      (req : HttpRequest) (s : Option (RouteEntry R)) (p : Option (ParamRouteEntry R))
      (w : Option (WildcardRouteEntry R)) (allowed : Text) (deep : Bool)
      → deep ≡ false
      → (is_some s || is_some p || is_some w) ≡ false
      → dispatch_resolved req (record {
        static_entry = s;
        param_entry = p;
        wildcard_entry = w;
        allowed_methods = allowed;
        path_too_deep = deep;
      })
        ≡ (if not (is_empty allowed)
            then HttpResponse.method_not_allowed allowed
            else HttpResponse.not_found)
  unfolding dispatch_resolved
  unmatched_by_field req s p w allowed true d h = absurd (ground arith)
  unmatched_by_field req (some s) p w allowed false d h = absurd (ground arith)
  unmatched_by_field req none (some p) w allowed false d h = absurd (ground arith)
  unmatched_by_field req none none (some w) allowed false d h = absurd (ground arith)
  unmatched_by_field req none none none allowed false d h = refl

  abbrev rejected : Text → Bool → HttpResponse R
  rejected allowed any =
      if any then HttpResponse.method_not_allowed allowed else HttpResponse.not_found

  rejection :
      (allowed expected : Text) (any : Bool)
      → allowed ≡ expected
      → is_empty expected ≡ not any
      → rejected allowed (not (is_empty allowed)) ≡ rejected expected any
  rejection allowed expected any e h =
      ap (λ t. rejected t (not (is_empty t))) e
      ∙ ap (λ b. rejected expected (not b)) h
      ∙ ap (rejected expected) (double_negation any)

  -- In a router that registrations built, a request whose path has at most 32 slashes and that no
  -- route matches is answered with 405 if one of the seven methods other than its own would match it,
  -- and Allow lists exactly those methods; otherwise it is answered with 404.
  pub dispatch-rejects :
      (r : Router R)
      → Built r
      → (req : HttpRequest) → ltb k_max_path_segments (slashes req.path) ≡ false
      → is_match (resolve_route r req).0 ≡ false
      → dispatch r req ≡ (
          if any_method (matches_as r req) k_methods
          then HttpResponse.method_not_allowed (allow_names (matches_as r req) k_methods [])
          else HttpResponse.not_found)
  unfolding dispatch
  dispatch-rejects r b req d h =
      let result = (resolve_route r req).0 in
      unmatched_by_field (resolve_route r req).1 result.static_entry result.param_entry
        result.wildcard_entry result.allowed_methods result.path_too_deep
        (resolve_route_depth r b req d) h
      ∙ rejection result.allowed_methods (allow_names (matches_as r req) k_methods [])
          (any_method (matches_as r req) k_methods) (resolve_route-allowed r b req d h)
          (is_empty-allow_names (matches_as r req) k_methods)
