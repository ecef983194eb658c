-- ===== src/Examples/Router.antt =====
-- Runs of the router model of src/core/Router.cpp and src/core/PerfectHashRouter.h.
use hical.Base.{ℕ, ◌≡◌, refl, false, [], some, codes, Text, ltb, if◌then◌else◌}
use hical.Routing.Method.{HttpMethod, k_methods, allowed_methods_from_mask}
use hical.Routing.Path.{is_param_route, is_wildcard_route, match_param_path}
use hical.Routing.Decode.{slashes, needs_decode}
use hical.Routing.Table.{HttpRequest, Handler, Router, empty_router, route}
use hical.Routing.Resolve.{resolve_route, is_match}
use hical.Routing.Resolve.Allowed.{Built, allow_names}
use hical.Routing.Resolve.Refines.{matches_as}
use hical.Routing.Dispatch.{HttpResponse, run_handler, dispatch, dispatch_sync}
use hical.Routing.Dispatch.Laws.{any_method, dispatch_sync-dispatch, dispatch-rejects}
use hical.Routing.Dispatch.Registered.{dispatch-route}

-- Handlers answer with a number.
abbrev answer : ℕ → HttpRequest → ℕ
answer n req = n

abbrev with_user : Router ℕ
with_user =
    route empty_router HttpMethod.h_get (codes "/user/{id}") (Handler.sync_handler (answer 1))

abbrev with_files : Router ℕ
with_files =
    route with_user HttpMethod.h_put (codes "/files*rest") (Handler.async_handler (answer 2))

abbrev routes : Router ℕ
routes = route with_files HttpMethod.h_post (codes "/user/7") (Handler.sync_handler (answer 3))

routes-Built : Built routes
routes-Built =
    Built.built_route with_files HttpMethod.h_post (codes "/user/7")
      (Handler.sync_handler (answer 3))
      (Built.built_route with_user HttpMethod.h_put (codes "/files*rest")
        (Handler.async_handler (answer 2))
        (Built.built_route empty_router HttpMethod.h_get (codes "/user/{id}")
          (Handler.sync_handler (answer 1)) Built.built_empty))

abbrev request : HttpMethod → Text → HttpRequest
request m path = record { method = m; path = path; path_params = [] }

shallow : ltb 32 (slashes (codes "/user/7")) ≡ false
unfolding slashes
shallow = refl

not_matched :
    is_match (resolve_route routes (request HttpMethod.h_delete (codes "/user/7"))).0 ≡ false
unfolding resolve_route route match_param_path
not_matched = refl

dispatch-rejects_example : dispatch routes (request HttpMethod.h_delete (codes "/user/7")) ≡ (
    if any_method (matches_as routes (request HttpMethod.h_delete (codes "/user/7"))) k_methods
    then HttpResponse.method_not_allowed (
        allow_names
          (matches_as routes (request HttpMethod.h_delete (codes "/user/7")))
          k_methods
          [])
    else HttpResponse.not_found)
dispatch-rejects_example =
    dispatch-rejects routes routes-Built (request HttpMethod.h_delete (codes "/user/7")) shallow
      not_matched

-- What that answer is: GET and POST are allowed.
rejected_run :
    dispatch routes (request HttpMethod.h_delete (codes "/user/7"))
    ≡ HttpResponse.method_not_allowed (codes "GET, POST")
unfolding dispatch resolve_route route match_param_path allowed_methods_from_mask
rejected_run = refl

-- Any path behind the prefix of a wildcard.
wildcard_run :
    dispatch routes (request HttpMethod.h_put (codes "/files/a/b")) ≡ HttpResponse.handled 2
unfolding dispatch resolve_route route match_param_path
wildcard_run = refl

sync_run :
    dispatch_sync routes (request HttpMethod.h_get (codes "/user/%37"))
    ≡ some (HttpResponse.handled 1)
unfolding dispatch_sync resolve_route route match_param_path
sync_run = refl

dispatch_sync-dispatch_example :
    dispatch routes (request HttpMethod.h_get (codes "/user/%37")) ≡ HttpResponse.handled 1
dispatch_sync-dispatch_example =
    dispatch_sync-dispatch routes (request HttpMethod.h_get (codes "/user/%37"))
      (HttpResponse.handled 1) sync_run

not_wildcard : is_wildcard_route (codes "/user/7") ≡ false
unfolding is_wildcard_route
not_wildcard = refl

not_param : is_param_route (codes "/user/7") ≡ false
unfolding is_param_route
not_param = refl

plain : needs_decode (codes "/user/7") ≡ false
unfolding needs_decode
plain = refl

dispatch-route_example :
    dispatch
      (route routes HttpMethod.h_get (codes "/user/7") (Handler.async_handler (answer 4)))
      (record { method = HttpMethod.h_get; path = codes "/user/7"; path_params = [] })
    ≡ run_handler
        (Handler.async_handler (answer 4))
        (record { method = HttpMethod.h_get; path = codes "/user/7"; path_params = [] })
dispatch-route_example =
    dispatch-route routes HttpMethod.h_get (codes "/user/7") (Handler.async_handler (answer 4)) []
      routes-Built not_wildcard not_param plain shallow
