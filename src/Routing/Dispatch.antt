-- ===== src/Routing/Dispatch.antt =====
-- dispatch, dispatchSync and their second halves in src/core/Router.cpp. The responses that the
-- router makes itself are named for what makes them.
use hical.Base.{
  Bool, true, false, not, Option, none, some, Text, codes, is_empty, if◌then◌else◌, ◌≡◌,
}
use hical.Routing.Table.{HttpRequest, Handler, Router}
use hical.Routing.Resolve.{ResolveResult, resolve_route, is_match}
pub mod Laws
pub mod Registered

pub data HttpResponse (R : Type 0) : Type 0 where
  handled : R → HttpResponse R
  bad_request : Text → HttpResponse R
  method_not_allowed : Text → HttpResponse R
  not_found : HttpResponse R

module _ {R : Type 0} where
  -- The three branches for an entry that was found.
  unfoldable pub run_handler : Handler R → HttpRequest → HttpResponse R
  run_handler (Handler.compile_time_chain h) req = HttpResponse.handled (h req)
  run_handler (Handler.sync_handler h) req = HttpResponse.handled (h req)
  run_handler (Handler.async_handler h) req = HttpResponse.handled (h req)

  unfoldable pub run_sync_handler : Handler R → HttpRequest → Option (HttpResponse R)
  run_sync_handler (Handler.compile_time_chain h) req = none
  run_sync_handler (Handler.sync_handler h) req = some (HttpResponse.handled (h req))
  run_sync_handler (Handler.async_handler h) req = none

  unfoldable pub dispatch_resolved : HttpRequest → ResolveResult R → HttpResponse R
  unfolding run_handler
  dispatch_resolved req result =
      if result.path_too_deep
      then HttpResponse.bad_request (codes "Path too deep")
      else elim result.static_entry [
        | some e ↦ run_handler e.handler req
        | none ↦ elim result.param_entry [
          | some e ↦ run_handler e.handler req
          | none ↦ elim result.wildcard_entry [
            | some e ↦ run_handler e.handler req
            | none ↦
                if not (is_empty result.allowed_methods)
                then HttpResponse.method_not_allowed result.allowed_methods
                else HttpResponse.not_found
          ]
        ]
      ]

  unfoldable pub dispatch_sync_resolved : HttpRequest → ResolveResult R → Option (HttpResponse R)
  unfolding run_sync_handler
  dispatch_sync_resolved req result =
      if result.path_too_deep
      then some (HttpResponse.bad_request (codes "Path too deep"))
      else elim result.static_entry [
        | some e ↦ run_sync_handler e.handler req
        | none ↦ elim result.param_entry [
          | some e ↦ run_sync_handler e.handler req
          | none ↦ elim result.wildcard_entry [
            | some e ↦ run_sync_handler e.handler req
            | none ↦ none
          ]
        ]
      ]

  unfoldable pub dispatch : Router R → HttpRequest → HttpResponse R
  unfolding resolve_route dispatch_resolved
  dispatch r req = let (result, req) = resolve_route r req in dispatch_resolved req result

  unfoldable pub dispatch_sync : Router R → HttpRequest → Option (HttpResponse R)
  unfolding resolve_route dispatch_sync_resolved
  dispatch_sync r req = let (result, req) = resolve_route r req in dispatch_sync_resolved req result
