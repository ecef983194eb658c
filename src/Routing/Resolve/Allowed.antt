-- ===== src/Routing/Resolve/Allowed.antt =====
-- The 405 detection of resolveRoute in src/core/Router.cpp against a search of all routes.
use hical.Base.{
  ℕ, ◌≡◌, refl, Bool, true, false, not, ◌&&◌, ◌||◌, List, [], ◌∷◌, ◌++◌, ◌==◌, inl, inr, ap, ap₂,
  ◌∙◌, sym, Option-cases, if◌then◌else◌, arith, Text, codes, is_some, Option, some, none, is_empty,
}
use hical.Routing.Method.{
  HttpMethod, same_method, http_method_to_string, has_method, mask_test, add_allowed,
}
use hical.Routing.Path.{Param, match_param_path}
use hical.Routing.Path.Laws.{match_param_path-want}
use hical.Routing.PerfectHash.{Key, no_lookup}
use hical.Routing.Table.{
  HttpRequest, Handler, ParamRouteEntry, WildcardRouteEntry, Router, empty_router, route,
  find_static,
}
use hical.Routing.Allow.{allow_mask, any_param, any_wildcard}
use hical.Routing.Allow.Masks.{has_method-allow_mask}
use hical.Routing.Allow.Complete.{IsComplete, empty-IsComplete, route-IsComplete, route-phr_lookup}
use hical.Routing.Allow.Agree.{IsAgreeing, route-IsAgreeing}
use hical.Routing.Resolve.{resolve_dynamic, find_param, find_wildcard, find_hashed, is_match}

-- The routers that registrations build.
pub data Built {R : Type 0} : Router R → Type 0 where
  built_empty : Built empty_router
  built_route :
      (r : Router R) (m : HttpMethod) (pattern : Text) (h : Handler R)
      → Built r
      → Built (route r m pattern h)

if_not {ℓ} : {A : Type ℓ} (b : Bool) (x y : A) → (if not b then x else y) ≡ (if b then y else x)
if_not true x y = refl
if_not false x y = refl

-- The names of the methods that a test admits, in the order of kMethods.
abbrev pub allow_names : (HttpMethod → Bool) → List HttpMethod → Text → Text
allow_names admits [] out = out
allow_names admits (m ∷ ms) out =
    if admits m
    then allow_names admits ms
        ((if is_empty out then out else out ++ codes ", ") ++ http_method_to_string m)
    else allow_names admits ms out

pub add_allowed-allow_names :
    (mask : ℕ) (admits : HttpMethod → Bool) (ms : List HttpMethod) (out : Text)
    → ((m : HttpMethod) → has_method m mask ≡ admits m)
    → add_allowed mask ms out ≡ allow_names admits ms out
unfolding add_allowed
add_allowed-allow_names mask admits [] out e = refl
add_allowed-allow_names mask admits (m ∷ ms) out e =
    let added = (if is_empty out then out else out ++ codes ", ") ++ http_method_to_string m in
    ap (λ b. if b then add_allowed mask ms out else add_allowed mask ms added)
      (mask_test m mask ∙ ap not (e m))
    ∙ if_not (admits m) (add_allowed mask ms out) (add_allowed mask ms added)
    ∙ ap₂ (λ x y. if admits m then x else y) (add_allowed-allow_names mask admits ms added e)
        (add_allowed-allow_names mask admits ms out e)

module _ {R : Type 0} where
  first_some :
      (e : ParamRouteEntry R) (o : Option (List Param))
      (rest : Option (ParamRouteEntry R × List Param))
      → is_some (elim o as (λ _. Option (ParamRouteEntry R × List Param)) [
        | none ↦ rest
        | some params ↦ some (e, params)
      ])
        ≡ (is_some o || is_some rest)
  first_some e none rest = refl
  first_some e (some params) rest = refl

  find_param-any :
      (es : List (ParamRouteEntry R)) (path : Text)
      → is_some (find_param es path) ≡ any_param es path
  unfolding find_param any_param
  find_param-any [] path = refl
  find_param-any (e ∷ es) path =
      first_some e (match_param_path true e.path path) (find_param es path)
      ∙ ap₂ (λ a b. a || b) (sym (match_param_path-want e.path path)) (find_param-any es path)

  find_wildcard-any :
      (es : List (WildcardRouteEntry R)) (path : Text)
      → is_some (find_wildcard es path) ≡ any_wildcard es path
  unfolding find_wildcard any_wildcard
  find_wildcard-any [] path = refl
  find_wildcard-any (e ∷ es) path = ground (arith, find_wildcard-any es path)

  Built-IsComplete : (r : Router R) → Built r → IsComplete r
  Built-IsComplete r (built_empty) = empty-IsComplete R
  Built-IsComplete r (built_route s m pattern h b) =
      route-IsComplete s m pattern h (Built-IsComplete s b)

  Built-IsAgreeing : (r : Router R) → Built r → IsAgreeing r
  unfolding find_static
  Built-IsAgreeing r (built_empty) = λ m path. refl
  Built-IsAgreeing r (built_route s m pattern h b) =
      route-IsAgreeing s m pattern h (Built-IsAgreeing s b)

  -- Whether a route of the method has the path, in one of the three tables.
  abbrev pub has_route : Router R → HttpMethod → Text → Bool
  has_route r m path =
      is_some (find_static (record { method = m; path = path }) r.static_routes)
      || any_param (r.param_routes_by_method m) path
      || any_wildcard (r.wildcard_routes_by_method m) path

  pub allow_mask-has_route :
      (r : Router R)
      → Built r
      → (m req_method : HttpMethod) (path : Text)
      → has_method m (allow_mask r req_method path)
        ≡ (not (same_method m req_method) && has_route r m path)
  allow_mask-has_route r b m req_method path =
      has_method-allow_mask r m req_method path (Built-IsComplete r b m path)
      ∙ ap
          (λ x.
            not (same_method m req_method)
            && (x
                || any_param (r.param_routes_by_method m) path
                || any_wildcard (r.wildcard_routes_by_method m) path))
          (Built-IsAgreeing r b m path)

  pub Built-phr_lookup : (r : Router R) → Built r → r.phr_lookup ≡ no_lookup
  Built-phr_lookup r (built_empty) = refl
  Built-phr_lookup r (built_route s m pattern h b) =
      route-phr_lookup s m pattern h ∙ Built-phr_lookup s b

  pub find_hashed-none :
      (r : Router R) (k : Key) → (r.phr_lookup.seed == 0) ≡ true → find_hashed r k ≡ none
  unfolding find_hashed
  find_hashed-none r k h = ground (arith, h)

  pub Built-no_hash : (r : Router R) → Built r → (k : Key) → find_hashed r k ≡ none
  Built-no_hash r b k = find_hashed-none r k (ap (λ p. p.seed == 0) (Built-phr_lookup r b))

  pub resolve_dynamic_matches :
      (r : Router R) (req : HttpRequest) (path : Text)
      → is_match (resolve_dynamic r req path).0 ≡ (
          any_param (r.param_routes_by_method req.method) path
          || any_wildcard (r.wildcard_routes_by_method req.method) path)
  unfolding resolve_dynamic
  resolve_dynamic_matches r req path =
      elim (Option-cases (find_param (r.param_routes_by_method req.method) path)) [
        | inr p ↦ ground (arith, find_param-any (r.param_routes_by_method req.method) path, p.1)
        | inl np ↦
            elim (Option-cases (find_wildcard (r.wildcard_routes_by_method req.method) path)) [
              | inr w ↦ ground (
                arith,
                find_param-any (r.param_routes_by_method req.method) path,
                find_wildcard-any (r.wildcard_routes_by_method req.method) path,
                w.1,
              )
              | inl nw ↦ ground (
                arith,
                find_param-any (r.param_routes_by_method req.method) path,
                find_wildcard-any (r.wildcard_routes_by_method req.method) path,
              )
            ]
      ]
