-- ===== src/Routing/Resolve.antt =====
-- resolveRoute and exists of src/core/Router.cpp. The request is returned with its path
-- parameters.
use hical.Base.{
  ℕ, zero, suc, ◌+◌, ◌-◌, ◌*◌, ◌≡◌, refl, Bool, true, false, not, ◌&&◌, ◌||◌, List, [], ◌∷◌, ◌++◌,
  Option, none, some, Text, text_eq, length, leb, ltb, ◌==◌, if◌then◌else◌, is_empty, starts_with,
  bit_and, bit_or, is_some, get_elem?, set,
}
use hical.Routing.Method.{
  HttpMethod, index, same_method, method_bit, bit_not32, allowed_methods_from_mask,
}
use hical.Routing.Path.{
  Param, first_path_segment, match_param_path, match_wildcard_path, k_max_path_segments,
}
use hical.Routing.PerfectHash.{Key, PerfectHash, hash_lookup, valid}
use hical.Routing.Decode.{slashes, request_path}
use hical.Routing.Allow.{allow_mask, any_param}
use hical.Routing.Table.{
  HttpRequest, Handler, RouteEntry, ParamRouteEntry, WildcardRouteEntry, Router, find_static,
}
pub mod Allowed
pub mod Refines
pub mod Slots
pub mod Hashed

-- HttpRequest::setParam, and its calls for a list of parameters.
unfoldable pub set_param : Param → List Param → List Param
unfolding text_eq
set_param p [] = p ∷ []
set_param p (q ∷ qs) =
    let rest = set_param p qs in
    if text_eq q.name p.name then record q { value = p.value } ∷ qs else q ∷ rest

unfoldable pub set_params : List Param → List Param → List Param
unfolding set_param
set_params [] params = params
set_params (p ∷ ps) params = set_params ps (set_param p params)

pub record ResolveResult (R : Type 0) : Type 0 where
  pub static_entry : Option (RouteEntry R)
  pub param_entry : Option (ParamRouteEntry R)
  pub wildcard_entry : Option (WildcardRouteEntry R)
  pub allowed_methods : Text
  pub path_too_deep : Bool

abbrev pub null_slots : ℕ → List (Option Key)
null_slots zero = []
null_slots (suc n) = none ∷ null_slots n

module _ {R : Type 0} where
  abbrev pub no_result : ResolveResult R
  no_result = record {
    static_entry = none;
    param_entry = none;
    wildcard_entry = none;
    allowed_methods = [];
    path_too_deep = false;
  }

  abbrev pub is_match : ResolveResult R → Bool
  is_match r = is_some r.static_entry || is_some r.param_entry || is_some r.wildcard_entry

  unfoldable pub is_method_not_allowed : ResolveResult R → Bool
  is_method_not_allowed r = not (is_match r) && not (is_empty r.allowed_methods)

  -- Step 1a: the pointer that the perfect hash gives, which may be null.
  unfoldable pub find_hashed : Router R → Key → Option (Option (RouteEntry R))
  find_hashed r k = if not (valid r.phr_lookup) then none else elim (hash_lookup r.phr_lookup k) [
    | none ↦ none
    | some idx ↦ elim (get_elem? r.phr_entry_map idx) [
      | none ↦ none
      | some pointer ↦
          some (elim pointer [ none ↦ none | some key ↦ find_static key r.static_routes ])
    ]
  ]

  -- Step 2: the first route of the method that matches, with its parameters.
  unfoldable pub find_param :
      List (ParamRouteEntry R) → Text → Option (ParamRouteEntry R × List Param)
  find_param [] path = none
  find_param (e ∷ es) path =
      let rest = find_param es path in
      elim (match_param_path true e.path path) [ none ↦ rest | some params ↦ some (e, params) ]

  -- Step 3: the first route of the method whose prefix the path has.
  unfoldable pub find_wildcard : List (WildcardRouteEntry R) → Text → Option (WildcardRouteEntry R)
  unfolding starts_with
  find_wildcard [] path = none
  find_wildcard (e ∷ es) path =
      let rest = find_wildcard es path in if starts_with e.prefix path then some e else rest

  -- Steps 2 to 4, where no static route was found.
  unfoldable pub resolve_dynamic : Router R → HttpRequest → Text → ResolveResult R × HttpRequest
  unfolding find_param find_wildcard allow_mask set_params match_wildcard_path
  resolve_dynamic r req path = elim (find_param (r.param_routes_by_method req.method) path) [
    | some found ↦ (
      record no_result { param_entry = some found.0 },
      record req { path_params = set_params found.1 req.path_params },
    )
    | none ↦ elim (find_wildcard (r.wildcard_routes_by_method req.method) path) [
      | some e ↦ (
        record no_result { wildcard_entry = some e },
        record req {
          path_params =
              set_params (match_wildcard_path e.prefix e.param_name path).1 req.path_params;
        },
      )
      | none ↦ (
        record no_result {
          allowed_methods = allowed_methods_from_mask (allow_mask r req.method path);
        },
        req,
      )
    ]
  ]

  unfoldable pub resolve_route : Router R → HttpRequest → ResolveResult R × HttpRequest
  unfolding slashes request_path find_hashed find_static resolve_dynamic
  resolve_route r req =
      let path = request_path req.path in
      let key : Key = record { method = req.method; path = path } in
      if ltb k_max_path_segments (slashes req.path)
      then (record no_result { path_too_deep = true }, req)
      else elim (find_hashed r key) [
        | some pointer ↦ (record no_result { static_entry = pointer }, req)
        | none ↦ elim (find_static key r.static_routes) [
          | some e ↦ (record no_result { static_entry = some e }, req)
          | none ↦ resolve_dynamic r req path
        ]
      ]

  unfoldable pub exists : Router R → HttpMethod → Text → Bool
  unfolding request_path find_static any_param
  exists r m path =
      is_some (find_static (record { method = m; path = request_path path }) r.static_routes)
      || any_param (r.param_routes_by_method m) (request_path path)

  -- setPerfectHashLookup: the slots of the index are filled with the keys of the static routes.
  unfoldable pub fill_map :
      PerfectHash → List (RouteEntry R) → List (Option Key) → List (Option Key)
  fill_map lookup [] slots = slots
  fill_map lookup (e ∷ es) slots = elim (hash_lookup lookup e.key) [
    | none ↦ fill_map lookup es slots
    | some idx ↦ fill_map lookup es (set slots idx (some e.key))
  ]

  unfoldable pub set_perfect_hash_lookup : Router R → PerfectHash → Router R
  unfolding fill_map
  set_perfect_hash_lookup r lookup = record r {
    phr_lookup = lookup;
    phr_entry_map = fill_map lookup r.static_routes (null_slots (length lookup.keys));
  }
