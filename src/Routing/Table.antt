-- ===== src/Routing/Table.antt =====
-- The tables of Router in src/core/Router.h and the registration of routes in Router.cpp. A map from
-- methods or from texts is a function, whose value is empty or 0 for a key that is not there.
use hical.Base.{
  ℕ, not, ◌||◌, List, [], ◌∷◌, ◌++◌, Option, none, some, Text, text_eq, ◌==◌, if◌then◌else◌,
  contains, is_empty, front, bit_or, drop,
}
use hical.Routing.Method.{HttpMethod, same_method, method_bit}
use hical.Routing.Path.{
  Param, segment, first_path_segment, is_param_segment, is_param_route, is_wildcard_route,
  before_star, after_star,
}
use hical.Routing.PerfectHash.{Key, PerfectHash, same_key, no_lookup}

pub record HttpRequest : Type 0 where
  pub method : HttpMethod
  pub path : Text
  pub path_params : List Param

-- The one of the three slots of an entry that a registration fills: asyncHandler, syncHandler or
-- compileTimeChain. A coroutine is a function to the response that it returns in the end.
pub data Handler (R : Type 0) : Type 0 where
  async_handler : (HttpRequest → R) → Handler R
  sync_handler : (HttpRequest → R) → Handler R
  compile_time_chain : (HttpRequest → R) → Handler R

-- An entry of staticRoutes_ with its key.
pub record RouteEntry (R : Type 0) : Type 0 where
  pub key : Key
  pub handler : Handler R

pub record ParamRouteEntry (R : Type 0) : Type 0 where
  pub method : HttpMethod
  pub path : Text
  pub handler : Handler R

pub record WildcardRouteEntry (R : Type 0) : Type 0 where
  pub method : HttpMethod
  pub pattern : Text
  pub prefix : Text
  pub param_name : Text
  pub handler : Handler R

-- A pointer of phrEntryMap_ to an entry of staticRoutes_ is the key of that entry.
pub record Router (R : Type 0) : Type 0 where
  pub static_routes : List (RouteEntry R)
  pub param_routes_by_method : HttpMethod → List (ParamRouteEntry R)
  pub wildcard_routes_by_method : HttpMethod → List (WildcardRouteEntry R)
  pub static_path_methods : Text → List HttpMethod
  pub first_segment_method_masks : Text → ℕ
  pub dynamic_first_segment_mask : ℕ
  pub wildcard_segment_prefix_masks : List (Text × ℕ)
  pub phr_lookup : PerfectHash
  pub phr_entry_map : List (Option Key)

pub data RouteKind : Type 0 where
  h_static h_param h_wildcard : RouteKind

-- One key of a map is given a new value.
unfoldable pub at_method {ℓ} : {A : Type ℓ} → (HttpMethod → A) → HttpMethod → A → HttpMethod → A
at_method f m v n = if same_method n m then v else f n

unfoldable pub at_text {ℓ} : {A : Type ℓ} → (Text → A) → Text → A → Text → A
unfolding text_eq
at_text f t v u = if text_eq u t then v else f u

-- The loop of indexWildcardSegmentPrefix.
unfoldable pub add_segment_prefix : ℕ → Text → List (Text × ℕ) → List (Text × ℕ)
unfolding text_eq
add_segment_prefix bit prefix [] = (prefix, bit) ∷ []
add_segment_prefix bit prefix (p ∷ ps) =
    let rest = add_segment_prefix bit prefix ps in
    if text_eq p.0 prefix then (p.0, bit_or p.1 bit) ∷ ps else p ∷ rest

module _ {R : Type 0} where
  abbrev pub empty_router : Router R
  empty_router = record {
    static_routes = [];
    param_routes_by_method = λ m. [];
    wildcard_routes_by_method = λ m. [];
    static_path_methods = λ t. [];
    first_segment_method_masks = λ t. 0;
    dynamic_first_segment_mask = 0;
    wildcard_segment_prefix_masks = [];
    phr_lookup = no_lookup;
    phr_entry_map = [];
  }

  -- `staticRoutes_.find(key)`
  unfoldable pub find_static : Key → List (RouteEntry R) → Option (RouteEntry R)
  unfolding same_key
  find_static k [] = none
  find_static k (e ∷ es) = let rest = find_static k es in if same_key e.key k then some e else rest

  -- `staticRoutes_[key] = entry`
  unfoldable pub assign_static : Key → Handler R → List (RouteEntry R) → List (RouteEntry R)
  unfolding same_key
  assign_static k h [] = record { key = k; handler = h } ∷ []
  assign_static k h (e ∷ es) =
      let rest = assign_static k h es in
      if same_key e.key k then record e { handler = h } ∷ es else e ∷ rest

  unfoldable pub index_wildcard_segment_prefix : Router R → HttpMethod → Text → Router R
  unfolding add_segment_prefix
  index_wildcard_segment_prefix r m prefix = record r {
    wildcard_segment_prefix_masks =
        add_segment_prefix (method_bit m) prefix r.wildcard_segment_prefix_masks;
  }

  -- `dynamicFirstSegmentMask_ |= bit`
  unfoldable pub index_dynamic : Router R → HttpMethod → Router R
  index_dynamic r m = record r {
    dynamic_first_segment_mask = bit_or r.dynamic_first_segment_mask (method_bit m);
  }

  -- `firstSegmentMethodMasks_[segment] |= bit`
  unfoldable pub index_segment : Router R → HttpMethod → Text → Router R
  unfolding at_text
  index_segment r m t = record r {
    first_segment_method_masks =
        at_text r.first_segment_method_masks t
          (bit_or (r.first_segment_method_masks t) (method_bit m));
  }

  unfoldable pub index_route_first_segment : Router R → HttpMethod → Text → RouteKind → Router R
  unfolding index_wildcard_segment_prefix index_dynamic index_segment first_path_segment
      is_param_segment before_star segment contains
  index_route_first_segment r m path RouteKind.h_wildcard =
      let prefix = before_star path in
      let rest = drop 1 prefix in
      if is_empty prefix || not (front prefix == b'/')
      then index_dynamic r m
      else if not (contains b'/' rest)
      then index_wildcard_segment_prefix r m rest
      else index_segment r m (segment rest)
  index_route_first_segment r m path RouteKind.h_param =
      let first = first_path_segment path in
      if is_param_segment first then index_dynamic r m else index_segment r m first
  index_route_first_segment r m path RouteKind.h_static =
      index_segment r m (first_path_segment path)

  -- The branches of route, before the index is updated.
  unfoldable pub add_wildcard : Router R → HttpMethod → Text → Handler R → Router R
  unfolding at_method before_star after_star
  add_wildcard r m path h = record r {
    wildcard_routes_by_method = at_method r.wildcard_routes_by_method m (
        r.wildcard_routes_by_method m
        ++ record {
          method = m;
          pattern = path;
          prefix = before_star path;
          param_name = after_star path;
          handler = h;
        }
          ∷ []);
  }

  unfoldable pub add_param : Router R → HttpMethod → Text → Handler R → Router R
  unfolding at_method
  add_param r m path h = record r {
    param_routes_by_method =
        at_method r.param_routes_by_method m
          (r.param_routes_by_method m ++ record { method = m; path = path; handler = h } ∷ []);
  }

  unfoldable pub add_static : Router R → HttpMethod → Text → Handler R → Router R
  unfolding at_text assign_static
  add_static r m path h = record r {
    static_routes = assign_static (record { method = m; path = path }) h r.static_routes;
    static_path_methods = at_text r.static_path_methods path (r.static_path_methods path ++ m ∷ []);
  }

  -- route, for each of the slots that a handler may take.
  unfoldable pub route : Router R → HttpMethod → Text → Handler R → Router R
  unfolding is_wildcard_route is_param_route index_route_first_segment add_wildcard add_param
      add_static
  route r m path h =
      if is_wildcard_route path
      then index_route_first_segment (add_wildcard r m path h) m path RouteKind.h_wildcard
      else if is_param_route path
      then index_route_first_segment (add_param r m path h) m path RouteKind.h_param
      else index_route_first_segment (add_static r m path h) m path RouteKind.h_static
