-- ===== src/Routing/Stream.antt =====
-- The WebSocket and SSE routes of src/core/Router.cpp, and routeCount. The callbacks are values of any
-- types: M and T for messages, L for connecting and disconnecting, S for SSE.
use hical.Base.{
  ℕ, ◌+◌, ◌≡◌, refl, Bool, true, false, not, ◌&&◌, List, [], ◌∷◌, ◌++◌, Option, none, some, Text,
  text_eq, length, total, if◌then◌else◌,
}
use hical.Routing.Method.{HttpMethod}
use hical.Routing.Path.{Param, is_param_route, match_param_path}
use hical.Routing.Table.{Router}
use hical.Routing.Allow.{all_methods}
pub mod Laws

-- The times are in seconds.
pub record WsOptions : Type 0 where
  pub allowed_origins : List Text
  pub enable_compression : Bool
  pub server_max_window_bits : ℕ
  pub client_max_window_bits : ℕ
  pub server_no_context_takeover : Bool
  pub ping_interval : ℕ
  pub max_missed_pongs : ℕ
  pub ping_payload : Text
  pub subprotocols : List Text

abbrev pub default_ws_options : WsOptions
default_ws_options = record {
  allowed_origins = [];
  enable_compression = false;
  server_max_window_bits = 15;
  client_max_window_bits = 15;
  server_no_context_takeover = false;
  ping_interval = 0;
  max_missed_pongs = 3;
  ping_payload = [];
  subprotocols = [];
}

pub record WsRoute (M T L : Type 0) : Type 0 where
  pub path : Text
  pub on_message : Option M
  pub on_typed_message : Option T
  pub on_connect : Option L
  pub on_disconnect : Option L
  pub options : WsOptions

pub record SseRoute (S : Type 0) : Type 0 where
  pub path : Text
  pub on_connect : S

module _ {M T L : Type 0} where
  -- ws: with and without options, and with a callback for typed messages.
  unfoldable pub ws_with_options :
      List (WsRoute M T L) → Text → WsOptions → M → Option L → Option L → List (WsRoute M T L)
  ws_with_options routes path options on_message on_connect on_disconnect =
      routes
      ++ record {
        path = path;
        on_message = some on_message;
        on_typed_message = none;
        on_connect = on_connect;
        on_disconnect = on_disconnect;
        options = options;
      }
        ∷ []

  unfoldable pub ws : List (WsRoute M T L) → Text → M → Option L → Option L → List (WsRoute M T L)
  unfolding ws_with_options
  ws routes path on_message on_connect on_disconnect =
      ws_with_options routes path default_ws_options on_message on_connect on_disconnect

  unfoldable pub ws_typed_with_options :
      List (WsRoute M T L) → Text → WsOptions → T → Option L → Option L → List (WsRoute M T L)
  ws_typed_with_options routes path options on_typed_message on_connect on_disconnect =
      routes
      ++ record {
        path = path;
        on_message = none;
        on_typed_message = some on_typed_message;
        on_connect = on_connect;
        on_disconnect = on_disconnect;
        options = options;
      }
        ∷ []

  unfoldable pub ws_typed :
      List (WsRoute M T L) → Text → T → Option L → Option L → List (WsRoute M T L)
  unfolding ws_typed_with_options
  ws_typed routes path on_typed_message on_connect on_disconnect =
      ws_typed_with_options routes path default_ws_options on_typed_message on_connect on_disconnect

  -- findWsRoute: the exact routes first.
  unfoldable pub find_exact_ws : List (WsRoute M T L) → Text → Option (WsRoute M T L × List Param)
  unfolding text_eq is_param_route
  find_exact_ws [] path = none
  find_exact_ws (r ∷ rs) path =
      let rest = find_exact_ws rs path in
      if not (is_param_route r.path) && text_eq r.path path then some (r, []) else rest

  unfoldable pub find_param_ws : List (WsRoute M T L) → Text → Option (WsRoute M T L × List Param)
  find_param_ws [] path = none
  find_param_ws (r ∷ rs) path =
      let rest = find_param_ws rs path in
      if is_param_route r.path
      then elim (match_param_path true r.path path) [ none ↦ rest | some params ↦ some (r, params) ]
      else rest

  unfoldable pub find_ws_route : List (WsRoute M T L) → Text → Option (WsRoute M T L × List Param)
  unfolding find_exact_ws find_param_ws
  find_ws_route routes path = elim (find_exact_ws routes path) [
    | some found ↦ some found
    | none ↦ find_param_ws routes path
  ]

module _ {S : Type 0} where
  unfoldable pub sse : List (SseRoute S) → Text → S → List (SseRoute S)
  sse routes path on_connect = routes ++ record { path = path; on_connect = on_connect } ∷ []

  unfoldable pub find_exact_sse : List (SseRoute S) → Text → Option (SseRoute S × List Param)
  unfolding text_eq is_param_route
  find_exact_sse [] path = none
  find_exact_sse (r ∷ rs) path =
      let rest = find_exact_sse rs path in
      if not (is_param_route r.path) && text_eq r.path path then some (r, []) else rest

  unfoldable pub find_param_sse : List (SseRoute S) → Text → Option (SseRoute S × List Param)
  find_param_sse [] path = none
  find_param_sse (r ∷ rs) path =
      let rest = find_param_sse rs path in
      if is_param_route r.path
      then elim (match_param_path true r.path path) [ none ↦ rest | some params ↦ some (r, params) ]
      else rest

  unfoldable pub find_sse_route : List (SseRoute S) → Text → Option (SseRoute S × List Param)
  unfolding find_exact_sse find_param_sse
  find_sse_route routes path = elim (find_exact_sse routes path) [
    | some found ↦ some found
    | none ↦ find_param_sse routes path
  ]

module _ {M T L S R : Type 0} where
  -- routeCount, with the WebSocket and the SSE routes of the router.
  unfoldable pub route_count : Router R → List (WsRoute M T L) → List (SseRoute S) → ℕ
  route_count r ws_routes sse_routes =
      length r.static_routes
      + total (λ m. length (r.param_routes_by_method m)) all_methods
      + total (λ m. length (r.wildcard_routes_by_method m)) all_methods
      + length ws_routes
      + length sse_routes
