-- ===== src/Examples/Paths.antt =====
-- Runs of the path functions of src/core/Router.cpp, of the perfect hash of
-- src/core/PerfectHashRouter.h and of the search for WebSocket routes.
use hical.Base.{
  ℕ, ◌≡◌, refl, true, List, [], ◌∷◌, none, some, codes, arith, ◌==◌, is_some, All, not, zero, suc,
  Bool, ap, subst, contains,
}
use hical.Routing.Method.{HttpMethod}
use hical.Routing.Path.{is_param_segment, match_param_path}
use hical.Routing.Path.RoundTrip.{
  Step, written, in_pattern, in_path, params_of, IsStep, match_param_path-written,
}
use hical.Routing.Path.Bounds.{IsBounded, match_param_path-IsBounded}
use hical.Routing.Decode.{url_decode}
use hical.Routing.Decode.Laws.{percent_encode, IsEncodable, url_decode-percent_encode}
use hical.Routing.PerfectHash.{
  Key, PerfectHash, build_from_keys, hash_lookup, search_seed, hash_path_method, next_pow2,
  log2_floor, place, same_key,
}
use hical.Routing.PerfectHash.Build.{build_from_keys-IsTable}
use hical.Routing.Table.{Handler, Router, empty_router, route, find_static}
use hical.Routing.Resolve.{resolve_route, set_perfect_hash_lookup}
use hical.Routing.Resolve.Hashed.{IsRegistered, resolve_route-set_perfect_hash_lookup}
use hical.Routing.Stream.{
  WsRoute, default_ws_options, ws, ws_typed, find_ws_route, SseRoute, sse, find_sse_route,
}
use hical.Routing.Stream.Laws.{IsFound, find_routes-IsFound}

-- "/user/{id}/posts" and "/user/7/posts".
abbrev steps : List Step
steps =
    Step.literal (codes "user")
    ∷ Step.placeholder (codes "id") (codes "7")
    ∷ Step.literal (codes "posts")
    ∷ []

steps-IsStep : All IsStep steps
unfolding contains is_param_segment
steps-IsStep = (
  (record { filled = refl; no_slash = refl }, refl),
  (
    (
      record { filled = refl; no_slash = refl },
      record { filled = refl; no_slash = refl },
      omega arith,
    ),
    ((record { filled = refl; no_slash = refl }, refl), tt),
  ),
)

match_param_path-written_example :
    match_param_path true (written in_pattern steps) (written in_path steps)
    ≡ some (params_of steps)
match_param_path-written_example = match_param_path-written steps steps-IsStep (omega arith)

captured_run :
    match_param_path true (codes "/user/{id}") (codes "/user/7")
    ≡ some (record { name = codes "id"; value = codes "7" } ∷ [])
unfolding match_param_path
captured_run = refl

match_param_path-IsBounded_example :
    IsBounded 32 (record { name = codes "id"; value = codes "7" } ∷ [])
match_param_path-IsBounded_example =
    match_param_path-IsBounded true (codes "/user/{id}") (codes "/user/7")
      (record { name = codes "id"; value = codes "7" } ∷ []) captured_run

-- Everything but the letter a is encoded.
abbrev not_a : ℕ → Bool
not_a b = not (b == b'a')

a_b-IsEncodable : All (IsEncodable not_a) (codes "a b")
a_b-IsEncodable = (
  (omega arith, omega arith, refl),
  ((omega arith, omega arith, refl), ((omega arith, omega arith, refl), tt)),
)

url_decode-percent_encode_example : url_decode (percent_encode not_a (codes "a b")) ≡ codes "a b"
url_decode-percent_encode_example = url_decode-percent_encode not_a (codes "a b") a_b-IsEncodable

encoded_run : percent_encode not_a (codes "a b") ≡ codes "a%20%62"
encoded_run = refl

-- A percent without two digits stays, a plus is a space, and the byte 0 is dropped.
decoded_run : url_decode (codes "%zz+%00%4") ≡ codes "%zz %4"
unfolding url_decode
decoded_run = refl

abbrev users : Key
users = record { method = HttpMethod.h_get; path = codes "/users" }

abbrev hash : PerfectHash
hash = build_from_keys (users ∷ [])

hash_run : hash_lookup hash users ≡ some 0
unfolding hash_lookup build_from_keys search_seed hash_path_method next_pow2 log2_floor place
    same_key
hash_run = refl

abbrev table : Router ℕ
table = route empty_router HttpMethod.h_get (codes "/users") (Handler.sync_handler (λ req. 1))

users_registered : is_some (find_static users table.static_routes) ≡ true
unfolding route find_static
users_registered = refl

hash-IsRegistered : IsRegistered hash table
unfolding build_from_keys search_seed hash_path_method next_pow2 log2_floor
hash-IsRegistered zero e h =
    subst (λ k. is_some (find_static k table.static_routes) ≡ true)
      (ap (λ o. elim o as (λ _. Key) [ none ↦ users | some x ↦ x.key ]) h) users_registered
hash-IsRegistered (suc i) e h = absurd (ground arith)

no_hash : (table.phr_lookup.seed == 0) ≡ true
unfolding route
no_hash = refl

resolve_route-set_perfect_hash_lookup_example :
    resolve_route
      (set_perfect_hash_lookup table hash)
      (record { method = HttpMethod.h_get; path = codes "/users"; path_params = [] })
    ≡ resolve_route table
        (record { method = HttpMethod.h_get; path = codes "/users"; path_params = [] })
resolve_route-set_perfect_hash_lookup_example =
    resolve_route-set_perfect_hash_lookup hash table
      (record { method = HttpMethod.h_get; path = codes "/users"; path_params = [] })
      (build_from_keys-IsTable (users ∷ [])) hash-IsRegistered no_hash

-- Callbacks are numbers.
abbrev sockets : List (WsRoute ℕ ℕ ℕ)
sockets = ws_typed (ws [] (codes "/chat/{room}") 1 none none) (codes "/chat/all") 2 none none

abbrev all_socket : WsRoute ℕ ℕ ℕ
all_socket = record {
  path = codes "/chat/all";
  on_message = none;
  on_typed_message = some 2;
  on_connect = none;
  on_disconnect = none;
  options = default_ws_options;
}

all_found : find_ws_route sockets (codes "/chat/all") ≡ some (all_socket, [])
unfolding find_ws_route ws ws_typed
all_found = refl

-- A later pattern matches as well, and an event stream is found by its pattern.
abbrev feeds : List (SseRoute ℕ)
feeds = sse (sse [] (codes "/feed") 1) (codes "/{room}/all") 2

find_routes-IsFound_example :
    IsFound (λ r. r.path) (codes "/chat/all") sockets (find_ws_route sockets (codes "/chat/all"))
    × IsFound (λ r. r.path) (codes "/chat/all") feeds (find_sse_route feeds (codes "/chat/all"))
find_routes-IsFound_example = find_routes-IsFound sockets feeds (codes "/chat/all")
