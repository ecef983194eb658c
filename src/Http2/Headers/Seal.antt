-- ===== src/Http2/Headers/Seal.antt =====
-- Http2Headers.cpp: the checks on a complete block, the merging of cookies, and the stable views.
pub mod Cookies
pub mod Views
pub mod Complete
pub mod Whole
pub mod Requests
pub mod Accepts
use hical.Base.{
  ℕ, zero, suc, ◌+◌, ◌-◌, ◌*◌, ◌/◌, ◌%◌, ◌^◌, Bool, true, false, not, ◌&&◌, ◌||◌, Option, none,
  some, List, [], ◌∷◌, ◌++◌, map, ltb, leb, ◌==◌, if◌then◌else◌, is_some, Text, codes, text_eq,
  starts_with, is_empty, front, iequals, length,
}
use hical.Http2.Error.{NetworkError, invalid_configuration}
use hical.Http2.Headers.Syntax.{unsigned_decimal, parse_authority, same_authority, Authority}
use hical.Http2.Headers.Storage.{
  Field, Offset, Storage, HeaderKind, request, response, trailers, is_request, is_response, field,
  fields, find_entry, value_of, fail, append,
}

abbrev pub cookie : Text
cookie = codes "cookie"

abbrev pub is_cookie : Field → Bool
is_cookie f = text_eq f.name cookie

-- `first`, then "; " and each further cookie, behind what `bytes` holds.
unfoldable pub join_cookies : List Field → Bool → Text → Text
join_cookies [] first bytes = bytes
join_cookies (f ∷ fs) first bytes =
    join_cookies fs (if is_cookie f then false else first)
      (if is_cookie f then (if first then bytes else bytes ++ codes "; ") ++ f.value else bytes)

-- The buffer behind one field: its name, and its value or all values of the cookies from it on.
unfoldable pub write_field : Field → List Field → Text → Text
unfolding join_cookies
write_field f rest bytes =
    if is_cookie f
    then join_cookies (f ∷ rest) true (bytes ++ f.name)
    else (bytes ++ f.name) ++ f.value

unfoldable pub offset_of : Text → Field → Text → Offset
offset_of bytes f written = record {
  name = length bytes;
  name_size = length f.name;
  value = length bytes + length f.name;
  value_size = length written - (length bytes + length f.name);
}

-- The loop that writes the normalised buffer: the list holds the fields from `index` on.
unfoldable pub normalize : List Field → Text → List Offset → Bool → Text × List Offset
normalize [] bytes offsets combined = (bytes, offsets)
normalize (f ∷ rest) bytes offsets combined =
    let skip = normalize rest bytes offsets combined in
    let written = write_field f rest bytes in
    let keep =
      normalize rest written (offsets ++ offset_of bytes f written ∷ [])
        (combined || is_cookie f) in
    if is_cookie f && combined then skip else keep

unfoldable pub count_cookies : List Field → ℕ
count_cookies [] = 0
count_cookies (f ∷ fs) = (if is_cookie f then 1 else 0) + count_cookies fs

-- Nothing is copied unless there is a second cookie behind the first.
unfoldable pub combine_cookies : Storage → Storage
combine_cookies s =
    let (bytes, offsets) = normalize (fields s) [] [] false in
    if not (is_request s.kind) || ltb (count_cookies (fields s)) 2
    then s
    else record s { bytes = bytes; entries = offsets }

-- The views of the regular fields; in a request the authority replaces the value of `host`.
unfoldable pub view_of : Bool → Text → Field → Field
view_of in_request authority f =
    if in_request && text_eq f.name (codes "host") && not (is_empty authority)
    then record f { value = authority }
    else f

unfoldable pub collect_views : Bool → Text → List Field → List Field
unfolding view_of
collect_views in_request authority [] = []
collect_views in_request authority (f ∷ fs) =
    let rest = collect_views in_request authority fs in
    if starts_with (codes ":") f.name then rest else view_of in_request authority f ∷ rest

unfoldable pub seen_host : Bool → List Field → Bool
seen_host in_request [] = false
seen_host in_request (f ∷ fs) =
    (not (starts_with (codes ":") f.name) && in_request && text_eq f.name (codes "host"))
    || seen_host in_request fs

-- A request without `host` gets one from its authority.
unfoldable pub make_views : Bool → Text → List Field → List Field
make_views in_request authority fs =
    let views = collect_views in_request authority fs in
    if in_request && not (seen_host in_request fs) && not (is_empty authority)
    then views ++ record { name = codes "host"; value = authority } ∷ []
    else views

unfoldable pub all_views : Storage → List Field
all_views s = make_views (is_request s.kind) (value_of s (codes ":authority")) (fields s)

module _ (make_address_v6 : Text → Option Text) where
  abbrev pub authority_port : Option Authority → Bool
  authority_port none = false
  authority_port (some a) = is_some a.port

  -- `*parseAuthority(host)`: both texts were accepted when they came, so neither value is missing.
  abbrev pub agree : Option Authority → Option Authority → Text → Bool
  agree none second scheme = false
  agree (some first) none scheme = false
  agree (some first) (some second) scheme = same_authority first second scheme

  -- Whether `validateComplete` finds the request complete.
  unfoldable pub complete_request : Storage → Bool
  complete_request s =
      let method = value_of s (codes ":method") in
      let scheme = value_of s (codes ":scheme") in
      let path = value_of s (codes ":path") in
      let authority = value_of s (codes ":authority") in
      let host = value_of s (codes "host") in
      let connect = text_eq method (codes "CONNECT") in
      let http = iequals scheme (codes "http") || iequals scheme (codes "https") in
      let parsed = parse_authority make_address_v6 authority in
      not (
        is_empty method
        || (connect && (is_empty authority || not (is_empty scheme) || not (is_empty path)))
        || (not connect && (is_empty scheme || is_empty path)))
      && not (
          not connect
          && http
          && ((is_empty authority && is_empty host)
              || (not (front path == b'/')
                  && not (text_eq method (codes "OPTIONS") && text_eq path (codes "*")))))
      && not (connect && not (authority_port parsed))
      && not (
          not (is_empty authority)
          && not (is_empty host)
          && not (agree parsed (parse_authority make_address_v6 host) scheme))

  unfoldable pub complete_response : Storage → Option ℕ → Storage × Option NetworkError
  complete_response s none = fail s false
  complete_response s (some code) =
      let s' = record s { status = code % 2 ^ 16 } in
      if s'.status / 100 == 1 && is_some s.content_length then fail s' false else (s', none)

  unfoldable pub validate_kind : HeaderKind → Storage → Storage × Option NetworkError
  validate_kind response s = complete_response s (unsigned_decimal (value_of s (codes ":status")))
  validate_kind trailers s = (s, none)
  validate_kind request s = if complete_request s then (s, none) else fail s false

  unfoldable pub validate_complete : Storage → Storage × Option NetworkError
  validate_complete s = validate_kind s.kind s

  abbrev pub finish : Storage × Option NetworkError → Storage × Option NetworkError
  finish (s, some e) = (s, some e)
  finish (s, none) =
      let c = combine_cookies s in (record c { views = all_views c; sealed = true }, none)

  unfoldable pub seal : Storage → Storage × Option NetworkError
  seal s = if is_some s.error || s.sealed then (s, s.error) else finish (validate_complete s)

-- `Http2Headers` owns its storage; `none` is an object that was moved from.
abbrev pub Http2Headers : Type 0
Http2Headers = Option Storage

abbrev moved_away : NetworkError
moved_away = record { code = invalid_configuration; http2 = none }

abbrev pub is_sealed : Http2Headers → Bool
is_sealed none = false
is_sealed (some s) = s.sealed

abbrev pub content_length : Http2Headers → Option ℕ
content_length none = none
content_length (some s) = if s.sealed then s.content_length else none

abbrev pub status : Http2Headers → ℕ
status none = 0
status (some s) = if s.sealed then s.status else 0

abbrev pub sealed_fields : Http2Headers → List Field
sealed_fields none = []
sealed_fields (some s) = if s.sealed then s.views else []

module _ (make_address_v6 : Text → Option Text) where
  unfoldable pub headers_append : Http2Headers → Text → Text → Http2Headers × Option NetworkError
  headers_append none name value = (none, some moved_away)
  headers_append (some s) name value =
      let (s', e) = append make_address_v6 s name value in (some s', e)

  unfoldable pub headers_seal : Http2Headers → Http2Headers × Option NetworkError
  unfolding seal
  headers_seal none = (none, some moved_away)
  headers_seal (some s) = let (s', e) = seal make_address_v6 s in (some s', e)
