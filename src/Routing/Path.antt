-- ===== src/Routing/Path.antt =====
-- The path functions of src/core/Router.cpp: segments, parameter and wildcard patterns.
use hical.Base.{
  ℕ, zero, suc, ◌+◌, ◌-◌, ◌≡◌, refl, Bool, true, false, not, ◌&&◌, ◌||◌, List, [], ◌∷◌, ◌++◌,
  Option, none, some, Text, text_eq, length, leb, ltb, ◌==◌, if◌then◌else◌, contains, find_byte,
  is_empty, front, back, substr, take, drop,
}
pub mod Laws
pub mod RoundTrip
pub mod Bounds

abbrev pub k_max_path_segments : ℕ
k_max_path_segments = 32

abbrev pub k_max_param_value_length : ℕ
k_max_param_value_length = 1024

-- A name and its value.
pub record Param : Type 0 where
  pub name : Text
  pub value : Text

-- `substr(0, find('/'))`: the whole text if there is no slash.
unfoldable pub segment : Text → Text
segment [] = []
segment (c ∷ cs) = if c == b'/' then [] else c ∷ segment cs

-- What follows the first slash; nothing if there is none.
unfoldable pub after_segment : Text → Text
after_segment [] = []
after_segment (c ∷ cs) = if c == b'/' then cs else after_segment cs

-- A leading slash is dropped.
abbrev pub without_slash : Text → Text
without_slash [] = []
without_slash (c ∷ cs) = if c == b'/' then cs else c ∷ cs

unfoldable pub first_path_segment : Text → Text
unfolding segment
first_path_segment path = segment (without_slash path)

-- At least three bytes, in braces.
unfoldable pub is_param_segment : Text → Bool
is_param_segment t = leb 3 (length t) && front t == b'{' && back t == b'}'

-- `find('{') != npos`
unfoldable pub is_param_route : Text → Bool
unfolding contains
is_param_route path = contains b'{' path

-- There is a star, and a name behind the first one.
unfoldable pub is_wildcard_route : Text → Bool
unfolding find_byte
is_wildcard_route path = elim (find_byte b'*' path) [
  | none ↦ false
  | some star ↦ ltb (star + 1) (length path)
]

-- The text before the first star, and the text behind it.
unfoldable pub before_star : Text → Text
before_star [] = []
before_star (c ∷ cs) = if c == b'*' then [] else c ∷ before_star cs

unfoldable pub after_star : Text → Text
after_star [] = []
after_star (c ∷ cs) = if c == b'*' then cs else after_star cs

-- The loop of matchParamPath: `left` more segments are allowed, and the captures are in order.
-- `want` is `params != nullptr`.
unfoldable pub match_segments : ℕ → Bool → Text → Text → List Param → Option (List Param)
unfolding segment after_segment is_param_segment text_eq
match_segments zero want pattern path captures =
    if is_empty pattern && is_empty path then some captures else none
match_segments (suc left) want pattern path captures =
    let pat_seg = segment pattern in
    let req_seg = segment path in
    let capture : Param = record {
      name = substr 1 (length pat_seg - 2) pat_seg;
      value = req_seg;
    } in
    let captured =
      match_segments left want (after_segment pattern) (after_segment path)
        (captures ++ (if want then capture ∷ [] else [])) in
    let equal = match_segments left want (after_segment pattern) (after_segment path) captures in
    if is_empty pattern || is_empty path
    then (if is_empty pattern && is_empty path then some captures else none)
    else if is_param_segment pat_seg
    then (if ltb k_max_param_value_length (length req_seg) then none else captured)
    else if text_eq pat_seg req_seg
    then equal
    else none

-- none is false; the captures are the parameters.
unfoldable pub match_param_path : Bool → Text → Text → Option (List Param)
unfolding match_segments
match_param_path want pattern path =
    match_segments k_max_path_segments want (without_slash pattern) (without_slash path) []

-- The answer, and the parameters, which a capture that is too long leaves empty.
unfoldable pub match_wildcard_path : Text → Text → Text → Bool × List Param
match_wildcard_path prefix param_name path =
    let captured = drop (length prefix) path in
    if ltb k_max_param_value_length (length captured) then (false, []) else (
      true,
      if is_empty param_name then [] else record { name = param_name; value = captured } ∷ [],
    )
