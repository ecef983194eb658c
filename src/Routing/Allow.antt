-- ===== src/Routing/Allow.antt =====
-- The search of resolveRoute in src/core/Router.cpp for the methods that a path has.
use hical.Base.{
  ℕ, zero, suc, ◌+◌, ◌-◌, ◌*◌, ◌≡◌, refl, Bool, true, false, not, ◌&&◌, ◌||◌, List, [], ◌∷◌, ◌++◌,
  Option, none, some, Text, text_eq, length, leb, ltb, ◌==◌, if◌then◌else◌, is_empty, starts_with,
  bit_and, bit_or, is_some, get_elem?,
}
use hical.Routing.Method.{HttpMethod, same_method, method_bit, bit_not32}
use hical.Routing.Path.{first_path_segment, match_param_path}
use hical.Routing.Table.{ParamRouteEntry, WildcardRouteEntry, Router}
pub mod Masks
pub mod Index
pub mod Listed
pub mod Complete
pub mod Agree

-- Step 4: the methods under which the first segment of the path may match.
unfoldable pub or_prefixes : List (Text × ℕ) → Text → ℕ → ℕ
unfolding starts_with
or_prefixes [] first mask = mask
or_prefixes (p ∷ ps) first mask =
    or_prefixes ps first (if starts_with p.0 first then bit_or mask p.1 else mask)

unfoldable pub or_static : HttpMethod → List HttpMethod → ℕ → ℕ
or_static req_method [] mask = mask
or_static req_method (m ∷ ms) mask =
    or_static req_method ms (if same_method m req_method then mask else bit_or mask (method_bit m))

-- The maps from methods are walked in the order of the methods.
abbrev pub all_methods : List HttpMethod
all_methods =
    HttpMethod.h_get ∷ HttpMethod.h_post ∷ HttpMethod.h_put ∷ HttpMethod.h_delete
    ∷ HttpMethod.h_patch ∷ HttpMethod.h_head ∷ HttpMethod.h_options ∷ HttpMethod.h_unknown ∷ []

unfoldable pub or_groups : List HttpMethod → ℕ → (HttpMethod → Bool) → ℕ → ℕ
or_groups [] others matches mask = mask
or_groups (m ∷ ms) others matches mask = or_groups ms others matches (
    if bit_and others (method_bit m) == 0
    then mask
    else if matches m
    then bit_or mask (method_bit m)
    else mask)

module _ {R : Type 0} where
  unfoldable pub candidate_mask : Router R → Text → ℕ
  unfolding or_prefixes first_path_segment
  candidate_mask r path =
      let first = first_path_segment path in
      or_prefixes r.wildcard_segment_prefix_masks first
        (bit_or r.dynamic_first_segment_mask (r.first_segment_method_masks first))

  unfoldable pub any_param : List (ParamRouteEntry R) → Text → Bool
  any_param [] path = false
  any_param (e ∷ es) path = is_some (match_param_path false e.path path) || any_param es path

  unfoldable pub any_wildcard : List (WildcardRouteEntry R) → Text → Bool
  unfolding starts_with
  any_wildcard [] path = false
  any_wildcard (e ∷ es) path = starts_with e.prefix path || any_wildcard es path

  unfoldable pub allow_mask : Router R → HttpMethod → Text → ℕ
  unfolding candidate_mask or_static or_groups any_param any_wildcard
  allow_mask r req_method path =
      let others = bit_and (candidate_mask r path) (bit_not32 (method_bit req_method)) in
      if others == 0
      then 0
      else or_groups all_methods others (λ m. any_wildcard (r.wildcard_routes_by_method m) path)
          (or_groups all_methods others (λ m. any_param (r.param_routes_by_method m) path)
            (or_static req_method (r.static_path_methods path) 0))
