-- ===== src/Routing/Allow/Index.antt =====
-- The index of first segments in src/core/Router.cpp, under one registration.
use hical.Base.{
  ℕ, ◌≡◌, refl, Bool, true, not, ◌||◌, List, [], ◌∷◌, ◌==◌, inl, inr, ap, ◌∙◌, sym, bit_or,
  Bool-cases, if◌then◌else◌, arith, Text, text_eq, text_eq_refl, text_eq_sound, starts_with, some,
  contains, is_empty, front, drop, ==_iff,
}
use hical.Routing.Method.{
  HttpMethod, method_bit, has_method, same_method_refl, has_method-insert, has_method-method_bit,
}
use hical.Routing.Path.{
  Param, first_path_segment, segment, is_param_segment, match_param_path, before_star,
}
use hical.Routing.Path.Laws.{
  match_param_path_first, first_path_segment-starts_with, first_path_segment_of_prefix,
}
use hical.Routing.Table.{
  Router, RouteKind, index_dynamic, index_segment, index_wildcard_segment_prefix,
  add_segment_prefix, index_route_first_segment, at_text,
}
use hical.Routing.Allow.Masks.{any_prefix, indexed}

has_method_grows :
    (m n : HttpMethod) (mask : ℕ)
    → has_method m mask ≡ true
    → has_method m (bit_or mask (method_bit n)) ≡ true
has_method_grows m n mask h = ground (arith, has_method-insert m n mask)

has_method_self : (m : HttpMethod) (mask : ℕ) → has_method m (bit_or mask (method_bit m)) ≡ true
has_method_self m mask = ground (arith, has_method-insert m m mask, same_method_refl m)

any_prefix_grows :
    (m n : HttpMethod) (prefix first : Text) (ps : List (Text × ℕ))
    → any_prefix m ps first ≡ true
    → any_prefix m (add_segment_prefix (method_bit n) prefix ps) first ≡ true
unfolding add_segment_prefix
any_prefix_grows m n prefix first [] h = absurd (ground arith)
any_prefix_grows m n prefix first (p ∷ ps) h =
    ground (arith, any_prefix_grows m n prefix first ps, has_method_grows m n p.1)

any_prefix_self :
    (m : HttpMethod) (prefix first : Text) (ps : List (Text × ℕ))
    → starts_with prefix first ≡ true
    → any_prefix m (add_segment_prefix (method_bit m) prefix ps) first ≡ true
unfolding add_segment_prefix
any_prefix_self m prefix first [] h = ground (arith, has_method-method_bit m m, same_method_refl m)
any_prefix_self m prefix first (p ∷ ps) h = elim (Bool-cases (text_eq p.0 prefix)) [
  | inl e ↦
      ground
        (arith, has_method_self m p.1, ap (λ t. starts_with t first) (text_eq_sound p.0 prefix e))
  | inr e ↦ ground (arith, any_prefix_self m prefix first ps)
]

module _ {R : Type 0} (r : Router R) (m n : HttpMethod) (path : Text) where
  index_dynamic_grows : indexed r m path ≡ true → indexed (index_dynamic r n) m path ≡ true
  unfolding index_dynamic
  index_dynamic_grows h = ground (arith, has_method_grows m n r.dynamic_first_segment_mask)

  index_dynamic_self : indexed (index_dynamic r m) m path ≡ true
  unfolding index_dynamic
  index_dynamic_self = ground (arith, has_method_self m r.dynamic_first_segment_mask)

  index_segment_grows :
      (t : Text) → indexed r m path ≡ true → indexed (index_segment r n t) m path ≡ true
  unfolding index_segment at_text
  index_segment_grows t h = elim (Bool-cases (text_eq (first_path_segment path) t)) [
    | inl e ↦ ground (
      arith,
      has_method_grows m n (r.first_segment_method_masks t),
      ap (λ u. has_method m (r.first_segment_method_masks u))
          (text_eq_sound (first_path_segment path) t e),
    )
    | inr e ↦ ground arith
  ]

  index_segment_self :
      (t : Text) → first_path_segment path ≡ t → indexed (index_segment r m t) m path ≡ true
  unfolding index_segment at_text
  index_segment_self t h = ground (
    arith,
    has_method_self m (r.first_segment_method_masks t),
    ap (λ u. text_eq u t) h,
    text_eq_refl t,
  )

  index_prefix_grows :
      (t : Text)
      → indexed r m path ≡ true
      → indexed (index_wildcard_segment_prefix r n t) m path ≡ true
  unfolding index_wildcard_segment_prefix
  index_prefix_grows t h =
      ground
        (arith, any_prefix_grows m n t (first_path_segment path) r.wildcard_segment_prefix_masks)

  index_prefix_self :
      (t : Text)
      → starts_with t (first_path_segment path) ≡ true
      → indexed (index_wildcard_segment_prefix r m t) m path ≡ true
  unfolding index_wildcard_segment_prefix
  index_prefix_self t h =
      ground (arith, any_prefix_self m t (first_path_segment path) r.wildcard_segment_prefix_masks)

  pub index_route_grows :
      (pattern : Text) (kind : RouteKind)
      → indexed r m path ≡ true
      → indexed (index_route_first_segment r n pattern kind) m path ≡ true
  unfolding index_route_first_segment
  index_route_grows pattern RouteKind.h_static h =
      index_segment_grows (first_path_segment pattern) h
  index_route_grows pattern RouteKind.h_param h =
      elim (Bool-cases (is_param_segment (first_path_segment pattern))) [
        | inl e ↦ ground (arith, index_dynamic_grows)
        | inr e ↦ ground (arith, index_segment_grows (first_path_segment pattern))
      ]
  index_route_grows pattern RouteKind.h_wildcard h = ground (
    arith,
    index_dynamic_grows,
    index_prefix_grows (drop 1 (before_star pattern)),
    index_segment_grows (segment (drop 1 (before_star pattern))),
  )

  pub index_static_self :
      indexed (index_route_first_segment r m path RouteKind.h_static) m path ≡ true
  unfolding index_route_first_segment
  index_static_self = index_segment_self (first_path_segment path) refl

  pub index_param_self :
      (want : Bool) (pattern : Text) (params : List Param)
      → match_param_path want pattern path ≡ some params
      → indexed (index_route_first_segment r m pattern RouteKind.h_param) m path ≡ true
  unfolding index_route_first_segment
  index_param_self want pattern params h =
      elim (Bool-cases (is_param_segment (first_path_segment pattern))) [
        | inl e ↦ ground (arith, index_dynamic_self)
        | inr e ↦ elim (match_param_path_first want pattern path params h) [
          | inl p ↦ absurd (ground arith)
          | inr p ↦ ground (arith, index_segment_self (first_path_segment pattern) (sym p))
        ]
      ]

  prefix_self :
      (rest : Text)
      → starts_with (b'/' ∷ rest) path ≡ true
      → indexed
          (if not (contains b'/' rest)
            then index_wildcard_segment_prefix r m rest
            else index_segment r m (segment rest))
          m
          path
        ≡ true
  prefix_self rest h = elim (Bool-cases (contains b'/' rest)) [
    | inl e ↦
        ground
          (arith, index_segment_self (segment rest) (first_path_segment_of_prefix rest path e h))
    | inr e ↦ ground (arith, index_prefix_self rest (first_path_segment-starts_with rest path e h))
  ]

  front_slash :
      (c : ℕ) (rest : Text)
      → (c == b'/') ≡ true
      → starts_with (c ∷ rest) path ≡ true
      → starts_with (b'/' ∷ rest) path ≡ true
  front_slash c rest e h = sym (ap (λ x. starts_with (x ∷ rest) path) ((==_iff c b'/').0 e)) ∙ h

  wildcard_self :
      (prefix : Text)
      → starts_with prefix path ≡ true
      → indexed
          (if is_empty prefix || not (front prefix == b'/')
            then index_dynamic r m
            else if not (contains b'/' (drop 1 prefix))
            then index_wildcard_segment_prefix r m (drop 1 prefix)
            else index_segment r m (segment (drop 1 prefix)))
          m
          path
        ≡ true
  wildcard_self [] h = index_dynamic_self
  wildcard_self (c ∷ rest) h = elim (Bool-cases (c == b'/')) [
    | inl e ↦ ground (arith, prefix_self rest (front_slash c rest e h))
    | inr e ↦ ground (arith, index_dynamic_self)
  ]

  pub index_wildcard_self :
      (pattern : Text)
      → starts_with (before_star pattern) path ≡ true
      → indexed (index_route_first_segment r m pattern RouteKind.h_wildcard) m path ≡ true
  unfolding index_route_first_segment
  index_wildcard_self pattern h = wildcard_self (before_star pattern) h
