-- ===== src/Routing/Allow/Masks.antt =====
-- Which methods the masks of resolveRoute in src/core/Router.cpp hold, method by method.
use hical.Base.{
  or_assoc, ==_iff, ℕ, ◌≡◌, refl, Bool, true, false, not, ◌&&◌, ◌||◌, List, [], ◌∷◌, ◌==◌, inl, inr,
  ap, subst, ◌∙◌, sym, bit_or, bit_and, Bool-cases, if◌then◌else◌, arith, Text, starts_with,
}
use hical.Routing.Method.{
  HttpMethod, same_method, method_bit, bit_not32, has_method, mask_test, same_method_sound,
  has_method-insert, has_method-bit_or, has_method-zero, has_method-others, index_lt,
}
use hical.Routing.Table.{Router}
use hical.Routing.Path.{first_path_segment}
use hical.Routing.Allow.{
  or_static, or_groups, or_prefixes, candidate_mask, all_methods, allow_mask, any_param,
  any_wildcard,
}

abbrev pub member : HttpMethod → List HttpMethod → Bool
member m [] = false
member m (n ∷ ns) = same_method m n || member m ns

same_method_left : (m n r : HttpMethod) → same_method m n ≡ true → same_method n r ≡ same_method m r
same_method_left m n r h = ap (λ x. same_method x r) (sym (same_method_sound m n h))

insert_if :
    (m n : HttpMethod) (b : Bool) (mask : ℕ)
    → has_method m (if b then mask else bit_or mask (method_bit n))
      ≡ (has_method m mask || (same_method m n && not b))
insert_if m n true mask = ground arith
insert_if m n false mask = has_method-insert m n mask ∙ ground arith

join_static :
    (h s q p rest : Bool)
    → (s ≡ true → q ≡ p)
    → ((h || (s && not q)) || (rest && not p)) ≡ (h || ((s || rest) && not p))
join_static true s q p rest e = refl
join_static false true q p rest e = ground (arith, e refl)
join_static false false q p rest e = refl

pub has_method-or_static :
    (m req_method : HttpMethod) (ms : List HttpMethod) (mask : ℕ)
    → has_method m (or_static req_method ms mask)
      ≡ (has_method m mask || (member m ms && not (same_method m req_method)))
unfolding or_static
has_method-or_static m req_method [] mask = ground arith
has_method-or_static m req_method (n ∷ ns) mask =
    has_method-or_static m req_method ns
      (if same_method n req_method then mask else bit_or mask (method_bit n))
    ∙ ap (λ b. b || (member m ns && not (same_method m req_method)))
        (insert_if m n (same_method n req_method) mask)
    ∙ join_static (has_method m mask) (same_method m n) (same_method n req_method)
        (same_method m req_method) (member m ns) (same_method_left m n req_method)

group_if :
    (m n : HttpMethod) (a b : Bool) (mask : ℕ)
    → has_method m (if a then mask else if b then bit_or mask (method_bit n) else mask)
      ≡ (has_method m mask || (same_method m n && (not a && b)))
group_if m n true b mask = ground arith
group_if m n false true mask = has_method-insert m n mask ∙ ground arith
group_if m n false false mask = ground arith

join_groups :
    (h s q p rest : Bool)
    → (s ≡ true → q ≡ p)
    → ((h || (s && q)) || (rest && p)) ≡ (h || ((s || rest) && p))
join_groups true s q p rest e = refl
join_groups false true q p rest e = ground (arith, e refl)
join_groups false false q p rest e = refl

group_at :
    (m n : HttpMethod) (others : ℕ) (matches : HttpMethod → Bool)
    → same_method m n ≡ true
    → (not (bit_and others (method_bit n) == 0) && matches n) ≡ (has_method m others && matches m)
group_at m n others matches h =
    subst
      (λ k.
        (not (bit_and others (method_bit k) == 0) && matches k)
        ≡ (has_method m others && matches m))
      (same_method_sound m n h) (ground (arith, mask_test m others))

pub has_method-or_groups :
    (m : HttpMethod) (ms : List HttpMethod) (others : ℕ) (matches : HttpMethod → Bool) (mask : ℕ)
    → has_method m (or_groups ms others matches mask)
      ≡ (has_method m mask || (member m ms && (has_method m others && matches m)))
unfolding or_groups
has_method-or_groups m [] others matches mask = ground arith
has_method-or_groups m (n ∷ ns) others matches mask =
    has_method-or_groups m ns others matches (
      if bit_and others (method_bit n) == 0
      then mask
      else if matches n
      then bit_or mask (method_bit n)
      else mask)
    ∙ ap (λ b. b || (member m ns && (has_method m others && matches m)))
        (group_if m n (bit_and others (method_bit n) == 0) (matches n) mask)
    ∙ join_groups (has_method m mask) (same_method m n)
        (not (bit_and others (method_bit n) == 0) && matches n) (has_method m others && matches m)
        (member m ns) (group_at m n others matches)

pub member-all_methods : (m : HttpMethod) → member m all_methods ≡ true
member-all_methods m = ground (arith, index_lt m)

-- A token of the list that the segment starts with has the method.
abbrev pub any_prefix : HttpMethod → List (Text × ℕ) → Text → Bool
any_prefix m [] first = false
any_prefix m (p ∷ ps) first = (starts_with p.0 first && has_method m p.1) || any_prefix m ps first

or_if :
    (m : HttpMethod) (b : Bool) (mask bits : ℕ)
    → has_method m (if b then bit_or mask bits else mask)
      ≡ (has_method m mask || (b && has_method m bits))
or_if m true mask bits = has_method-bit_or m mask bits
or_if m false mask bits = ground arith

pub has_method-or_prefixes :
    (m : HttpMethod) (ps : List (Text × ℕ)) (first : Text) (mask : ℕ)
    → has_method m (or_prefixes ps first mask) ≡ (has_method m mask || any_prefix m ps first)
unfolding or_prefixes
has_method-or_prefixes m [] first mask = ground arith
has_method-or_prefixes m (p ∷ ps) first mask =
    has_method-or_prefixes m ps first (if starts_with p.0 first then bit_or mask p.1 else mask)
    ∙ ap (λ b. b || any_prefix m ps first) (or_if m (starts_with p.0 first) mask p.1)
    ∙ or_assoc (has_method m mask) (starts_with p.0 first && has_method m p.1)
        (any_prefix m ps first)

scan :
    (s mem p w o c : Bool)
    → o ≡ (c && not s)
    → ((mem || p || w) ≡ true → c ≡ true)
    → (((false || (mem && not s)) || (true && (o && p))) || (true && (o && w)))
      ≡ (not s && (mem || p || w))
scan true mem p w o c e h = ground arith
scan false true p w o c e h = ground arith
scan false false true w o c e h = ground (arith, h refl)
scan false false false true o c e h = ground (arith, h refl)
scan false false false false o c e h = ground arith

none_listed : (s l c : Bool) → (c && not s) ≡ false → (l ≡ true → c ≡ true) → false ≡ (not s && l)
none_listed true l c e h = refl
none_listed false true c e h = ground (arith, h refl)
none_listed false false c e h = refl

module _ {R : Type 0} (r : Router R) where
  -- What the index has of a path, and what the tables have.
  abbrev pub indexed : HttpMethod → Text → Bool
  indexed m path =
      (has_method m r.dynamic_first_segment_mask
        || has_method m (r.first_segment_method_masks (first_path_segment path)))
      || any_prefix m r.wildcard_segment_prefix_masks (first_path_segment path)

  abbrev pub listed : HttpMethod → Text → Bool
  listed m path =
      member m (r.static_path_methods path)
      || any_param (r.param_routes_by_method m) path
      || any_wildcard (r.wildcard_routes_by_method m) path

  has_method-candidate_mask :
      (m : HttpMethod) (path : Text) → has_method m (candidate_mask r path) ≡ indexed m path
  unfolding candidate_mask
  has_method-candidate_mask m path =
      has_method-or_prefixes m r.wildcard_segment_prefix_masks (first_path_segment path) (
        bit_or r.dynamic_first_segment_mask
          (r.first_segment_method_masks (first_path_segment path)))
      ∙ ap (λ b. b || any_prefix m r.wildcard_segment_prefix_masks (first_path_segment path))
          (has_method-bit_or m r.dynamic_first_segment_mask
            (r.first_segment_method_masks (first_path_segment path)))

  module _ (m req_method : HttpMethod) (path : Text)
      (covered : listed m path ≡ true → indexed m path ≡ true) where
    abbrev others : ℕ
    others = bit_and (candidate_mask r path) (bit_not32 (method_bit req_method))

    has_method-other : has_method m others ≡ (indexed m path && not (same_method m req_method))
    has_method-other =
        has_method-others m req_method (candidate_mask r path)
        ∙ ap (λ b. b && not (same_method m req_method)) (has_method-candidate_mask m path)

    abbrev param_at : HttpMethod → Bool
    param_at n = any_param (r.param_routes_by_method n) path

    abbrev wildcard_at : HttpMethod → Bool
    wildcard_at n = any_wildcard (r.wildcard_routes_by_method n) path

    abbrev static_mask : ℕ
    static_mask = or_static req_method (r.static_path_methods path) 0

    abbrev param_mask : ℕ
    param_mask = or_groups all_methods others param_at static_mask

    has_method-scan :
        has_method m (or_groups all_methods others wildcard_at param_mask)
        ≡ (not (same_method m req_method) && listed m path)
    has_method-scan =
        ground (
          arith,
          has_method-or_groups m all_methods others wildcard_at param_mask,
          has_method-or_groups m all_methods others param_at static_mask,
          has_method-or_static m req_method (r.static_path_methods path) 0,
          has_method-zero m,
          member-all_methods m,
        )
        ∙ scan (same_method m req_method) (member m (r.static_path_methods path)) (param_at m)
            (wildcard_at m) (has_method m others) (indexed m path) has_method-other covered

    none_other : (others == 0) ≡ true → false ≡ (not (same_method m req_method) && listed m path)
    none_other h =
        none_listed (same_method m req_method) (listed m path) (indexed m path)
          (sym has_method-other ∙ ap (has_method m) ((==_iff others 0).0 h) ∙ has_method-zero m)
          covered

    pub has_method-allow_mask :
        has_method m (allow_mask r req_method path)
        ≡ (not (same_method m req_method) && listed m path)
    unfolding allow_mask
    has_method-allow_mask = elim (Bool-cases (others == 0)) [
      | inl h ↦ ground (arith, has_method-zero m, none_other h)
      | inr h ↦ ground (arith, has_method-scan)
    ]
