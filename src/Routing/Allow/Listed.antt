-- ===== src/Routing/Allow/Listed.antt =====
-- What a registration of src/core/Router.cpp adds to the tables, as the paths that they list.
use hical.Base.{
  or_assoc, ◌≡◌, refl, Bool, true, false, ◌||◌, List, [], ◌∷◌, ◌++◌, ◌⊎◌, inl, inr, ap, subst, ◌∙◌,
  sym, Bool-cases, if◌then◌else◌, arith, Text, text_eq, text_eq_sound, starts_with, is_some,
}
use hical.Routing.Method.{HttpMethod, same_method, same_method_refl, same_method_sound}
use hical.Routing.Path.{match_param_path, before_star, after_star}
use hical.Routing.Table.{
  Handler, ParamRouteEntry, WildcardRouteEntry, Router, at_method, at_text, add_wildcard, add_param,
  add_static,
}
use hical.Routing.Allow.{any_param, any_wildcard}
use hical.Routing.Allow.Masks.{member, listed}

pub member-append :
    (m n : HttpMethod) (ms : List HttpMethod)
    → member m (ms ++ n ∷ []) ≡ (member m ms || same_method m n)
member-append m n [] = ground arith
member-append m n (k ∷ ms) = ground (arith, member-append m n ms)

or_false : (b : Bool) → (b || false) ≡ b
or_false true = refl
or_false false = refl

-- One of three tables has a new entry: what is listed was listed before, or is the entry.
new_static :
    (a x b c d : Bool) → (x || b || c) ≡ true → x ≡ (a || d) → ((a || b || c) ≡ true) ⊎ (d ≡ true)
new_static true x b c d h e = inl refl
new_static false x b c true h e = inr refl
new_static false x b c false h e = inl (ground arith)

new_param :
    (a b x c d : Bool) → (a || x || c) ≡ true → x ≡ (b || d) → ((a || b || c) ≡ true) ⊎ (d ≡ true)
new_param true b x c d h e = inl refl
new_param false true x c d h e = inl refl
new_param false false x c true h e = inr refl
new_param false false x c false h e = inl (ground arith)

new_wildcard :
    (a b c x d : Bool) → (a || b || x) ≡ true → x ≡ (c || d) → ((a || b || c) ≡ true) ⊎ (d ≡ true)
new_wildcard true b c x d h e = inl refl
new_wildcard false true c x d h e = inl refl
new_wildcard false false true x d h e = inl refl
new_wildcard false false false x true h e = inr refl
new_wildcard false false false x false h e = absurd (ground arith)

at_method_self {ℓ} :
    {A : Type ℓ} (f : HttpMethod → A) (n : HttpMethod) (v : A) → at_method f n v n ≡ v
unfolding at_method
at_method_self f n v = ap (λ b. if b then v else f n) (same_method_refl n)

at_method_other {ℓ} :
    {A : Type ℓ} (f : HttpMethod → A) (n m : HttpMethod) (v : A)
    → same_method m n ≡ false
    → at_method f n v m ≡ f m
unfolding at_method
at_method_other f n m v h = ap (λ b. if b then v else f m) h

-- Two methods are the same or not.
by_method {ℓ} :
    (Q : HttpMethod → Type ℓ) (n m : HttpMethod) → Q n → (same_method m n ≡ false → Q m) → Q m
by_method Q n m self other = elim (Bool-cases (same_method m n)) [
  | inl e ↦ subst Q (sym (same_method_sound m n e)) self
  | inr e ↦ other e
]

module _ {R : Type 0} where
  any_param-append :
      (es : List (ParamRouteEntry R)) (e : ParamRouteEntry R) (path : Text)
      → any_param (es ++ e ∷ []) path
        ≡ (any_param es path || is_some (match_param_path false e.path path))
  unfolding any_param
  any_param-append [] e path = or_false (is_some (match_param_path false e.path path))
  any_param-append (f ∷ es) e path =
      ap (λ b. is_some (match_param_path false f.path path) || b) (any_param-append es e path)
      ∙ sym (
          or_assoc (is_some (match_param_path false f.path path)) (any_param es path)
            (is_some (match_param_path false e.path path)))

  any_wildcard-append :
      (es : List (WildcardRouteEntry R)) (e : WildcardRouteEntry R) (path : Text)
      → any_wildcard (es ++ e ∷ []) path ≡ (any_wildcard es path || starts_with e.prefix path)
  unfolding any_wildcard
  any_wildcard-append [] e path = ground arith
  any_wildcard-append (f ∷ es) e path = ground (arith, any_wildcard-append es e path)

  module _ (r : Router R) (n m : HttpMethod) (pattern path : Text) (h : Handler R) where
    abbrev wildcard_entry : WildcardRouteEntry R
    wildcard_entry = record {
      method = n;
      pattern = pattern;
      prefix = before_star pattern;
      param_name = after_star pattern;
      handler = h;
    }

    pub listed-add_wildcard :
        listed (add_wildcard r n pattern h) m path ≡ true
        → (listed r m path ≡ true) ⊎ ((n ≡ m) × (starts_with (before_star pattern) path ≡ true))
    unfolding add_wildcard
    listed-add_wildcard =
        by_method
          (λ k.
            listed (add_wildcard r n pattern h) k path ≡ true
            → (listed r k path ≡ true)
              ⊎ ((n ≡ k) × (starts_with (before_star pattern) path ≡ true)))
          n m
          (λ e.
            elim (new_wildcard (member n (r.static_path_methods path))
              (any_param (r.param_routes_by_method n) path)
              (any_wildcard (r.wildcard_routes_by_method n) path)
              (any_wildcard ((add_wildcard r n pattern h).wildcard_routes_by_method n) path)
              (starts_with (before_star pattern) path) e
              (ap (λ es. any_wildcard es path)
                  (at_method_self r.wildcard_routes_by_method n
                    (r.wildcard_routes_by_method n ++ wildcard_entry ∷ []))
                ∙ any_wildcard-append (r.wildcard_routes_by_method n) wildcard_entry path)) [
                  | inl l ↦ inl l
                  | inr s ↦ inr (refl, s)
                ])
          (λ ne e. inl (
            ap
              (λ es.
                member m (r.static_path_methods path)
                || any_param (r.param_routes_by_method m) path
                || any_wildcard es path)
              (sym (
                at_method_other r.wildcard_routes_by_method n m
                  (r.wildcard_routes_by_method n ++ wildcard_entry ∷ []) ne))
            ∙ e))

    abbrev param_entry : ParamRouteEntry R
    param_entry = record { method = n; path = pattern; handler = h }

    pub listed-add_param :
        listed (add_param r n pattern h) m path ≡ true
        → (listed r m path ≡ true)
          ⊎ ((n ≡ m) × (is_some (match_param_path false pattern path) ≡ true))
    unfolding add_param
    listed-add_param =
        by_method
          (λ k.
            listed (add_param r n pattern h) k path ≡ true
            → (listed r k path ≡ true)
              ⊎ ((n ≡ k) × (is_some (match_param_path false pattern path) ≡ true)))
          n m
          (λ e.
            elim (new_param (member n (r.static_path_methods path))
              (any_param (r.param_routes_by_method n) path)
              (any_param ((add_param r n pattern h).param_routes_by_method n) path)
              (any_wildcard (r.wildcard_routes_by_method n) path)
              (is_some (match_param_path false pattern path)) e
              (ap (λ es. any_param es path)
                  (at_method_self r.param_routes_by_method n
                    (r.param_routes_by_method n ++ param_entry ∷ []))
                ∙ any_param-append (r.param_routes_by_method n) param_entry path)) [
                  | inl l ↦ inl l
                  | inr s ↦ inr (refl, s)
                ])
          (λ ne e. inl (
            ap
              (λ es.
                member m (r.static_path_methods path)
                || any_param es path
                || any_wildcard (r.wildcard_routes_by_method m) path)
              (sym (
                at_method_other r.param_routes_by_method n m
                  (r.param_routes_by_method n ++ param_entry ∷ []) ne))
            ∙ e))

    pub listed-add_static :
        listed (add_static r n pattern h) m path ≡ true
        → (listed r m path ≡ true) ⊎ ((n ≡ m) × (pattern ≡ path))
    unfolding add_static at_text
    listed-add_static e = elim (Bool-cases (text_eq path pattern)) [
      | inr ne ↦ inl (
          ap
            (λ b.
              member m
                (if b then r.static_path_methods pattern ++ n ∷ [] else r.static_path_methods path)
              || any_param (r.param_routes_by_method m) path
              || any_wildcard (r.wildcard_routes_by_method m) path)
            (sym ne)
          ∙ e)
      | inl eq ↦
          elim (new_static (member m (r.static_path_methods path))
            (member m ((add_static r n pattern h).static_path_methods path))
            (any_param (r.param_routes_by_method m) path)
            (any_wildcard (r.wildcard_routes_by_method m) path) (same_method m n) e
            (ap
                (λ b. member m (
                  if b
                  then r.static_path_methods pattern ++ n ∷ []
                  else r.static_path_methods path))
                eq
              ∙ ap (λ t. member m (r.static_path_methods t ++ n ∷ []))
                  (sym (text_eq_sound path pattern eq))
              ∙ member-append m n (r.static_path_methods path))) [
                | inl l ↦ inl l
                | inr s ↦ inr (sym (same_method_sound m n s), sym (text_eq_sound path pattern eq))
              ]
    ]
