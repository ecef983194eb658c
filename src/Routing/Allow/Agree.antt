-- ===== src/Routing/Allow/Agree.antt =====
-- The methods that src/core/Router.cpp lists for a path, and its static routes.
use hical.Base.{
  if_holds, ◌≡◌, refl, Bool, true, false, ◌||◌, List, [], ◌∷◌, ◌++◌, inl, inr, ap, ap₂, ◌∙◌, sym,
  Bool-cases, if◌then◌else◌, arith, Text, text_eq, text_eq_refl, text_eq_sound, is_some,
}
use hical.Routing.Method.{HttpMethod, same_method_refl, same_method_sound}
use hical.Routing.PerfectHash.{Key, same_key}
use hical.Routing.Table.{
  Handler, RouteEntry, Router, at_text, add_static, add_param, add_wildcard, route,
  index_route_first_segment, RouteKind, find_static, assign_static,
}
use hical.Routing.Allow.Masks.{member}
use hical.Routing.Path.{is_wildcard_route, is_param_route}
use hical.Routing.Allow.Listed.{member-append}
use hical.Routing.Allow.Complete.{static_routes-index, static_path_methods-index}

pub same_key_sound : (k l : Key) → same_key k l ≡ true → k ≡ l
unfolding same_key
same_key_sound k l h =
    ap₂ (λ m p. record { method = m; path = p })
      (same_method_sound k.method l.method (ground arith))
      (text_eq_sound k.path l.path (ground arith))

pub same_key_refl : (k : Key) → same_key k k ≡ true
unfolding same_key
same_key_refl k = ground (arith, same_method_refl k.method, text_eq_refl k.path)

text_eq_comm : (t u : Text) → text_eq t u ≡ text_eq u t
unfolding text_eq
text_eq_comm [] [] = refl
text_eq_comm [] (y ∷ ys) = refl
text_eq_comm (x ∷ xs) [] = refl
text_eq_comm (x ∷ xs) (y ∷ ys) = ground (arith, text_eq_comm xs ys)

module _ {R : Type 0} where
  pub find_static-assign_static :
      (k l : Key) (h : Handler R) (es : List (RouteEntry R))
      → is_some (find_static k (assign_static l h es))
        ≡ (is_some (find_static k es) || same_key l k)
  unfolding find_static assign_static
  find_static-assign_static k l h [] = ground arith
  find_static-assign_static k l h (e ∷ es) = elim (Bool-cases (same_key e.key l)) [
    | inl eq ↦ ground (arith, ap (λ x. same_key x k) (same_key_sound e.key l eq))
    | inr ne ↦ ground (arith, find_static-assign_static k l h es)
  ]

  -- The methods that are listed for a path are those of its static routes.
  abbrev pub IsAgreeing : Router R → Type 0
  IsAgreeing r =
      (m : HttpMethod) (path : Text)
      → member m (r.static_path_methods path)
        ≡ is_some (find_static (record { method = m; path = path }) r.static_routes)

  add_static-IsAgreeing :
      (r : Router R) (n : HttpMethod) (pattern : Text) (h : Handler R)
      → IsAgreeing r
      → IsAgreeing (add_static r n pattern h)
  unfolding add_static at_text same_key
  add_static-IsAgreeing r n pattern h c m path =
      added (text_eq path pattern) refl
      ∙ sym (
          find_static-assign_static (record { method = m; path = path })
            (record { method = n; path = pattern }) h r.static_routes)
    where
      added :
          (b : Bool)
          → text_eq path pattern ≡ b
          → member m
              (if b then r.static_path_methods pattern ++ n ∷ [] else r.static_path_methods path)
            ≡ (is_some (find_static (record { method = m; path = path }) r.static_routes)
                || same_key
                    (record { method = n; path = pattern })
                    (record { method = m; path = path }))
      added true e =
          ap (λ t. member m (r.static_path_methods t ++ n ∷ []))
            (sym (text_eq_sound path pattern e))
          ∙ member-append m n (r.static_path_methods path)
          ∙ ground (arith, c m path, text_eq_comm pattern path)
      added false e = ground (arith, c m path, text_eq_comm pattern path)

  IsAgreeing-tables :
      (r s : Router R)
      → r.static_path_methods ≡ s.static_path_methods
      → r.static_routes ≡ s.static_routes
      → IsAgreeing s
      → IsAgreeing r
  IsAgreeing-tables r s p q c m path =
      ap (λ f. member m (f path)) p
      ∙ c m path
      ∙ ap (λ es. is_some (find_static (record { method = m; path = path }) es)) (sym q)

  pub route-IsAgreeing :
      (r : Router R) (n : HttpMethod) (pattern : Text) (h : Handler R)
      → IsAgreeing r
      → IsAgreeing (route r n pattern h)
  unfolding route add_wildcard add_param
  route-IsAgreeing r n pattern h c =
      let wildcard =
        index_route_first_segment (add_wildcard r n pattern h) n pattern RouteKind.h_wildcard in
      let param = index_route_first_segment (add_param r n pattern h) n pattern RouteKind.h_param in
      let static =
        index_route_first_segment (add_static r n pattern h) n pattern RouteKind.h_static in
      if_holds IsAgreeing (is_wildcard_route pattern) wildcard
        (if is_param_route pattern then param else static)
        (kept (add_wildcard r n pattern h) RouteKind.h_wildcard c)
        (if_holds IsAgreeing (is_param_route pattern) param static
          (kept (add_param r n pattern h) RouteKind.h_param c)
          (kept (add_static r n pattern h) RouteKind.h_static
            (add_static-IsAgreeing r n pattern h c)))
    where
      kept :
          (s : Router R) (kind : RouteKind)
          → IsAgreeing s
          → IsAgreeing (index_route_first_segment s n pattern kind)
      kept s kind =
          IsAgreeing-tables (index_route_first_segment s n pattern kind) s
            (static_path_methods-index s n pattern kind) (static_routes-index s n pattern kind)
