-- ===== src/Routing/Stream/Laws.antt =====
-- findWsRoute and findSseRoute of src/core/Router.cpp against a search of all routes.
use hical.Base.{
  subst, if_cases, option_holds, ◌≡◌, refl, true, false, not, ◌&&◌, List, [], ◌∷◌, ◌++◌, inl, inr,
  ap, arith, Text, text_eq, text_eq_sound, text_eq_refl, Option, some, none, ◌⊎◌, All,
  if◌then◌else◌,
}
use hical.Routing.Path.{Param, is_param_route, match_param_path}
use hical.Routing.Stream.{
  WsRoute, SseRoute, find_exact_ws, find_param_ws, find_ws_route, find_exact_sse, find_param_sse,
  find_sse_route,
}

-- A route is exact for a path: it is no pattern, and is the path.
pub record IsExact (route path : Text) : Type 0 where
  pub plain : is_param_route route ≡ false
  pub same : route ≡ path

-- A route is a pattern that matches the path with these parameters.
pub record IsMatch (route path : Text) (params : List Param) : Type 0 where
  pub pattern : is_param_route route ≡ true
  pub matched : match_param_path true route path ≡ some params

-- The first element of a list with a property.
pub record IsFirst {ℓ} {A : Type ℓ} (P : A → Type 0) (xs : List A) (x : A) : Type ℓ where
  pub before : List A
  pub after : List A
  pub split : xs ≡ before ++ x ∷ after
  pub none_before : All (λ y. P y → ⊥) before
  pub holds : P x

later {ℓ} :
    {A : Type ℓ} (P : A → Type 0) (y : A) (xs : List A) (x : A)
    → (P y → ⊥)
    → IsFirst P xs x
    → IsFirst P (y ∷ xs) x
later P y xs x n f = record {
  before = y ∷ f.before;
  after = f.after;
  split = ap (◌∷◌ y) f.split;
  none_before = (n, f.none_before);
  holds = f.holds;
}

here {ℓ} : {A : Type ℓ} (P : A → Type 0) (xs : List A) (x : A) → P x → IsFirst P (x ∷ xs) x
here P xs x p = record { before = []; after = xs; split = refl; none_before = tt; holds = p }

text_eq-IsExact :
    (route path : Text)
    → (not (is_param_route route) && text_eq route path) ≡ true
    → IsExact route path
text_eq-IsExact route path h = record {
  plain = ground arith;
  same = text_eq_sound route path (ground arith);
}

not_exact :
    (route path : Text)
    → (not (is_param_route route) && text_eq route path) ≡ false
    → IsExact route path
    → ⊥
not_exact route path h e =
    ground (arith, e.plain, subst (λ t. text_eq route t ≡ true) e.same (text_eq_refl route))

-- The routes of one kind, by their paths.
module _ {R : Type 0} (path_of : R → Text) (path : Text) where
  abbrev Exact : R → Type 0
  Exact r = IsExact (path_of r) path

  abbrev Matches : R → Type 0
  Matches r = (params : List Param) × IsMatch (path_of r) path params

  -- What a search may answer: the first exact route, without parameters; where no route is exact, the
  -- first pattern that matches, with its parameters; nothing where no route is either.
  abbrev pub IsFound : List R → Option (R × List Param) → Type 0
  IsFound routes none = All (λ r. Exact r → ⊥) routes × All (λ r. Matches r → ⊥) routes
  IsFound routes (some (r, params)) =
      (IsFirst Exact routes r × (params ≡ []))
      ⊎ (All (λ x. Exact x → ⊥) routes × IsFirst Matches routes r × IsMatch (path_of r) path params)

  abbrev ExactScan : List R → Option (R × List Param) → Type 0
  ExactScan routes none = All (λ r. Exact r → ⊥) routes
  ExactScan routes (some (r, params)) = IsFirst Exact routes r × (params ≡ [])

  abbrev MatchScan : List R → Option (R × List Param) → Type 0
  MatchScan routes none = All (λ r. Matches r → ⊥) routes
  MatchScan routes (some (r, params)) = IsFirst Matches routes r × IsMatch (path_of r) path params

  -- One step of the search for an exact route, whatever finds the rest.
  exact_step :
      (r : R) (rs : List R) (rest : Option (R × List Param))
      → ExactScan rs rest
      → ExactScan (r ∷ rs) (
          if not (is_param_route (path_of r)) && text_eq (path_of r) path
          then some (r, [])
          else rest)
  exact_step r rs rest h =
      if_cases (ExactScan (r ∷ rs)) (not (is_param_route (path_of r)) && text_eq (path_of r) path)
        (some (r, [])) rest (λ c. (here Exact rs r (text_eq-IsExact (path_of r) path c), refl))
        (λ c. skip rest h (not_exact (path_of r) path c))
    where
      skip : (x : Option (R × List Param)) → ExactScan rs x → (Exact r → ⊥) → ExactScan (r ∷ rs) x
      skip none a n = (n, a)
      skip (some (q, params)) a n = (later Exact r rs q n a.0, a.1)

  match_step :
      (r : R) (rs : List R) (rest : Option (R × List Param))
      → MatchScan rs rest
      → MatchScan (r ∷ rs) (
          if is_param_route (path_of r)
          then elim (match_param_path true (path_of r) path) as (λ _. Option (R × List Param)) [
            | none ↦ rest
            | some params ↦ some (r, params)
          ]
          else rest)
  match_step r rs rest h =
      if_cases (MatchScan (r ∷ rs)) (is_param_route (path_of r)) _ rest
        (λ c.
          option_holds (MatchScan (r ∷ rs)) (match_param_path true (path_of r) path) rest
            (λ params. some (r, params)) (λ n. skip rest h (λ m. ground (arith, m.1.matched)))
            (λ params f.
              let m : IsMatch (path_of r) path params = record { pattern = c; matched = f } in
              (here Matches rs r (params, m), m)))
        (λ c. skip rest h (λ m. ground (arith, m.1.pattern)))
    where
      skip : (x : Option (R × List Param)) → MatchScan rs x → (Matches r → ⊥) → MatchScan (r ∷ rs) x
      skip none a n = (n, a)
      skip (some (q, params)) a n = (later Matches r rs q n a.0, a.1)

  -- The search for an exact route, and behind it that for a pattern.
  both :
      (routes : List R) (x y : Option (R × List Param))
      → ExactScan routes x
      → MatchScan routes y
      → IsFound routes
          (elim x as (λ _. Option (R × List Param)) [ some found ↦ some found | none ↦ y ])
  both routes (some (r, params)) y a b = inl a
  both routes none none a b = (a, b)
  both routes none (some (r, params)) a b = inr (a, b.0, b.1)

module _ {M T L : Type 0} where
  find_exact_ws-ExactScan :
      (routes : List (WsRoute M T L)) (path : Text)
      → ExactScan (λ r. r.path) path routes (find_exact_ws routes path)
  unfolding find_exact_ws
  find_exact_ws-ExactScan [] path = tt
  find_exact_ws-ExactScan (r ∷ rs) path =
      exact_step (λ r. r.path) path r rs (find_exact_ws rs path) (find_exact_ws-ExactScan rs path)

  find_param_ws-MatchScan :
      (routes : List (WsRoute M T L)) (path : Text)
      → MatchScan (λ r. r.path) path routes (find_param_ws routes path)
  unfolding find_param_ws
  find_param_ws-MatchScan [] path = tt
  find_param_ws-MatchScan (r ∷ rs) path =
      match_step (λ r. r.path) path r rs (find_param_ws rs path) (find_param_ws-MatchScan rs path)

  find_ws_route-IsFound :
      (routes : List (WsRoute M T L)) (path : Text)
      → IsFound (λ r. r.path) path routes (find_ws_route routes path)
  unfolding find_ws_route
  find_ws_route-IsFound routes path =
      both (λ r. r.path) path routes (find_exact_ws routes path) (find_param_ws routes path)
        (find_exact_ws-ExactScan routes path) (find_param_ws-MatchScan routes path)

module _ {S : Type 0} where
  find_exact_sse-ExactScan :
      (routes : List (SseRoute S)) (path : Text)
      → ExactScan (λ r. r.path) path routes (find_exact_sse routes path)
  unfolding find_exact_sse
  find_exact_sse-ExactScan [] path = tt
  find_exact_sse-ExactScan (r ∷ rs) path =
      exact_step (λ r. r.path) path r rs (find_exact_sse rs path) (find_exact_sse-ExactScan rs path)

  find_param_sse-MatchScan :
      (routes : List (SseRoute S)) (path : Text)
      → MatchScan (λ r. r.path) path routes (find_param_sse routes path)
  unfolding find_param_sse
  find_param_sse-MatchScan [] path = tt
  find_param_sse-MatchScan (r ∷ rs) path =
      match_step (λ r. r.path) path r rs (find_param_sse rs path) (find_param_sse-MatchScan rs path)

  find_sse_route-IsFound :
      (routes : List (SseRoute S)) (path : Text)
      → IsFound (λ r. r.path) path routes (find_sse_route routes path)
  unfolding find_sse_route
  find_sse_route-IsFound routes path =
      both (λ r. r.path) path routes (find_exact_sse routes path) (find_param_sse routes path)
        (find_exact_sse-ExactScan routes path) (find_param_sse-MatchScan routes path)

-- The searches for a WebSocket and for an SSE route answer the first route that is no pattern and has
-- the path as it is, without parameters; where there is none, the first pattern that matches the path,
-- with the parameters of that match; and nothing only where no route is either.
pub find_routes-IsFound :
    {M T L S : Type 0} (ws_routes : List (WsRoute M T L)) (sse_routes : List (SseRoute S))
    (path : Text)
    → IsFound (λ r. r.path) path ws_routes (find_ws_route ws_routes path)
      × IsFound (λ r. r.path) path sse_routes (find_sse_route sse_routes path)
find_routes-IsFound ws_routes sse_routes path =
    (find_ws_route-IsFound ws_routes path, find_sse_route-IsFound sse_routes path)
