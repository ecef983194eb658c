-- ===== src/Routing/Path/RoundTrip.antt =====
-- matchParamPath of src/core/Router.cpp on a pattern and a path of the same segments.
use hical.Base.{
  ℕ, zero, suc, ◌-◌, ◌≤◌, ◌≡◌, refl, true, false, ◌||◌, List, [], ◌∷◌, ◌++◌, some, Text, text_eq,
  text_eq_refl, length, ltb, is_empty, back, contains, substr, take, arith, All, length-append,
  take-append, sym, ap, ap₂, ◌∙◌, append-nil, append_assoc,
}
use hical.Routing.Path.{
  Param, segment, after_segment, without_slash, is_param_segment, match_segments, match_param_path,
}

-- A segment of a pattern with what the path has in its place.
pub data Step : Type 0 where
  literal : Text → Step
  placeholder : Text → Text → Step

abbrev pub in_pattern : Step → Text
in_pattern (Step.literal t) = t
in_pattern (Step.placeholder name value) = b'{' ∷ (name ++ b'}' ∷ [])

abbrev pub in_path : Step → Text
in_path (Step.literal t) = t
in_path (Step.placeholder name value) = value

abbrev pub params_of : List Step → List Param
params_of [] = []
params_of (Step.literal t ∷ ss) = params_of ss
params_of (Step.placeholder name value ∷ ss) = record { name = name; value = value } ∷ params_of ss

-- The segments, each behind a slash.
abbrev pub written : (Step → Text) → List Step → Text
written text [] = []
written text (s ∷ ss) = b'/' ∷ (text s ++ written text ss)

-- A segment: not empty, and without a slash.
pub record IsSegment (t : Text) : Type 0 where
  pub filled : is_empty t ≡ false
  pub no_slash : contains b'/' t ≡ false

-- A literal is a segment that has not the form of a parameter; the name of a parameter and its value
-- are segments, and the value has at most 1024 bytes.
abbrev pub IsStep : Step → Type 0
IsStep (Step.literal t) = IsSegment t × (is_param_segment t ≡ false)
IsStep (Step.placeholder name value) = IsSegment name × IsSegment value × length value ≤ 1024

segment-written :
    (t : Text) (text : Step → Text) (ss : List Step)
    → contains b'/' t ≡ false
    → segment (t ++ written text ss) ≡ t
unfolding segment contains
segment-written [] text [] h = refl
segment-written [] text (s ∷ ss) h = refl
segment-written (c ∷ cs) text ss h = ground (arith, segment-written cs text ss)

after_segment-written :
    (t : Text) (text : Step → Text) (ss : List Step)
    → contains b'/' t ≡ false
    → after_segment (t ++ written text ss) ≡ without_slash (written text ss)
unfolding after_segment contains
after_segment-written [] text [] h = refl
after_segment-written [] text (s ∷ ss) h = refl
after_segment-written (c ∷ cs) text ss h = ground (arith, after_segment-written cs text ss)

is_empty-append : (t u : Text) → is_empty t ≡ false → is_empty (t ++ u) ≡ false
is_empty-append [] u h = absurd (ground arith)
is_empty-append (x ∷ xs) u h = refl

contains-append : (b : ℕ) (t u : Text) → contains b (t ++ u) ≡ (contains b t || contains b u)
unfolding contains
contains-append b [] u = refl
contains-append b (x ∷ xs) u = ground (arith, contains-append b xs u)

back-append : (c : ℕ) (t : Text) → back (t ++ c ∷ []) ≡ c
back-append c [] = refl
back-append c (x ∷ []) = refl
back-append c (x ∷ y ∷ ys) = back-append c (y ∷ ys)

filled_length : (t : Text) → is_empty t ≡ false → 1 ≤ length t
filled_length [] h = absurd (ground arith)
filled_length (x ∷ xs) h = omega arith

placeholder-is_param_segment :
    (name : Text) → is_empty name ≡ false → is_param_segment (b'{' ∷ (name ++ b'}' ∷ [])) ≡ true
unfolding is_param_segment
placeholder-is_param_segment name h =
    ground
      (arith, length-append name (b'}' ∷ []), filled_length name h, back-append b'}' (b'{' ∷ name))

placeholder_name :
    (name : Text)
    → substr 1 (length (b'{' ∷ (name ++ b'}' ∷ [])) - 2) (b'{' ∷ (name ++ b'}' ∷ [])) ≡ name
placeholder_name name =
    ap (λ n. take n (name ++ b'}' ∷ [])) (omega (arith, length-append name (b'}' ∷ [])))
    ∙ take-append name (b'}' ∷ [])

-- One turn of the loop, on segments that are known.
short_segment : (t value : Text) → t ≡ value → length value ≤ 1024 → ltb 1024 (length t) ≡ false
short_segment t value e h = ground (arith, ap length e)

turn_placeholder :
    (left : ℕ) (pattern path name value : Text) (captures : List Param)
    → is_empty pattern ≡ false
    → is_empty path ≡ false
    → segment pattern ≡ b'{' ∷ (name ++ b'}' ∷ [])
    → segment path ≡ value
    → is_empty name ≡ false
    → length value ≤ 1024
    → match_segments (suc left) true pattern path captures
      ≡ match_segments left true
          (after_segment pattern)
          (after_segment path)
          (captures ++ record { name = name; value = value } ∷ [])
unfolding match_segments
turn_placeholder left pattern path name value captures p q e f n l =
    let pat = segment pattern in
    ground (
      arith,
      ap is_param_segment e ∙ placeholder-is_param_segment name n,
      short_segment (segment path) value f l,
    )
    ∙ ap₂
        (λ x y.
          match_segments left true (after_segment pattern) (after_segment path)
            (captures ++ record { name = x; value = y } ∷ []))
        (ap (λ t. substr 1 (length t - 2) t) e ∙ placeholder_name name) f

turn_literal :
    (left : ℕ) (pattern path t : Text) (captures : List Param)
    → is_empty pattern ≡ false
    → is_empty path ≡ false
    → segment pattern ≡ t
    → segment path ≡ t
    → is_param_segment t ≡ false
    → match_segments (suc left) true pattern path captures
      ≡ match_segments left true (after_segment pattern) (after_segment path) captures
unfolding match_segments
turn_literal left pattern path t captures p q e f n =
    ground (arith, ap is_param_segment e ∙ n, ap₂ text_eq e f ∙ text_eq_refl t)

match_segments-nil :
    (left : ℕ) (captures : List Param) → match_segments left true [] [] captures ≡ some captures
unfolding match_segments
match_segments-nil zero captures = refl
match_segments-nil (suc left) captures = refl

-- What is left of two texts behind their first segments.
after_written :
    (left : ℕ) (t u : Text) (ss : List Step) (captures : List Param)
    → contains b'/' t ≡ false
    → contains b'/' u ≡ false
    → match_segments left true
        (after_segment (t ++ written in_pattern ss))
        (after_segment (u ++ written in_path ss))
        captures
      ≡ match_segments left true
          (without_slash (written in_pattern ss))
          (without_slash (written in_path ss))
          captures
after_written left t u ss captures h k =
    ap₂ (λ x y. match_segments left true x y captures) (after_segment-written t in_pattern ss h)
      (after_segment-written u in_path ss k)

placeholder_no_slash :
    (name : Text) → contains b'/' name ≡ false → contains b'/' (b'{' ∷ (name ++ b'}' ∷ [])) ≡ false
unfolding contains
placeholder_no_slash name h = ground (arith, contains-append b'/' name (b'}' ∷ []))

-- The loop on what was written.
match_segments-written :
    (left : ℕ) (ss : List Step) (captures : List Param)
    → All IsStep ss
    → length ss ≤ left
    → match_segments left true
        (without_slash (written in_pattern ss))
        (without_slash (written in_path ss))
        captures
      ≡ some (captures ++ params_of ss)
match_segments-written left [] captures h n =
    match_segments-nil left captures ∙ ap some (sym (append-nil captures))
match_segments-written zero (s ∷ ss) captures h n = absurd (omega arith)
match_segments-written (suc left) (Step.literal t ∷ ss) captures h n =
    turn_literal left (t ++ written in_pattern ss) (t ++ written in_path ss) t captures
      (is_empty-append t (written in_pattern ss) h.0.0.filled)
      (is_empty-append t (written in_path ss) h.0.0.filled)
      (segment-written t in_pattern ss h.0.0.no_slash) (segment-written t in_path ss h.0.0.no_slash)
      h.0.1
    ∙ after_written left t t ss captures h.0.0.no_slash h.0.0.no_slash
    ∙ match_segments-written left ss captures h.1 (omega arith)
match_segments-written (suc left) (Step.placeholder name value ∷ ss) captures h n =
    let pat = b'{' ∷ (name ++ b'}' ∷ []) in
    turn_placeholder left (pat ++ written in_pattern ss) (value ++ written in_path ss) name value
      captures refl (is_empty-append value (written in_path ss) h.0.1.filled)
      (segment-written pat in_pattern ss (placeholder_no_slash name h.0.0.no_slash))
      (segment-written value in_path ss h.0.1.no_slash) h.0.0.filled h.0.2
    ∙ after_written left pat value ss (captures ++ record { name = name; value = value } ∷ [])
        (placeholder_no_slash name h.0.0.no_slash) h.0.1.no_slash
    ∙ match_segments-written left ss (captures ++ record { name = name; value = value } ∷ []) h.1
        (omega arith)
    ∙ ap some (append_assoc captures (record { name = name; value = value } ∷ []) (params_of ss))

-- A pattern and a path that are written from the same segments, at most 32 of them, match, and the
-- parameters are the names with their values, in order.
pub match_param_path-written :
    (ss : List Step)
    → All IsStep ss
    → length ss ≤ 32
    → match_param_path true (written in_pattern ss) (written in_path ss) ≡ some (params_of ss)
unfolding match_param_path
match_param_path-written ss h n = match_segments-written 32 ss [] h n
