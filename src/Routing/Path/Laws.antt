-- ===== src/Routing/Path/Laws.antt =====
-- The matchers of src/core/Router.cpp: the first segment of what matches, and what is captured.
use hical.Base.{
  ℕ, zero, suc, ◌-◌, ◌≡◌, refl, Bool, true, false, List, [], ◌∷◌, ◌++◌, some, Text, text_eq, length,
  is_some, substr, starts_with, contains, arith, text_eq_sound, ◌⊎◌, inl, inr, Bool-cases,
}
use hical.Routing.Path.{
  Param, segment, after_segment, without_slash, first_path_segment, is_param_segment,
  match_segments, match_param_path,
}

-- With and without the parameters the answer is the same.
match_segments-want :
    (left : ℕ) (pattern path : Text) (kept captures : List Param)
    → is_some (match_segments left false pattern path kept)
      ≡ is_some (match_segments left true pattern path captures)
unfolding match_segments
match_segments-want zero pattern path kept captures = ground arith
match_segments-want (suc left) pattern path kept captures = ground (
  arith,
  match_segments-want left (after_segment pattern) (after_segment path) kept captures,
  match_segments-want left (after_segment pattern) (after_segment path) (kept ++ []) (
      captures
      ++ record {
        name = substr 1 (length (segment pattern) - 2) (segment pattern);
        value = segment path;
      }
        ∷ []),
)

pub match_param_path-want :
    (pattern path : Text)
    → is_some (match_param_path false pattern path) ≡ is_some (match_param_path true pattern path)
unfolding match_param_path
match_param_path-want pattern path =
    match_segments-want 32 (without_slash pattern) (without_slash path) [] []

match_segments_first :
    (left : ℕ) (want : Bool) (pattern path : Text) (captures params : List Param)
    → match_segments (suc left) want pattern path captures ≡ some params
    → (is_param_segment (segment pattern) ≡ true) ⊎ (segment pattern ≡ segment path)
unfolding match_segments
match_segments_first left want [] [] captures params h = inr refl
match_segments_first left want [] (y ∷ ys) captures params h = absurd (ground arith)
match_segments_first left want (x ∷ xs) [] captures params h = absurd (ground arith)
match_segments_first left want (x ∷ xs) (y ∷ ys) captures params h =
    elim (Bool-cases (is_param_segment (segment (x ∷ xs)))) [
      | inl p ↦ inl p
      | inr p ↦ inr (
          text_eq_sound (segment (x ∷ xs)) (segment (y ∷ ys))
            (elim (Bool-cases (text_eq (segment (x ∷ xs)) (segment (y ∷ ys)))) [
              | inl e ↦ e
              | inr e ↦ absurd (ground arith)
            ]))
    ]

-- What matches agrees in the first segment, unless the pattern has a parameter there.
pub match_param_path_first :
    (want : Bool) (pattern path : Text) (params : List Param)
    → match_param_path want pattern path ≡ some params
    → (is_param_segment (first_path_segment pattern) ≡ true)
      ⊎ (first_path_segment pattern ≡ first_path_segment path)
unfolding match_param_path match_segments first_path_segment
match_param_path_first want pattern path params h =
    match_segments_first 31 want (without_slash pattern) (without_slash path) [] params h

starts_with-segment :
    (rest path : Text)
    → contains b'/' rest ≡ false
    → starts_with rest path ≡ true
    → starts_with rest (segment path) ≡ true
unfolding starts_with segment contains
starts_with-segment [] path a b = refl
starts_with-segment (x ∷ xs) [] a b = absurd (ground arith)
starts_with-segment (x ∷ xs) (y ∷ ys) a b = ground (arith, starts_with-segment xs ys)

segment_of_prefix :
    (rest path : Text)
    → contains b'/' rest ≡ true
    → starts_with rest path ≡ true
    → segment path ≡ segment rest
unfolding starts_with segment contains
segment_of_prefix [] path a b = absurd (ground arith)
segment_of_prefix (x ∷ xs) [] a b = absurd (ground arith)
segment_of_prefix (x ∷ xs) (y ∷ ys) a b = ground (arith, segment_of_prefix xs ys)

-- A path that starts with a slash and a text: its first segment, and the text's.
pub first_path_segment-starts_with :
    (rest path : Text)
    → contains b'/' rest ≡ false
    → starts_with (b'/' ∷ rest) path ≡ true
    → starts_with rest (first_path_segment path) ≡ true
unfolding first_path_segment starts_with segment contains
first_path_segment-starts_with rest [] a b = absurd (ground arith)
first_path_segment-starts_with rest (y ∷ ys) a b = ground (arith, starts_with-segment rest ys)

pub first_path_segment_of_prefix :
    (rest path : Text)
    → contains b'/' rest ≡ true
    → starts_with (b'/' ∷ rest) path ≡ true
    → first_path_segment path ≡ segment rest
unfolding first_path_segment starts_with segment contains
first_path_segment_of_prefix rest [] a b = absurd (ground arith)
first_path_segment_of_prefix rest (y ∷ ys) a b = ground (arith, segment_of_prefix rest ys)
