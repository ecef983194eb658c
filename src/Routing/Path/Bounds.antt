-- ===== src/Routing/Path/Bounds.antt =====
-- The limits of matchParamPath in src/core/Router.cpp.
use hical.Base.{
  append-nil, ℕ, zero, suc, ◌+◌, ◌-◌, ◌≤◌, ◌≡◌, Bool, true, false, ◌&&◌, ◌||◌, List, [], ◌∷◌, ◌++◌,
  some, Text, text_eq, length, ltb, if◌then◌else◌, is_empty, substr, arith, All, length-append, inl,
  inr, Bool-cases, sym, subst,
}
use hical.Routing.Path.{
  Param, segment, after_segment, without_slash, is_param_segment, match_segments, match_param_path,
  k_max_param_value_length,
}

-- A value of at most 1024 bytes.
abbrev pub IsShort : Param → Type 0
IsShort p = length p.value ≤ 1024

pub record IsBounded (most : ℕ) (params : List Param) : Type 0 where
  pub count : length params ≤ most
  pub short : All IsShort params

All-append : (ps : List Param) (p : Param) → All IsShort ps → IsShort p → All IsShort (ps ++ p ∷ [])
All-append [] p h s = (s, tt)
All-append (q ∷ ps) p h s = (h.0, All-append ps p h.1 s)

IsBounded-append :
    (most : ℕ) (ps : List Param) (p : Param)
    → IsBounded most ps
    → IsShort p
    → IsBounded (suc most) (ps ++ p ∷ [])
IsBounded-append most ps p b s = record {
  count = omega (arith, length-append ps (p ∷ []), b.count);
  short = All-append ps p b.short s;
}

IsBounded-weaken :
    (most more : ℕ) (ps : List Param) → most ≤ more → IsBounded most ps → IsBounded more ps
IsBounded-weaken most more ps h b = record { count = omega (arith, b.count); short = b.short }

captured :
    (used : ℕ) (want : Bool) (captures : List Param) (p : Param)
    → IsBounded used captures
    → IsShort p
    → IsBounded (suc used) (captures ++ (if want then p ∷ [] else []))
captured used true captures p b s = IsBounded-append used captures p b s
captured used false captures p b s =
    subst (IsBounded (suc used)) (sym (append-nil captures))
      (IsBounded-weaken used (suc used) captures (omega arith) b)

match_segments-IsBounded :
    (left used : ℕ) (want : Bool) (pattern path : Text) (captures params : List Param)
    → IsBounded used captures
    → match_segments left want pattern path captures ≡ some params
    → IsBounded (used + left) params
unfolding match_segments
match_segments-IsBounded zero used want pattern path captures params b h =
    elim (Bool-cases (is_empty pattern && is_empty path)) [
      | inl e ↦
          subst (IsBounded (used + 0)) {x = captures} (ground arith)
            (IsBounded-weaken used (used + 0) captures (omega arith) b)
      | inr e ↦ absurd (ground arith)
    ]
match_segments-IsBounded (suc left) used want pattern path captures params b h =
    let pat_seg = segment pattern in
    let req_seg = segment path in
    elim (Bool-cases (is_empty pattern || is_empty path)) [
      | inl e ↦ elim (Bool-cases (is_empty pattern && is_empty path)) [
        | inl a ↦
            subst (IsBounded (used + suc left)) {x = captures} (ground arith)
              (IsBounded-weaken used (used + suc left) captures (omega arith) b)
        | inr a ↦ absurd (ground arith)
      ]
      | inr e ↦ elim (Bool-cases (is_param_segment pat_seg)) [
        | inl p ↦ elim (Bool-cases (ltb k_max_param_value_length (length req_seg))) [
          | inl long ↦ absurd (ground arith)
          | inr fits ↦ IsBounded-weaken (suc used + left) (used + suc left) params (omega arith) (
              match_segments-IsBounded left (suc used) want (after_segment pattern)
                (after_segment path)
                (captures
                  ++ (if want
                      then record { name = substr 1 (length pat_seg - 2) pat_seg; value = req_seg }
                        ∷ []
                      else []))
                params
                (captured used want captures
                  (record { name = substr 1 (length pat_seg - 2) pat_seg; value = req_seg }) b
                  (ground arith))
                (ground arith))
        ]
        | inr np ↦ elim (Bool-cases (text_eq pat_seg req_seg)) [
          | inl same ↦ IsBounded-weaken (used + left) (used + suc left) params (omega arith) (
              match_segments-IsBounded left used want (after_segment pattern) (after_segment path)
                captures params b (ground arith))
          | inr other ↦ absurd (ground arith)
        ]
      ]
    ]

-- A match has at most 32 parameters, each of at most 1024 bytes.
pub match_param_path-IsBounded :
    (want : Bool) (pattern path : Text) (params : List Param)
    → match_param_path want pattern path ≡ some params
    → IsBounded 32 params
unfolding match_param_path
match_param_path-IsBounded want pattern path params h =
    match_segments-IsBounded 32 0 want (without_slash pattern) (without_slash path) [] params
      (record { count = omega arith; short = tt }) h
