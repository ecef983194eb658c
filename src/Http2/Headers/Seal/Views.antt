-- ===== src/Http2/Headers/Seal/Views.antt =====
-- Http2Headers.cpp, `seal`: the number of the views, and `host` among them.
use hical.Base.{
  ◌+◌, ◌≤◌, ◌≡◌, refl, ap, sym, subst, Bool, true, false, ◌||◌, List, [], ◌∷◌, ◌++◌, arith, Text,
  codes, length, length-append, All, inl, inr, Bool-cases, if◌then◌else◌, text_eq, text_eq_sound,
  text_eq_refl, is_empty, starts_with, is_some,
}
use hical.Http2.Headers.Storage.{Field, Storage, fields, is_request, find_field, value_of}
use hical.Http2.Headers.Seal.{
  is_cookie, combine_cookies, view_of, collect_views, seen_host, make_views, all_views,
}
use hical.Http2.Headers.Seal.Cookies.{merge, fields-combine_cookies}

-- One place is left for a `host` that is made up, since the authority is a field without a view.
length-collect_views :
    (in_request : Bool) (authority name : Text) (fs : List Field)
    → starts_with (codes ":") name ≡ true
    → length (collect_views in_request authority fs)
        + (if is_some (find_field name fs) then 1 else 0)
      ≤ length fs
unfolding collect_views find_field
length-collect_views in_request authority name [] p = omega arith
length-collect_views in_request authority name (f ∷ fs) p =
    elim (Bool-cases (text_eq f.name name)) [
      | inl e ↦
          let same : starts_with (codes ":") f.name ≡ true =
            subst (λ n. starts_with (codes ":") n ≡ true) (sym (text_eq_sound f.name name e)) p in
          ground (arith, length-collect_views in_request authority name fs p)
      | inr e ↦ ground (arith, length-collect_views in_request authority name fs p)
    ]

authority-pseudo : starts_with (codes ":") (codes ":authority") ≡ true
unfolding starts_with
authority-pseudo = refl

pub length-all_views : (s : Storage) → length (all_views s) ≤ length (fields s)
unfolding all_views make_views
length-all_views s = ground (
  arith,
  length-append (collect_views (is_request s.kind) (value_of s (codes ":authority")) (fields s))
      (record { name = codes "host"; value = value_of s (codes ":authority") } ∷ []),
  length-collect_views (is_request s.kind) (value_of s (codes ":authority")) (codes ":authority")
      (fields s) authority-pseudo,
)

length-merge : (fs : List Field) (combined : Bool) → length (merge fs combined) ≤ length fs
unfolding merge
length-merge [] combined = omega arith
length-merge (f ∷ fs) combined = ground (arith, length-merge fs (combined || is_cookie f))

pub length-combined : (s : Storage) → length (fields (combine_cookies s)) ≤ length (fields s)
length-combined s =
    ground (arith, ap length (fields-combine_cookies s), length-merge (fields s) false)

-- A field named `host` carries the authority.
abbrev pub Names : Text → Field → Type 0
Names authority f = text_eq f.name (codes "host") ≡ true → f.value ≡ authority

All-append_last {ℓ κ} :
    {A : Type ℓ} (P : A → Type κ) (xs : List A) (x : A) → All P xs → P x → All P (xs ++ x ∷ [])
All-append_last P [] x h p = (p, tt)
All-append_last P (y ∷ xs) x h p = (h.0, All-append_last P xs x h.1 p)

collect_views-Names :
    (authority : Text) (fs : List Field)
    → is_empty authority ≡ false
    → All (Names authority) (collect_views true authority fs)
unfolding collect_views view_of
collect_views-Names authority [] h = tt
collect_views-Names authority (f ∷ fs) h = elim (Bool-cases (starts_with (codes ":") f.name)) [
  | inl e ↦ rw e (collect_views-Names authority fs h)
  | inr e ↦ rw e (λ host. ground arith, collect_views-Names authority fs h)
]

abbrev pub has_host : List Field → Bool
has_host [] = false
has_host (f ∷ fs) = text_eq f.name (codes "host") || has_host fs

has_host-append : (fs gs : List Field) → has_host (fs ++ gs) ≡ (has_host fs || has_host gs)
has_host-append [] gs = refl
has_host-append (f ∷ fs) gs = ground (arith, has_host-append fs gs)

has_host-collect_views :
    (authority : Text) (fs : List Field)
    → has_host (collect_views true authority fs) ≡ seen_host true fs
unfolding collect_views seen_host view_of
has_host-collect_views authority [] = refl
has_host-collect_views authority (f ∷ fs) = ground (arith, has_host-collect_views authority fs)

host-named : text_eq (codes "host") (codes "host") ≡ true
host-named = text_eq_refl (codes "host")

module _ (authority : Text) (fs : List Field) (named : is_empty authority ≡ false) where
  make_views-Names : All (Names authority) (make_views true authority fs)
  unfolding make_views
  make_views-Names = elim (Bool-cases (seen_host true fs)) [
    | inl seen ↦ rw seen (collect_views-Names authority fs named)
    | inr unseen ↦
        rw (unseen, named)
          (All-append_last (Names authority) (collect_views true authority fs) _
            (collect_views-Names authority fs named) (λ e. refl))
  ]

  make_views-host : has_host (make_views true authority fs) ≡ true
  unfolding make_views
  make_views-host = ground (
    arith,
    has_host-collect_views authority fs,
    has_host-append (collect_views true authority fs)
        (record { name = codes "host"; value = authority } ∷ []),
    host-named,
  )

-- The views of a request whose `:authority` is not empty have a field `host`, and each field of that
-- name has the authority as its value.
pub all_views-host :
    (s : Storage)
    → is_request s.kind ≡ true
    → is_empty (value_of s (codes ":authority")) ≡ false
    → All (Names (value_of s (codes ":authority"))) (all_views s) × (has_host (all_views s) ≡ true)
unfolding all_views
all_views-host s req named =
    let authority = value_of s (codes ":authority") in
    subst
      (λ b.
        All (Names authority) (make_views b authority (fields s))
        × (has_host (make_views b authority (fields s)) ≡ true))
      (sym req)
      (make_views-Names authority (fields s) named, make_views-host authority (fields s) named)
