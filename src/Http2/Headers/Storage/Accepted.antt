-- ===== src/Http2/Headers/Storage/Accepted.antt =====
-- Http2Headers.cpp: a block under `append`.
use hical.Base.{
  ℕ, ◌+◌, ◌≤◌, ◌≡◌, ap, sym, subst, Bool, true, false, Option, none, some, List, [], ◌∷◌, ◌++◌,
  arith, Text, length, length-append, All, total, total-append, inl, inr, Bool-cases, Option-cases,
  ◌∙◌, if◌then◌else◌, is_some, codes, starts_with, one_of, ◌≢◌,
}
use hical.Http2.Options.{max_header_fields_cap, header_field_overhead_bytes}
use hical.Http2.Error.{NetworkError, invalid_configuration}
use hical.Http2.Headers.Syntax.{connection_fields}
use hical.Http2.Headers.Storage.{
  Field, Storage, fields, store, fail, append, well_formed, over_budget, valid_pseudo,
  valid_regular,
}
use hical.Http2.Headers.Storage.Fields.{IsLaid, fields-store, store-IsLaid, All-append_one}

abbrev pub is_pseudo : Field → Bool
is_pseudo f = starts_with (codes ":") f.name

-- What a field costs of the budget.
abbrev pub cost : Field → ℕ
cost f = header_field_overhead_bytes + length f.name + length f.value

-- A field that may be stored: a lower-case token, a value with no control byte, and no field of
-- the connection.
abbrev pub IsClean : Field → Type 0
IsClean f =
    (well_formed f.name f.value ≡ true)
    × (is_pseudo f ≡ false → one_of f.name connection_fields ≡ false)

-- The budget counts the fields that are stored, and is not passed.
pub record IsWithin (s : Storage) : Type 0 where
  pub laid : IsLaid s
  pub fields_counted : s.decoded_fields ≡ length (fields s)
  pub bytes_counted : s.decoded_bytes ≡ total cost (fields s)
  pub fields_fit : s.decoded_fields ≤ s.max_fields
  pub bytes_fit : s.decoded_bytes ≤ s.max_bytes
  pub capped : s.max_fields ≤ max_header_fields_cap
  pub clean : All IsClean (fields s)

-- No pseudo-header stands behind a regular field.
abbrev pub Ordered : List Field → Type 0
Ordered [] = Unit {0}
Ordered (f ∷ fs) = (is_pseudo f ≡ false → All (λ g. is_pseudo g ≡ false) fs) × Ordered fs

-- Pseudo-headers come first, while no regular field was seen.
pub record IsOrdered (s : Storage) : Type 0 where
  pub laid : IsLaid s
  pub before : s.regular_seen ≡ false → All (λ f. is_pseudo f ≡ true) (fields s)
  pub ordered : Ordered (fields s)

fail-keeps :
    (s : Storage) (resource : Bool)
    → (e : Option NetworkError) × (fail s resource ≡ (record s { error = e }, e)) × (e ≢ none)
unfolding fail
fail-keeps s resource = elim (Option-cases s.error) [
  | inl e ↦ ((fail s resource).1, ground arith, ground arith)
  | inr (old, e) ↦ (s.error, ground arith, ground arith)
]

Ordered-append_pseudo :
    (fs : List Field) (f : Field)
    → All (λ g. is_pseudo g ≡ true) fs
    → is_pseudo f ≡ true
    → Ordered (fs ++ f ∷ [])
Ordered-append_pseudo [] f h p = (λ e. tt, tt)
Ordered-append_pseudo (g ∷ fs) f h p = (λ e. absurd (clash e h.0), Ordered-append_pseudo fs f h.1 p)
  where
    clash : is_pseudo g ≡ false → is_pseudo g ≡ true → ⊥
    clash e e' = cc

Ordered-append_regular :
    (fs : List Field) (f : Field) → Ordered fs → is_pseudo f ≡ false → Ordered (fs ++ f ∷ [])
Ordered-append_regular [] f h p = (λ e. tt, tt)
Ordered-append_regular (g ∷ fs) f h p =
    (λ e. All-append_one _ fs f (h.0 e) p, Ordered-append_regular fs f h.1 p)

module _ (make_address_v6 : Text → Option Text) where
  abbrev passes : Storage → Text → Text → Bool
  passes s name value =
      if starts_with (codes ":") name
      then valid_pseudo make_address_v6 s name value
      else valid_regular make_address_v6 s name value

  module _ (s : Storage) (name value : Text) (a : s.sealed ≡ false) where
    append_failed :
        (old : NetworkError)
        → s.error ≡ some old
        → append make_address_v6 s name value ≡ (s, s.error)
    unfolding append
    append_failed old b = ground arith

    append_over :
        s.error ≡ none
        → over_budget s name value ≡ true
        → append make_address_v6 s name value ≡ fail s true
    unfolding append
    append_over b c = ground arith

    append_malformed :
        s.error ≡ none
        → over_budget s name value ≡ false
        → well_formed name value ≡ false
        → append make_address_v6 s name value ≡ fail s false
    unfolding append
    append_malformed b c d = ground arith

    append_invalid :
        s.error ≡ none
        → over_budget s name value ≡ false
        → well_formed name value ≡ true
        → passes s name value ≡ false
        → append make_address_v6 s name value ≡ fail s false
    unfolding append
    append_invalid b c d f = ground arith

    append_stored :
        s.error ≡ none
        → over_budget s name value ≡ false
        → well_formed name value ≡ true
        → passes s name value ≡ true
        → append make_address_v6 s name value
          ≡ (store s (starts_with (codes ":") name) name value, none)
    unfolding append
    append_stored b c d f = ground arith

  append_sealed :
      (s : Storage) (name value : Text)
      → s.sealed ≡ true
      → append make_address_v6 s name value
        ≡ (s, some (record { code = invalid_configuration; http2 = none }))
  unfolding append
  append_sealed s name value a = ground arith

  -- `append` stores the field, or leaves every part of the block but its error alone.
  append_cases :
      (P : Storage × Option NetworkError → Type 0) (s : Storage) (name value : Text)
      → ((e e' : Option NetworkError) → e' ≢ none → P (record s { error = e }, e'))
      → (s.sealed ≡ false
          → over_budget s name value ≡ false
          → well_formed name value ≡ true
          → passes s name value ≡ true
          → P (store s (starts_with (codes ":") name) name value, none))
      → P (append make_address_v6 s name value)
  append_cases P s name value refused stored = elim (Bool-cases s.sealed) [
    | inl a ↦ subst P (sym (append_sealed s name value a)) (refused s.error _ (λ e. cc))
    | inr a ↦ elim (Option-cases s.error) [
      | inr (old, b) ↦
          subst P (sym (append_failed s name value a old b)) (refused s.error s.error (λ e. cc))
      | inl b ↦ elim (Bool-cases (over_budget s name value)) [
        | inl c ↦ failing (fail-keeps s true) (append_over s name value a b c)
        | inr c ↦ elim (Bool-cases (well_formed name value)) [
          | inr d ↦ failing (fail-keeps s false) (append_malformed s name value a b c d)
          | inl d ↦ elim (Bool-cases (passes s name value)) [
            | inr f ↦ failing (fail-keeps s false) (append_invalid s name value a b c d f)
            | inl f ↦ subst P (sym (append_stored s name value a b c d f)) (stored a c d f)
          ]
        ]
      ]
    ]
  ]
    where
      result : Storage × Option NetworkError
      result = append make_address_v6 s name value

      failing :
          {r : Storage × Option NetworkError}
          → (e : Option NetworkError) × (r ≡ (record s { error = e }, e)) × (e ≢ none)
          → result ≡ r
          → P result
      failing (e, eq, ne) same = subst P (sym (same ∙ eq)) (refused e e ne)

  regular-clean :
      (s : Storage) (name value : Text)
      → valid_regular make_address_v6 s name value ≡ true
      → one_of name connection_fields ≡ false
  unfolding valid_regular
  regular-clean s name value h = elim (Bool-cases (one_of name connection_fields)) [
    | inl bad ↦ absurd (impossible bad)
    | inr good ↦ good
  ]
    where
      impossible : one_of name connection_fields ≡ true → ⊥
      impossible bad = let h' : false ≡ true = (rw bad at h) in cc

  pseudo-unseen :
      (s : Storage) (name value : Text)
      → valid_pseudo make_address_v6 s name value ≡ true
      → s.regular_seen ≡ false
  unfolding valid_pseudo
  pseudo-unseen s name value h = elim (Bool-cases s.regular_seen) [
    | inl seen ↦ absurd (impossible seen)
    | inr good ↦ good
  ]
    where
      impossible : s.regular_seen ≡ true → ⊥
      impossible seen = ground arith

  store-IsWithin :
      (s : Storage) (name value : Text)
      → IsWithin s
      → over_budget s name value ≡ false
      → well_formed name value ≡ true
      → passes s name value ≡ true
      → IsWithin (store s (starts_with (codes ":") name) name value)
  store-IsWithin s name value w c d f = record {
    laid = store-IsLaid s _ name value w.laid;
    fields_counted =
        unfold store in
        omega (arith, w.fields_counted, ap length grown, length-append (fields s) (new ∷ []));
    bytes_counted =
        unfold store in
        omega
          (arith, w.bytes_counted, ap (total cost) grown, total-append cost (fields s) (new ∷ []));
    fields_fit = unfold store in ground (arith, w.fields_fit);
    bytes_fit = unfold store in ground (arith, w.bytes_fit);
    capped = unfold store in w.capped;
    clean = subst (All IsClean) (sym grown) (
        All-append_one IsClean (fields s) new w.clean
          (d, λ regular. regular-clean s name value (rw regular at f)));
  }
    where
      new : Field
      new = record { name = name; value = value }

      grown : fields (store s (starts_with (codes ":") name) name value) ≡ fields s ++ new ∷ []
      grown = fields-store s _ name value w.laid

  -- Read back from the buffer, where all offsets lie inside it: `append` without an error adds the
  -- field as the last, and with an error leaves the fields as they were.
  pub append-fields :
      (s : Storage) (name value : Text)
      → IsLaid s
      → let r = append make_address_v6 s name value in
        fields r.0
        ≡ (if is_some r.1 then fields s else fields s ++ record { name = name; value = value } ∷ [])
  append-fields s name value h =
      append_cases
        (λ r. fields r.0 ≡ (
          if is_some r.1 then fields s else fields s ++ record { name = name; value = value } ∷ []))
        s name value (λ e e' ne. ground arith)
        (λ a c d f. fields-store s (starts_with (codes ":") name) name value h)

  pub append-IsWithin :
      (s : Storage) (name value : Text)
      → IsWithin s
      → IsWithin (append make_address_v6 s name value).0
  append-IsWithin s name value w =
      append_cases (λ r. IsWithin r.0) s name value
        (λ e e' ne. record {
          laid = w.laid;
          fields_counted = w.fields_counted;
          bytes_counted = w.bytes_counted;
          fields_fit = w.fields_fit;
          bytes_fit = w.bytes_fit;
          capped = w.capped;
          clean = w.clean;
        })
        (λ a c d f. store-IsWithin s name value w c d f)

  store-IsOrdered :
      (s : Storage) (name value : Text)
      → IsOrdered s
      → passes s name value ≡ true
      → IsOrdered (store s (starts_with (codes ":") name) name value)
  store-IsOrdered s name value w f = elim (Bool-cases (starts_with (codes ":") name)) [
    | inl p ↦
        let fresh : s.regular_seen ≡ false = pseudo-unseen s name value (rw p at f) in
        record {
          laid = store-IsLaid s _ name value w.laid;
          before = λ e.
              subst (All (λ g. is_pseudo g ≡ true)) (sym grown)
                (All-append_one _ (fields s) new (w.before fresh) p);
          ordered =
              subst Ordered (sym grown) (Ordered-append_pseudo (fields s) new (w.before fresh) p);
        }
    | inr r ↦ record {
      laid = store-IsLaid s _ name value w.laid;
      before = λ e. absurd (seen r e);
      ordered = subst Ordered (sym grown) (Ordered-append_regular (fields s) new w.ordered r);
    }
  ]
    where
      new : Field
      new = record { name = name; value = value }

      grown : fields (store s (starts_with (codes ":") name) name value) ≡ fields s ++ new ∷ []
      grown = fields-store s _ name value w.laid

      seen :
          starts_with (codes ":") name ≡ false
          → (store s (starts_with (codes ":") name) name value).regular_seen ≡ false
          → ⊥
      seen r e = unfold store in ground arith

  pub append-IsOrdered :
      (s : Storage) (name value : Text)
      → IsOrdered s
      → IsOrdered (append make_address_v6 s name value).0
  append-IsOrdered s name value w =
      append_cases (λ r. IsOrdered r.0) s name value
        (λ e e' ne. record { laid = w.laid; before = w.before; ordered = w.ordered })
        (λ a c d f. store-IsOrdered s name value w f)
