-- ===== src/Http2/Headers/Seal/Complete.antt =====
-- Http2Headers.cpp, `seal`: the fields and the number of views of a block that was sealed.
use hical.Base.{
  ℕ, ◌≤◌, ◌≡◌, refl, ap, ap₂, ◌∙◌, sym, subst, Bool, true, false, List, arith, Text, codes, length,
  inl, inr, Bool-cases, Option, none, some, if◌then◌else◌, map,
}
use hical.Http2.Options.{max_header_fields_cap}
use hical.Http2.Headers.Syntax.{unsigned_decimal}
use hical.Http2.Headers.Storage.{
  Field, Storage, HeaderKind, request, response, trailers, field, fields, is_request, value_of,
  fail,
}
use hical.Http2.Headers.Storage.Accepted.{IsWithin}
use hical.Http2.Headers.Seal.{
  combine_cookies, all_views, complete_request, complete_response, validate_kind, validate_complete,
  seal,
}
use hical.Http2.Headers.Seal.Cookies.{merge, fields-combine_cookies}
use hical.Http2.Headers.Seal.Views.{length-all_views, length-combined}

module _ (make_address_v6 : Text → Option Text) where
  record Passed (s t : Storage) : Type 0 where
    bytes : t.bytes ≡ s.bytes
    entries : t.entries ≡ s.entries
    kind : t.kind ≡ s.kind

  fail-error : (s : Storage) (resource : Bool) → (fail s resource).1 ≡ none → ⊥
  unfolding fail
  fail-error s resource e = ground arith

  complete_response-Passed :
      (s : Storage) (code : Option ℕ)
      → (complete_response make_address_v6 s code).1 ≡ none
      → Passed s (complete_response make_address_v6 s code).0
  unfolding complete_response fail
  complete_response-Passed s none e = absurd (fail-error s false e)
  complete_response-Passed s (some code) e = record {
    bytes = ground arith;
    entries = ground arith;
    kind = ground arith;
  }

  validate_kind-Passed :
      (kind : HeaderKind) (s : Storage)
      → (validate_kind make_address_v6 kind s).1 ≡ none
      → Passed s (validate_kind make_address_v6 kind s).0
  unfolding validate_kind
  validate_kind-Passed response s e =
      complete_response-Passed s (unsigned_decimal (value_of s (codes ":status"))) e
  validate_kind-Passed trailers s e = record { bytes = refl; entries = refl; kind = refl }
  validate_kind-Passed request s e = elim (Bool-cases (complete_request make_address_v6 s)) [
    | inl good ↦ rw good (record { bytes = refl; entries = refl; kind = refl })
    | inr bad ↦ absurd (fail-error s false (rw bad at e))
  ]

  Passed-fields : (s t : Storage) → Passed s t → fields t ≡ fields s
  Passed-fields s t p = λ i. map (field (p.bytes i)) (p.entries i)

  -- A block and what `seal` leaves of it.
  record IsSealed (s t : Storage) : Type 0 where
    fields_merged : fields t ≡ (if is_request s.kind then merge (fields s) false else fields s)
    views_fit : length t.views ≤ length (fields s)

  abbrev finished : Storage → Storage
  finished s = let c = combine_cookies s in record c { views = all_views c; sealed = true }

  seal_finishes :
      (s : Storage)
      → s.sealed ≡ false
      → (seal make_address_v6 s).1 ≡ none
      → ((seal make_address_v6 s).0 ≡ finished (validate_kind make_address_v6 s.kind s).0)
        × ((validate_kind make_address_v6 s.kind s).1 ≡ none)
  unfolding seal validate_complete
  seal_finishes s open_yet e = ground arith

  finished-IsSealed : (s t : Storage) → Passed s t → IsSealed s (finished t)
  finished-IsSealed s t p = record {
    fields_merged =
        fields-combine_cookies t
        ∙ ap₂ (λ (b : Bool) (fs : List Field). if b then merge fs false else fs)
            (ap is_request p.kind) (Passed-fields s t p);
    views_fit = omega (
      arith,
      length-all_views (combine_cookies t),
      length-combined t,
      ap length (Passed-fields s t p),
    );
  }

  -- `seal` without an error on a block that was not sealed: the fields are the old ones with a
  -- request's cookies merged, and the views are no more than the old fields.
  seal-IsSealed :
      (s : Storage)
      → s.sealed ≡ false
      → (seal make_address_v6 s).1 ≡ none
      → IsSealed s (seal make_address_v6 s).0
  seal-IsSealed s open_yet e =
      let (same, valid) = seal_finishes s open_yet e in
      let passed = validate_kind-Passed s.kind s valid in
      subst (IsSealed s) (sym same) (finished-IsSealed s _ passed)

  -- Where a block is within its budget and is sealed without an error, its views, with a `host` that
  -- is made up, are at most 64.
  pub seal-views_fit :
      (s : Storage)
      → IsWithin s
      → s.sealed ≡ false
      → (seal make_address_v6 s).1 ≡ none
      → length (seal make_address_v6 s).0.views ≤ max_header_fields_cap
  seal-views_fit s w open_yet e =
      omega
        (arith, (seal-IsSealed s open_yet e).views_fit, w.fields_counted, w.fields_fit, w.capped)
