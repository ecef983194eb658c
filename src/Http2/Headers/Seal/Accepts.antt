-- ===== src/Http2/Headers/Seal/Accepts.antt =====
-- Http2Headers.cpp, `validateComplete` and `seal`: when a block is accepted.
use hical.Base.{
  ℕ, ◌/◌, ◌%◌, ◌^◌, ◌≡◌, ◌≢◌, ◌↔◌, ◌⊎◌, inl, inr, refl, ap, ◌∙◌, sym, Bool, true, false, ◌||◌,
  arith, Text, codes, Bool-cases, Option-cases, Option, none, some, if◌then◌else◌, ◌==◌, is_some,
  ==_iff,
}
use hical.Http2.Headers.Syntax.{unsigned_decimal}
use hical.Http2.Headers.Storage.{Storage, HeaderKind, request, response, trailers, value_of, fail}
use hical.Http2.Error.{NetworkError}
use hical.Http2.Headers.Seal.{
  finish, complete_request, complete_response, validate_kind, validate_complete, seal,
}
use hical.Http2.Headers.Seal.Requests.{complete_request_iff}
use hical.Http2.Headers.Seal.Whole.{IsResponse, IsWhole}

module _ (make_address_v6 : Text → Option Text) where
  refused : (s : Storage) (resource : Bool) → (fail s resource).1 ≡ none → ⊥
  unfolding fail
  refused s resource e = ground arith

  status_iff :
      (s : Storage) (code : ℕ)
      → ((complete_response make_address_v6 s (some code)).1 ≡ none)
        ↔ (((code % 2 ^ 16) / 100 ≢ 1) ⊎ (s.content_length ≡ none))
  unfolding complete_response fail
  status_iff s code = elim (Bool-cases ((code % 2 ^ 16) / 100 == 1)) [
    | inr other ↦ (λ h. inl (λ e. ground (arith, e)), λ h. rw other refl)
    | inl one_hundred ↦ elim (Option-cases s.content_length) [
      | inl n ↦ (λ h. inr n, λ h. rw (one_hundred, n) refl)
      | inr (n, e) ↦ (
        λ h.
            absurd (refused (record s { status = code % 2 ^ 16 }) false (rw (one_hundred, e) at h)),
        λ h. elim h [
          | inl other ↦ absurd (other ((==_iff _ _).0 one_hundred))
          | inr given ↦ absurd (ground (arith, given, e))
        ],
      )
    ]
  ]

  complete_response_iff :
      (s : Storage) (status : Text)
      → ((complete_response make_address_v6 s (unsigned_decimal status)).1 ≡ none)
        ↔ IsResponse status s.content_length
  unfolding complete_response
  complete_response_iff s status = elim (Option-cases (unsigned_decimal status)) [
    | inl n ↦ (λ h. absurd (refused s false (rw n at h)), λ h. absurd (ground (arith, h.decimal)))
    | inr (code, e) ↦ (
      λ h. record { code = code; decimal = e; final = (status_iff s code).0 (rw e at h) },
      λ h. rw h.decimal ((status_iff s h.code).1 h.final),
    )
  ]

  validate_kind_iff :
      (kind : HeaderKind) (s : Storage)
      → ((validate_kind make_address_v6 kind s).1 ≡ none) ↔ IsWhole make_address_v6 kind s
  unfolding validate_kind
  validate_kind_iff request s = elim (Bool-cases (complete_request make_address_v6 s)) [
    | inl good ↦ (λ h. (complete_request_iff make_address_v6 s).0 good, λ h. rw good refl)
    | inr bad ↦ (
      λ h. absurd (refused s false (rw bad at h)),
      λ h. absurd (ground (arith, (complete_request_iff make_address_v6 s).1 h)),
    )
  ]
  validate_kind_iff response s = complete_response_iff s (value_of s (codes ":status"))
  validate_kind_iff trailers s = (λ h. tt, λ h. refl)

  finish_error : (x : Storage × Option NetworkError) → (finish make_address_v6 x).1 ≡ x.1
  finish_error (s, none) = refl
  finish_error (s, some e) = refl

  seal_result :
      (s : Storage) (b : Bool)
      → (is_some s.error || s.sealed) ≡ b
      → (seal make_address_v6 s).1
        ≡ (if b then s.error else (validate_kind make_address_v6 s.kind s).1)
  unfolding seal validate_complete
  seal_result s true h =
      ap
        (λ c.
          (if c
            then (s, s.error)
            else finish make_address_v6 (validate_kind make_address_v6 s.kind s)).1)
        h
  seal_result s false h =
      ap
        (λ c.
          (if c
            then (s, s.error)
            else finish make_address_v6 (validate_kind make_address_v6 s.kind s)).1)
        h
      ∙ finish_error (validate_kind make_address_v6 s.kind s)

  -- Whether `seal` returns no error: exactly where the block has no error of before, and is either sealed
  -- already or whole. A request is whole if it is CONNECT with no scheme, no path and an authority
  -- that has a port, or has another method, a scheme and a path, and over http and https also an
  -- authority or a host, and a path from the root or the asterisk of OPTIONS; an authority and a host
  -- that both stand there are the same. A response is whole if its status is a number, and no
  -- informational one with a content length; trailers are always whole.
  pub seal_iff :
      (s : Storage)
      → ((seal make_address_v6 s).1 ≡ none)
        ↔ ((s.error ≡ none) × ((s.sealed ≡ true) ⊎ IsWhole make_address_v6 s.kind s))
  seal_iff s = elim (Option-cases s.error) [
    | inr (x, e) ↦
        let kept = seal_result s true (ground arith) in
        (λ h. absurd (ground (arith, kept)), λ h. absurd (ground arith))
    | inl n ↦ elim (Bool-cases s.sealed) [
      | inl done ↦
          let kept = seal_result s true (ground arith) in (λ h. (n, inl done), λ h. kept ∙ n)
      | inr open_yet ↦
          let checked = seal_result s false (ground arith) in
          let whole = validate_kind_iff s.kind s in
          (
            λ h. (n, inr (whole.0 (sym checked ∙ h))),
            λ h. elim h.1 [ inl done ↦ absurd (ground arith) | inr w ↦ checked ∙ whole.1 w ],
          )
    ]
  ]
