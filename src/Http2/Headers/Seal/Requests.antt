-- ===== src/Http2/Headers/Seal/Requests.antt =====
-- Http2Headers.cpp, `validateComplete`: the conditions on a request.
use hical.Base.{
  iff_refl, and_iff, or_iff, not_iff, subst, ◌≡◌, ◌↔◌, inl, inr, refl, ◌∙◌, sym, Bool, true, false,
  not, ◌&&◌, ◌||◌, [], ◌∷◌, arith, Text, codes, Option-cases, Option, is_empty, text_eq,
  text_eq_sound, text_eq_refl, iequals, front, ◌==◌, ==_iff,
}
use hical.Http2.Headers.Syntax.{parse_authority}
use hical.Http2.Headers.Storage.{Storage, value_of}
use hical.Http2.Headers.Seal.{complete_request, agree, authority_port}
use hical.Http2.Headers.Seal.Whole.{HasPort, IsConnect, IsTarget, IsOrdinary, IsSame, IsRequest}

-- The conditions of the code, sorted by the method: `c` says that it is CONNECT.
sorted :
    (em c es ep ea eh w slash star port ag : Bool)
    → (c && em) ≡ false
    → (not (em || (c && (ea || not es || not ep)) || (not c && (es || ep)))
        && not (not c && w && ((ea && eh) || (not slash && not star)))
        && not (c && not port)
        && not (not ea && not eh && not ag))
      ≡ (((c && (es && (ep && (not ea && port))))
            || (not em
                && (not c
                    && (not es && (not ep && (not w || ((not ea || not eh) && (slash || star))))))))
          && (ea || (eh || ag)))
sorted em true es ep ea eh w slash star port ag h = ground arith
sorted em false es ep ea eh w slash star port ag h = ground arith

empty_iff : (t : Text) → (is_empty t ≡ true) ↔ (t ≡ [])
empty_iff [] = (λ h. refl, λ h. refl)
empty_iff (x ∷ xs) = (λ h. absurd (ground arith), λ h. absurd (ground arith))

equal_iff : (t u : Text) → (text_eq t u ≡ true) ↔ (t ≡ u)
equal_iff t u = (text_eq_sound t u, λ h. subst (λ x. text_eq t x ≡ true) h (text_eq_refl t))

module _ (make_address_v6 : Text → Option Text) where
  port_iff :
      (t : Text)
      → (authority_port make_address_v6 (parse_authority make_address_v6 t) ≡ true)
        ↔ HasPort make_address_v6 t
  port_iff t = elim (Option-cases (parse_authority make_address_v6 t)) [
    | inl n ↦ (λ h. absurd (ground arith), λ h. absurd (ground (arith, h.parsed)))
    | inr (a, e) ↦ (
      λ h. record { authority = a; parsed = e; port = ground arith },
      λ h. ground (arith, h.parsed, h.port),
    )
  ]

  IsSame-iff :
      (scheme first second : Text)
      → (agree make_address_v6
            (parse_authority make_address_v6 first)
            (parse_authority make_address_v6 second)
            scheme
          ≡ true)
        ↔ IsSame make_address_v6 scheme first second
  IsSame-iff scheme first second = elim (Option-cases (parse_authority make_address_v6 first)) [
    | inl n ↦ (λ h. absurd (ground arith), λ h. absurd (ground (arith, h.first_parsed)))
    | inr (a, e) ↦ elim (Option-cases (parse_authority make_address_v6 second)) [
      | inl n ↦ (λ h. absurd (ground arith), λ h. absurd (ground (arith, h.second_parsed)))
      | inr (b, f) ↦ (
        λ h. record {
          one = a;
          other = b;
          first_parsed = e;
          second_parsed = f;
          same = ground arith;
        },
        λ h. ground (arith, h.first_parsed, h.second_parsed, h.same),
      )
    ]
  ]

  IsConnect-iff :
      (method scheme path authority : Text)
      → ((text_eq method (codes "CONNECT")
            && (is_empty scheme
                && (is_empty path
                    && (not (is_empty authority)
                        && authority_port make_address_v6
                            (parse_authority make_address_v6 authority)))))
          ≡ true)
        ↔ IsConnect make_address_v6 method scheme path authority
  IsConnect-iff method scheme path authority = and_iff _ _ (equal_iff method (codes "CONNECT")) (
      and_iff _ _ (empty_iff scheme) (
        and_iff _ _ (empty_iff path)
          (and_iff _ _ (not_iff _ (empty_iff authority)) (port_iff authority))))

  IsTarget-iff :
      (method path : Text)
      → (((front path == b'/') || (text_eq method (codes "OPTIONS") && text_eq path (codes "*")))
          ≡ true)
        ↔ IsTarget method path
  IsTarget-iff method path =
      or_iff _ _ (==_iff _ _)
        (and_iff _ _ (equal_iff method (codes "OPTIONS")) (equal_iff path (codes "*")))

  IsOrdinary-iff :
      (method scheme path authority host : Text)
      → ((not (is_empty method)
            && (not (text_eq method (codes "CONNECT"))
                && (not (is_empty scheme)
                    && (not (is_empty path)
                        && (not (iequals scheme (codes "http") || iequals scheme (codes "https"))
                            || ((not (is_empty authority) || not (is_empty host))
                                && ((front path == b'/')
                                    || (text_eq method (codes "OPTIONS")
                                        && text_eq path (codes "*")))))))))
          ≡ true)
        ↔ IsOrdinary method scheme path authority host
  IsOrdinary-iff method scheme path authority host = and_iff _ _ (not_iff _ (empty_iff method)) (
      and_iff _ _ (not_iff _ (equal_iff method (codes "CONNECT"))) (
        and_iff _ _ (not_iff _ (empty_iff scheme)) (
          and_iff _ _ (not_iff _ (empty_iff path)) (
            or_iff _ _
              (not_iff _ (
                or_iff (iequals scheme (codes "http")) (iequals scheme (codes "https")) iff_refl
                  iff_refl))
              (and_iff _ _
                (or_iff _ _ (not_iff _ (empty_iff authority)) (not_iff _ (empty_iff host)))
                (IsTarget-iff method path))))))

  -- CONNECT is no empty text.
  named : (method : Text) → (text_eq method (codes "CONNECT") && is_empty method) ≡ false
  unfolding text_eq
  named [] = refl
  named (x ∷ xs) = ground arith

  pub complete_request_iff :
      (s : Storage)
      → (complete_request make_address_v6 s ≡ true)
        ↔ IsRequest make_address_v6
            (value_of s (codes ":method"))
            (value_of s (codes ":scheme"))
            (value_of s (codes ":path"))
            (value_of s (codes ":authority"))
            (value_of s (codes "host"))
  unfolding complete_request
  complete_request_iff s =
      let method = value_of s (codes ":method") in
      let scheme = value_of s (codes ":scheme") in
      let path = value_of s (codes ":path") in
      let authority = value_of s (codes ":authority") in
      let host = value_of s (codes "host") in
      let same =
        sorted (is_empty method) (text_eq method (codes "CONNECT")) (is_empty scheme)
          (is_empty path) (is_empty authority) (is_empty host)
          (iequals scheme (codes "http") || iequals scheme (codes "https")) (front path == b'/')
          (text_eq method (codes "OPTIONS") && text_eq path (codes "*"))
          (authority_port make_address_v6 (parse_authority make_address_v6 authority))
          (agree make_address_v6 (parse_authority make_address_v6 authority)
            (parse_authority make_address_v6 host) scheme)
          (named method) in
      let reads =
        and_iff _ _
          (or_iff _ _ (IsConnect-iff method scheme path authority)
            (IsOrdinary-iff method scheme path authority host))
          (or_iff _ _ (empty_iff authority)
            (or_iff _ _ (empty_iff host) (IsSame-iff scheme authority host))) in
      (λ h. reads.0 (sym same ∙ h), λ h. same ∙ reads.1 h)
