-- ===== src/Http2/Headers/Seal/Whole.antt =====
-- Http2Headers.cpp, `validateComplete`: a whole block, after RFC 9113, sections 8.3 and 8.5.
use hical.Base.{
  ℕ, ◌/◌, ◌%◌, ◌^◌, ◌≡◌, ◌≢◌, ◌⊎◌, true, [], Text, codes, Option, none, some, iequals, front,
  is_some,
}
use hical.Http2.Headers.Syntax.{unsigned_decimal, parse_authority, same_authority, Authority}
use hical.Http2.Headers.Storage.{Storage, HeaderKind, request, response, trailers, value_of}

-- A path from the root, or the asterisk of OPTIONS.
abbrev pub IsTarget : Text → Text → Type 0
IsTarget method path = (front path ≡ b'/') ⊎ ((method ≡ codes "OPTIONS") × (path ≡ codes "*"))

abbrev pub IsWeb : Text → Type 0
IsWeb scheme = (iequals scheme (codes "http") ≡ true) ⊎ (iequals scheme (codes "https") ≡ true)

-- Every other method has a scheme and a path; over http it also has a host and a proper path.
abbrev pub IsOrdinary : Text → Text → Text → Text → Text → Type 0
IsOrdinary method scheme path authority host =
    (method ≢ [])
    × ((method ≢ codes "CONNECT")
        × ((scheme ≢ [])
            × ((path ≢ [])
                × ((IsWeb scheme → ⊥)
                    ⊎ (((authority ≢ []) ⊎ (host ≢ [])) × IsTarget method path)))))

-- A status, which a content length does not follow if it is informational.
pub record IsResponse (status : Text) (content_length : Option ℕ) : Type 0 where
  pub code : ℕ
  pub decimal : unsigned_decimal status ≡ some code
  pub final : ((code % 2 ^ 16) / 100 ≢ 1) ⊎ (content_length ≡ none)

module _ (make_address_v6 : Text → Option Text) where
  -- A text that is an authority with a port.
  pub record HasPort (t : Text) : Type 0 where
    pub authority : Authority
    pub parsed : parse_authority make_address_v6 t ≡ some authority
    pub port : is_some authority.port ≡ true

  -- CONNECT has an authority with a port, no scheme and no path.
  abbrev pub IsConnect : Text → Text → Text → Text → Type 0
  IsConnect method scheme path authority =
      (method ≡ codes "CONNECT")
      × ((scheme ≡ []) × ((path ≡ []) × ((authority ≢ []) × HasPort authority)))

  -- Two texts that are the same authority.
  pub record IsSame (scheme first second : Text) : Type 0 where
    pub one : Authority
    pub other : Authority
    pub first_parsed : parse_authority make_address_v6 first ≡ some one
    pub second_parsed : parse_authority make_address_v6 second ≡ some other
    pub same : same_authority one other scheme ≡ true

  abbrev pub IsRequest : Text → Text → Text → Text → Text → Type 0
  IsRequest method scheme path authority host =
      (IsConnect method scheme path authority ⊎ IsOrdinary method scheme path authority host)
      × ((authority ≡ []) ⊎ ((host ≡ []) ⊎ IsSame scheme authority host))

  abbrev pub IsWhole : HeaderKind → Storage → Type 0
  IsWhole request s =
      IsRequest (value_of s (codes ":method")) (value_of s (codes ":scheme"))
        (value_of s (codes ":path")) (value_of s (codes ":authority")) (value_of s (codes "host"))
  IsWhole response s = IsResponse (value_of s (codes ":status")) s.content_length
  IsWhole trailers s = Unit {0}
