-- ===== src/Http2/Headers/Syntax.antt =====
-- Http2Headers.cpp, the unnamed namespace: the grammar of names, values and authorities.
use hical.Base.{
  ℕ, ◌+◌, ◌-◌, ◌*◌, ◌^◌, Bool, true, false, not, ◌&&◌, ◌||◌, Option, none, some, List, [], ◌∷◌, ltb,
  leb, ◌==◌, if◌then◌else◌, is_some, Text, codes, text_eq, all, find_byte, contains, contains_any,
  is_empty, front, back, drop, take, substr, iequals,
}

abbrev pub http_port : ℕ
http_port = 80

abbrev pub https_port : ℕ
https_port = 443

abbrev pub max_port : ℕ
max_port = 65535

abbrev pub connection_fields : List Text
connection_fields =
    codes "connection"
    ∷ codes "keep-alive"
    ∷ codes "proxy-connection"
    ∷ codes "transfer-encoding"
    ∷ codes "upgrade"
    ∷ []

abbrev pub forbidden_trailers : List Text
forbidden_trailers =
    codes "content-length"
    ∷ codes "host"
    ∷ codes "te"
    ∷ codes "trailer"
    ∷ codes "authorization"
    ∷ codes "proxy-authorization"
    ∷ codes "proxy-authenticate"
    ∷ codes "www-authenticate"
    ∷ codes "cookie"
    ∷ codes "set-cookie"
    ∷ codes "content-encoding"
    ∷ codes "content-type"
    ∷ codes "content-range"
    ∷ codes "content-location"
    ∷ codes "range"
    ∷ codes "expect"
    ∷ codes "max-forwards"
    ∷ codes "cache-control"
    ∷ codes "age"
    ∷ codes "expires"
    ∷ codes "date"
    ∷ codes "location"
    ∷ codes "retry-after"
    ∷ codes "vary"
    ∷ []

abbrev pub alpha : ℕ → Bool
alpha v = (leb b'a' v && leb v b'z') || (leb b'A' v && leb v b'Z')

abbrev pub digit : ℕ → Bool
digit v = leb b'0' v && leb v b'9'

unfoldable pub token_byte : Bool → ℕ → Bool
unfolding contains
token_byte lowercase_only v =
    (alpha v && (not lowercase_only || ltb v b'A' || ltb b'Z' v))
    || digit v
    || contains v (codes "!#$%&'*+-.^_`|~")

unfoldable pub token : Text → Bool → Bool
unfolding all token_byte
token text lowercase_only = not (is_empty text) && all (token_byte lowercase_only) text

abbrev pub value_byte : ℕ → Bool
value_byte b = (leb 0x20 b && not (b == 0x7f)) || b == 9

abbrev blank : ℕ → Bool
blank b = b == 32 || b == 9

unfoldable pub valid_value : Text → Bool
unfolding all
valid_value value =
    if not (is_empty value) && (blank (front value) || blank (back value))
    then false
    else all value_byte value

-- The number that decimal digits write.
unfoldable pub decimal : ℕ → Text → ℕ
decimal n [] = n
decimal n (d ∷ ds) = decimal (n * 10 + (d - b'0')) ds

-- `std::from_chars` into a `uint64_t`, on digits alone: out of range is an error.
from_chars : Text → Option ℕ
unfolding decimal
from_chars value = let n = decimal 0 value in if ltb n (2 ^ 64) then some n else none

unfoldable pub unsigned_decimal : Text → Option ℕ
unfolding all from_chars
unsigned_decimal value =
    if is_empty value || not (all digit value) then none else elim (from_chars value) [
      | none ↦ none
      | some number ↦ if ltb (2 ^ 63 - 1) number then none else some number
    ]

unfoldable pub valid_scheme : Text → Bool
unfolding all
valid_scheme scheme =
    not (is_empty scheme)
    && alpha (front scheme)
    && all (λ v. alpha v || digit v || v == b'+' || v == b'-' || v == b'.') scheme

pub record Authority : Type 0 where
  pub host : Text
  pub port : Option ℕ
  pub ipv6 : Option Text

-- The port behind an authority, which `parseAuthority` reads last.
with_port : Text → Option Text → Option Text → Option Authority
unfolding unsigned_decimal
with_port host ipv6 none = some (record { host = host; port = none; ipv6 = ipv6 })
with_port host ipv6 (some port) = elim (unsigned_decimal port) [
  | none ↦ none
  | some n ↦
      if ltb max_port n then none else some (record { host = host; port = some n; ipv6 = ipv6 })
]

unfoldable pub host_byte : ℕ → Bool
unfolding contains
host_byte b = alpha b || digit b || contains b (codes "!$%&'()*+,-.;=_~")

-- The branch for a name: `separator` is the place of the first colon.
name_authority : Text → Option ℕ → Option Authority
unfolding all host_byte find_byte with_port
name_authority value none =
    if is_empty value || not (all host_byte value) then none else with_port value none none
name_authority value (some separator) =
    let host = take separator value in
    let port = drop (separator + 1) value in
    if is_some (find_byte b':' port) || is_empty host || not (all host_byte host)
    then none
    else with_port host none (some port)

module _ (make_address_v6 : Text → Option Text) where
  -- The branch for `[...]`: `closing` is the place of the first `]`.
  bracket_authority : Text → Option ℕ → Option Authority
  unfolding contains with_port
  bracket_authority value none = none
  bracket_authority value (some closing) =
      let inner = substr 1 (closing - 1) value in
      let host = take (closing + 1) value in
      let rest = drop (closing + 1) value in
      if closing == 1 || contains b'%' inner then none else elim (make_address_v6 inner) [
        | none ↦ none
        | some bytes ↦
            if is_empty rest
            then with_port host (some bytes) none
            else if not (front rest == b':')
            then none
            else with_port host (some bytes) (some (drop (closing + 2) value))
      ]

  unfoldable pub parse_authority : Text → Option Authority
  unfolding contains_any find_byte bracket_authority name_authority
  parse_authority value =
      if is_empty value || contains_any (codes "@/?#\\") value
      then none
      else if front value == b'['
      then bracket_authority value (find_byte b']' value)
      else name_authority value (find_byte b':' value)

abbrev same_port : Option ℕ → Option ℕ → Bool
same_port none none = true
same_port none (some y) = false
same_port (some x) none = false
same_port (some x) (some y) = x == y

abbrev same_bytes : Option Text → Option Text → Bool
same_bytes none none = true
same_bytes none (some y) = false
same_bytes (some x) none = false
same_bytes (some x) (some y) = text_eq x y

abbrev or_port : Option ℕ → Option ℕ → Option ℕ
or_port none other = other
or_port (some port) other = some port

unfoldable pub default_port : Text → Option ℕ
default_port scheme =
    if iequals scheme (codes "https")
    then some https_port
    else if iequals scheme (codes "http")
    then some http_port
    else none

unfoldable pub same_authority : Authority → Authority → Text → Bool
unfolding default_port
same_authority first second scheme =
    if not (same_bytes first.ipv6 second.ipv6)
      || (not (is_some first.ipv6) && not (iequals first.host second.host))
    then false
    else same_port (or_port first.port (default_port scheme))
        (or_port second.port (default_port scheme))
