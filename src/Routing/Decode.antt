-- ===== src/Routing/Decode.antt =====
-- urlDecode of src/core/Router.cpp, and the scan of the path at the head of resolveRoute.
use hical.Base.{
  ℕ, zero, suc, ◌+◌, ◌-◌, ◌*◌, ◌≡◌, refl, Bool, true, false, not, ◌&&◌, ◌||◌, List, [], ◌∷◌, ◌++◌,
  Option, none, some, Text, text_eq, length, leb, ltb, ◌==◌, if◌then◌else◌, is_empty, starts_with,
  bit_and, bit_or, is_some, get_elem?,
}
pub mod Laws

-- hexLookup: none is 0xFF.
abbrev pub hex_lookup : ℕ → Option ℕ
hex_lookup c =
    if leb b'0' c && leb c b'9'
    then some (c - b'0')
    else if leb b'A' c && leb c b'F'
    then some (c - b'A' + 10)
    else if leb b'a' c && leb c b'f'
    then some (c - b'a' + 10)
    else none

-- The byte of two digits.
abbrev pub hex_pair : ℕ → ℕ → Option ℕ
hex_pair hi lo = elim (hex_lookup hi) [
  | none ↦ none
  | some h ↦ elim (hex_lookup lo) [ none ↦ none | some l ↦ some (h * 16 + l) ]
]

unfoldable pub url_decode : Text → Text
url_decode [] = []
url_decode (c ∷ []) = (if c == b'+' then b' ' else c) ∷ []
url_decode (c ∷ d ∷ []) = (if c == b'+' then b' ' else c) ∷ url_decode (d ∷ [])
url_decode (c ∷ d ∷ e ∷ rest) =
    let decoded = url_decode rest in
    let copied = url_decode (d ∷ e ∷ rest) in
    if c == b'%'
    then elim (hex_pair d e) [
      | none ↦ c ∷ copied
      | some byte ↦ if byte == 0 then decoded else byte ∷ decoded
    ]
    else (if c == b'+' then b' ' else c) ∷ copied

unfoldable pub needs_decode : Text → Bool
needs_decode [] = false
needs_decode (c ∷ cs) = c == b'%' || c == b'+' || needs_decode cs

-- The slashes of a path.
unfoldable pub slashes : Text → ℕ
slashes [] = 0
slashes (c ∷ cs) = if c == b'/' then suc (slashes cs) else slashes cs

unfoldable pub request_path : Text → Text
unfolding needs_decode url_decode
request_path raw = if needs_decode raw then url_decode raw else raw
