-- ===== src/Routing/Decode/Laws.antt =====
-- urlDecode of src/core/Router.cpp, and percent-encoding.
use hical.Base.{
  not, ℕ, ◌+◌, ◌*◌, ◌-◌, ◌/◌, ◌%◌, ◌≤◌, ◌<◌, ◌≡◌, refl, Bool, true, false, ◌&&◌, ◌||◌, [], ◌∷◌,
  Option, none, some, Text, ltb, ◌==◌, if◌then◌else◌, arith, All, ap, ◌∙◌, inl, inr, Bool-cases,
}
use hical.Routing.Decode.{hex_lookup, hex_pair, url_decode}

-- A hexadecimal digit, in upper case.
abbrev pub hex_digit : ℕ → ℕ
hex_digit n = if ltb n 10 then n + b'0' else n - 10 + b'A'

-- Percent-encoding, of the bytes that a test chooses.
abbrev pub percent_encode : (ℕ → Bool) → Text → Text
percent_encode chosen [] = []
percent_encode chosen (b ∷ bs) =
    if chosen b
    then b'%' ∷ hex_digit (b / 16) ∷ hex_digit (b % 16) ∷ percent_encode chosen bs
    else b ∷ percent_encode chosen bs

hex_lookup-hex_digit : (n : ℕ) → n < 16 → hex_lookup (hex_digit n) ≡ some n
hex_lookup-hex_digit n h = ground arith

hex_pair-hex_digit : (b : ℕ) → b < 256 → hex_pair (hex_digit (b / 16)) (hex_digit (b % 16)) ≡ some b
hex_pair-hex_digit b h =
    pair_of (hex_lookup (hex_digit (b / 16))) (hex_lookup (hex_digit (b % 16))) (b / 16) (b % 16)
      (hex_lookup-hex_digit (b / 16) (omega arith)) (hex_lookup-hex_digit (b % 16) (omega arith))
    ∙ ap some (omega arith)
  where
    pair_of :
        (x y : Option ℕ) (m n : ℕ)
        → x ≡ some m
        → y ≡ some n
        → elim x as (λ _. Option ℕ) [
          | none ↦ none
          | some h ↦ elim y as (λ _. Option ℕ) [ none ↦ none | some l ↦ some (h * 16 + l) ]
        ]
          ≡ some (m * 16 + n)
    pair_of x y m n p q = ground (arith, p, q)

decode_plain :
    (b : ℕ) (t : Text)
    → (b == b'%') ≡ false
    → (b == b'+') ≡ false
    → url_decode (b ∷ t) ≡ b ∷ url_decode t
unfolding url_decode
decode_plain b [] p q = ground arith
decode_plain b (c ∷ []) p q = ground arith
decode_plain b (c ∷ d ∷ t) p q = ground arith

decode_pair :
    (b x y : ℕ) (t : Text)
    → hex_pair x y ≡ some b
    → (b == 0) ≡ false
    → url_decode (b'%' ∷ x ∷ y ∷ t) ≡ b ∷ url_decode t
unfolding url_decode
decode_pair b x y t h n =
    ap
      (λ o. elim o as (λ _. Text) [
        | none ↦ b'%' ∷ url_decode (x ∷ y ∷ t)
        | some byte ↦ if byte == 0 then url_decode t else byte ∷ url_decode t
      ])
      h
    ∙ ap (λ c. if c then url_decode t else b ∷ url_decode t) n

-- A byte that is not 0, which is written as itself only where it is neither a percent nor a plus.
abbrev pub IsEncodable : (ℕ → Bool) → ℕ → Type 0
IsEncodable chosen b =
    (1 ≤ b) × (b < 256) × ((chosen b || (not (b == b'%') && not (b == b'+'))) ≡ true)

plain : (c p q : Bool) → c ≡ false → (c || (not p && not q)) ≡ true → (p ≡ false) × (q ≡ false)
plain true p q e h = absurd (ground arith)
plain false true q e h = absurd (ground arith)
plain false false true e h = absurd (ground arith)
plain false false false e h = (refl, refl)

positive : (b : ℕ) → 1 ≤ b → (b == 0) ≡ false
positive b h = ground arith

-- Percent-encoding any choice of bytes that has each percent and each plus is undone, in a text
-- without the byte 0.
pub url_decode-percent_encode :
    (chosen : ℕ → Bool) (t : Text)
    → All (IsEncodable chosen) t
    → url_decode (percent_encode chosen t) ≡ t
unfolding url_decode
url_decode-percent_encode chosen [] h = refl
url_decode-percent_encode chosen (b ∷ bs) h = elim (Bool-cases (chosen b)) [
  | inl e ↦
      ap
        (λ c. url_decode (
          if c
          then b'%' ∷ hex_digit (b / 16) ∷ hex_digit (b % 16) ∷ percent_encode chosen bs
          else b ∷ percent_encode chosen bs))
        e
      ∙ decode_pair b (hex_digit (b / 16)) (hex_digit (b % 16)) (percent_encode chosen bs)
          (hex_pair-hex_digit b h.0.1) (positive b h.0.0)
      ∙ ap (◌∷◌ b) (url_decode-percent_encode chosen bs h.1)
  | inr e ↦
      ap
        (λ c. url_decode (
          if c
          then b'%' ∷ hex_digit (b / 16) ∷ hex_digit (b % 16) ∷ percent_encode chosen bs
          else b ∷ percent_encode chosen bs))
        e
      ∙ decode_plain b (percent_encode chosen bs)
          (plain (chosen b) (b == b'%') (b == b'+') e h.0.2).0
          (plain (chosen b) (b == b'%') (b == b'+') e h.0.2).1
      ∙ ap (◌∷◌ b) (url_decode-percent_encode chosen bs h.1)
]
