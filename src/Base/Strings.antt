-- ===== src/Base/Strings.antt =====
-- Byte strings: `std::string` and `std::string_view` as lists of bytes.
use Prim.Native.Nat.{ℕ, zero, suc, ◌+◌, ◌≤◌}
use Prim.Native.Char.{code}
use Prim.Native.String.{String}
use mathlib.Core.Path.{◌≡◌, refl, ap}
use mathlib.Core.Bool.{Bool, true, false, ◌&&◌, ◌||◌}
use mathlib.Core.List.{List, [], ◌∷◌, ◌++◌}
use mathlib.Core.Option.{Option, none, some}
use native.Mathlib.Omega.{arith}
use hical.Base.Tests.{leb, ◌==◌, if◌then◌else◌}
use hical.Base.Lists.{length, take, drop}

abbrev pub Text : Type 0
Text = List ℕ

-- The bytes of an ASCII literal.
abbrev pub codes : String → Text
codes String.[] = []
codes (String.◌∷◌ c s) = code c ∷ codes s

unfoldable pub text_eq : Text → Text → Bool
text_eq [] [] = true
text_eq [] (y ∷ ys) = false
text_eq (x ∷ xs) [] = false
text_eq (x ∷ xs) (y ∷ ys) = x == y && text_eq xs ys

pub text_eq_sound : (xs ys : Text) → text_eq xs ys ≡ true → xs ≡ ys
unfolding text_eq
text_eq_sound [] [] h = refl
text_eq_sound [] (y ∷ ys) h = cc
text_eq_sound (x ∷ xs) [] h = cc
text_eq_sound (x ∷ xs) (y ∷ ys) h = ground (arith, text_eq_sound xs ys)

pub text_eq_refl : (xs : Text) → text_eq xs xs ≡ true
unfolding text_eq
text_eq_refl [] = refl
text_eq_refl (x ∷ xs) = ground (arith, text_eq_refl xs)

-- `std::ranges::all_of`
unfoldable pub all : (ℕ → Bool) → Text → Bool
all p [] = true
all p (x ∷ xs) = p x && all p xs

-- `find(byte)`: the first index, if any.
unfoldable pub find_byte : ℕ → Text → Option ℕ
find_byte b [] = none
find_byte b (x ∷ xs) =
    let rest = find_byte b xs in
    if x == b then some 0 else elim rest [ none ↦ none | some i ↦ some (i + 1) ]

unfoldable pub contains : ℕ → Text → Bool
contains b [] = false
contains b (x ∷ xs) = x == b || contains b xs

-- `find_first_of(set) != npos`
unfoldable pub contains_any : Text → Text → Bool
unfolding contains
contains_any set [] = false
contains_any set (x ∷ xs) = contains x set || contains_any set xs

unfoldable pub starts_with : Text → Text → Bool
starts_with [] ys = true
starts_with (x ∷ xs) [] = false
starts_with (x ∷ xs) (y ∷ ys) = x == y && starts_with xs ys

-- Whether a text is one of a list.
unfoldable pub one_of : Text → List Text → Bool
unfolding text_eq
one_of t [] = false
one_of t (x ∷ xs) = text_eq x t || one_of t xs

abbrev pub is_empty : Text → Bool
is_empty [] = true
is_empty (x ∷ xs) = false

-- `front()` and `back()`, which are read only where the text is not empty.
abbrev pub front : Text → ℕ
front [] = 0
front (x ∷ xs) = x

abbrev pub back : Text → ℕ
back [] = 0
back (x ∷ []) = x
back (x ∷ y ∷ ys) = back (y ∷ ys)

-- `substr(position, count)`
abbrev pub substr : ℕ → ℕ → Text → Text
substr position count t = take count (drop position t)

abbrev pub to_lower : ℕ → ℕ
to_lower c = if leb b'A' c && leb c b'Z' then c + 32 else c

-- `HeaderMap::iequals`
unfoldable pub iequals : Text → Text → Bool
iequals [] [] = true
iequals [] (y ∷ ys) = false
iequals (x ∷ xs) [] = false
iequals (x ∷ xs) (y ∷ ys) = to_lower x == to_lower y && iequals xs ys

pub iequals_refl : (xs : Text) → iequals xs xs ≡ true
unfolding iequals
iequals_refl [] = refl
iequals_refl (x ∷ xs) = ground (arith, iequals_refl xs)

-- A piece that was appended is read back; what stood before stays where it was.
pub drop-append : (xs ys : Text) → drop (length xs) (xs ++ ys) ≡ ys
drop-append [] ys = refl
drop-append (x ∷ xs) ys = drop-append xs ys

pub take-append : (xs ys : Text) → take (length xs) (xs ++ ys) ≡ xs
take-append [] ys = refl
take-append (x ∷ xs) ys = ap (◌∷◌ x) (take-append xs ys)

take-append_of_le : (n : ℕ) (xs ys : Text) → n ≤ length xs → take n (xs ++ ys) ≡ take n xs
take-append_of_le zero xs ys h = refl
take-append_of_le (suc n) [] ys h = absurd (omega arith)
take-append_of_le (suc n) (x ∷ xs) ys h = ap (◌∷◌ x) (take-append_of_le n xs ys (omega arith))

pub substr-append_of_le :
    (position count : ℕ) (xs ys : Text)
    → position + count ≤ length xs
    → substr position count (xs ++ ys) ≡ substr position count xs
substr-append_of_le zero count xs ys h = take-append_of_le count xs ys (omega arith)
substr-append_of_le (suc position) zero [] ys h = absurd (omega arith)
substr-append_of_le (suc position) (suc count) [] ys h = absurd (omega arith)
substr-append_of_le (suc position) count (x ∷ xs) ys h =
    substr-append_of_le position count xs ys (omega arith)
