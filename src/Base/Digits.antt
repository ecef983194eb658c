-- ===== src/Base/Digits.antt =====
-- Binary digits of a mask: what `&` and `|` do to each of them.
use Prim.Native.Nat.{
  ℕ, zero, suc, ◌+◌, ◌*◌, ◌/◌, ◌%◌, ◌^◌, ◌≤◌, min, max, bit_and, bit_or, digits, bit_and-bitwise,
  bit_or-bitwise,
}
use mathlib.Core.Path.{◌≡◌, refl, sym, ap, ◌∙◌}
use mathlib.Core.Bool.{Bool, false, not, ◌&&◌, ◌||◌}
use native.Mathlib.Omega.{arith}
use hical.Base.Tests.{◌==◌}

-- The digit of weight 2 ^ k.
abbrev pub digit : ℕ → ℕ → Bool
digit zero a = a % 2 == 1
digit (suc k) a = digit k (a / 2)

-- An operation digit by digit, lowest first: `z` is the result on what the second number has left.
module _ (z : ℕ → ℕ) (f : ℕ → ℕ → ℕ) where
  more_digits :
      (b spare count a : ℕ) → a ≤ spare → a ≤ count → digits z f spare a b ≡ digits z f count a b
  more_digits b zero count (suc a) p q = absurd (omega arith)
  more_digits b (suc spare) zero (suc a) p q = absurd (omega arith)
  more_digits b zero zero zero p q = refl
  more_digits b zero (suc count) zero p q = refl
  more_digits b (suc spare) zero zero p q = refl
  more_digits b (suc spare) (suc count) zero p q = refl
  more_digits b (suc spare) (suc count) (suc a) p q =
      ap (λ high. high * 2 + f (suc a % 2) (b % 2))
        (more_digits (b / 2) spare count (suc a / 2) (omega arith) (omega arith))

  -- The lowest digit of the result comes from the lowest digits.
  pub digit_step :
      (op : ℕ → ℕ → ℕ)
      → ((a b : ℕ) → op a b ≡ digits z f a a b)
      → ((b : ℕ) → z b ≡ z (b / 2) * 2 + f 0 (b % 2))
      → (a b : ℕ) → op a b ≡ op (a / 2) (b / 2) * 2 + f (a % 2) (b % 2)
  digit_step op by_digits ends zero b =
      by_digits 0 b ∙ ends b ∙ ap (λ high. high * 2 + f 0 (b % 2)) (sym (by_digits 0 (b / 2)))
  digit_step op by_digits ends (suc a) b =
      by_digits (suc a) b
      ∙ ap (λ high. high * 2 + f (suc a % 2) (b % 2))
          (more_digits (b / 2) a (suc a / 2) (suc a / 2) (omega arith) (omega arith)
            ∙ sym (by_digits (suc a / 2) (b / 2)))

no_digit_left : (b : ℕ) → 0 ≡ 0 * 2 + min 0 (b % 2)
no_digit_left b = omega arith

and_step : (a b : ℕ) → bit_and a b ≡ bit_and (a / 2) (b / 2) * 2 + min (a % 2) (b % 2)
and_step = digit_step (λ _. 0) min bit_and (λ a b. bit_and-bitwise a b) no_digit_left

all_digits_left : (b : ℕ) → b ≡ b / 2 * 2 + max 0 (b % 2)
all_digits_left b = omega arith

or_step : (a b : ℕ) → bit_or a b ≡ bit_or (a / 2) (b / 2) * 2 + max (a % 2) (b % 2)
or_step = digit_step (λ b. b) max bit_or (λ a b. bit_or-bitwise a b) all_digits_left

pub digit-bit_and : (k a b : ℕ) → digit k (bit_and a b) ≡ (digit k a && digit k b)
digit-bit_and zero a b = ground (arith, and_step a b)
digit-bit_and (suc k) a b =
    ap (digit k) {y = bit_and (a / 2) (b / 2)} (omega (arith, and_step a b))
    ∙ digit-bit_and k (a / 2) (b / 2)

pub digit-bit_or : (k a b : ℕ) → digit k (bit_or a b) ≡ (digit k a || digit k b)
digit-bit_or zero a b = ground (arith, or_step a b)
digit-bit_or (suc k) a b =
    ap (digit k) {y = bit_or (a / 2) (b / 2)} (omega (arith, or_step a b))
    ∙ digit-bit_or k (a / 2) (b / 2)

pub zero-digit : (k : ℕ) → digit k 0 ≡ false
zero-digit zero = refl
zero-digit (suc k) = zero-digit k

pub digit-pow : (k j : ℕ) → digit k (2 ^ j) ≡ (k == j)
digit-pow zero zero = refl
digit-pow zero (suc j) = ground arith
digit-pow (suc k) zero = zero-digit k ∙ ground arith
digit-pow (suc k) (suc j) = ap (digit k) {y = 2 ^ j} (omega arith) ∙ digit-pow k j ∙ ground arith

and-nothing : (most a : ℕ) → a ≤ most → bit_and a 0 ≡ 0
and-nothing most zero h = refl
and-nothing zero (suc a) h = absurd (omega arith)
and-nothing (suc most) (suc a) h =
    omega (arith, and-nothing most (suc a / 2) (omega arith), and_step (suc a) 0)

-- A test of one bit of a mask.
pub bit_and-pow : (k a : ℕ) → (bit_and a (2 ^ k) == 0) ≡ not (digit k a)
bit_and-pow zero a = ground (arith, and_step a 1, and-nothing (a / 2) (a / 2) (omega arith))
bit_and-pow (suc k) a = ground (
  arith,
  ap (λ x. bit_and (a / 2) x) {x = 2 ^ suc k / 2} {y = 2 ^ k} (omega arith),
  and_step a (2 ^ suc k),
  bit_and-pow k (a / 2),
)
