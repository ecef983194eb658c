-- ===== src/Base/Bits.antt =====
-- Exclusive or on bytes and words, by digits and by bytes.
use Prim.Native.Nat.{ℕ, zero, suc, ◌+◌, ◌*◌, ◌/◌, ◌%◌, ◌≤◌, ◌<◌, bit_xor, differ, bit_xor-bitwise}
use mathlib.Core.Path.{◌≡◌, refl, ap₂, ◌∙◌}
use mathlib.Core.Bool.{Bool, true, ◌&&◌}
use native.Mathlib.Omega.{arith}
use hical.Base.Digits.{digit_step}

-- Over a byte, every value is checked by evaluation.
abbrev pub all_below : ℕ → (ℕ → Bool) → Bool
all_below zero p = true
all_below (suc n) p = p n && all_below n p

pub all_below_sound : (n : ℕ) (p : ℕ → Bool) (x : ℕ) → all_below n p ≡ true → x < n → p x ≡ true
all_below_sound zero p x h lt = absurd (omega arith)
all_below_sound (suc n) p x h lt = ground (arith, all_below_sound n p x)

differ_bit : (d e : ℕ) → d < 2 → e < 2 → (differ d e < 2) × (differ (differ d e) e ≡ d)
differ_bit zero zero p q = (omega arith, refl)
differ_bit zero (suc zero) p q = (omega arith, refl)
differ_bit zero (suc (suc e)) p q = absurd (omega arith)
differ_bit (suc zero) zero p q = (omega arith, refl)
differ_bit (suc zero) (suc zero) p q = (omega arith, refl)
differ_bit (suc zero) (suc (suc e)) p q = absurd (omega arith)
differ_bit (suc (suc d)) e p q = absurd (omega arith)

zero-differ : (e : ℕ) → differ 0 e ≡ e
zero-differ e = refl

digits_left : (b : ℕ) → b ≡ b / 2 * 2 + differ 0 (b % 2)
digits_left b = omega (arith, zero-differ (b % 2))

xor_step : (a b : ℕ) → bit_xor a b ≡ bit_xor (a / 2) (b / 2) * 2 + differ (a % 2) (b % 2)
xor_step = digit_step (λ b. b) differ bit_xor (λ a b. bit_xor-bitwise a b) digits_left

high_digits : (d x : ℕ) → d < 2 → (d + x * 2) / 2 ≡ x
high_digits d x p = omega arith

low_digit : (d x : ℕ) → d < 2 → (d + x * 2) % 2 ≡ d
low_digit d x p = omega arith

pub xor_digit :
    (d e x y : ℕ) → d < 2 → e < 2 → bit_xor (d + x * 2) (e + y * 2) ≡ bit_xor x y * 2 + differ d e
xor_digit d e x y p q =
    xor_step (d + x * 2) (e + y * 2)
    ∙ ap₂ (λ u v. u * 2 + v) (ap₂ bit_xor (high_digits d x p) (high_digits e y q))
        (ap₂ differ (low_digit d x p) (low_digit e y q))

halves : (b : ℕ) → b ≡ b % 2 + b / 2 * 2
halves b = omega arith

-- Twice the same mask gives the value back.
xor_cancel_fuel : (n a b : ℕ) → a ≤ n → b ≤ n → bit_xor (bit_xor a b) b ≡ a
xor_cancel_fuel zero zero zero p q = refl
xor_cancel_fuel zero zero (suc b) p q = absurd (omega arith)
xor_cancel_fuel zero (suc a) b p q = absurd (omega arith)
xor_cancel_fuel (suc n) a b p q =
    ap₂ bit_xor (xor_step a b ∙ omega arith) (halves b)
    ∙ xor_digit (differ (a % 2) (b % 2)) (b % 2) (bit_xor (a / 2) (b / 2)) (b / 2)
        (differ_bit (a % 2) (b % 2) (omega arith) (omega arith)).0 (omega arith)
    ∙ omega (
      arith,
      xor_cancel_fuel n (a / 2) (b / 2) (omega arith) (omega arith),
      (differ_bit (a % 2) (b % 2) (omega arith) (omega arith)).1,
    )

pub xor_cancel : (a b : ℕ) → bit_xor (bit_xor a b) b ≡ a
xor_cancel a b = xor_cancel_fuel (a + b) a b (omega arith) (omega arith)

abbrev Below : ℕ → Type 0
Below m = (a b : ℕ) → a < m → b < m → bit_xor a b < m

Below-one : Below 1
Below-one zero zero p q = omega arith
Below-one zero (suc b) p q = absurd (omega arith)
Below-one (suc a) b p q = absurd (omega arith)

Below-double : (m : ℕ) → Below m → Below (2 * m)
Below-double m h a b p q = omega (
  arith,
  xor_step a b,
  h (a / 2) (b / 2) (omega arith) (omega arith),
  (differ_bit (a % 2) (b % 2) (omega arith) (omega arith)).0,
)

pub xor_byte : (a b : ℕ) → a < 256 → b < 256 → bit_xor a b < 256
xor_byte = Below-double 128 (
    Below-double 64 (
      Below-double 32 (
        Below-double 16
          (Below-double 8 (Below-double 4 (Below-double 2 (Below-double 1 Below-one)))))))

-- The low digits and the high ones are independent.
abbrev Split : ℕ → Type 0
Split m =
    (a b x y : ℕ) → a < m → b < m → bit_xor (a + m * x) (b + m * y) ≡ bit_xor a b + m * bit_xor x y

digits_of : (m a x : ℕ) → a + 2 * m * x ≡ a % 2 + (a / 2 + m * x) * 2
digits_of m a x = omega arith

module _ (m : ℕ) (h : Split m) (a b x y : ℕ) (p : a < 2 * m) (q : b < 2 * m) where
  Split-double : bit_xor (a + 2 * m * x) (b + 2 * m * y) ≡ bit_xor a b + 2 * m * bit_xor x y
  Split-double =
      ap₂ bit_xor (digits_of m a x) (digits_of m b y)
      ∙ xor_digit (a % 2) (b % 2) (a / 2 + m * x) (b / 2 + m * y) (omega arith) (omega arith)
      ∙ omega (arith, h (a / 2) (b / 2) x y (omega arith) (omega arith), xor_step a b)

one_times : (x : ℕ) → 0 + 1 * x ≡ x
one_times x = omega arith

Split-one : Split 1
Split-one zero zero x y p q = ap₂ bit_xor (one_times x) (one_times y) ∙ omega arith
Split-one zero (suc b) x y p q = absurd (omega arith)
Split-one (suc a) b x y p q = absurd (omega arith)

pub xor-Split : Split 256
xor-Split = Split-double 128 (
    Split-double 64 (
      Split-double 32 (
        Split-double 16
          (Split-double 8 (Split-double 4 (Split-double 2 (Split-double 1 Split-one)))))))
