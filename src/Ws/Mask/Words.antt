-- ===== src/Ws/Mask/Words.antt =====
-- The word path of unmaskPayload in src/core/WsFrame.h, against the byte loop.
use hical.Base.{
  ℕ, zero, suc, ◌+◌, ◌*◌, ◌%◌, ◌<◌, bit_xor, ◌≡◌, refl, sym, ap, ap₂, ◌∙◌, [], ◌∷◌, ◌++◌, some,
  Text, get_elem?, arith, xor_byte, xor_cancel, xor-Split,
}
use hical.Ws.Mask.{
  MaskKey, key_at, IsByte, IsBytes, IsKey, load32, store32, unmask_tail, unmask_words,
}

-- A word is masked as its four bytes are.
xor-load32 :
    (a b c d : ℕ) (k : MaskKey)
    → IsByte a
    → IsByte b
    → IsByte c
    → IsByte d
    → IsKey k
    → bit_xor (load32 a b c d) (load32 k.k0 k.k1 k.k2 k.k3)
      ≡ load32 (bit_xor a k.k0) (bit_xor b k.k1) (bit_xor c k.k2) (bit_xor d k.k3)
xor-load32 a b c d k p q r s t = omega (
  arith,
  xor-Split a k.k0 (b + 256 * (c + 256 * d)) (k.k1 + 256 * (k.k2 + 256 * k.k3)) p t.byte0,
  xor-Split b k.k1 (c + 256 * d) (k.k2 + 256 * k.k3) q t.byte1,
  xor-Split c k.k2 d k.k3 r t.byte2,
)

store32-load32 :
    (a b c d : ℕ)
    → IsByte a
    → IsByte b
    → IsByte c
    → IsByte d
    → store32 (load32 a b c d) ≡ a ∷ b ∷ c ∷ d ∷ []
store32-load32 a b c d p q r s = ground arith

key_at-IsByte : (key : MaskKey) (i : ℕ) → IsKey key → IsByte (key_at key i)
key_at-IsByte key zero k = k.byte0
key_at-IsByte key (suc zero) k = k.byte1
key_at-IsByte key (suc (suc zero)) k = k.byte2
key_at-IsByte key (suc (suc (suc i))) k = k.byte3

store32-xor :
    (a b c d : ℕ) (k : MaskKey)
    → IsByte a
    → IsByte b
    → IsByte c
    → IsByte d
    → IsKey k
    → store32 (bit_xor (load32 a b c d) (load32 k.k0 k.k1 k.k2 k.k3))
      ≡ bit_xor a k.k0 ∷ bit_xor b k.k1 ∷ bit_xor c k.k2 ∷ bit_xor d k.k3 ∷ []
store32-xor a b c d k p q r s t =
    ap store32 (xor-load32 a b c d k p q r s t)
    ∙ store32-load32 (bit_xor a k.k0) (bit_xor b k.k1) (bit_xor c k.k2) (bit_xor d k.k3)
        (xor_byte a k.k0 p t.byte0) (xor_byte b k.k1 q t.byte1) (xor_byte c k.k2 r t.byte2)
        (xor_byte d k.k3 s t.byte3)

four_more : (i : ℕ) → i + 1 + 1 + 1 + 1 ≡ i + 4
four_more i = omega arith

at_four : (i j c d : ℕ) → i ≡ j * 4 → d < 4 → c ≡ i + d → c % 4 ≡ d
at_four i j c d e p q = omega arith

masked_cons :
    (key : MaskKey) (x n m : ℕ)
    → n ≡ m
    → {xs ys : Text} → xs ≡ ys
    → bit_xor x (key_at key n) ∷ xs ≡ bit_xor x (key_at key m) ∷ ys
masked_cons key x n m p q = ap₂ (λ z zs. bit_xor x (key_at key z) ∷ zs) p q

unmask_tail_four :
    (key : MaskKey) (i j a b c d : ℕ) (rest : Text)
    → i ≡ j * 4
    → unmask_tail key i (a ∷ b ∷ c ∷ d ∷ rest)
      ≡ bit_xor a key.k0
        ∷ bit_xor b key.k1
        ∷ bit_xor c key.k2
        ∷ bit_xor d key.k3
        ∷ unmask_tail key (i + 4) rest
unfolding unmask_tail
unmask_tail_four key i j a b c d rest e =
    masked_cons key a (i % 4) 0 (at_four i j i 0 e (omega arith) (omega arith)) (
      masked_cons key b ((i + 1) % 4) 1 (at_four i j (i + 1) 1 e (omega arith) (omega arith)) (
        masked_cons key c ((i + 1 + 1) % 4) 2
          (at_four i j (i + 1 + 1) 2 e (omega arith) (omega arith))
          (masked_cons key d ((i + 1 + 1 + 1) % 4) 3
            (at_four i j (i + 1 + 1 + 1) 3 e (omega arith) (omega arith))
            (ap (λ n. unmask_tail key n rest) (four_more i)))))

-- At a multiple of four, `i % 4` runs through the key in order.
pub unmask_words-unmask_tail :
    (key : MaskKey) (i j : ℕ) (xs : Text)
    → i ≡ j * 4
    → IsKey key
    → IsBytes xs
    → unmask_words key (load32 key.k0 key.k1 key.k2 key.k3) i xs ≡ unmask_tail key i xs
unfolding unmask_words unmask_tail
unmask_words-unmask_tail key i j [] e k h = refl
unmask_words-unmask_tail key i j (a ∷ []) e k h = refl
unmask_words-unmask_tail key i j (a ∷ b ∷ []) e k h = refl
unmask_words-unmask_tail key i j (a ∷ b ∷ c ∷ []) e k h = refl
unmask_words-unmask_tail key i j (a ∷ b ∷ c ∷ d ∷ rest) e k (p, (q, (r, (s, h)))) =
    ap₂ ◌++◌ (store32-xor a b c d key p q r s k)
      (unmask_words-unmask_tail key (i + 4) (suc j) rest (omega arith) k h)
    ∙ sym (unmask_tail_four key i j a b c d rest e)

some-injective : {a b : ℕ} → some a ≡ some b → a ≡ b
some-injective h = cc

plus_zero : (i : ℕ) → i ≡ i + 0
plus_zero i = omega arith

plus_one : (i n : ℕ) → i + 1 + n ≡ i + suc n
plus_one i n = omega arith

pub unmask_tail-get :
    (key : MaskKey) (i : ℕ) (xs : Text) (n b : ℕ)
    → get_elem? xs n ≡ some b
    → get_elem? (unmask_tail key i xs) n ≡ some (bit_xor b (key_at key ((i + n) % 4)))
unfolding unmask_tail
unmask_tail-get key i [] n b h = cc
unmask_tail-get key i (x ∷ xs) zero b h =
    ap₂ (λ y m. some (bit_xor y (key_at key (m % 4)))) (some-injective h) (plus_zero i)
unmask_tail-get key i (x ∷ xs) (suc n) b h =
    unmask_tail-get key (i + 1) xs n b h
    ∙ ap (λ m. some (bit_xor b (key_at key (m % 4)))) (plus_one i n)

pub unmask_tail-unmask_tail :
    (key : MaskKey) (i : ℕ) (xs : Text) → unmask_tail key i (unmask_tail key i xs) ≡ xs
unfolding unmask_tail
unmask_tail-unmask_tail key i [] = refl
unmask_tail-unmask_tail key i (x ∷ xs) =
    ap₂ (λ y ys. y ∷ ys) (xor_cancel x (key_at key (i % 4)))
      (unmask_tail-unmask_tail key (i + 1) xs)

pub unmask_tail-IsBytes :
    (key : MaskKey) (i : ℕ) (xs : Text) → IsKey key → IsBytes xs → IsBytes (unmask_tail key i xs)
unfolding unmask_tail
unmask_tail-IsBytes key i [] k h = h
unmask_tail-IsBytes key i (x ∷ xs) k (p, h) = (
  xor_byte x (key_at key (i % 4)) p (key_at-IsByte key (i % 4) k),
  unmask_tail-IsBytes key (i + 1) xs k h,
)
