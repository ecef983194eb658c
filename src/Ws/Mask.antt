-- ===== src/Ws/Mask.antt =====
-- src/core/WsFrame.h: unmaskPayload, the XOR mask of a frame's payload. It is the fast path of the
-- code: whole words of four bytes, then the rest byte by byte.
use hical.Base.{ℕ, zero, suc, ◌+◌, ◌*◌, ◌/◌, ◌%◌, ◌<◌, bit_xor, [], ◌∷◌, ◌++◌, Text, All}
pub mod Words
pub mod Laws

-- `uint8_t maskKey[4]`
pub record MaskKey : Type 0 where
  pub k0 : ℕ
  pub k1 : ℕ
  pub k2 : ℕ
  pub k3 : ℕ

-- `maskKey[i]`, for i below four
abbrev pub key_at : MaskKey → ℕ → ℕ
key_at k zero = k.k0
key_at k (suc zero) = k.k1
key_at k (suc (suc zero)) = k.k2
key_at k (suc (suc (suc i))) = k.k3

abbrev pub IsByte : ℕ → Type 0
IsByte b = b < 256

abbrev pub IsBytes : Text → Type 0
IsBytes = All IsByte

pub record IsKey (k : MaskKey) : Type 0 where
  pub byte0 : IsByte k.k0
  pub byte1 : IsByte k.k1
  pub byte2 : IsByte k.k2
  pub byte3 : IsByte k.k3

-- `memcpy` of four bytes into a `uint32_t`, the lowest first, as the targets store it.
abbrev pub load32 : ℕ → ℕ → ℕ → ℕ → ℕ
load32 a b c d = a + 256 * (b + 256 * (c + 256 * d))

-- `memcpy` of a `uint32_t` over four bytes
abbrev pub store32 : ℕ → Text
store32 w = w % 256 ∷ w / 256 % 256 ∷ w / 65536 % 256 ∷ w / 16777216 % 256 ∷ []

-- The tail loop: `data[i] ^= maskKey[i % 4]`.
unfoldable pub unmask_tail : MaskKey → ℕ → Text → Text
unmask_tail key i [] = []
unmask_tail key i (x ∷ xs) = bit_xor x (key_at key (i % 4)) ∷ unmask_tail key (i + 1) xs

-- The fast path, while `i + 4 <= size`: the list is what stands from i on.
unfoldable pub unmask_words : MaskKey → ℕ → ℕ → Text → Text
unfolding unmask_tail
unmask_words key mask i [] = unmask_tail key i []
unmask_words key mask i (a ∷ []) = unmask_tail key i (a ∷ [])
unmask_words key mask i (a ∷ b ∷ []) = unmask_tail key i (a ∷ b ∷ [])
unmask_words key mask i (a ∷ b ∷ c ∷ []) = unmask_tail key i (a ∷ b ∷ c ∷ [])
unmask_words key mask i (a ∷ b ∷ c ∷ d ∷ rest) =
    store32 (bit_xor (load32 a b c d) mask) ++ unmask_words key mask (i + 4) rest

unfoldable pub unmask_payload : Text → MaskKey → Text
unfolding unmask_words
unmask_payload payload key = unmask_words key (load32 key.k0 key.k1 key.k2 key.k3) 0 payload
