-- ===== src/Ws/Mask/Laws.antt =====
-- unmaskPayload of src/core/WsFrame.h, byte by byte.
use hical.Base.{
  suc, arith, ℕ, ◌+◌, ◌%◌, bit_xor, ◌≡◌, refl, ap, ◌∙◌, [], ◌∷◌, some, Text, length, get_elem?,
}
use hical.Ws.Mask.{
  load32, unmask_words, MaskKey, key_at, IsBytes, IsKey, unmask_tail, unmask_payload,
}
use hical.Ws.Mask.Words.{
  unmask_words-unmask_tail, unmask_tail-get, unmask_tail-unmask_tail, unmask_tail-IsBytes,
}

unmask_payload-unmask_tail :
    (payload : Text) (key : MaskKey)
    → IsBytes payload
    → IsKey key
    → unmask_payload payload key ≡ unmask_tail key 0 payload
unfolding unmask_payload
unmask_payload-unmask_tail payload key h k = unmask_words-unmask_tail key 0 0 payload refl k h

zero_plus : (i : ℕ) → 0 + i ≡ i
zero_plus i = omega arith

-- The fast path computes what RFC 6455 asks: for a payload and a key of bytes, byte i of the result
-- is byte i of the payload exclusive-or byte `i % 4` of the key.
pub unmask_payload-get :
    (payload : Text) (key : MaskKey) (i b : ℕ)
    → IsBytes payload
    → IsKey key
    → get_elem? payload i ≡ some b
    → get_elem? (unmask_payload payload key) i ≡ some (bit_xor b (key_at key (i % 4)))
unmask_payload-get payload key i b h k e =
    ap (λ xs. get_elem? xs i) (unmask_payload-unmask_tail payload key h k)
    ∙ unmask_tail-get key 0 payload i b e
    ∙ ap (λ n. some (bit_xor b (key_at key (n % 4)))) (zero_plus i)

unmask_tail-length : (key : MaskKey) (i : ℕ) (xs : Text) → length (unmask_tail key i xs) ≡ length xs
unfolding unmask_tail
unmask_tail-length key i [] = refl
unmask_tail-length key i (x ∷ xs) = ap suc (unmask_tail-length key (i + 1) xs)

unmask_words-length :
    (key : MaskKey) (mask i : ℕ) (xs : Text) → length (unmask_words key mask i xs) ≡ length xs
unfolding unmask_words
unmask_words-length key mask i [] = unmask_tail-length key i []
unmask_words-length key mask i (a ∷ []) = unmask_tail-length key i (a ∷ [])
unmask_words-length key mask i (a ∷ b ∷ []) = unmask_tail-length key i (a ∷ b ∷ [])
unmask_words-length key mask i (a ∷ b ∷ c ∷ []) = unmask_tail-length key i (a ∷ b ∷ c ∷ [])
unmask_words-length key mask i (a ∷ b ∷ c ∷ d ∷ rest) =
    ap (λ n. suc (suc (suc (suc n)))) (unmask_words-length key mask (i + 4) rest)

pub length-unmask_payload :
    (payload : Text) (key : MaskKey) → length (unmask_payload payload key) ≡ length payload
unfolding unmask_payload
length-unmask_payload payload key =
    unmask_words-length key (load32 key.k0 key.k1 key.k2 key.k3) 0 payload

-- Masking is its own inverse: for a payload and a key of bytes, unmasking twice gives the payload.
pub unmask_payload-unmask_payload :
    (payload : Text) (key : MaskKey)
    → IsBytes payload
    → IsKey key
    → unmask_payload (unmask_payload payload key) key ≡ payload
unmask_payload-unmask_payload payload key h k =
    ap (λ xs. unmask_payload xs key) (unmask_payload-unmask_tail payload key h k)
    ∙ unmask_payload-unmask_tail (unmask_tail key 0 payload) key
        (unmask_tail-IsBytes key 0 payload k h) k
    ∙ unmask_tail-unmask_tail key 0 payload
