-- ===== src/Ws/Session/Consume.antt =====
-- The buffer of a session in src/core/WebSocket.cpp: a frame unmasked in place, and consumeBytes.
use hical.Base.{
  ℕ, zero, suc, ◌+◌, ◌-◌, ◌≤◌, ◌≡◌, refl, sym, ap, ◌∙◌, [], ◌∷◌, ◌++◌, Text, length, take, drop,
  arith, drop-append, length-take,
}
use hical.Ws.Frame.{WsFrameHeader}
use hical.Ws.Mask.Laws.{length-unmask_payload}
use hical.Ws.Session.{Session, consume_bytes}
use hical.Ws.Session.Receive.{payload_of, unmasked}

pub length-drop : (n : ℕ) (xs : Text) → length (drop n xs) ≡ length xs - n
length-drop zero xs = omega arith
length-drop (suc n) [] = omega arith
length-drop (suc n) (x ∷ xs) = omega (arith, length-drop n xs)

pub drop_whole : (n : ℕ) (xs : Text) → length xs ≤ n → drop n xs ≡ []
drop_whole zero [] h = refl
drop_whole zero (x ∷ xs) h = absurd (omega arith)
drop_whole (suc n) [] h = refl
drop_whole (suc n) (x ∷ xs) h = drop_whole n xs (omega arith)

drop-nil : (n : ℕ) → drop {A = ℕ} n [] ≡ []
drop-nil n = drop_whole n [] (omega arith)

zero_plus : (n : ℕ) → zero + n ≡ n
zero_plus n = omega arith

suc_plus : (m n : ℕ) → suc m + n ≡ suc (m + n)
suc_plus m n = omega arith

pub length-payload_of :
    (buffer : Text) (hdr : WsFrameHeader)
    → hdr.header_size + hdr.payload_length ≤ length buffer
    → length (payload_of buffer hdr) ≡ hdr.payload_length
length-payload_of buffer hdr h = omega (
  arith,
  length-unmask_payload (take hdr.payload_length (drop hdr.header_size buffer)) hdr.mask_key,
  length-take hdr.payload_length (drop hdr.header_size buffer),
  length-drop hdr.header_size buffer,
)

pub consume_bytes-drop :
    {D : Type 0} (s : Session D) (n : ℕ) → (consume_bytes s n).read_buf ≡ drop n s.read_buf
unfolding consume_bytes
consume_bytes-drop s n = ground (arith, drop_whole n s.read_buf)

-- Nothing else is changed by it.
pub consume_bytes_fields :
    {D : Type 0} (s : Session D) (n : ℕ)
    → ((consume_bytes s n).fragment_buf ≡ s.fragment_buf)
      × ((consume_bytes s n).fragment_opcode ≡ s.fragment_opcode)
      × ((consume_bytes s n).fragment_compressed ≡ s.fragment_compressed)
      × ((consume_bytes s n).max_message_size ≡ s.max_message_size)
      × ((consume_bytes s n).deflate_ctx ≡ s.deflate_ctx)
unfolding consume_bytes
consume_bytes_fields s n = (refl, refl, refl, refl, refl)

-- A payload of the length that the header says is all in the buffer.
pub payload_there :
    (buffer : Text) (hdr : WsFrameHeader) (payload : Text)
    → payload_of buffer hdr ≡ payload
    → length payload ≡ hdr.payload_length
    → hdr.header_size ≤ length buffer
    → hdr.header_size + hdr.payload_length ≤ length buffer
payload_there buffer hdr payload e n h = omega (
  arith,
  ap length e,
  n,
  length-unmask_payload (take hdr.payload_length (drop hdr.header_size buffer)) hdr.mask_key,
  length-take hdr.payload_length (drop hdr.header_size buffer),
  length-drop hdr.header_size buffer,
)

drop-take : (n : ℕ) (xs ys : Text) → n ≤ length xs → drop n (take n xs ++ ys) ≡ ys
drop-take zero xs ys h = refl
drop-take (suc n) [] ys h = absurd (omega arith)
drop-take (suc n) (x ∷ xs) ys h = drop-take n xs ys (omega arith)

pub drop-drop : (m n : ℕ) (xs : Text) → drop (m + n) xs ≡ drop n (drop m xs)
drop-drop zero n xs = ap (λ k. drop k xs) (zero_plus n)
drop-drop (suc m) n [] = ap (λ k. drop k []) (suc_plus m n) ∙ sym (drop-nil n)
drop-drop (suc m) n (x ∷ xs) = ap (λ k. drop k (x ∷ xs)) (suc_plus m n) ∙ drop-drop m n xs

-- Past the frame stands what stood there before.
pub drop-unmasked :
    (buffer : Text) (hdr : WsFrameHeader)
    → hdr.header_size + hdr.payload_length ≤ length buffer
    → drop (hdr.header_size + hdr.payload_length) (unmasked buffer hdr)
      ≡ drop hdr.payload_length (drop hdr.header_size buffer)
drop-unmasked buffer hdr h =
    let rest = drop hdr.payload_length (drop hdr.header_size buffer) in
    let n = length-payload_of buffer hdr h in
    drop-drop hdr.header_size hdr.payload_length (unmasked buffer hdr)
    ∙ ap (drop hdr.payload_length)
        (drop-take hdr.header_size buffer (payload_of buffer hdr ++ rest) (omega (arith, h)))
    ∙ ap (λ k. drop k (payload_of buffer hdr ++ rest)) (sym n)
    ∙ drop-append (payload_of buffer hdr) rest

-- Behind a frame that was unmasked, the buffer is as it was.
pub drop-unmasked_whole :
    (buffer : Text) (hdr : WsFrameHeader) (size : ℕ)
    → size ≡ hdr.header_size + hdr.payload_length
    → size ≤ length buffer
    → drop size (unmasked buffer hdr) ≡ drop size buffer
drop-unmasked_whole buffer hdr size same h =
    ap (λ n. drop n (unmasked buffer hdr)) same
    ∙ drop-unmasked buffer hdr (omega (arith, same, h))
    ∙ sym (drop-drop hdr.header_size hdr.payload_length buffer)
    ∙ ap (λ n. drop n buffer) (sym same)
