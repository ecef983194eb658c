-- ===== src/Ws/Frame/RoundTrip.antt =====
-- Frames built by src/core/WsFrame.h, with parseWsFrameHeader and unmaskPayload.
use hical.Base.{
  ℕ, ◌+◌, ◌^◌, ◌<◌, ◌≡◌, refl, sym, ap, subst, ◌∙◌, Bool, true, false, ◌∷◌, ◌++◌, some, Text,
  length, take, drop, leb, if◌then◌else◌, arith, append_assoc, take-append, drop-append, inl, inr,
  Bool-cases,
}
use hical.Ws.Mask.{MaskKey, IsKey, IsBytes, unmask_payload}
use hical.Ws.Mask.Laws.{length-unmask_payload, unmask_payload-unmask_payload}
use hical.Ws.Frame.{
  first_byte, WsOpcode, no_key, parse_ws_frame_header, length_bytes, build_ws_frame,
  build_masked_ws_frame,
}
use hical.Ws.Frame.Parse.{header_of}
use hical.Ws.Frame.Forms.{
  keyed, length_bytes-short, length_bytes-middle, length_bytes-long, plain_short, plain_middle,
  plain_long, masked_short, masked_middle, masked_long,
}

-- The header's size for a payload of n bytes, without the mask key.
abbrev pub size_of : ℕ → ℕ
size_of n = if leb n 125 then 2 else if leb n 65535 then 4 else 10

-- A frame whose length stands in l parses to the header, after which the body stands.
abbrev Reads : Bool → Bool → WsOpcode → Bool → ℕ → MaskKey → Text → Text → Text → ℕ → Type 0
Reads fin rsv1 op masked n key body rest l size =
    (parse_ws_frame_header (first_byte fin rsv1 op ∷ (l ++ body))
      ≡ some (header_of fin rsv1 op masked n key size))
    × (drop size (first_byte fin rsv1 op ∷ (l ++ body)) ≡ rest)

moved :
    {fin rsv1 : Bool} {op : WsOpcode} {masked : Bool} {n : ℕ} {key : MaskKey} {rest l : Text}
    {size : ℕ} (body m : Text) (s : ℕ)
    → m ≡ l
    → s ≡ size
    → Reads fin rsv1 op masked n key body rest l size
    → Reads fin rsv1 op masked n key body rest m s
moved {fin} {rsv1} {op} {masked} {n} {key} {rest} {l} {size} body m s p q r =
    subst (λ z. Reads fin rsv1 op masked n key body rest m z) (sym q)
      (subst (λ z. Reads fin rsv1 op masked n key body rest z size) (sym p) r)

module _ (fin rsv1 : Bool) (op : WsOpcode) (n : ℕ) (h : op < 16) (k : n < 2 ^ 64)
    (body : Text) where
  plain-Reads : Reads fin rsv1 op false n no_key body body (length_bytes 0 n) (size_of n)
  plain-Reads = elim (Bool-cases (leb n 125)) [
    | inl e ↦
        moved body (length_bytes 0 n) (size_of n) (length_bytes-short 0 n (ground arith))
          (ground arith) (plain_short fin rsv1 op n h body (ground arith), refl)
    | inr e ↦ elim (Bool-cases (leb n 65535)) [
      | inl f ↦
          moved body (length_bytes 0 n) (size_of n)
            (length_bytes-middle 0 n (ground arith) (ground arith)) (ground arith)
            (plain_middle fin rsv1 op n h body (ground arith), refl)
      | inr f ↦
          moved body (length_bytes 0 n) (size_of n) (length_bytes-long 0 n (ground arith))
            (ground arith) (plain_long fin rsv1 op n h body k, refl)
    ]
  ]

  masked-Reads :
      (key : MaskKey)
      → Reads fin rsv1 op true n key (keyed key body) body (length_bytes 0x80 n) (4 + size_of n)
  masked-Reads key = elim (Bool-cases (leb n 125)) [
    | inl e ↦
        moved (keyed key body) (length_bytes 0x80 n) (4 + size_of n)
          (length_bytes-short 0x80 n (ground arith)) (ground arith)
          (masked_short fin rsv1 op n h key body (ground arith), refl)
    | inr e ↦ elim (Bool-cases (leb n 65535)) [
      | inl f ↦
          moved (keyed key body) (length_bytes 0x80 n) (4 + size_of n)
            (length_bytes-middle 0x80 n (ground arith) (ground arith)) (ground arith)
            (masked_middle fin rsv1 op n h key body (ground arith), refl)
      | inr f ↦
          moved (keyed key body) (length_bytes 0x80 n) (4 + size_of n)
            (length_bytes-long 0x80 n (ground arith)) (ground arith)
            (masked_long fin rsv1 op n h key body k, refl)
    ]
  ]

-- Round trip of a server's frame: with an opcode of four bits and a payload below 2^64 bytes, the
-- frame, whatever follows it, parses to a header with the flags, the opcode, no mask and the
-- payload's length, and the payload stands at the header's size, what follows after it.
pub parse-build_ws_frame :
    (op : WsOpcode) (payload : Text) (fin rsv1 : Bool) (rest : Text)
    → op < 16
    → length payload < 2 ^ 64
    → (parse_ws_frame_header (build_ws_frame op payload fin rsv1 ++ rest)
        ≡ some (header_of fin rsv1 op false (length payload) no_key (size_of (length payload))))
      × (drop (size_of (length payload)) (build_ws_frame op payload fin rsv1 ++ rest)
          ≡ payload ++ rest)
unfolding build_ws_frame
parse-build_ws_frame op payload fin rsv1 rest h k =
    let n = length payload in
    let frame = λ (xs : Text). first_byte fin rsv1 op ∷ xs in
    let e = ap frame (append_assoc (length_bytes 0 n) payload rest) in
    let (p, q) = plain-Reads fin rsv1 op n h k (payload ++ rest) in
    (ap parse_ws_frame_header e ∙ p, ap (drop (size_of n)) e ∙ q)

-- Round trip of a client's frame: with an opcode of four bits, a payload of bytes shorter than 2^64
-- and a key of bytes, the frame, whatever follows it, parses to a header with the flags, the opcode,
-- the payload's length and the mask key; as many bytes as the length says, read from the header's
-- size on and unmasked, are the payload; and what follows stands after them.
pub parse-build_masked_ws_frame :
    (op : WsOpcode) (payload : Text) (key : MaskKey) (fin rsv1 : Bool) (rest : Text)
    → op < 16
    → length payload < 2 ^ 64
    → IsBytes payload
    → IsKey key
    → (parse_ws_frame_header (build_masked_ws_frame op payload key fin rsv1 ++ rest)
        ≡ some (header_of fin rsv1 op true (length payload) key (4 + size_of (length payload))))
      × (unmask_payload
            (take (length payload) (
              drop
                (4 + size_of (length payload))
                (build_masked_ws_frame op payload key fin rsv1 ++ rest)))
            key
          ≡ payload)
      × (drop (length payload) (
            drop
              (4 + size_of (length payload))
              (build_masked_ws_frame op payload key fin rsv1 ++ rest))
          ≡ rest)
unfolding build_masked_ws_frame
parse-build_masked_ws_frame op payload key fin rsv1 rest h k b c =
    let n = length payload in
    let size = 4 + size_of n in
    let hidden = unmask_payload payload key in
    let frame = λ (xs : Text). first_byte fin rsv1 op ∷ xs in
    let e = ap frame (append_assoc (length_bytes 0x80 n) (keyed key hidden) rest) in
    let (p, q) = masked-Reads fin rsv1 op n h k (hidden ++ rest) key in
    let body = ap (drop size) e ∙ q in
    let same = sym (length-unmask_payload payload key) in
    (
      ap parse_ws_frame_header e ∙ p,
      ap (λ xs. unmask_payload (take n xs) key) body
          ∙ ap (λ m. unmask_payload (take m (hidden ++ rest)) key) same
          ∙ ap (λ xs. unmask_payload xs key) (take-append hidden rest)
          ∙ unmask_payload-unmask_payload payload key b c,
      ap (drop n) body ∙ ap (λ m. drop m (hidden ++ rest)) same ∙ drop-append hidden rest,
    )
