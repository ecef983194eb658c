-- ===== src/Ws/Frame/Incremental.antt =====
-- parseWsFrameHeader on a buffer that fills up, and buildClosePayload, of src/core/WsFrame.h.
use hical.Base.{
  ℕ, zero, suc, ◌+◌, ◌*◌, ◌/◌, ◌%◌, ◌^◌, ◌≤◌, ◌<◌, bit_and, ◌≡◌, refl, sym, ap, ap₂, ◌∙◌, [], ◌∷◌,
  ◌++◌, none, some, Text, length, take, drop, ltb, if◌then◌else◌, arith, Bool-cases, inl, inr,
  length-append, length-take,
}
use hical.Ws.Frame.Parse.{parse-read}
use hical.Ws.Frame.{
  WsFrameHeader, byte_at, ext_len_bytes, header_size_of, read_length, read_key, read_header,
  parse_ws_frame_header, build_close_payload, WsCloseCode, max_reason_len,
}

byte_at-append : (xs ys : Text) (i : ℕ) → i < length xs → byte_at (xs ++ ys) i ≡ byte_at xs i
byte_at-append [] ys i h = absurd (omega arith)
byte_at-append (x ∷ xs) ys zero h = refl
byte_at-append (x ∷ xs) ys (suc i) h = byte_at-append xs ys i (omega arith)

byte_at-take : (n : ℕ) (xs : Text) (i : ℕ) → i < n → byte_at (take n xs) i ≡ byte_at xs i
byte_at-take zero xs i h = absurd (omega arith)
byte_at-take (suc n) [] i h = refl
byte_at-take (suc n) (x ∷ xs) zero h = refl
byte_at-take (suc n) (x ∷ xs) (suc i) h = byte_at-take n xs i (omega arith)

-- A parsed header is all there, and is what is read of the bytes.
parse_inv :
    (bytes : Text) (hdr : WsFrameHeader)
    → parse_ws_frame_header bytes ≡ some hdr
    → (2 ≤ length bytes)
      × (header_size_of (byte_at bytes 1) ≤ length bytes)
      × (read_header bytes (byte_at bytes 0) (byte_at bytes 1) ≡ hdr)
unfolding parse_ws_frame_header
parse_inv bytes hdr h = ground arith

module _ (xs ys : Text) where
  read_length-append :
      (r : ℕ) → 2 + ext_len_bytes r ≤ length xs → read_length (xs ++ ys) r ≡ read_length xs r
  unfolding read_length
  read_length-append r h = ground (
    arith,
    byte_at-append xs ys 2,
    byte_at-append xs ys 3,
    byte_at-append xs ys 4,
    byte_at-append xs ys 5,
    byte_at-append xs ys 6,
    byte_at-append xs ys 7,
    byte_at-append xs ys 8,
    byte_at-append xs ys 9,
  )

  read_key-append : (i : ℕ) → i + 4 ≤ length xs → read_key (xs ++ ys) i ≡ read_key xs i
  read_key-append i h = ground (
    arith,
    byte_at-append xs ys i,
    byte_at-append xs ys (i + 1),
    byte_at-append xs ys (i + 2),
    byte_at-append xs ys (i + 3),
  )

  read_header-append :
      (byte0 byte1 : ℕ)
      → header_size_of byte1 ≤ length xs
      → read_header (xs ++ ys) byte0 byte1 ≡ read_header xs byte0 byte1
  unfolding read_header
  read_header-append byte0 byte1 h = ground (
    arith,
    read_length-append (bit_and byte1 0x7F),
    read_key-append (2 + ext_len_bytes (bit_and byte1 0x7F)),
  )

header_size-read :
    (bytes : Text) (byte0 byte1 : ℕ)
    → (read_header bytes byte0 byte1).header_size ≡ header_size_of byte1
unfolding read_header
header_size-read bytes byte0 byte1 = refl

parse_short :
    (bytes : Text)
    → length bytes < header_size_of (byte_at bytes 1)
    → parse_ws_frame_header bytes ≡ none
unfolding parse_ws_frame_header
parse_short bytes h = ground arith

parse_tiny : (bytes : Text) → length bytes < 2 → parse_ws_frame_header bytes ≡ none
unfolding parse_ws_frame_header
parse_tiny bytes h = ground arith

-- Bytes that come later change nothing: once a buffer parses to a header, the header lies in the
-- buffer and any longer buffer parses to the same.
pub parse-append :
    (bytes more : Text) (hdr : WsFrameHeader)
    → parse_ws_frame_header bytes ≡ some hdr
    → (hdr.header_size ≤ length bytes) × (parse_ws_frame_header (bytes ++ more) ≡ some hdr)
parse-append bytes more hdr h =
    let (two, all, read) = parse_inv bytes hdr h in
    let size = sym (header_size-read bytes (byte_at bytes 0) (byte_at bytes 1)) in
    let same = byte_at-append bytes more in
    (
      omega (arith, size, ap (λ x. x.header_size) read),
      parse-read (bytes ++ more) (omega (arith, length-append bytes more))
            (omega (arith, length-append bytes more, ap header_size_of (same 1 (omega arith))))
          ∙ ap₂ (λ x y. some (read_header (bytes ++ more) x y)) (same 0 (omega arith))
              (same 1 (omega arith))
          ∙ ap some (read_header-append bytes more (byte_at bytes 0) (byte_at bytes 1) all ∙ read),
    )

-- And no shorter prefix parses: a buffer that parses to a header, cut before the header's size, does
-- not, so the caller waits for more bytes exactly as long as it must.
pub parse-take :
    (bytes : Text) (hdr : WsFrameHeader) (n : ℕ)
    → parse_ws_frame_header bytes ≡ some hdr
    → n < hdr.header_size
    → parse_ws_frame_header (take n bytes) ≡ none
parse-take bytes hdr n h k =
    let (two, all, read) = parse_inv bytes hdr h in
    let size =
      sym (header_size-read bytes (byte_at bytes 0) (byte_at bytes 1))
      ∙ ap (λ x. x.header_size) read in
    elim (Bool-cases (ltb n 2)) [
      | inl e ↦ parse_tiny (take n bytes) (ground (arith, length-take n bytes))
      | inr e ↦ parse_short (take n bytes) (
          ground (
            arith,
            length-take n bytes,
            ap header_size_of (byte_at-take n bytes 1 (ground arith)),
            size,
          ))
    ]

-- A header takes two bytes to fourteen, and lies in the buffer.
pub parse-header_size :
    (bytes : Text) (hdr : WsFrameHeader)
    → parse_ws_frame_header bytes ≡ some hdr
    → (2 ≤ hdr.header_size) × (hdr.header_size ≤ 14) × (hdr.header_size ≤ length bytes)
parse-header_size bytes hdr h =
    let (two, whole, read) = parse_inv bytes hdr h in
    let size =
      sym (header_size-read bytes (byte_at bytes 0) (byte_at bytes 1))
      ∙ ap (λ x. x.header_size) read in
    ground (arith, whole, size)

take_all : (n : ℕ) (xs : Text) → length xs ≤ n → take n xs ≡ xs
take_all zero [] h = refl
take_all zero (x ∷ xs) h = absurd (omega arith)
take_all (suc n) [] h = refl
take_all (suc n) (x ∷ xs) h = ap (◌∷◌ x) (take_all n xs (omega arith))

truncated : (n : ℕ) (xs : Text) → (if ltb n (length xs) then take n xs else xs) ≡ take n xs
truncated n xs = ground (arith, take_all n xs)

close_reads :
    (code : WsCloseCode) (reason : Text)
    → build_close_payload code reason
      ≡ code % 2 ^ 16 / 2 ^ 8 ∷ code % 2 ^ 16 % 256 ∷ take max_reason_len reason
unfolding build_close_payload
close_reads code reason =
    ap (λ xs. code % 2 ^ 16 / 2 ^ 8 ∷ code % 2 ^ 16 % 256 ∷ xs) (truncated max_reason_len reason)

-- The payload of a close frame fits a control frame, carries the code big-endian, for a code of 16
-- bits, and then the reason's first 123 bytes.
pub close_payload_fits :
    (code : WsCloseCode) (reason : Text)
    → code < 2 ^ 16
    → (length (build_close_payload code reason) ≤ 125)
      × (byte_at (build_close_payload code reason) 0 * 256
            + byte_at (build_close_payload code reason) 1
          ≡ code)
      × (drop 2 (build_close_payload code reason) ≡ take 123 reason)
close_payload_fits code reason h =
    let e = close_reads code reason in
    (
      omega (arith, ap length e, length-take max_reason_len reason),
      ap₂ (λ x y. x * 256 + y) (ap (λ xs. byte_at xs 0) e) (ap (λ xs. byte_at xs 1) e)
          ∙ omega arith,
      ap (drop 2) e,
    )
