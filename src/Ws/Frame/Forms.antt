-- ===== src/Ws/Frame/Forms.antt =====
-- The three forms of a frame's length in src/core/WsFrame.h.
use hical.Base.{
  ℕ, ◌+◌, ◌/◌, ◌%◌, ◌^◌, ◌≤◌, ◌<◌, bit_or, ◌≡◌, refl, ap, ◌∙◌, Bool, true, false, [], ◌∷◌, some,
  Text, arith,
}
use hical.Ws.Mask.{MaskKey}
use hical.Ws.Frame.{
  first_byte, WsOpcode, no_key, ext_len_bytes, read_length, read_key, parse_ws_frame_header,
  length_bytes,
}
use hical.Ws.Frame.Bytes.{plain_length, masked_length}
use hical.Ws.Frame.Parse.{parse-read, header_of, read-plain, read-masked, long16, long64}

-- The extended lengths, big-endian.
abbrev pub bytes16 : ℕ → Text → Text
bytes16 n body = n % 2 ^ 16 / 2 ^ 8 ∷ n % 2 ^ 16 % 256 ∷ body

abbrev pub bytes64 : ℕ → Text → Text
bytes64 n body =
    n / 2 ^ 56 % 256
    ∷ n / 2 ^ 48 % 256
    ∷ n / 2 ^ 40 % 256
    ∷ n / 2 ^ 32 % 256
    ∷ n / 2 ^ 24 % 256
    ∷ n / 2 ^ 16 % 256
    ∷ n / 2 ^ 8 % 256
    ∷ n % 256
    ∷ body

ext-short : (n : ℕ) → n ≤ 125 → ext_len_bytes n ≡ 0
ext-short n h = ground arith

-- The three forms of a length.
pub length_bytes-short : (mask n : ℕ) → n ≤ 125 → length_bytes mask n ≡ bit_or mask n % 256 ∷ []
unfolding length_bytes
length_bytes-short mask n h = ground arith

pub length_bytes-middle :
    (mask n : ℕ) → 125 < n → n ≤ 65535 → length_bytes mask n ≡ bit_or mask 126 ∷ bytes16 n []
unfolding length_bytes
length_bytes-middle mask n h k = ground arith

pub length_bytes-long :
    (mask n : ℕ) → 65535 < n → length_bytes mask n ≡ bit_or mask 127 ∷ bytes64 n []
unfolding length_bytes
length_bytes-long mask n h = ground arith

-- The mask key follows the length.
abbrev pub keyed : MaskKey → Text → Text
keyed key body = key.k0 ∷ key.k1 ∷ key.k2 ∷ key.k3 ∷ body

module _ (fin rsv1 : Bool) (op : WsOpcode) (n : ℕ) (h : op < 16) where
  pub plain_short :
      (body : Text)
      → n ≤ 125
      → parse_ws_frame_header (first_byte fin rsv1 op ∷ bit_or 0 n % 256 ∷ body)
        ≡ some (header_of fin rsv1 op false n no_key 2)
  unfolding read_length
  plain_short body s =
      let bytes = first_byte fin rsv1 op ∷ bit_or 0 n % 256 ∷ body in
      let (m, e) = plain_length n (omega arith) in
      parse-read bytes (omega arith) (ground (arith, m, e))
      ∙ ap some (
          read-plain fin rsv1 op bytes (bit_or 0 n % 256) n n 2 h m e (ground arith) (ground arith))

  pub plain_middle :
      (body : Text)
      → n ≤ 65535
      → parse_ws_frame_header (first_byte fin rsv1 op ∷ bit_or 0 126 ∷ bytes16 n body)
        ≡ some (header_of fin rsv1 op false n no_key 4)
  unfolding read_length
  plain_middle body s =
      let bytes = first_byte fin rsv1 op ∷ bit_or 0 126 ∷ bytes16 n body in
      parse-read bytes (omega arith) (omega arith)
      ∙ ap some (read-plain fin rsv1 op bytes (bit_or 0 126) 126 n 4 h refl refl (long16 n s) refl)

  pub plain_long :
      (body : Text)
      → n < 2 ^ 64
      → parse_ws_frame_header (first_byte fin rsv1 op ∷ bit_or 0 127 ∷ bytes64 n body)
        ≡ some (header_of fin rsv1 op false n no_key 10)
  unfolding read_length
  plain_long body s =
      let bytes = first_byte fin rsv1 op ∷ bit_or 0 127 ∷ bytes64 n body in
      parse-read bytes (omega arith) (omega arith)
      ∙ ap some (read-plain fin rsv1 op bytes (bit_or 0 127) 127 n 10 h refl refl (long64 n s) refl)

  module _ (key : MaskKey) where
    pub masked_short :
        (body : Text)
        → n ≤ 125
        → parse_ws_frame_header (first_byte fin rsv1 op ∷ bit_or 0x80 n % 256 ∷ keyed key body)
          ≡ some (header_of fin rsv1 op true n key 6)
    unfolding read_length
    masked_short body s =
        let bytes = first_byte fin rsv1 op ∷ bit_or 0x80 n % 256 ∷ keyed key body in
        let (m, e) = masked_length n (omega arith) in
        parse-read bytes (omega arith) (ground (arith, m, e))
        ∙ ap some (
            read-masked fin rsv1 op bytes (bit_or 0x80 n % 256) n n 6 key h m e (ground arith)
              (ap (λ k. read_key bytes (2 + k)) (ext-short n s)) (ground (arith, ext-short n s)))

    pub masked_middle :
        (body : Text)
        → n ≤ 65535
        → parse_ws_frame_header
            (first_byte fin rsv1 op ∷ bit_or 0x80 126 ∷ bytes16 n (keyed key body))
          ≡ some (header_of fin rsv1 op true n key 8)
    unfolding read_length
    masked_middle body s =
        let bytes = first_byte fin rsv1 op ∷ bit_or 0x80 126 ∷ bytes16 n (keyed key body) in
        parse-read bytes (omega arith) (omega arith)
        ∙ ap some (
            read-masked fin rsv1 op bytes (bit_or 0x80 126) 126 n 8 key h refl refl (long16 n s)
              refl refl)

    pub masked_long :
        (body : Text)
        → n < 2 ^ 64
        → parse_ws_frame_header
            (first_byte fin rsv1 op ∷ bit_or 0x80 127 ∷ bytes64 n (keyed key body))
          ≡ some (header_of fin rsv1 op true n key 14)
    unfolding read_length
    masked_long body s =
        let bytes = first_byte fin rsv1 op ∷ bit_or 0x80 127 ∷ bytes64 n (keyed key body) in
        parse-read bytes (omega arith) (omega arith)
        ∙ ap some (
            read-masked fin rsv1 op bytes (bit_or 0x80 127) 127 n 14 key h refl refl (long64 n s)
              refl refl)
