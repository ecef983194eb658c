-- ===== src/Ws/Frame.antt =====
-- src/core/WsFrame.h: the header of a WebSocket frame (RFC 6455), parsed and built. A uint8_t is a
-- number below 256; shifted bytes joined by `|` share no bit, so they are added.
use hical.Base.{
  ℕ, zero, suc, ◌+◌, ◌*◌, ◌/◌, ◌%◌, ◌^◌, bit_and, bit_or, Bool, not, [], ◌∷◌, ◌++◌, Option, none,
  some, Text, length, take, ltb, leb, ◌==◌, if◌then◌else◌,
}
use hical.Ws.Mask.{MaskKey, unmask_payload}
pub mod Bytes
pub mod Parse
pub mod Forms
pub mod RoundTrip
pub mod Incremental

-- WsOpcode, an enum over uint8_t: a cast gives it the values without a name too.
abbrev pub WsOpcode : Type 0
WsOpcode = ℕ

abbrev pub op_continuation : WsOpcode
op_continuation = 0

abbrev pub op_text : WsOpcode
op_text = 1

abbrev pub op_binary : WsOpcode
op_binary = 2

abbrev pub op_close : WsOpcode
op_close = 8

abbrev pub op_ping : WsOpcode
op_ping = 9

abbrev pub op_pong : WsOpcode
op_pong = 10

-- WsCloseCode, an enum over uint16_t
abbrev pub WsCloseCode : Type 0
WsCloseCode = ℕ

abbrev pub close_normal : WsCloseCode
close_normal = 1000

abbrev pub close_protocol_error : WsCloseCode
close_protocol_error = 1002

abbrev pub close_message_too_big : WsCloseCode
close_message_too_big = 1009

pub record WsFrameHeader : Type 0 where
  pub fin : Bool
  pub rsv1 : Bool
  pub rsv2 : Bool
  pub rsv3 : Bool
  pub opcode : WsOpcode
  pub masked : Bool
  pub payload_length : ℕ
  pub mask_key : MaskKey
  pub header_size : ℕ

abbrev pub no_key : MaskKey
no_key = record { k0 = 0; k1 = 0; k2 = 0; k3 = 0 }

-- `data[i]`; every read of the code is below the size
abbrev pub byte_at : Text → ℕ → ℕ
byte_at [] i = 0
byte_at (x ∷ xs) zero = x
byte_at (x ∷ xs) (suc i) = byte_at xs i

-- `(byte & mask) != 0`
abbrev pub has_bit : ℕ → ℕ → Bool
has_bit byte mask = not (bit_and byte mask == 0)

abbrev pub ext_len_bytes : ℕ → ℕ
ext_len_bytes raw_len = if raw_len == 126 then 2 else if raw_len == 127 then 8 else 0

abbrev pub header_size_of : ℕ → ℕ
header_size_of byte1 =
    2 + ext_len_bytes (bit_and byte1 0x7F) + (if has_bit byte1 0x80 then 4 else 0)

-- The length that the header carries, big-endian beyond 125.
unfoldable pub read_length : Text → ℕ → ℕ
read_length bytes raw_len =
    if ext_len_bytes raw_len == 0
    then raw_len
    else if ext_len_bytes raw_len == 2
    then byte_at bytes 2 * 2 ^ 8 + byte_at bytes 3
    else byte_at bytes 2 * 2 ^ 56
      + byte_at bytes 3 * 2 ^ 48
      + byte_at bytes 4 * 2 ^ 40
      + byte_at bytes 5 * 2 ^ 32
      + byte_at bytes 6 * 2 ^ 24
      + byte_at bytes 7 * 2 ^ 16
      + byte_at bytes 8 * 2 ^ 8
      + byte_at bytes 9

-- `memcpy(hdr.maskKey, data + offset, 4)`
abbrev pub read_key : Text → ℕ → MaskKey
read_key bytes offset = record {
  k0 = byte_at bytes offset;
  k1 = byte_at bytes (offset + 1);
  k2 = byte_at bytes (offset + 2);
  k3 = byte_at bytes (offset + 3);
}

unfoldable pub read_header : Text → ℕ → ℕ → WsFrameHeader
unfolding read_length
read_header bytes byte0 byte1 = record {
  fin = has_bit byte0 0x80;
  rsv1 = has_bit byte0 0x40;
  rsv2 = has_bit byte0 0x20;
  rsv3 = has_bit byte0 0x10;
  opcode = bit_and byte0 0x0F;
  masked = has_bit byte1 0x80;
  payload_length = read_length bytes (bit_and byte1 0x7F);
  mask_key =
      (if has_bit byte1 0x80
        then read_key bytes (2 + ext_len_bytes (bit_and byte1 0x7F))
        else no_key);
  header_size = header_size_of byte1;
}

unfoldable pub parse_ws_frame_header : Text → Option WsFrameHeader
unfolding read_header
parse_ws_frame_header bytes =
    if ltb (length bytes) 2
    then none
    else if ltb (length bytes) (header_size_of (byte_at bytes 1))
    then none
    else some (read_header bytes (byte_at bytes 0) (byte_at bytes 1))

-- `out[0]` of a frame
abbrev pub first_byte : Bool → Bool → WsOpcode → ℕ
first_byte fin rsv1 opcode =
    bit_or (bit_or (if fin then 0x80 else 0) (if rsv1 then 0x40 else 0))
      (bit_and (opcode % 256) 0x0F)
    % 256

-- `out[1]` and the extended length; `mask_bit` is 0x80 in a masked frame and else 0.
unfoldable pub length_bytes : ℕ → ℕ → Text
length_bytes mask_bit payload_len =
    if leb payload_len 125
    then bit_or mask_bit payload_len % 256 ∷ []
    else if leb payload_len 65535
    then bit_or mask_bit 126 ∷ payload_len % 2 ^ 16 / 2 ^ 8 ∷ payload_len % 2 ^ 16 % 256 ∷ []
    else bit_or mask_bit 127
      ∷ payload_len / 2 ^ 56 % 256
      ∷ payload_len / 2 ^ 48 % 256
      ∷ payload_len / 2 ^ 40 % 256
      ∷ payload_len / 2 ^ 32 % 256
      ∷ payload_len / 2 ^ 24 % 256
      ∷ payload_len / 2 ^ 16 % 256
      ∷ payload_len / 2 ^ 8 % 256
      ∷ payload_len % 256
      ∷ []

unfoldable pub build_ws_frame : WsOpcode → Text → Bool → Bool → Text
unfolding length_bytes
build_ws_frame opcode payload fin rsv1 =
    first_byte fin rsv1 opcode ∷ (length_bytes 0 (length payload) ++ payload)

unfoldable pub build_masked_ws_frame : WsOpcode → Text → MaskKey → Bool → Bool → Text
unfolding length_bytes unmask_payload
build_masked_ws_frame opcode payload key fin rsv1 =
    first_byte fin rsv1 opcode
    ∷ (length_bytes 0x80 (length payload)
        ++ (key.k0 ∷ key.k1 ∷ key.k2 ∷ key.k3 ∷ unmask_payload payload key))

abbrev pub max_reason_len : ℕ
max_reason_len = 123

unfoldable pub build_close_payload : WsCloseCode → Text → Text
build_close_payload code reason =
    let reason =
      if ltb max_reason_len (length reason) then take max_reason_len reason else reason in
    code % 2 ^ 16 / 2 ^ 8 ∷ code % 2 ^ 16 % 256 ∷ reason
