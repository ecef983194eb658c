-- ===== src/Ws/Frame/Parse.antt =====
-- parseWsFrameHeader of src/core/WsFrame.h: the prefixes of a frame, and the parts of its
-- header.
use hical.Base.{
  ℕ, ◌+◌, ◌*◌, ◌/◌, ◌%◌, ◌^◌, ◌≤◌, ◌<◌, bit_and, ◌≡◌, Bool, true, false, some, Text, length, arith,
}
use hical.Ws.Mask.{MaskKey}
use hical.Ws.Frame.{
  first_byte, has_bit, WsOpcode, WsFrameHeader, no_key, byte_at, ext_len_bytes, header_size_of,
  read_length, read_key, read_header, parse_ws_frame_header,
}
use hical.Ws.Frame.Bytes.{first_byte_reads}

pub parse-read :
    (bytes : Text)
    → 2 ≤ length bytes
    → header_size_of (byte_at bytes 1) ≤ length bytes
    → parse_ws_frame_header bytes ≡ some (read_header bytes (byte_at bytes 0) (byte_at bytes 1))
unfolding parse_ws_frame_header
parse-read bytes h k = ground arith

-- What a frame of ours carries.
abbrev pub header_of : Bool → Bool → WsOpcode → Bool → ℕ → MaskKey → ℕ → WsFrameHeader
header_of fin rsv1 op masked n key size = record {
  fin = fin;
  rsv1 = rsv1;
  rsv2 = false;
  rsv3 = false;
  opcode = op;
  masked = masked;
  payload_length = n;
  mask_key = key;
  header_size = size;
}

pub read-plain :
    (fin rsv1 : Bool) (op : WsOpcode) (bytes : Text) (byte1 r n size : ℕ)
    → op < 16
    → has_bit byte1 0x80 ≡ false
    → bit_and byte1 0x7F ≡ r
    → read_length bytes r ≡ n
    → 2 + ext_len_bytes r ≡ size
    → read_header bytes (first_byte fin rsv1 op) byte1 ≡ header_of fin rsv1 op false n no_key size
unfolding read_header
read-plain fin rsv1 op bytes byte1 r n size h m e k z =
    ground (arith, first_byte_reads fin rsv1 op h)

pub read-masked :
    (fin rsv1 : Bool) (op : WsOpcode) (bytes : Text) (byte1 r n size : ℕ) (key : MaskKey)
    → op < 16
    → has_bit byte1 0x80 ≡ true
    → bit_and byte1 0x7F ≡ r
    → read_length bytes r ≡ n
    → read_key bytes (2 + ext_len_bytes r) ≡ key
    → 6 + ext_len_bytes r ≡ size
    → read_header bytes (first_byte fin rsv1 op) byte1 ≡ header_of fin rsv1 op true n key size
unfolding read_header
read-masked fin rsv1 op bytes byte1 r n size key h m e k q z =
    ground (arith, first_byte_reads fin rsv1 op h)

-- The two long forms of the length, read back.
pub long16 : (n : ℕ) → n ≤ 65535 → n % 2 ^ 16 / 2 ^ 8 * 2 ^ 8 + n % 2 ^ 16 % 256 ≡ n
long16 n h = omega arith

pub long64 :
    (n : ℕ)
    → n < 2 ^ 64
    → n / 2 ^ 56 % 256 * 2 ^ 56
        + n / 2 ^ 48 % 256 * 2 ^ 48
        + n / 2 ^ 40 % 256 * 2 ^ 40
        + n / 2 ^ 32 % 256 * 2 ^ 32
        + n / 2 ^ 24 % 256 * 2 ^ 24
        + n / 2 ^ 16 % 256 * 2 ^ 16
        + n / 2 ^ 8 % 256 * 2 ^ 8
        + n % 256
      ≡ n
long64 n h = omega arith
