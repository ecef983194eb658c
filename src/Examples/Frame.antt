-- ===== src/Examples/Frame.antt =====
-- Runs of the WebSocket frame model of src/core/WsFrame.h.
use hical.Base.{
  ◌+◌, ◌*◌, ◌%◌, ◌≤◌, bit_xor, ◌≡◌, refl, true, false, [], ◌∷◌, ◌++◌, none, some, Text, codes,
  length, take, drop, get_elem?, arith,
}
use hical.Ws.Mask.{MaskKey, IsKey, IsBytes, unmask_payload, unmask_words, unmask_tail, key_at}
use hical.Ws.Mask.Laws.{unmask_payload-get}
use hical.Ws.Frame.{
  no_key, parse_ws_frame_header, read_header, read_length, build_ws_frame, build_masked_ws_frame,
  length_bytes, build_close_payload, byte_at, op_text, op_binary, close_protocol_error,
}
use hical.Ws.Frame.Parse.{header_of}
use hical.Ws.Frame.RoundTrip.{parse-build_ws_frame, parse-build_masked_ws_frame}
use hical.Ws.Frame.Incremental.{parse-append, parse-take, close_payload_fits}

abbrev key : MaskKey
key = record { k0 = 0x37; k1 = 0xfa; k2 = 0x21; k3 = 0x3d }

key-IsKey : IsKey key
key-IsKey = record {
  byte0 = omega arith;
  byte1 = omega arith;
  byte2 = omega arith;
  byte3 = omega arith;
}

abbrev hello : Text
hello = codes "Hello"

hello-IsBytes : IsBytes hello
hello-IsBytes = (omega arith, (omega arith, (omega arith, (omega arith, (omega arith, tt)))))

-- The masked "Hello" of RFC 6455, section 5.7.
abbrev masked_hello : Text
masked_hello = 0x81 ∷ 0x85 ∷ 0x37 ∷ 0xfa ∷ 0x21 ∷ 0x3d ∷ 0x7f ∷ 0x9f ∷ 0x4d ∷ 0x51 ∷ 0x58 ∷ []

masked_hello_built : build_masked_ws_frame op_text hello key true false ≡ masked_hello
unfolding build_masked_ws_frame length_bytes unmask_payload unmask_words unmask_tail
masked_hello_built = refl

hello_built :
    build_ws_frame op_text hello true false ≡ 0x81 ∷ 0x05 ∷ 0x48 ∷ 0x65 ∷ 0x6c ∷ 0x6c ∷ 0x6f ∷ []
unfolding build_ws_frame length_bytes
hello_built = refl

masked_hello_parsed :
    parse_ws_frame_header masked_hello ≡ some (header_of true false op_text true 5 key 6)
unfolding parse_ws_frame_header read_header read_length
masked_hello_parsed = refl

unmask_payload-get_example :
    get_elem? (unmask_payload hello key) 4 ≡ some (bit_xor 0x6f (key_at key (4 % 4)))
unmask_payload-get_example = unmask_payload-get hello key 4 0x6f hello-IsBytes key-IsKey refl

parse-build_ws_frame_example :
    (parse_ws_frame_header (build_ws_frame op_binary hello false true ++ masked_hello)
      ≡ some (header_of false true op_binary false 5 no_key 2))
    × (drop 2 (build_ws_frame op_binary hello false true ++ masked_hello) ≡ hello ++ masked_hello)
parse-build_ws_frame_example =
    parse-build_ws_frame op_binary hello false true masked_hello (omega arith) (omega arith)

parse-build_masked_ws_frame_example :
    (parse_ws_frame_header (build_masked_ws_frame op_text hello key true false ++ hello)
      ≡ some (header_of true false op_text true 5 key 6))
    × (unmask_payload
          (take 5 (drop 6 (build_masked_ws_frame op_text hello key true false ++ hello)))
          key
        ≡ hello)
    × (drop 5 (drop 6 (build_masked_ws_frame op_text hello key true false ++ hello)) ≡ hello)
parse-build_masked_ws_frame_example =
    parse-build_masked_ws_frame op_text hello key true false hello (omega arith) (omega arith)
      hello-IsBytes key-IsKey

parse-append_example :
    (6 ≤ length masked_hello)
    × (parse_ws_frame_header (masked_hello ++ hello)
        ≡ some (header_of true false op_text true 5 key 6))
parse-append_example =
    parse-append masked_hello hello (header_of true false op_text true 5 key 6) masked_hello_parsed

parse-take_example : parse_ws_frame_header (take 5 masked_hello) ≡ none
parse-take_example =
    parse-take masked_hello (header_of true false op_text true 5 key 6) 5 masked_hello_parsed
      (omega arith)

close_payload_fits_example :
    (length (build_close_payload close_protocol_error hello) ≤ 125)
    × (byte_at (build_close_payload close_protocol_error hello) 0 * 256
          + byte_at (build_close_payload close_protocol_error hello) 1
        ≡ close_protocol_error)
    × (drop 2 (build_close_payload close_protocol_error hello) ≡ take 123 hello)
close_payload_fits_example = close_payload_fits close_protocol_error hello (omega arith)
