-- ===== src/Examples/Session.antt =====
-- Runs of the WebSocket session model of src/core/WebSocket.cpp.
use hical.Ws.Session.Fragments.{Piece, IsPiece}
use hical.Ws.Session.Messages.{message_frames, Runs, message-Runs}
use hical.Ws.Session.Ending.{batch_write, close_write, end_batch_sends}
use hical.Ws.Session.{WsMessage, end_batch}
use hical.Base.{
  take, List, drop, inl, ℕ, suc, ◌+◌, ◌≤◌, ◌<◌, ◌≡◌, refl, Bool, true, false, [], ◌∷◌, ◌++◌, Option,
  none, some, Text, codes, arith,
}
use hical.Ws.Mask.{unmask_payload, unmask_words, unmask_tail}
use hical.Ws.Frame.{
  WsFrameHeader, parse_ws_frame_header, read_header, read_length, build_close_payload, length_bytes,
  op_text, close_protocol_error,
}
use hical.Ws.Session.{
  Session, again, max_frames_per_batch, consume_bytes, reply_close, reject, encode_frame,
  write_batch_locked, flush_batch, queue_frame_locked, queue_frame,
}
use hical.Ws.Session.Receive.{
  finish_message, start_message, data_frame, handle_frame, check_header, receive_step,
}
use hical.Ws.Session.Turn.{receive_step-again, IsAllowed}
use hical.Ws.Session.Batch.{
  Received, returned, read_more, ensure_bytes, receive_loop, receive_batch,
}
use hical.Ws.Session.Finite.{receive_batch-IsSound, IsSound}

abbrev no_deflate : ℕ → Text → ℕ → ℕ × Option Text
no_deflate d input limit = (d, none)

abbrev writes : ℕ → Bool
writes k = true

abbrev session : Text → Session ℕ
session buffer = record {
  is_open = true;
  max_message_size = 1048576;
  deflate_ctx = none;
  read_buf = buffer;
  fragment_buf = [];
  fragment_opcode = op_text;
  fragment_compressed = false;
  write_count = 0;
  write_batch = [];
  batching = false;
  close_reply_buf = [];
  close_reply_pending = false;
  last_pong_time = 0;
  sent = [];
}

-- A masked ping "Hi", and the first half of a masked "Hello".
abbrev ping : Text
ping = 0x89 ∷ 0x82 ∷ 0x01 ∷ 0x02 ∷ 0x03 ∷ 0x04 ∷ 0x49 ∷ 0x6b ∷ []

abbrev hello_start : Text
hello_start = 0x81 ∷ 0x85 ∷ 0x37 ∷ 0xfa ∷ 0x21 ∷ []

abbrev hello_end : Text
hello_end = 0x3d ∷ 0x7f ∷ 0x9f ∷ 0x4d ∷ 0x51 ∷ 0x58 ∷ []

abbrev after_ping : Session ℕ
after_ping = record (session hello_start) { write_batch = 0x8a ∷ 0x02 ∷ 0x48 ∷ 0x69 ∷ [] }

ping_answered :
    receive_step no_deflate writes 7 (session (ping ++ hello_start)) [] 0 ≡ again after_ping [] 1
unfolding receive_step check_header handle_frame consume_bytes queue_frame queue_frame_locked
    encode_frame length_bytes parse_ws_frame_header read_header read_length unmask_payload
    unmask_words unmask_tail
ping_answered = refl

abbrev no_messages : List WsMessage
no_messages = []

receive_step-again_example :
    (hdr : WsFrameHeader) × (parse_ws_frame_header (ping ++ hello_start) ≡ some hdr)
    × IsAllowed (session (ping ++ hello_start)) hdr
    × ((hello_start ≡ drop (hdr.header_size + hdr.payload_length) (ping ++ hello_start))
        × (1 ≡ suc 0)
        × (0 ≤ 0 + 1)
        × (take 0 no_messages ≡ no_messages)
        × (after_ping.max_message_size ≡ (session (ping ++ hello_start)).max_message_size)
        × (0 ≤ 1048576))
    × (0 < max_frames_per_batch)
receive_step-again_example =
    receive_step-again no_deflate writes 7 (session (ping ++ hello_start)) after_ping [] [] 0 1
      (omega arith) (omega arith) ping_answered

receive_batch-IsSound_example :
    (r : Received ℕ) × (receive_batch no_deflate writes 7 true 100
        (session ping)
        (hello_start ∷ hello_end ∷ [])
      ≡ some r)
    × IsSound r
receive_batch-IsSound_example =
    receive_batch-IsSound no_deflate writes 7 true 100 (session ping) (hello_start ∷ hello_end ∷ [])
      (omega arith) (omega arith) (omega arith)

-- The ping is answered, the two halves of "Hello" make one message, and then the socket ends.
batch_decoded :
    receive_batch no_deflate writes 7 true 100 (session ping) (hello_start ∷ hello_end ∷ [])
    ≡ some (
        returned
          (record (session []) { write_count = 1; sent = (0x8a ∷ 0x02 ∷ 0x48 ∷ 0x69 ∷ []) ∷ [] })
          (record { type = op_text; data_of = codes "Hello" } ∷ [])
          []
          true)
unfolding receive_batch receive_loop ensure_bytes read_more flush_batch write_batch_locked
    receive_step check_header handle_frame data_frame finish_message start_message consume_bytes
    queue_frame queue_frame_locked encode_frame length_bytes parse_ws_frame_header read_header
    read_length unmask_payload unmask_words unmask_tail
batch_decoded = refl

-- A frame without a mask closes the session with status 1002.
unmasked_refused :
    receive_step no_deflate writes 7 (session (0x81 ∷ 0x00 ∷ [])) [] 0
    ≡ reject
        (session (0x81 ∷ 0x00 ∷ []))
        []
        close_protocol_error
        (codes "Client frames must be masked")
unfolding receive_step check_header reject build_close_payload reply_close parse_ws_frame_header
    read_header read_length
unmasked_refused = refl

-- "Hello" in two fragments, a ping behind it.
abbrev hel : Piece
hel = record { payload = codes "Hel"; key = record { k0 = 1; k1 = 2; k2 = 3; k3 = 4 } }

abbrev lo : Piece
lo = record { payload = codes "lo"; key = record { k0 = 5; k1 = 6; k2 = 7; k3 = 8 } }

hel-IsPiece : IsPiece hel
hel-IsPiece = (
  (omega arith, (omega arith, (omega arith, tt))),
  record { byte0 = omega arith; byte1 = omega arith; byte2 = omega arith; byte3 = omega arith },
)

lo-IsPiece : IsPiece lo
lo-IsPiece = (
  (omega arith, (omega arith, tt)),
  record { byte0 = omega arith; byte1 = omega arith; byte2 = omega arith; byte3 = omega arith },
)

message-Runs_example :
    (t : Session ℕ) × Runs no_deflate writes 7
      (session (message_frames op_text hel (lo ∷ []) ++ ping))
      []
      3
      t
      (record { type = op_text; data_of = codes "Hello" } ∷ [])
      5
    × (t.read_buf ≡ ping)
message-Runs_example =
    message-Runs no_deflate writes 7 (session (message_frames op_text hel (lo ∷ []) ++ ping)) [] 3
      op_text hel (lo ∷ []) ping (inl refl) (hel-IsPiece, (lo-IsPiece, tt)) (omega arith)
      (omega arith) (omega arith) refl

-- A continuation that continues nothing is taken for a message of its own.
stray_continuation :
    receive_step no_deflate writes 7
      (session (0x80 ∷ 0x81 ∷ 0x01 ∷ 0x02 ∷ 0x03 ∷ 0x04 ∷ 0x79 ∷ []))
      []
      0
    ≡ again (session []) (record { type = op_text; data_of = codes "x" } ∷ []) 1
unfolding receive_step check_header handle_frame data_frame finish_message start_message
    consume_bytes parse_ws_frame_header read_header read_length unmask_payload unmask_words
    unmask_tail
stray_continuation = refl

-- A session with a pong to write and a close frame due.
abbrev closing : Session ℕ
closing = record (session []) {
  is_open = false;
  write_batch = 0x8a ∷ 0x02 ∷ 0x48 ∷ 0x69 ∷ [];
  batching = true;
  close_reply_buf = 0x03 ∷ 0xe8 ∷ [];
  close_reply_pending = true;
}

end_batch_sends_example :
    (end_batch writes closing).sent ≡ ([] ++ batch_write closing) ++ close_write closing
end_batch_sends_example = end_batch_sends writes closing (λ k. refl)
