-- ===== src/Ws/Session.antt =====
-- src/core/WebSocket.cpp: the session's buffers, its writes and the loop that decodes frames. One
-- coroutine runs at a time, so the write lock is always free; `sent` is what the socket was given.
use hical.Base.{
  ℕ, zero, suc, ◌+◌, Bool, true, false, not, ◌&&◌, ◌||◌, List, [], ◌∷◌, ◌++◌, Option, none, some,
  Text, codes, length, take, drop, ltb, leb, ◌==◌, if◌then◌else◌, is_some, is_empty, add64,
}
use hical.Ws.Mask.{unmask_payload}
use hical.Ws.Frame.{
  WsOpcode, WsCloseCode, WsFrameHeader, op_continuation, op_text, op_binary, op_close, op_ping,
  op_pong, close_protocol_error, close_message_too_big, first_byte, length_bytes,
  parse_ws_frame_header, build_close_payload,
}
pub mod Receive
pub mod Consume
pub mod Turn
pub mod Batch
pub mod Ends
pub mod Finite
pub mod Ending
pub mod Branches
pub mod Fragments
pub mod Messages

pub record WsMessage : Type 0 where
  pub type : WsOpcode
  pub data_of : Text

-- D is the state of the deflate context, which zlib keeps.
pub record Session (D : Type 0) : Type 0 where
  pub is_open : Bool
  pub max_message_size : ℕ
  pub deflate_ctx : Option D
  pub read_buf : Text
  pub fragment_buf : Text
  pub fragment_opcode : WsOpcode
  pub fragment_compressed : Bool
  pub write_count : ℕ
  pub write_batch : Text
  pub batching : Bool
  pub close_reply_buf : Text
  pub close_reply_pending : Bool
  pub last_pong_time : ℕ
  pub sent : List Text

abbrev pub write_batch_bytes : ℕ
write_batch_bytes = 65536

abbrev pub max_frames_per_batch : ℕ
max_frames_per_batch = 256

-- encodeFrame: a frame appended to what the buffer holds.
unfoldable pub encode_frame : Text → WsOpcode → Text → Bool → Bool → Text
unfolding length_bytes
encode_frame dst opcode payload fin rsv1 =
    dst ++ (first_byte fin rsv1 opcode ∷ (length_bytes 0 (length payload) ++ payload))

-- What one turn of the loop in receiveBatch leads to: the next turn, a read until so many bytes are
-- there, the end with its result, or an exception of the deflate context.
pub data Next (D : Type 0) : Type 0 where
  again : Session D → List WsMessage → ℕ → Next D
  await_bytes : Session D → List WsMessage → ℕ → ℕ → Next D
  return : Session D → List WsMessage → Bool → Next D
  thrown : Session D → List WsMessage → Next D

module _ {D : Type 0} where
  unfoldable pub consume_bytes : Session D → ℕ → Session D
  consume_bytes s n = record s {
    read_buf = if leb (length s.read_buf) n then [] else drop n s.read_buf;
  }

  unfoldable pub reply_close : Session D → Text → Session D
  reply_close s payload = record s { close_reply_buf = payload; close_reply_pending = true }

  -- The end of a session that broke the protocol, the same in each branch of receiveBatch.
  unfoldable pub reject : Session D → List WsMessage → WsCloseCode → Text → Next D
  unfolding reply_close build_close_payload
  reject s out code reason =
      return (record (reply_close s (build_close_payload code reason)) { is_open = false }) out
        false

  -- `write_ok k`: whether the write number k succeeds.
  module _ (write_ok : ℕ → Bool) where
    unfoldable pub write_batch_locked : Session D → Session D
    write_batch_locked s =
        if is_empty s.write_batch
        then s
        else if write_ok s.write_count
        then record s {
          write_count = suc s.write_count;
          sent = s.sent ++ (s.write_batch ∷ []);
          write_batch = [];
        }
        else record s { write_count = suc s.write_count; write_batch = []; is_open = false }

    unfoldable pub flush_batch : Session D → Session D
    unfolding write_batch_locked
    flush_batch s = if is_empty s.write_batch then s else write_batch_locked s

    unfoldable pub queue_frame_locked : Session D → WsOpcode → Text → Bool → Bool → Session D
    unfolding encode_frame write_batch_locked
    queue_frame_locked s opcode payload fin rsv1 =
        let t = record s { write_batch = encode_frame s.write_batch opcode payload fin rsv1 } in
        if leb write_batch_bytes (length t.write_batch) then write_batch_locked t else t

    unfoldable pub queue_frame : Session D → WsOpcode → Text → Session D
    unfolding queue_frame_locked
    queue_frame s opcode payload = queue_frame_locked s opcode payload true false

    -- sendFrame; false says that the write threw.
    unfoldable pub send_frame : Session D → WsOpcode → Text → Bool → Bool → Session D × Bool
    unfolding queue_frame_locked encode_frame
    send_frame s opcode payload fin rsv1 =
        if s.batching
        then (queue_frame_locked s opcode payload fin rsv1, true)
        else (if write_ok s.write_count
            then (
              record s {
                write_count = suc s.write_count;
                sent = s.sent ++ (encode_frame [] opcode payload fin rsv1 ∷ []);
              },
              true,
            )
            else (record s { write_count = suc s.write_count }, false))

    unfoldable pub begin_batch : Session D → Session D
    begin_batch s = record s { batching = true }

    -- endBatch: the responses first, then the close frame; a write that throws is ignored.
    unfoldable pub end_batch : Session D → Session D
    unfolding flush_batch send_frame
    end_batch s =
        let t = flush_batch (record s { batching = false }) in
        if t.close_reply_pending
        then (let u =
              (send_frame (record t { close_reply_pending = false }) op_close t.close_reply_buf true
                false).0 in
            record u { close_reply_buf = [] })
        else t
