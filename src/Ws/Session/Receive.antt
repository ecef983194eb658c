-- ===== src/Ws/Session/Receive.antt =====
-- src/core/WebSocket.cpp: receiveBatch, one turn of its loop at a time, and ensureBytes.
use hical.Base.{
  ℕ, suc, ◌+◌, Bool, true, false, not, ◌&&◌, ◌||◌, List, [], ◌∷◌, ◌++◌, Option, none, some, Text,
  codes, length, take, drop, ltb, leb, ◌==◌, if◌then◌else◌, is_some, add64,
}
use hical.Ws.Mask.{unmask_payload}
use hical.Ws.Frame.{
  WsFrameHeader, op_continuation, op_text, op_binary, op_close, op_ping, op_pong,
  close_protocol_error, close_message_too_big, parse_ws_frame_header,
}
use hical.Ws.Session.{
  WsMessage, Session, Next, again, await_bytes, return, thrown, max_frames_per_batch, consume_bytes,
  reply_close, reject, queue_frame,
}

-- `!out.empty()`
abbrev pub any_of : List WsMessage → Bool
any_of [] = false
any_of (m ∷ ms) = true

abbrev pub frame_size_of : WsFrameHeader → ℕ
frame_size_of hdr = add64 hdr.header_size hdr.payload_length

abbrev pub is_control : WsFrameHeader → Bool
is_control hdr = leb 8 hdr.opcode

-- The payload in the buffer, unmasked, and the buffer with it in place.
abbrev pub payload_of : Text → WsFrameHeader → Text
payload_of buffer hdr =
    unmask_payload (take hdr.payload_length (drop hdr.header_size buffer)) hdr.mask_key

abbrev pub unmasked : Text → WsFrameHeader → Text
unmasked buffer hdr =
    take hdr.header_size buffer
    ++ (payload_of buffer hdr ++ drop hdr.payload_length (drop hdr.header_size buffer))

-- `decompress` is WsDeflateContext::decompress, over zlib: none says that it threw. The time of a
-- pong is `now`.
module _ {D : Type 0} (decompress : D → Text → ℕ → D × Option Text) (write_ok : ℕ → Bool)
    (now : ℕ) where
  -- A message is complete: decompressed, or moved out of the buffer, which leaves that empty.
  unfoldable pub finish_message : Session D → List WsMessage → ℕ → Next D
  finish_message s out frames =
      let plain =
        again (record s { fragment_buf = [] })
          (out ++ (record { type = s.fragment_opcode; data_of = s.fragment_buf } ∷ [])) frames in
      if s.fragment_compressed
      then elim s.deflate_ctx [
        | none ↦ plain
        | some ctx ↦
            let (ctx', result) = decompress ctx s.fragment_buf s.max_message_size in
            let t = record s { deflate_ctx = some ctx' } in
            elim result [
              | none ↦ thrown t out
              | some text ↦
                  again t (out ++ (record { type = s.fragment_opcode; data_of = text } ∷ [])) frames
            ]
      ]
      else plain

  -- The first frame of a message resets the fragments.
  unfoldable pub start_message : Session D → WsFrameHeader → Session D
  start_message s hdr =
      if hdr.opcode == op_text || hdr.opcode == op_binary
      then record s {
        fragment_buf = [];
        fragment_opcode = hdr.opcode;
        fragment_compressed = hdr.rsv1;
      }
      else s

  unfoldable pub data_frame : Session D → List WsMessage → ℕ → WsFrameHeader → Text → Next D
  unfolding start_message finish_message consume_bytes reject
  data_frame s out frames hdr payload =
      let started = start_message s hdr in
      let t = record started { fragment_buf = started.fragment_buf ++ payload } in
      if not ((hdr.opcode == op_text || hdr.opcode == op_binary) || hdr.opcode == op_continuation)
      then reject s out close_protocol_error (codes "Unknown opcode")
      else if ltb t.max_message_size (length t.fragment_buf)
      then reject t out close_message_too_big []
      else if hdr.fin
      then finish_message (consume_bytes t (frame_size_of hdr)) out (suc frames)
      else again (consume_bytes t (frame_size_of hdr)) out (suc frames)

  -- A whole frame is in the buffer.
  unfoldable pub handle_frame : Session D → List WsMessage → ℕ → WsFrameHeader → Next D
  unfolding data_frame consume_bytes reply_close queue_frame
  handle_frame s out frames hdr =
      let payload = payload_of s.read_buf hdr in
      let t = record s { read_buf = unmasked s.read_buf hdr } in
      let size = frame_size_of hdr in
      if hdr.opcode == op_close
      then return
          (record (consume_bytes (reply_close t (if leb 2 hdr.payload_length then payload else []))
            size) { is_open = false })
          out false
      else if hdr.opcode == op_ping
      then again (consume_bytes (queue_frame write_ok t op_pong payload) size) out (suc frames)
      else if hdr.opcode == op_pong
      then again (consume_bytes (record t { last_pong_time = now }) size) out (suc frames)
      else data_frame t out frames hdr payload

  -- The checks of a parsed header.
  unfoldable pub check_header : Session D → List WsMessage → ℕ → WsFrameHeader → Next D
  unfolding handle_frame reject
  check_header s out frames hdr =
      if hdr.rsv2 || hdr.rsv3
      then reject s out close_protocol_error (codes "Unexpected RSV2/RSV3")
      else if hdr.rsv1 && not (is_some s.deflate_ctx)
      then reject s out close_protocol_error (codes "Unexpected RSV1 without deflate")
      else if not hdr.masked
      then reject s out close_protocol_error (codes "Client frames must be masked")
      else if is_control hdr && ltb 125 hdr.payload_length
      then reject s out close_protocol_error (codes "Control frame payload too large")
      else if ltb s.max_message_size hdr.payload_length
      then reject s out close_message_too_big []
      else if ltb (length s.read_buf) (frame_size_of hdr)
      then (if any_of out then return s out true else await_bytes s out frames (frame_size_of hdr))
      else handle_frame s out frames hdr

  -- One turn of the loop.
  unfoldable pub receive_step : Session D → List WsMessage → ℕ → Next D
  unfolding check_header parse_ws_frame_header
  receive_step s out frames =
      if leb max_frames_per_batch frames
      then return s out true
      else if ltb (length s.read_buf) 2
      then (if any_of out then return s out true else await_bytes s out frames 2)
      else elim (parse_ws_frame_header s.read_buf) [
        | none ↦
            if any_of out
            then return s out true
            else await_bytes s out frames (length s.read_buf + 1)
        | some hdr ↦ check_header s out frames hdr
      ]
