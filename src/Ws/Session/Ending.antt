-- ===== src/Ws/Session/Ending.antt =====
-- endBatch of src/core/WebSocket.cpp, and what the socket is given.
use hical.Base.{
  ℕ, ◌≡◌, refl, Bool, true, false, List, [], ◌∷◌, ◌++◌, Text, is_empty, if◌then◌else◌, append-nil,
  arith,
}
use hical.Ws.Frame.{op_close, build_ws_frame}
use hical.Ws.Session.{Session, encode_frame, write_batch_locked, flush_batch, send_frame, end_batch}

-- encodeFrame writes what buildWsFrame builds.
encode_frame-build_ws_frame :
    (dst payload : Text) (opcode : ℕ) (fin rsv1 : Bool)
    → encode_frame dst opcode payload fin rsv1 ≡ dst ++ build_ws_frame opcode payload fin rsv1
unfolding encode_frame build_ws_frame
encode_frame-build_ws_frame dst payload opcode fin rsv1 = refl

is_empty_nil : (xs : Text) → is_empty xs ≡ true → xs ≡ []
is_empty_nil [] h = refl
is_empty_nil (x ∷ xs) h = cc

-- The batch, if there is one, and the close frame, if one is due.
abbrev pub batch_write : {D : Type 0} → Session D → List Text
batch_write s = if is_empty s.write_batch then [] else s.write_batch ∷ []

abbrev pub close_write : {D : Type 0} → Session D → List Text
close_write s =
    if s.close_reply_pending then build_ws_frame op_close s.close_reply_buf true false ∷ [] else []

module _ {D : Type 0} (write_ok : ℕ → Bool) (s : Session D) where
  flush_clears :
      ((flush_batch write_ok s).write_batch ≡ [])
      × ((flush_batch write_ok s).batching ≡ s.batching)
      × ((flush_batch write_ok s).close_reply_pending ≡ s.close_reply_pending)
      × ((flush_batch write_ok s).close_reply_buf ≡ s.close_reply_buf)
      × ((flush_batch write_ok s).read_buf ≡ s.read_buf)
  unfolding flush_batch write_batch_locked
  flush_clears = ground (arith, is_empty_nil s.write_batch)

  flush_sends :
      ((k : ℕ) → write_ok k ≡ true) → (flush_batch write_ok s).sent ≡ s.sent ++ batch_write s
  unfolding flush_batch write_batch_locked
  flush_sends ok = ground (arith, ok s.write_count, append-nil s.sent)

  -- A frame that is written at once.
  module _ (payload : Text) (direct : s.batching ≡ false) where
    send_frame_keeps :
        ((send_frame write_ok s op_close payload true false).0.write_batch ≡ s.write_batch)
        × ((send_frame write_ok s op_close payload true false).0.batching ≡ s.batching)
        × ((send_frame write_ok s op_close payload true false).0.close_reply_pending
            ≡ s.close_reply_pending)
        × ((send_frame write_ok s op_close payload true false).0.read_buf ≡ s.read_buf)
    unfolding send_frame
    send_frame_keeps = ground (arith, direct)

    send_frame_sends :
        ((k : ℕ) → write_ok k ≡ true)
        → (send_frame write_ok s op_close payload true false).0.sent
          ≡ s.sent ++ (encode_frame [] op_close payload true false ∷ [])
    unfolding send_frame
    send_frame_sends ok = ground (arith, direct, ok s.write_count)

module _ {D : Type 0} (write_ok : ℕ → Bool) (s : Session D) where
  abbrev flushed : Session D
  flushed = flush_batch write_ok (record s { batching = false })

  abbrev unowed : Session D
  unowed = record flushed { close_reply_pending = false }

  -- At the end of a batch, whether its writes succeed or not, no frame is left to write, no close frame
  -- is due, frames are no longer gathered, and the read buffer is as it was.
  pub end_batch_clears :
      ((end_batch write_ok s).write_batch ≡ [])
      × ((end_batch write_ok s).close_reply_pending ≡ false)
      × ((end_batch write_ok s).batching ≡ false)
      × ((end_batch write_ok s).read_buf ≡ s.read_buf)
  unfolding end_batch
  end_batch_clears =
      let flush = flush_clears write_ok (record s { batching = false }) in
      let send = send_frame_keeps write_ok unowed flushed.close_reply_buf (flush.1) in
      ground (arith, flush, send)

  -- Where every write succeeds, the end of a batch gives the socket the gathered frames first, in one
  -- write, and after them the close frame, if one is due.
  pub end_batch_sends :
      ((k : ℕ) → write_ok k ≡ true)
      → (end_batch write_ok s).sent ≡ (s.sent ++ batch_write s) ++ close_write s
  unfolding end_batch
  end_batch_sends ok =
      let flush = flush_clears write_ok (record s { batching = false }) in
      let sent = flush_sends write_ok (record s { batching = false }) ok in
      let send = send_frame_sends write_ok unowed flushed.close_reply_buf flush.1 ok in
      ground (
        arith,
        flush,
        sent,
        send,
        append-nil (s.sent ++ batch_write s),
        encode_frame-build_ws_frame [] s.close_reply_buf op_close true false,
      )
