-- ===== src/Ws/Session/Batch.antt =====
-- src/core/WebSocket.cpp: ensureBytes and the whole of receiveBatch. `chunks` is what each
-- async_read_some brings, after which the socket fails; `clean` says whether that failure is an end
-- of file, a reset or an abort, which receiveBatch takes for the end of the session.
use hical.Base.{
  ℕ, zero, suc, Bool, true, false, List, [], ◌∷◌, ◌++◌, Option, none, some, Text, length, leb,
  if◌then◌else◌,
}
use hical.Ws.Session.{WsMessage, Session, again, await_bytes, return, thrown, flush_batch}
use hical.Ws.Session.Receive.{receive_step}

-- How receiveBatch ends: it returns, or an error of the socket or of the deflate context leaves it.
pub data Received (D : Type 0) : Type 0 where
  returned : Session D → List WsMessage → List Text → Bool → Received D
  socket_threw : Session D → List WsMessage → Received D
  deflate_threw : Session D → List WsMessage → List Text → Received D

-- The loop of ensureBytes; false says that a read threw.
unfoldable pub read_more : {D : Type 0} → Session D → ℕ → List Text → Session D × List Text × Bool
read_more s n [] = (s, [], leb n (length s.read_buf))
read_more s n (chunk ∷ chunks) =
    let rest = read_more (record s { read_buf = s.read_buf ++ chunk }) n chunks in
    if leb n (length s.read_buf) then (s, chunk ∷ chunks, true) else rest

module _ {D : Type 0} (decompress : D → Text → ℕ → D × Option Text) (write_ok : ℕ → Bool)
    (now : ℕ) where
  unfoldable pub ensure_bytes : Session D → ℕ → List Text → Session D × List Text × Bool
  unfolding read_more flush_batch
  ensure_bytes s n chunks = read_more (flush_batch write_ok s) n chunks

  unfoldable pub receive_loop :
      Bool → ℕ → Session D → List WsMessage → ℕ → List Text → Option (Received D)
  unfolding receive_step ensure_bytes
  receive_loop clean zero s out frames chunks = none
  receive_loop clean (suc fuel) s out frames chunks =
      elim (receive_step decompress write_ok now s out frames) [
        | again s' out' frames' ↦ receive_loop clean fuel s' out' frames' chunks
        | await_bytes s' out' frames' n ↦
            let (t, rest, there) = ensure_bytes s' n chunks in
            elim there [
              | true ↦ receive_loop clean fuel t out' frames' rest
              | false ↦
                  let closed = record t { is_open = false } in
                  some (if clean then returned closed out' rest false else socket_threw closed out')
            ]
        | return s' out' result ↦ some (returned s' out' chunks result)
        | thrown s' out' ↦ some (deflate_threw s' out' chunks)
      ]

  unfoldable pub receive_batch : Bool → ℕ → Session D → List Text → Option (Received D)
  unfolding receive_loop
  receive_batch clean fuel s chunks = receive_loop clean fuel s [] 0 chunks
