-- ===== src/Ws/Session/Finite.antt =====
-- receiveBatch of src/core/WebSocket.cpp from its start to its end, within a batch.
use hical.Base.{
  ℕ, zero, suc, ◌+◌, ◌^◌, ◌≤◌, ◌<◌, ◌≡◌, refl, ap, ◌∙◌, Bool, true, false, not, ◌||◌, List, [], ◌∷◌,
  ◌++◌, Option, some, Text, length, ltb, leb, if◌then◌else◌, arith, subst, length-append, total,
}
use hical.Ws.Frame.Incremental.{parse-header_size}
use hical.Ws.Session.{
  WsMessage, Session, Next, again, await_bytes, return, thrown, max_frames_per_batch, flush_batch,
  write_batch_locked,
}
use hical.Ws.Session.Receive.{receive_step}
use hical.Ws.Session.Turn.{receive_step-again}
use hical.Ws.Session.Consume.{length-drop}
use hical.Ws.Session.Ends.{receive_step-await, receive_step-return, receive_step-thrown}
use hical.Ws.Session.Batch.{
  Received, returned, socket_threw, deflate_threw, read_more, ensure_bytes, receive_loop,
  receive_batch,
}

-- The bytes that a batch can still see, and the reads that bring them.
abbrev pub pending : {D : Type 0} → Session D → List Text → ℕ
pending s chunks = length s.read_buf + (total length chunks + length chunks)

-- Where a batch may end.
abbrev pub IsSound : {D : Type 0} → Received D → Type 0
IsSound (returned s out chunks result) =
    (length out ≤ max_frames_per_batch)
    × ((result || not s.is_open) ≡ true)
    × ((not result || leb (length s.fragment_buf) s.max_message_size) ≡ true)
IsSound (socket_threw s out) = (length out ≤ max_frames_per_batch) × (s.is_open ≡ false)
IsSound (deflate_threw s out chunks) = length out ≤ max_frames_per_batch

abbrev Reads : {D : Type 0} → Session D → ℕ → List Text → Session D × List Text × Bool → Type 0
Reads s n chunks (t, rest, there) =
    (t.max_message_size ≡ s.max_message_size)
    × (t.fragment_buf ≡ s.fragment_buf)
    × (pending t rest ≤ pending s chunks)
    × ((not there || (leb n (length s.read_buf) || ltb (pending t rest) (pending s chunks))) ≡ true)

-- A read that succeeds leaves less to come.
read_more-Reads :
    {D : Type 0} (s : Session D) (n : ℕ) (chunks : List Text)
    → Reads s n chunks (read_more s n chunks)
unfolding read_more
read_more-Reads s n [] = ground arith
read_more-Reads s n (chunk ∷ chunks) = ground (
  arith,
  read_more-Reads (record s { read_buf = s.read_buf ++ chunk }) n chunks,
  length-append s.read_buf chunk,
)

flush_batch_keeps :
    {D : Type 0} (write_ok : ℕ → Bool) (s : Session D)
    → ((flush_batch write_ok s).read_buf ≡ s.read_buf)
      × ((flush_batch write_ok s).fragment_buf ≡ s.fragment_buf)
      × ((flush_batch write_ok s).max_message_size ≡ s.max_message_size)
unfolding flush_batch write_batch_locked
flush_batch_keeps write_ok s = ground arith

module _ {D : Type 0} (decompress : D → Text → ℕ → D × Option Text) (write_ok : ℕ → Bool)
    (now : ℕ) where
  ensure_bytes-Reads :
      (s : Session D) (n : ℕ) (chunks : List Text)
      → Reads s n chunks (ensure_bytes decompress write_ok now s n chunks)
  unfolding ensure_bytes
  ensure_bytes-Reads s n chunks =
      ground
        (arith, read_more-Reads (flush_batch write_ok s) n chunks, flush_batch_keeps write_ok s)

  closed-IsSound :
      (clean : Bool) (t : Session D) (out : List WsMessage) (rest : List Text)
      → length out ≤ max_frames_per_batch
      → IsSound (
          if clean
          then returned (record t { is_open = false }) out rest false
          else socket_threw (record t { is_open = false }) out)
  closed-IsSound true t out rest h = (h, refl, refl)
  closed-IsSound false t out rest h = (h, refl)

  abbrev Ends : Bool → ℕ → Session D → List WsMessage → ℕ → List Text → Type 0
  Ends clean fuel s out frames chunks =
      (r : Received D) × (receive_loop decompress write_ok now clean fuel s out frames chunks
        ≡ some r)
      × IsSound r

  abbrev Limits : Session D → List WsMessage → ℕ → Type 0
  Limits s out frames =
      (s.max_message_size + 14 < 2 ^ 64)
      × (length s.fragment_buf ≤ s.max_message_size)
      × (length out ≤ frames)
      × (frames ≤ max_frames_per_batch)

  waits_cong :
      {s s' : Session D} {out out' : List WsMessage} {frames frames' n : ℕ}
      → s' ≡ s
      → out' ≡ out
      → frames' ≡ frames
      → await_bytes s' out' frames' n ≡ await_bytes s out frames n
  waits_cong p q r = cc

  module _ (clean : Bool) (fuel : ℕ) (s t : Session D) (out : List WsMessage) (frames n : ℕ)
      (chunks rest : List Text)
      (e : receive_step decompress write_ok now s out frames ≡ await_bytes s out frames n) where
    loop-more :
        ensure_bytes decompress write_ok now s n chunks ≡ (t, rest, true)
        → receive_loop decompress write_ok now clean (suc fuel) s out frames chunks
          ≡ receive_loop decompress write_ok now clean fuel t out frames rest
    unfolding receive_loop
    loop-more h = ground (arith, e)

    loop-closed :
        ensure_bytes decompress write_ok now s n chunks ≡ (t, rest, false)
        → receive_loop decompress write_ok now clean (suc fuel) s out frames chunks
          ≡ some (
              if clean
              then returned (record t { is_open = false }) out rest false
              else socket_threw (record t { is_open = false }) out)
    unfolding receive_loop
    loop-closed h = ground (arith, e)

  moved :
      (s t : Session D) (out : List WsMessage) (frames : ℕ)
      → Limits s out frames
      → t.max_message_size ≡ s.max_message_size
      → t.fragment_buf ≡ s.fragment_buf
      → Limits t out frames
  moved s t out frames (room, bounded, few, top) p q =
      (omega (arith, p), omega (arith, p, ap length q), few, top)

  -- One turn, the loop with less fuel being sound.
  module _ (clean : Bool) (fuel : ℕ)
      (ih : (s : Session D) (out : List WsMessage) (frames : ℕ) (chunks : List Text)
        → pending s chunks < fuel
        → Limits s out frames
        → Ends clean fuel s out frames chunks) where
    await-Ends :
        (s : Session D) (out : List WsMessage) (frames : ℕ) (chunks : List Text) (n : ℕ)
        (got : Session D × List Text × Bool)
        → pending s chunks < suc fuel
        → Limits s out frames
        → length s.read_buf < n
        → receive_step decompress write_ok now s out frames ≡ await_bytes s out frames n
        → ensure_bytes decompress write_ok now s n chunks ≡ got
        → Ends clean (suc fuel) s out frames chunks
    await-Ends s out frames chunks n (t, rest, true) m l short e h =
        let reads = subst (Reads s n chunks) h (ensure_bytes-Reads s n chunks) in
        let (r, eq, sound) =
          ih t out frames rest (ground (arith, reads)) (moved s t out frames l reads.0 reads.1) in
        (r, loop-more clean fuel s t out frames n chunks rest e h ∙ eq, sound)
    await-Ends s out frames chunks n (t, rest, false) m l short e h = (
      (if clean
          then returned (record t { is_open = false }) out rest false
          else socket_threw (record t { is_open = false }) out),
      loop-closed clean fuel s t out frames n chunks rest e h,
      closed-IsSound clean t out rest (ground (arith, l)),
    )

    turn-Ends :
        (s : Session D) (out : List WsMessage) (frames : ℕ) (chunks : List Text) (next : Next D)
        → pending s chunks < suc fuel
        → Limits s out frames
        → receive_step decompress write_ok now s out frames ≡ next
        → Ends clean (suc fuel) s out frames chunks
    unfolding receive_loop
    turn-Ends s out frames chunks (again s' out' frames') m (room, bounded, few, top) e =
        let (hdr, p, allowed, advances, more) =
          receive_step-again decompress write_ok now s s' out out' frames frames' room bounded e in
        let two = (parse-header_size s.read_buf hdr p).0 in
        let (r, eq, sound) =
          ih s' out' frames' chunks
            (ground (
              arith,
              two,
              advances,
              ap length advances.0,
              length-drop (hdr.header_size + hdr.payload_length) s.read_buf,
              allowed.whole,
            ))
            (
              ground (arith, advances),
              ground (arith, advances),
              ground (arith, advances),
              ground (arith, advances, more),
            ) in
        (r, ground (arith, eq, e), sound)
    turn-Ends s out frames chunks (await_bytes s' out' frames' n) m (room, bounded, few, top) e =
        let (same, sames, count, short) =
          receive_step-await decompress write_ok now s s' out out' frames frames' n e in
        let e' = e ∙ waits_cong same sames count in
        await-Ends s out frames chunks n (ensure_bytes decompress write_ok now s n chunks) m
          (room, bounded, few, top) short e' refl
    turn-Ends s out frames chunks (return s' out' result) m (room, bounded, few, top) e =
        let stops = receive_step-return decompress write_ok now s s' out out' frames result e in
        (returned s' out' chunks result, ground (arith, e), ground (arith, stops))
    turn-Ends s out frames chunks (thrown s' out') m (room, bounded, few, top) e =
        let same = receive_step-thrown decompress write_ok now s s' out out' frames e in
        (deflate_threw s' out' chunks, ground (arith, e), ground (arith, same))

  loop-Ends :
      (clean : Bool) (fuel : ℕ) (s : Session D) (out : List WsMessage) (frames : ℕ)
      (chunks : List Text)
      → pending s chunks < fuel
      → Limits s out frames
      → Ends clean fuel s out frames chunks
  loop-Ends clean zero s out frames chunks m l = absurd (omega arith)
  loop-Ends clean (suc fuel) s out frames chunks m l =
      turn-Ends clean fuel (loop-Ends clean fuel) s out frames chunks
        (receive_step decompress write_ok now s out frames) m l refl

  -- A batch ends, and soundly: for a session whose limit leaves room for a header below 2^64 and whose
  -- fragments are within it, with more fuel than the bytes and the reads that are still to come,
  -- receiveBatch gives a result. It then holds at most 256 messages; where it returns false the session
  -- is no longer open; where it returns true the fragments are within the limit, so the next batch can
  -- start; and an error of the socket closes the session.
  pub receive_batch-IsSound :
      (clean : Bool) (fuel : ℕ) (s : Session D) (chunks : List Text)
      → pending s chunks < fuel
      → s.max_message_size + 14 < 2 ^ 64
      → length s.fragment_buf ≤ s.max_message_size
      → (r : Received D) × (receive_batch decompress write_ok now clean fuel s chunks ≡ some r)
        × IsSound r
  unfolding receive_batch
  receive_batch-IsSound clean fuel s chunks m room bounded =
      loop-Ends clean fuel s [] 0 chunks m (room, bounded, omega arith, omega arith)
