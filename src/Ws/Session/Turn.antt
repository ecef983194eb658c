-- ===== src/Ws/Session/Turn.antt =====
-- One turn of receiveBatch in src/core/WebSocket.cpp that goes on.
use hical.Base.{
  ℕ, suc, ◌+◌, ◌^◌, ◌≤◌, ◌<◌, ◌≡◌, refl, Bool, true, false, not, ◌||◌, List, [], ◌∷◌, ◌++◌, Option,
  some, Text, length, take, drop, leb, ◌==◌, is_some, arith, length-append, subst, ap, inl, inr,
  Option-cases,
}
use hical.Ws.Frame.{
  WsFrameHeader, WsOpcode, op_continuation, op_text, op_binary, op_ping, op_pong,
  parse_ws_frame_header,
}
use hical.Ws.Frame.Incremental.{parse-header_size}
use hical.Ws.Session.{
  WsMessage, Session, again, max_frames_per_batch, consume_bytes, reject, queue_frame,
  queue_frame_locked, write_batch_locked,
}
use hical.Ws.Session.Consume.{consume_bytes-drop, drop-unmasked_whole}
use hical.Ws.Session.Receive.{
  frame_size_of, is_control, payload_of, unmasked, finish_message, start_message, data_frame,
  handle_frame, check_header, receive_step,
}

pub frame_size_exact :
    (hdr : WsFrameHeader) (limit : ℕ)
    → hdr.header_size ≤ 14
    → hdr.payload_length ≤ limit
    → limit + 14 < 2 ^ 64
    → frame_size_of hdr ≡ hdr.header_size + hdr.payload_length
frame_size_exact hdr limit h k r = omega arith

first_all {ℓ} : {A : Type ℓ} (xs : List A) → take (length xs) xs ≡ xs
first_all [] = refl
first_all (x ∷ xs) = ap (◌∷◌ x) (first_all xs)

first-append {ℓ} : {A : Type ℓ} (xs ys : List A) → take (length xs) (xs ++ ys) ≡ xs
first-append [] ys = refl
first-append (x ∷ xs) ys = ap (◌∷◌ x) (first-append xs ys)

-- Nothing but the buffer is changed by it.
consume_bytes_keeps :
    {D : Type 0} (s : Session D) (n : ℕ)
    → ((consume_bytes s n).fragment_buf ≡ s.fragment_buf)
      × ((consume_bytes s n).max_message_size ≡ s.max_message_size)
      × ((consume_bytes s n).is_open ≡ s.is_open)
      × ((consume_bytes s n).deflate_ctx ≡ s.deflate_ctx)
unfolding consume_bytes
consume_bytes_keeps s n = (refl, refl, refl, refl)

-- The opcodes after which a session goes on.
abbrev pub known_opcode : WsOpcode → Bool
known_opcode opcode =
    opcode == op_continuation
    || (opcode == op_text || (opcode == op_binary || (opcode == op_ping || opcode == op_pong)))

-- What RFC 6455 asks of a client's frame, as far as a session checks it.
pub record IsAllowed {D : Type 0} (s : Session D) (hdr : WsFrameHeader) : Type 0 where
  pub reserved : (hdr.rsv2 ≡ false) × (hdr.rsv3 ≡ false)
  pub compressed : (not hdr.rsv1 || is_some s.deflate_ctx) ≡ true
  pub masked : hdr.masked ≡ true
  pub control_fits : (not (is_control hdr) || leb hdr.payload_length 125) ≡ true
  pub payload_fits : hdr.payload_length ≤ s.max_message_size
  pub known : known_opcode hdr.opcode ≡ true
  pub whole : hdr.header_size + hdr.payload_length ≤ length s.read_buf

queue_frame_keeps :
    {D : Type 0} (write_ok : ℕ → Bool) (s : Session D) (opcode : WsOpcode) (payload : Text)
    → ((queue_frame write_ok s opcode payload).read_buf ≡ s.read_buf)
      × ((queue_frame write_ok s opcode payload).fragment_buf ≡ s.fragment_buf)
      × ((queue_frame write_ok s opcode payload).max_message_size ≡ s.max_message_size)
unfolding queue_frame queue_frame_locked write_batch_locked
queue_frame_keeps write_ok s opcode payload = ground arith

module _ {D : Type 0} (decompress : D → Text → ℕ → D × Option Text) (write_ok : ℕ → Bool)
    (now : ℕ) where
  finish-again :
      (s s' : Session D) (out out' : List WsMessage) (frames frames' : ℕ)
      → finish_message decompress write_ok now s out frames ≡ again s' out' frames'
      → (s'.read_buf ≡ s.read_buf)
        × (frames' ≡ frames)
        × (length out' ≤ length out + 1)
        × (take (length out) out' ≡ out)
        × (s'.max_message_size ≡ s.max_message_size)
        × (length s'.fragment_buf ≤ length s.fragment_buf)
  unfolding finish_message
  finish-again s s' out out' frames frames' h = grind (arith, length-append, first-append)

  start_message_keeps :
      (s : Session D) (hdr : WsFrameHeader)
      → ((start_message decompress write_ok now s hdr).read_buf ≡ s.read_buf)
        × ((start_message decompress write_ok now s hdr).max_message_size ≡ s.max_message_size)
  unfolding start_message
  start_message_keeps s hdr = ground arith

  data_frame-again :
      (s s' : Session D) (out out' : List WsMessage) (frames frames' : ℕ) (hdr : WsFrameHeader)
      (payload : Text)
      → data_frame decompress write_ok now s out frames hdr payload ≡ again s' out' frames'
      → (s'.read_buf ≡ drop (frame_size_of hdr) s.read_buf)
        × (frames' ≡ suc frames)
        × (length out' ≤ length out + 1)
        × (take (length out) out' ≡ out)
        × (s'.max_message_size ≡ s.max_message_size)
        × (length s'.fragment_buf ≤ s.max_message_size)
        × (known_opcode hdr.opcode ≡ true)
  unfolding data_frame reject
  data_frame-again s s' out out' frames frames' hdr payload h =
      let started = start_message decompress write_ok now s hdr in
      let t = record started { fragment_buf = started.fragment_buf ++ payload } in
      let u = consume_bytes t (frame_size_of hdr) in
      ground (
        arith,
        finish-again u s' out out' (suc frames) frames',
        consume_bytes-drop t (frame_size_of hdr),
        first_all out,
        consume_bytes_keeps t (frame_size_of hdr),
        start_message_keeps s hdr,
      )

  -- A turn that goes on has consumed its frame, counted it, and kept the fragments in bounds.
  abbrev pub Advances : Session D → List WsMessage → ℕ → ℕ → Session D → List WsMessage → ℕ → Type 0
  Advances s out frames size s' out' frames' =
      (s'.read_buf ≡ drop size s.read_buf)
      × (frames' ≡ suc frames)
      × (length out' ≤ length out + 1)
      × (take (length out) out' ≡ out)
      × (s'.max_message_size ≡ s.max_message_size)
      × (length s'.fragment_buf ≤ s.max_message_size)

  handle_frame-again :
      (s s' : Session D) (out out' : List WsMessage) (frames frames' : ℕ) (hdr : WsFrameHeader)
      → frame_size_of hdr ≡ hdr.header_size + hdr.payload_length
      → frame_size_of hdr ≤ length s.read_buf
      → length s.fragment_buf ≤ s.max_message_size
      → handle_frame decompress write_ok now s out frames hdr ≡ again s' out' frames'
      → Advances s out frames (frame_size_of hdr) s' out' frames' × (known_opcode hdr.opcode ≡ true)
  unfolding handle_frame
  handle_frame-again s s' out out' frames frames' hdr exact fits bounded h =
      let payload = payload_of s.read_buf hdr in
      let t = record s { read_buf = unmasked s.read_buf hdr } in
      let size = frame_size_of hdr in
      ground (
        arith,
        data_frame-again t s' out out' frames frames' hdr payload,
        drop-unmasked_whole s.read_buf hdr size exact fits,
        first_all out,
        queue_frame_keeps write_ok t op_pong payload,
        consume_bytes-drop (queue_frame write_ok t op_pong payload) size,
        consume_bytes_keeps (queue_frame write_ok t op_pong payload) size,
        consume_bytes-drop (record t { last_pong_time = now }) size,
        consume_bytes_keeps (record t { last_pong_time = now }) size,
      )

  check_header_passes :
      (s s' : Session D) (out out' : List WsMessage) (frames frames' : ℕ) (hdr : WsFrameHeader)
      → check_header decompress write_ok now s out frames hdr ≡ again s' out' frames'
      → (hdr.rsv2 ≡ false)
        × (hdr.rsv3 ≡ false)
        × ((not hdr.rsv1 || is_some s.deflate_ctx) ≡ true)
        × (hdr.masked ≡ true)
        × ((not (is_control hdr) || leb hdr.payload_length 125) ≡ true)
        × (hdr.payload_length ≤ s.max_message_size)
        × (frame_size_of hdr ≤ length s.read_buf)
        × (handle_frame decompress write_ok now s out frames hdr ≡ again s' out' frames')
  unfolding check_header reject
  check_header_passes s s' out out' frames frames' hdr h = ground arith

  check_header-again :
      (s s' : Session D) (out out' : List WsMessage) (frames frames' : ℕ) (hdr : WsFrameHeader)
      → hdr.header_size ≤ 14
      → s.max_message_size + 14 < 2 ^ 64
      → length s.fragment_buf ≤ s.max_message_size
      → check_header decompress write_ok now s out frames hdr ≡ again s' out' frames'
      → IsAllowed s hdr
        × Advances s out frames (hdr.header_size + hdr.payload_length) s' out' frames'
  check_header-again s s' out out' frames frames' hdr small room bounded h =
      let (r2, r3, compressed, masked, control, payload, there, handled) =
        check_header_passes s s' out out' frames frames' hdr h in
      let size = frame_size_exact hdr s.max_message_size small payload room in
      let whole = subst (λ n. n ≤ length s.read_buf) size there in
      let (advances, known) =
        handle_frame-again s s' out out' frames frames' hdr size there bounded handled in
      (
        record {
          reserved = (r2, r3);
          compressed = compressed;
          masked = masked;
          control_fits = control;
          payload_fits = payload;
          known = known;
          whole = whole;
        },
        subst (λ n. Advances s out frames n s' out' frames') size advances,
      )

  -- A turn of the loop that goes on: for a session whose limit leaves room for a header below 2^64
  -- and whose fragments are within it, the buffer starts with a whole frame that a client may send
  -- (masked, no reserved bit, compressed only where that was agreed, a control frame of at most 125
  -- bytes, a payload within the limit, an opcode that is known and no close). The turn leaves
  -- of the buffer what stood behind that frame, counts one frame, keeps the messages that there were
  -- in front and adds one at most, and keeps the fragments within the limit.
  pub receive_step-again :
      (s s' : Session D) (out out' : List WsMessage) (frames frames' : ℕ)
      → s.max_message_size + 14 < 2 ^ 64
      → length s.fragment_buf ≤ s.max_message_size
      → receive_step decompress write_ok now s out frames ≡ again s' out' frames'
      → (hdr : WsFrameHeader) × (parse_ws_frame_header s.read_buf ≡ some hdr)
        × IsAllowed s hdr
        × Advances s out frames (hdr.header_size + hdr.payload_length) s' out' frames'
        × (frames < max_frames_per_batch)
  unfolding receive_step
  receive_step-again s s' out out' frames frames' room bounded h =
      elim (Option-cases (parse_ws_frame_header s.read_buf)) [
        | inl e ↦ absurd (ground arith)
        | inr (hdr, e) ↦
            let (two, small, there) = parse-header_size s.read_buf hdr e in
            let (allowed, advances) =
              check_header-again s s' out out' frames frames' hdr small room bounded
                (ground arith) in
            (hdr, e, allowed, advances, ground arith)
      ]
