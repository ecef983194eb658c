-- ===== src/Ws/Session/Ends.antt =====
-- The ways in which receiveBatch of src/core/WebSocket.cpp ends.
use hical.Base.{
  ℕ, ◌<◌, ◌≡◌, Bool, true, false, List, Option, Text, length, arith, inl, inr, Option-cases, ◌⊎◌,
}
use hical.Ws.Frame.{WsFrameHeader, parse_ws_frame_header}
use hical.Ws.Session.{WsMessage, Session, await_bytes, return, thrown, reject}
use hical.Ws.Session.Receive.{
  payload_of, unmasked, finish_message, data_frame, handle_frame, check_header, receive_step,
}

module _ {D : Type 0} (decompress : D → Text → ℕ → D × Option Text) (write_ok : ℕ → Bool)
    (now : ℕ) where
  -- A turn waits for bytes only when it has nothing to deliver, and for more than are there.
  abbrev pub Waits : Session D → List WsMessage → ℕ → Session D → List WsMessage → ℕ → ℕ → Type 0
  Waits s out frames s' out' frames' n =
      (s' ≡ s) × (out' ≡ out) × (frames' ≡ frames) × (length s.read_buf < n)

  finish-settles :
      (s s' : Session D) (out out' : List WsMessage) (frames frames' n : ℕ)
      → finish_message decompress write_ok now s out frames ≡ await_bytes s' out' frames' n
      → ⊥
  unfolding finish_message
  finish-settles s s' out out' frames frames' n h = ground arith

  data_frame-settles :
      (s s' : Session D) (out out' : List WsMessage) (frames frames' n : ℕ) (hdr : WsFrameHeader)
      (payload : Text)
      → data_frame decompress write_ok now s out frames hdr payload ≡ await_bytes s' out' frames' n
      → ⊥
  unfolding data_frame reject finish_message
  data_frame-settles s s' out out' frames frames' n hdr payload h = ground arith

  handle_frame-settles :
      (s s' : Session D) (out out' : List WsMessage) (frames frames' n : ℕ) (hdr : WsFrameHeader)
      → handle_frame decompress write_ok now s out frames hdr ≡ await_bytes s' out' frames' n
      → ⊥
  unfolding handle_frame
  handle_frame-settles s s' out out' frames frames' n hdr h = ground (
    arith,
    data_frame-settles (record s { read_buf = unmasked s.read_buf hdr }) s' out out' frames frames'
        n hdr (payload_of s.read_buf hdr),
  )

  check_header-await :
      (s s' : Session D) (out out' : List WsMessage) (frames frames' n : ℕ) (hdr : WsFrameHeader)
      → check_header decompress write_ok now s out frames hdr ≡ await_bytes s' out' frames' n
      → Waits s out frames s' out' frames' n
  unfolding check_header reject
  check_header-await s s' out out' frames frames' n hdr h =
      ground (arith, handle_frame-settles s s' out out' frames frames' n hdr)

  pub receive_step-await :
      (s s' : Session D) (out out' : List WsMessage) (frames frames' n : ℕ)
      → receive_step decompress write_ok now s out frames ≡ await_bytes s' out' frames' n
      → Waits s out frames s' out' frames' n
  unfolding receive_step
  receive_step-await s s' out out' frames frames' n h =
      elim (Option-cases (parse_ws_frame_header s.read_buf)) [
        | inl e ↦ ground arith
        | inr (hdr, e) ↦ ground (arith, check_header-await s s' out out' frames frames' n hdr)
      ]

  data_frame-return :
      (s s' : Session D) (out out' : List WsMessage) (frames : ℕ) (result : Bool)
      (hdr : WsFrameHeader) (payload : Text)
      → data_frame decompress write_ok now s out frames hdr payload ≡ return s' out' result
      → (out' ≡ out) × (s'.is_open ≡ false) × (result ≡ false)
  unfolding data_frame reject finish_message
  data_frame-return s s' out out' frames result hdr payload h = ground arith

  handle_frame-return :
      (s s' : Session D) (out out' : List WsMessage) (frames : ℕ) (result : Bool)
      (hdr : WsFrameHeader)
      → handle_frame decompress write_ok now s out frames hdr ≡ return s' out' result
      → (out' ≡ out) × (s'.is_open ≡ false) × (result ≡ false)
  unfolding handle_frame
  handle_frame-return s s' out out' frames result hdr h = ground (
    arith,
    data_frame-return (record s { read_buf = unmasked s.read_buf hdr }) s' out out' frames result
        hdr (payload_of s.read_buf hdr),
  )

  check_header-return :
      (s s' : Session D) (out out' : List WsMessage) (frames : ℕ) (result : Bool)
      (hdr : WsFrameHeader)
      → check_header decompress write_ok now s out frames hdr ≡ return s' out' result
      → ((out' ≡ out) × (s'.is_open ≡ false) × (result ≡ false))
        ⊎ ((out' ≡ out) × (s' ≡ s) × (result ≡ true))
  unfolding check_header reject
  check_header-return s s' out out' frames result hdr h =
      ground (arith, handle_frame-return s s' out out' frames result hdr)

  pub receive_step-return :
      (s s' : Session D) (out out' : List WsMessage) (frames : ℕ) (result : Bool)
      → receive_step decompress write_ok now s out frames ≡ return s' out' result
      → ((out' ≡ out) × (s'.is_open ≡ false) × (result ≡ false))
        ⊎ ((out' ≡ out) × (s' ≡ s) × (result ≡ true))
  unfolding receive_step
  receive_step-return s s' out out' frames result h =
      elim (Option-cases (parse_ws_frame_header s.read_buf)) [
        | inl e ↦ ground arith
        | inr (hdr, e) ↦ ground (arith, check_header-return s s' out out' frames result hdr)
      ]

  -- An exception of the deflate context leaves the messages decoded so far.
  finish-thrown :
      (s s' : Session D) (out out' : List WsMessage) (frames : ℕ)
      → finish_message decompress write_ok now s out frames ≡ thrown s' out'
      → out' ≡ out
  unfolding finish_message
  finish-thrown s s' out out' frames h = ground arith

  data_frame-thrown :
      (s s' : Session D) (out out' : List WsMessage) (frames : ℕ) (hdr : WsFrameHeader)
      (payload : Text)
      → data_frame decompress write_ok now s out frames hdr payload ≡ thrown s' out'
      → out' ≡ out
  unfolding data_frame reject finish_message
  data_frame-thrown s s' out out' frames hdr payload h = ground arith

  handle_frame-thrown :
      (s s' : Session D) (out out' : List WsMessage) (frames : ℕ) (hdr : WsFrameHeader)
      → handle_frame decompress write_ok now s out frames hdr ≡ thrown s' out'
      → out' ≡ out
  unfolding handle_frame
  handle_frame-thrown s s' out out' frames hdr h = ground (
    arith,
    data_frame-thrown (record s { read_buf = unmasked s.read_buf hdr }) s' out out' frames hdr
        (payload_of s.read_buf hdr),
  )

  pub receive_step-thrown :
      (s s' : Session D) (out out' : List WsMessage) (frames : ℕ)
      → receive_step decompress write_ok now s out frames ≡ thrown s' out'
      → out' ≡ out
  unfolding receive_step check_header reject
  receive_step-thrown s s' out out' frames h =
      elim (Option-cases (parse_ws_frame_header s.read_buf)) [
        | inl e ↦ ground arith
        | inr (hdr, e) ↦ ground (arith, handle_frame-thrown s s' out out' frames hdr)
      ]
