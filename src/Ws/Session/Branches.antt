-- ===== src/Ws/Session/Branches.antt =====
-- The branches that a data frame takes through receiveBatch in src/core/WebSocket.cpp.
use hical.Base.{
  ℕ, suc, ◌≤◌, ◌<◌, ◌≡◌, Bool, true, false, List, [], ◌∷◌, ◌++◌, Option, some, Text, length,
  if◌then◌else◌, arith, ◌⊎◌,
}
use hical.Ws.Frame.{
  WsFrameHeader, WsOpcode, op_continuation, op_text, op_binary, parse_ws_frame_header,
}
use hical.Ws.Session.{WsMessage, Session, again, max_frames_per_batch, consume_bytes}
use hical.Ws.Session.Receive.{
  frame_size_of, payload_of, unmasked, finish_message, start_message, data_frame, handle_frame,
  check_header, receive_step,
}

-- The fragments before a frame: those of the message it continues, or none.
abbrev pub Expects : {D : Type 0} → Session D → WsOpcode → Text → WsOpcode → Type 0
Expects s op before type =
    ((op ≡ op_continuation)
      × (s.fragment_buf ≡ before)
      × (s.fragment_opcode ≡ type)
      × (s.fragment_compressed ≡ false))
    ⊎ ((op ≡ type) × (before ≡ []) × ((type ≡ op_text) ⊎ (type ≡ op_binary)))

module _ {D : Type 0} (decompress : D → Text → ℕ → D × Option Text) (write_ok : ℕ → Bool)
    (now : ℕ) where
  -- The branches that a frame of a message takes.
  module _ (s : Session D) (out : List WsMessage) (frames : ℕ) (hdr : WsFrameHeader) where
    pub step-check :
        parse_ws_frame_header s.read_buf ≡ some hdr
        → 2 ≤ length s.read_buf
        → frames < max_frames_per_batch
        → receive_step decompress write_ok now s out frames
          ≡ check_header decompress write_ok now s out frames hdr
    unfolding receive_step
    step-check e two room = ground arith

    pub check-handle :
        (hdr.rsv1 ≡ false)
        → (hdr.rsv2 ≡ false)
        → (hdr.rsv3 ≡ false)
        → (hdr.masked ≡ true)
        → hdr.opcode ≤ 2
        → hdr.payload_length ≤ s.max_message_size
        → frame_size_of hdr ≤ length s.read_buf
        → check_header decompress write_ok now s out frames hdr
          ≡ handle_frame decompress write_ok now s out frames hdr
    unfolding check_header
    check-handle r1 r2 r3 m small fits whole = ground arith

    pub handle-data :
        hdr.opcode ≤ 2
        → handle_frame decompress write_ok now s out frames hdr
          ≡ data_frame decompress write_ok now
              (record s { read_buf = unmasked s.read_buf hdr })
              out
              frames
              hdr
              (payload_of s.read_buf hdr)
    unfolding handle_frame
    handle-data small = ground arith

  -- What a data frame adds to the fragments, and the session after it.
  abbrev pub added : Session D → WsFrameHeader → Text → Session D
  added s hdr payload =
      let started = start_message decompress write_ok now s hdr in
      record started { fragment_buf = started.fragment_buf ++ payload }

  module _ (s : Session D) (out : List WsMessage) (frames : ℕ) (hdr : WsFrameHeader)
      (payload : Text) where
    pub data-next :
        hdr.opcode ≤ 2
        → length (added s hdr payload).fragment_buf ≤ (added s hdr payload).max_message_size
        → data_frame decompress write_ok now s out frames hdr payload ≡ (
            if hdr.fin
            then finish_message decompress write_ok now
                (consume_bytes (added s hdr payload) (frame_size_of hdr))
                out
                (suc frames)
            else again (consume_bytes (added s hdr payload) (frame_size_of hdr)) out (suc frames))
    unfolding data_frame
    data-next small fits = ground arith

  pub finish-plain :
      (s : Session D) (out : List WsMessage) (frames : ℕ)
      → s.fragment_compressed ≡ false
      → finish_message decompress write_ok now s out frames
        ≡ again
            (record s { fragment_buf = [] })
            (out ++ (record { type = s.fragment_opcode; data_of = s.fragment_buf } ∷ []))
            frames
  unfolding finish_message
  finish-plain s out frames plain = ground arith

  pub start-Expects :
      (s : Session D) (hdr : WsFrameHeader) (before : Text) (type : WsOpcode)
      → Expects s hdr.opcode before type
      → hdr.rsv1 ≡ false
      → ((start_message decompress write_ok now s hdr).fragment_buf ≡ before)
        × ((start_message decompress write_ok now s hdr).fragment_opcode ≡ type)
        × ((start_message decompress write_ok now s hdr).fragment_compressed ≡ false)
        × ((start_message decompress write_ok now s hdr).read_buf ≡ s.read_buf)
        × ((start_message decompress write_ok now s hdr).max_message_size ≡ s.max_message_size)
        × (hdr.opcode ≤ 2)
  unfolding start_message
  start-Expects s hdr before type h r1 = ground arith
