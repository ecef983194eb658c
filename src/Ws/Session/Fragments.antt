-- ===== src/Ws/Session/Fragments.antt =====
-- One frame of a client's message through one turn of receiveBatch in src/core/WebSocket.cpp.
use hical.Base.{
  ℕ, suc, ◌+◌, ◌^◌, ◌≤◌, ◌<◌, ◌≡◌, refl, ap, ap₂, ◌∙◌, Bool, true, false, List, ◌++◌, Option, Text,
  length, drop, if◌then◌else◌, arith, length-append,
}
use hical.Ws.Mask.{MaskKey, IsKey, IsBytes}
use hical.Ws.Frame.{WsFrameHeader, WsOpcode, parse_ws_frame_header, build_masked_ws_frame}
use hical.Ws.Frame.Parse.{header_of}
use hical.Ws.Frame.RoundTrip.{size_of, parse-build_masked_ws_frame}
use hical.Ws.Frame.Incremental.{parse-header_size}
use hical.Ws.Session.Turn.{frame_size_exact}
use hical.Ws.Session.Consume.{
  consume_bytes-drop, consume_bytes_fields, drop-unmasked, payload_there,
}
use hical.Ws.Session.Branches.{
  step-check, check-handle, handle-data, added, data-next, Expects, start-Expects,
}
use hical.Ws.Session.{WsMessage, Session, again, max_frames_per_batch, consume_bytes}
use hical.Ws.Session.Receive.{frame_size_of, payload_of, unmasked, finish_message, receive_step}

-- A fragment of a message, with the key that masks it.
pub record Piece : Type 0 where
  pub payload : Text
  pub key : MaskKey

abbrev pub IsPiece : Piece → Type 0
IsPiece piece = IsBytes piece.payload × IsKey piece.key

module _ {D : Type 0} (decompress : D → Text → ℕ → D × Option Text) (write_ok : ℕ → Bool)
    (now : ℕ) where
  -- A session with these fragments, whose buffer holds the rest.
  abbrev pub Holds : Session D → Session D → Text → Text → WsOpcode → Type 0
  Holds s t rest fragments type =
      (t.read_buf ≡ rest)
      × (t.fragment_buf ≡ fragments)
      × (t.fragment_opcode ≡ type)
      × (t.fragment_compressed ≡ false)
      × (t.max_message_size ≡ s.max_message_size)

  module _ (s : Session D) (out : List WsMessage) (frames : ℕ) (hdr : WsFrameHeader) (before : Text)
      (type : WsOpcode) where
    abbrev pub middle : Session D
    middle = record s { read_buf = unmasked s.read_buf hdr }

    abbrev pub after : Session D
    after =
        consume_bytes (added decompress write_ok now middle hdr (payload_of s.read_buf hdr))
          (frame_size_of hdr)

    after-Holds :
        (rest payload : Text)
        → Expects s hdr.opcode before type
        → hdr.rsv1 ≡ false
        → hdr.header_size + hdr.payload_length ≤ length s.read_buf
        → frame_size_of hdr ≡ hdr.header_size + hdr.payload_length
        → payload_of s.read_buf hdr ≡ payload
        → drop hdr.payload_length (drop hdr.header_size s.read_buf) ≡ rest
        → Holds s after rest (before ++ payload) type
    after-Holds rest payload x r1 whole size q r =
        let big = added decompress write_ok now middle hdr (payload_of s.read_buf hdr) in
        let started = start-Expects decompress write_ok now middle hdr before type x r1 in
        let kept = consume_bytes_fields big (frame_size_of hdr) in
        (
          consume_bytes-drop big (frame_size_of hdr)
              ∙ ap₂ drop size (ground (arith, started))
              ∙ drop-unmasked s.read_buf hdr whole
              ∙ r,
          ground (arith, kept, started, q),
          ground (arith, kept, started),
          ground (arith, kept, started),
          ground (arith, kept, started),
        )

  added_fits :
      (s big t : Session D) (n : ℕ) (before payload : Text)
      → t.fragment_buf ≡ before ++ payload
      → t.fragment_buf ≡ big.fragment_buf
      → t.max_message_size ≡ s.max_message_size
      → t.max_message_size ≡ big.max_message_size
      → length before + length payload ≤ s.max_message_size
      → length big.fragment_buf ≤ big.max_message_size
  added_fits s big t n before payload p q r w h =
      omega (arith, ap length p, ap length q, r, w, length-append before payload)

  -- One frame of a message, whole in the buffer.
  module _ (s : Session D) (out : List WsMessage) (frames : ℕ) (op : WsOpcode) (piece : Piece)
      (fin : Bool) (rest before : Text) (type : WsOpcode) where
    abbrev pub hdr_of : WsFrameHeader
    hdr_of =
        header_of fin false op true (length piece.payload) piece.key
          (4 + size_of (length piece.payload))

    abbrev pub Step : Session D → Type 0
    Step t =
        (receive_step decompress write_ok now s out frames ≡ (
          if fin
          then finish_message decompress write_ok now t out (suc frames)
          else again t out (suc frames)))
        × Holds s t rest (before ++ piece.payload) type

    pub frame-Step :
        IsPiece piece
        → s.max_message_size + 14 < 2 ^ 64
        → frames < max_frames_per_batch
        → length before + length piece.payload ≤ s.max_message_size
        → Expects s op before type
        → s.read_buf ≡ build_masked_ws_frame op piece.payload piece.key fin false ++ rest
        → (t : Session D) × Step t
    frame-Step (bytes, key) limit room fits x e =
        let small = (start-Expects decompress write_ok now s hdr_of before type x refl) in
        let (p, q, r) =
          parse-build_masked_ws_frame op piece.payload piece.key fin false rest
            (ground (arith, small)) (omega arith) bytes key in
        let p' = ap parse_ws_frame_header e ∙ p in
        let q' = ap (λ xs. payload_of xs hdr_of) e ∙ q in
        let r' =
          ap (λ xs. drop (length piece.payload) (drop (4 + size_of (length piece.payload)) xs)) e
          ∙ r in
        let (two, short, there) = parse-header_size s.read_buf hdr_of p' in
        let whole = payload_there s.read_buf hdr_of piece.payload q' refl there in
        let size = frame_size_exact hdr_of s.max_message_size short (omega arith) limit in
        let t = after s out frames hdr_of before type in
        let holds =
          after-Holds s out frames hdr_of before type rest piece.payload x refl whole size q' r' in
        let big =
          added decompress write_ok now (middle s out frames hdr_of before type) hdr_of
            (payload_of s.read_buf hdr_of) in
        let bound =
          added_fits s big t (frame_size_of hdr_of) before piece.payload holds.1
            (consume_bytes_fields big (frame_size_of hdr_of)).0 holds.4
            (consume_bytes_fields big (frame_size_of hdr_of)).3 fits in
        let step =
          step-check decompress write_ok now s out frames hdr_of p' (omega arith) room
          ∙ check-handle decompress write_ok now s out frames hdr_of refl refl refl refl
              (ground (arith, small)) (omega arith) (omega (arith, size))
          ∙ handle-data decompress write_ok now s out frames hdr_of (ground (arith, small))
          ∙ data-next decompress write_ok now (middle s out frames hdr_of before type) out frames
              hdr_of (payload_of s.read_buf hdr_of) (ground (arith, small)) bound in
        (t, (step, holds))
