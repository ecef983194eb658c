-- ===== src/Ws/Session/Messages.antt =====
-- A client's message, in fragments, through the loop of receiveBatch in src/core/WebSocket.cpp.
use hical.Base.{
  ℕ, suc, ◌+◌, ◌^◌, ◌≤◌, ◌<◌, ◌≡◌, refl, ap₂, subst, ◌∙◌, Bool, true, false, List, [], ◌∷◌, ◌++◌,
  Option, Text, length, arith, length-append, append_assoc, All, inl, inr, ◌⊎◌,
}
use hical.Ws.Frame.{WsOpcode, op_continuation, op_text, op_binary, build_masked_ws_frame}
use hical.Ws.Session.Branches.{finish-plain, Expects}
use hical.Ws.Session.Fragments.{Piece, IsPiece, frame-Step}
use hical.Ws.Session.{WsMessage, Session, again, max_frames_per_batch}
use hical.Ws.Session.Receive.{receive_step}

-- The frames of a message: the first has the message's opcode, the others continue it, the last one
-- is final.
abbrev pub message_frames : WsOpcode → Piece → List Piece → Text
message_frames opcode piece [] = build_masked_ws_frame opcode piece.payload piece.key true false
message_frames opcode piece (next ∷ pieces) =
    build_masked_ws_frame opcode piece.payload piece.key false false
    ++ message_frames op_continuation next pieces

abbrev pub message_payload : Piece → List Piece → Text
message_payload piece [] = piece.payload
message_payload piece (next ∷ pieces) = piece.payload ++ message_payload next pieces

suc_one : (n : ℕ) → suc n ≡ n + 1
suc_one n = omega arith

suc_swap : (m n : ℕ) → suc m + n ≡ m + suc n
suc_swap m n = omega arith

module _ {D : Type 0} (decompress : D → Text → ℕ → D × Option Text) (write_ok : ℕ → Bool)
    (now : ℕ) where
  -- The turns of the loop that go on, one after the other.
  pub data Runs : Session D → List WsMessage → ℕ → Session D → List WsMessage → ℕ → Type 0 where
    stop : (s : Session D) (out : List WsMessage) (frames : ℕ) → Runs s out frames s out frames
    turn :
        (s t u : Session D) (out mid end : List WsMessage) (frames n m : ℕ)
        → receive_step decompress write_ok now s out frames ≡ again t mid n
        → Runs t mid n u end m
        → Runs s out frames u end m

  -- The session after a message: the buffer holds the rest, and no fragment is left.
  abbrev Delivers : Session D → List WsMessage → ℕ → WsOpcode → Text → ℕ → Text → Type 0
  Delivers s out frames type text count rest =
      (t : Session D) × Runs s out frames t (out ++ (record { type = type; data_of = text } ∷ []))
        (frames + count)
      × (t.read_buf ≡ rest)

  delivered :
      (s t : Session D) (out : List WsMessage) (frames : ℕ) (type : WsOpcode) (text rest : Text)
      → receive_step decompress write_ok now s out frames
        ≡ again
            (record t { fragment_buf = [] })
            (out ++ (record { type = t.fragment_opcode; data_of = t.fragment_buf } ∷ []))
            (suc frames)
      → t.fragment_opcode ≡ type
      → t.fragment_buf ≡ text
      → t.read_buf ≡ rest
      → Delivers s out frames type text 1 rest
  delivered s t out frames type text rest e p q r =
      let u = record t { fragment_buf = [] } in
      let end = out ++ (record { type = type; data_of = text } ∷ []) in
      let same = ap₂ (λ x y. out ++ (record { type = x; data_of = y } ∷ [])) p q in
      (
        u,
        turn s u u out end end frames (frames + 1) (frames + 1)
            (e ∙ ap₂ (again u) same (suc_one frames)) (stop u end (frames + 1)),
        r,
      )

  carried :
      (s t : Session D) (out : List WsMessage) (frames n : ℕ) (type : WsOpcode)
      (text text' rest : Text)
      → receive_step decompress write_ok now s out frames ≡ again t out (suc frames)
      → Delivers t out (suc frames) type text n rest
      → text ≡ text'
      → Delivers s out frames type text' (suc n) rest
  carried s t out frames n type text text' rest e (u, runs, r) p =
      let end = λ (x : Text). out ++ (record { type = type; data_of = x } ∷ []) in
      let runs' =
        subst (λ k. Runs t out (suc frames) u (end text') k) (suc_swap frames n)
          (subst (λ x. Runs t out (suc frames) u (end x) (suc frames + n)) p runs) in
      (u, turn s t u out out (end text') frames (suc frames) (frames + suc n) e runs', r)

  fragments-Delivers :
      (pieces : List Piece) (piece : Piece) (s : Session D) (out : List WsMessage) (frames : ℕ)
      (op : WsOpcode) (rest before : Text) (type : WsOpcode)
      → All IsPiece (piece ∷ pieces)
      → s.max_message_size + 14 < 2 ^ 64
      → frames + length pieces < max_frames_per_batch
      → length before + length (message_payload piece pieces) ≤ s.max_message_size
      → Expects s op before type
      → s.read_buf ≡ message_frames op piece pieces ++ rest
      → Delivers s out frames type
          (before ++ message_payload piece pieces)
          (suc (length pieces))
          rest
  fragments-Delivers [] piece s out frames op rest before type (good, goods) limit room fits x e =
      let (t, (step, (buffer, text, opcode, plain, size))) =
        frame-Step decompress write_ok now s out frames op piece true rest before type good limit
          (omega arith) fits x e in
      delivered s t out frames type (before ++ piece.payload) rest
        (step ∙ finish-plain decompress write_ok now t out (suc frames) plain) opcode text buffer
  fragments-Delivers (next ∷ pieces) piece s out frames op rest before type (good, goods) limit room
        fits x e =
      let more = message_frames op_continuation next pieces in
      let all = length-append piece.payload (message_payload next pieces) in
      let (t, (step, (buffer, text, opcode, plain, size))) =
        frame-Step decompress write_ok now s out frames op piece false (more ++ rest) before type
          good limit (omega arith) (omega (arith, all)) x
          (e
            ∙ append_assoc (build_masked_ws_frame op piece.payload piece.key false false) more
                rest) in
      let later =
        fragments-Delivers pieces next t out (suc frames) op_continuation rest
          (before ++ piece.payload) type goods (omega (arith, size)) (omega arith)
          (omega (arith, all, size, length-append before piece.payload))
          (inl (refl, text, opcode, plain)) buffer in
      carried s t out frames (suc (length pieces)) type
        ((before ++ piece.payload) ++ message_payload next pieces)
        (before ++ (piece.payload ++ message_payload next pieces)) rest step later
        (append_assoc before piece.payload (message_payload next pieces))

  -- A client's message arrives whole. Take a text or binary message in fragments of bytes, not
  -- compressed and masked by keys of bytes, with a payload within the session's limit, which leaves
  -- room for a header below 2^64, and no more frames than the batch still takes. If the buffer starts
  -- with the message's frames, whatever the session held of an earlier message, the loop goes through
  -- them one by one, adds exactly one message, of that type and with the fragments joined in order, and
  -- leaves in the buffer what follows the frames.
  pub message-Runs :
      (s : Session D) (out : List WsMessage) (frames : ℕ) (type : WsOpcode) (piece : Piece)
      (pieces : List Piece) (rest : Text)
      → (type ≡ op_text) ⊎ (type ≡ op_binary)
      → All IsPiece (piece ∷ pieces)
      → s.max_message_size + 14 < 2 ^ 64
      → length (message_payload piece pieces) ≤ s.max_message_size
      → frames + length pieces < max_frames_per_batch
      → s.read_buf ≡ message_frames type piece pieces ++ rest
      → (t : Session D) × Runs s out frames t
          (out ++ (record { type = type; data_of = message_payload piece pieces } ∷ []))
          (frames + suc (length pieces))
        × (t.read_buf ≡ rest)
  message-Runs s out frames type piece pieces rest kind good limit fits room e =
      fragments-Delivers pieces piece s out frames type rest [] type good limit room
        (omega (arith, fits)) (inr (refl, refl, kind)) e
