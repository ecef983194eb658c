-- ===== src/Http2/Receive/Data.antt =====
-- src/core/http2/Http2Receive.cpp: DATA, the end of a message, and the end of a stream.
use hical.Base.{
  ℕ, ◌-◌, Bool, false, not, ◌&&◌, ◌||◌, [], ◌∷◌, ◌++◌, Option, none, some, Text, length, ltb, ◌==◌,
  if◌then◌else◌, is_some, is_empty,
}
use hical.Http2.Error.{NetworkError, no_error, protocol_error, stream_closed}
use hical.Http2.Headers.Seal.{is_sealed}
use hical.Http2.Stream.{
  append_body, complete_body, close_protocol, reset_stream, protocol_open, received_bytes,
}
use hical.Http2.Receive.{
  Entry, Receive, Reply, find_entry, without_entry, put_entry, update, stream_error, reject,
  fail_connection, codec_consume, codec_reset,
}

-- Whether a message of that length may hold so many more bytes.
abbrev pub exceeds : Option ℕ → ℕ → ℕ → Bool
exceeds none received size = false
exceeds (some n) received size = ltb n received || ltb (n - received) size

-- Whether a message of that length is not complete.
abbrev pub differs : Option ℕ → ℕ → Bool
differs none received = false
differs (some n) received = not (received == n)

-- The stream that an error names, if it names one.
abbrev pub stream_named : NetworkError → ℕ
stream_named error = elim error.http2 [ none ↦ 0 | some info ↦ info.stream_id ]

module _ (now : ℕ) (consume_result reset_result : ℕ → ℕ → Option NetworkError) where
  -- The bytes are stored, or the stream is rejected.
  unfoldable pub store_data : Receive → ℕ → Entry → Text → Receive × Reply
  unfolding put_entry reject codec_consume
  store_data r id e bytes =
      let (s, t, error) = append_body now r.shared e.stream bytes in
      let kept = record (update r id (record e { stream = t })) { shared = s } in
      elim error [
        | some x ↦ reject now kept id (some x)
        | none ↦ codec_consume now consume_result kept id (length bytes) (Reply.code no_error)
      ]

  unfoldable pub on_data : Receive → ℕ → Text → Receive × Reply
  unfolding find_entry reject store_data
  on_data r id bytes = elim (find_entry id r.streams) [
    | none ↦ (r, Reply.code stream_closed)
    | some e ↦
        if not (protocol_open e.stream)
        then reject now r id e.stream.error
        else if not (is_sealed e.stream.initial_headers)
            || is_some e.pending_headers
            || is_sealed e.stream.trailers
            || e.stream.body_complete
            || (e.body_forbidden && not (is_empty bytes))
        then reject now r id (some (stream_error id protocol_error))
        else if exceeds e.expected_length (received_bytes e.stream) (length bytes)
        then reject now r id (some (stream_error id protocol_error))
        else store_data r id e bytes
  ]

  -- A rejection of the end of a message resets the stream, with the code of the error.
  unfoldable pub reject_end : Receive → ℕ → Option NetworkError → Receive × Reply
  unfolding reject codec_reset
  reject_end r id error = elim (reject now r id error).1 [
    | Reply.thrown ↦ ((reject now r id error).0, Reply.thrown)
    | Reply.code c ↦
        codec_reset now reset_result (reject now r id error).0 id c (Reply.code no_error)
  ]

  unfoldable pub finish_message : Receive → ℕ → Entry → Receive × Reply
  unfolding put_entry reject_end
  finish_message r id e =
      let (s, t, error) = complete_body now r.shared e.stream in
      let kept = record (update r id (record e { stream = t })) { shared = s } in
      elim error [ some x ↦ reject_end kept id (some x) | none ↦ (kept, Reply.code no_error) ]

  -- An empty error is none: nothing is rejected then.
  unfoldable pub on_end_stream : Receive → ℕ → Receive × Reply
  unfolding find_entry reject_end finish_message
  on_end_stream r id = elim (find_entry id r.streams) [
    | none ↦ (r, Reply.code no_error)
    | some e ↦
        if not (protocol_open e.stream)
        then elim e.stream.error [
          | none ↦ (r, Reply.code no_error)
          | some x ↦ reject_end r id (some x)
        ]
        else if not (is_sealed e.stream.initial_headers)
            || is_some e.pending_headers
            || differs e.expected_length (received_bytes e.stream)
        then reject_end r id (some (stream_error id protocol_error))
        else finish_message r id e
  ]

  unfoldable pub on_stream_close : Receive → ℕ → ℕ → Receive
  unfolding find_entry without_entry
  on_stream_close r id number = elim (find_entry id r.streams) [
    | none ↦ r
    | some e ↦
        let closed = close_protocol now r.shared e.stream in
        let broken = reset_stream now r.shared e.stream number in
        let left : Receive = record r { streams = without_entry id r.streams } in
        if number == no_error
        then record left { shared = closed.0; retired = r.retired ++ closed.1 ∷ [] }
        else record left { shared = broken.0; retired = r.retired ++ broken.1 ∷ [] }
  ]

  unfoldable pub on_error : Receive → Option NetworkError → Receive
  unfolding reject fail_connection
  on_error r none = r
  on_error r (some error) =
      if stream_named error == 0
      then fail_connection now r (some error)
      else (reject now r (stream_named error) (some error)).0
