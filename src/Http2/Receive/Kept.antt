-- ===== src/Http2/Receive/Kept.antt =====
-- Http2Receive.cpp: the table under DATA, the end of a message and the end of a stream.
use hical.Base.{
  ℕ, ◌≡◌, false, not, Option, none, some, Text, length, ◌==◌, arith, if_cases, option_holds,
}
use hical.Http2.Error.{NetworkError, no_error, protocol_error}
use hical.Http2.Stream.{
  append_body, complete_body, close_protocol, reset_stream, protocol_open, received_bytes,
}
use hical.Http2.Receive.{
  Entry, Receive, Reply, find_entry, update, reject, codec_reset, codec_consume, stream_error,
}
use hical.Http2.Receive.Data.{
  exceeds, differs, store_data, on_data, reject_end, finish_message, on_end_stream, on_stream_close,
  on_error, stream_named,
}
use hical.Http2.Receive.Table.{
  IsEntry, IsTable, update-IsTable, found-IsEntry, shared-IsTable, retire-IsTable,
}
use hical.Http2.Receive.Ended.{reset_stream-IsEnded, close_protocol-IsEnded}
use hical.Http2.Receive.Answers.{
  KeepsTable, reject-IsTable, fail_connection-IsTable, codec_reset-IsTable, codec_consume-IsTable,
}
use hical.Http2.Receive.Bodies.{append_body-IsEntry, complete_body-IsEntry}

module _ (now : ℕ) (consume_result reset_result : ℕ → ℕ → Option NetworkError) where
  store_data-IsTable :
      (r : Receive) (id : ℕ) (e : Entry) (bytes : Text)
      → IsTable r
      → IsEntry e
      → exceeds e.expected_length (received_bytes e.stream) (length bytes) ≡ false
      → KeepsTable (store_data now consume_result reset_result r id e bytes)
  unfolding store_data
  store_data-IsTable r id e bytes k p h =
      let (s, t, error) = append_body now r.shared e.stream bytes in
      let kept : Receive = record (update r id (record e { stream = t })) { shared = s } in
      let sound = shared-IsTable (update r id (record e { stream = t })) s (
        update-IsTable r id (record e { stream = t }) k
          (append_body-IsEntry now r.shared e bytes p h)) in
      option_holds KeepsTable error
        (codec_consume now consume_result kept id (length bytes) (Reply.code no_error))
        (λ x. reject now kept id (some x))
        (λ n.
          codec_consume-IsTable now consume_result kept id (length bytes) (Reply.code no_error)
            sound)
        (λ x f. reject-IsTable now kept id (some x) sound)

  pub on_data-IsTable :
      (r : Receive) (id : ℕ) (bytes : Text)
      → IsTable r
      → KeepsTable (on_data now consume_result reset_result r id bytes)
  unfolding on_data
  on_data-IsTable r id bytes k =
      option_holds KeepsTable (find_entry id r.streams) _ _ (λ n. record { sound = k })
        (λ e f.
          let p = found-IsEntry r id e k f in
          if_cases KeepsTable (not (protocol_open e.stream)) _ _
            (λ c. reject-IsTable now r id e.stream.error k)
            (λ c.
              if_cases KeepsTable _ _ _
                (λ d. reject-IsTable now r id (some (stream_error id protocol_error)) k)
                (λ d.
                  if_cases KeepsTable
                    (exceeds e.expected_length (received_bytes e.stream) (length bytes)) _ _
                    (λ x. reject-IsTable now r id (some (stream_error id protocol_error)) k)
                    (λ x. store_data-IsTable r id e bytes k p x))))

  reject_end-IsTable :
      (r : Receive) (id : ℕ) (error : Option NetworkError)
      → IsTable r
      → KeepsTable (reject_end now consume_result reset_result r id error)
  unfolding reject_end
  reject_end-IsTable r id error k =
      by_reply (reject now r id error) (reject-IsTable now r id error k)
    where
      by_reply :
          (x : Receive × Reply)
          → KeepsTable x
          → KeepsTable (elim x.1 as (λ _. Receive × Reply) [
            | Reply.thrown ↦ (x.0, Reply.thrown)
            | Reply.code c ↦ codec_reset now reset_result x.0 id c (Reply.code no_error)
          ])
      by_reply (r', Reply.thrown) k' = record { sound = k'.sound }
      by_reply (r', Reply.code c) k' =
          codec_reset-IsTable now reset_result r' id c (Reply.code no_error) k'.sound

  finish_message-IsTable :
      (r : Receive) (id : ℕ) (e : Entry)
      → IsTable r
      → IsEntry e
      → differs e.expected_length (received_bytes e.stream) ≡ false
      → KeepsTable (finish_message now consume_result reset_result r id e)
  unfolding finish_message
  finish_message-IsTable r id e k p h =
      let (s, t, error) = complete_body now r.shared e.stream in
      let kept : Receive = record (update r id (record e { stream = t })) { shared = s } in
      let sound = shared-IsTable (update r id (record e { stream = t })) s (
        update-IsTable r id (record e { stream = t }) k
          (complete_body-IsEntry now r.shared e p h)) in
      option_holds KeepsTable error (kept, Reply.code no_error)
        (λ x. reject_end now consume_result reset_result kept id (some x))
        (λ n. record { sound = sound }) (λ x f. reject_end-IsTable kept id (some x) sound)

  pub on_end_stream-IsTable :
      (r : Receive) (id : ℕ)
      → IsTable r
      → KeepsTable (on_end_stream now consume_result reset_result r id)
  unfolding on_end_stream
  on_end_stream-IsTable r id k =
      option_holds KeepsTable (find_entry id r.streams) _ _ (λ n. record { sound = k })
        (λ e f.
          let p = found-IsEntry r id e k f in
          if_cases KeepsTable (not (protocol_open e.stream)) _ _
            (λ c.
              option_holds KeepsTable e.stream.error _ _ (λ n. record { sound = k })
                (λ x g. reject_end-IsTable r id (some x) k))
            (λ c.
              if_cases KeepsTable _ _ _
                (λ d. reject_end-IsTable r id (some (stream_error id protocol_error)) k)
                (λ d. finish_message-IsTable r id e k p (ground arith))))

  pub on_stream_close-IsTable :
      (r : Receive) (id number : ℕ)
      → IsTable r
      → IsTable (on_stream_close now consume_result reset_result r id number)
  unfolding on_stream_close
  on_stream_close-IsTable r id number k =
      option_holds IsTable (find_entry id r.streams) _ _ (λ n. k)
        (λ e f.
          let closed = close_protocol now r.shared e.stream in
          let broken = reset_stream now r.shared e.stream number in
          let p = (found-IsEntry r id e k f).consistent in
          if_cases IsTable (number == no_error) _ _
            (λ c.
              retire-IsTable r id closed.0 closed.1 k
                (close_protocol-IsEnded now r.shared e.stream p))
            (λ c.
              retire-IsTable r id broken.0 broken.1 k
                (reset_stream-IsEnded now r.shared e.stream number p)))

  pub on_error-IsTable :
      (r : Receive) (error : Option NetworkError)
      → IsTable r
      → IsTable (on_error now consume_result reset_result r error)
  unfolding on_error
  on_error-IsTable r none k = k
  on_error-IsTable r (some e) k =
      if_cases IsTable (stream_named e == 0) _ _ (λ c. fail_connection-IsTable now r (some e) k)
        (λ c. (reject-IsTable now r (stream_named e) (some e) k).sound)
