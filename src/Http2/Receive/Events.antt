-- ===== src/Http2/Receive/Events.antt =====
-- src/core/http2/Http2Receive.cpp: the handlers of the codec's events, guards and calls in the order
-- of the code.
use hical.Base.{
  ℕ, ◌%◌, Bool, false, not, ◌&&◌, ◌||◌, List, [], ◌∷◌, ◌++◌, Option, none, some, Text, ltb, leb,
  ◌==◌, if◌then◌else◌, is_some,
}
use hical.Http2.Error.{
  NetworkError, no_error, protocol_error, internal_error, stream_closed, refused_stream,
  enhance_your_calm,
}
use hical.Http2.Budget.{server}
use hical.Http2.Headers.Storage.{
  HeaderKind, request, response, trailers, new_storage, is_trailers, is_response,
}
use hical.Http2.Headers.Seal.{
  Http2Headers, is_sealed, content_length, status, headers_append, headers_seal,
}
use hical.Http2.Stream.{Stream, create, reset_stream, protocol_open}
use hical.Http2.Receive.{
  Outside, Entry, HeaderBlock, UserCall, Receive, Reply, is_client, same_kind, new_entry,
  find_entry, without_entry, put_entry, update, stream_error, rejection_code, fail_connection,
  reject, codec_reset,
}

-- The stream of that identifier that left the table last.
abbrev pub last_named : ℕ → List Stream → Option Stream
last_named id [] = none
last_named id (t ∷ ts) =
    let later = last_named id ts in
    if is_some later then later else if t.id == id then some t else none

-- The error of a stream that its owner still points to, in the table or out of it.
unfoldable pub error_of : Receive → ℕ → Option NetworkError
unfolding find_entry
error_of r id = elim (find_entry id r.streams) [
  | some e ↦ e.stream.error
  | none ↦ elim (last_named id r.retired) [ none ↦ none | some t ↦ t.error ]
]

abbrev pub no_pending : Entry → Entry
no_pending e = record e { pending_headers = none }

abbrev pub next_kind : Receive → Entry → HeaderKind
next_kind r e =
    if is_sealed e.stream.initial_headers
    then trailers
    else if is_client r.role
    then response
    else request

abbrev pub message_limit : Receive → Bool → ℕ
message_limit r in_response =
    if in_response then r.options.max_response_bytes else r.options.max_body_bytes

abbrev pub over : Option ℕ → ℕ → Bool
over none limit = false
over (some n) limit = ltb limit n

module _ (o : Outside) where
  unfoldable pub cancel : Receive → ℕ → ℕ → Receive × Reply
  unfolding find_entry without_entry codec_reset
  cancel r id number = elim (find_entry id r.streams) [
    | none ↦ (r, Reply.code no_error)
    | some e ↦
        let (s, t, _) = reset_stream o.now r.shared e.stream number in
        codec_reset o.now o.reset_result
          (record r {
            shared = s;
            streams = without_entry id r.streams;
            retired = r.retired ++ t ∷ [];
          })
          id number (Reply.code no_error)
  ]

  -- A notification, until one of its calls throws.
  unfoldable pub notify : List UserCall → Receive → Receive × Reply
  unfolding cancel fail_connection
  notify [] r = (r, Reply.code no_error)
  notify (UserCall.fails error ∷ cs) r = notify cs (fail_connection o.now r error)
  notify (UserCall.cancels id number ∷ cs) r = elim ((cancel r id number).1) [
    | Reply.thrown ↦ ((cancel r id number).0, Reply.thrown)
    | Reply.code c ↦ notify cs (cancel r id number).0
  ]

  -- The end of a notification: the code of the stream's error, if it has one by o.now.
  unfoldable pub after_notify : ℕ → Receive × Reply → Receive × Reply
  unfolding error_of rejection_code
  after_notify id (r, Reply.thrown) = (r, Reply.thrown)
  after_notify id (r, Reply.code c) = elim (error_of r id) [
    | none ↦ (r, Reply.code no_error)
    | some e ↦ (r, Reply.code (rejection_code (some e)))
  ]

  abbrev pub rejected : Receive → ℕ → ℕ → Receive × Reply
  rejected r id number = reject o.now r id (some (stream_error id number))

  -- The second half of onBeginHeaders, with the entry.
  unfoldable pub begin_block : Receive → ℕ → Entry → Receive × Reply
  unfolding reject put_entry
  begin_block r id e =
      if not (protocol_open e.stream)
      then reject o.now r id e.stream.error
      else if is_some e.pending_headers || e.stream.body_complete || is_sealed e.stream.trailers
      then rejected r id protocol_error
      else elim (new_storage (next_kind r e) id r.options) [
        | none ↦ (update r id (record e { pending_kind = next_kind r e }), Reply.thrown)
        | some storage ↦ (
          update r id
              (record e { pending_kind = next_kind r e; pending_headers = some (some storage) }),
          Reply.code no_error,
        )
      ]

  unfoldable pub admit : Receive → ℕ → Receive × Reply
  unfolding begin_block
  admit r id = elim (create server r.shared id request 4294967295 r.options) [
    | none ↦ (r, Reply.thrown)
    | some created ↦ elim created.1 [
      | none ↦ (record r { shared = created.0 }, Reply.code refused_stream)
      | some t ↦
          begin_block
            (record r { shared = created.0; streams = r.streams ++ new_entry t false ∷ [] }) id
            (new_entry t false)
    ]
  ]

  unfoldable pub on_begin_headers : Receive → ℕ → Receive × Reply
  unfolding find_entry begin_block admit
  on_begin_headers r id =
      if is_some r.connection_error
      then (r, Reply.code internal_error)
      else elim (find_entry id r.streams) [
        | some e ↦ begin_block r id e
        | none ↦
            if is_client r.role || leb id r.last_server_stream_id || id % 2 == 0
            then (r, Reply.code stream_closed)
            else admit (record r { last_server_stream_id = id }) id
      ]

  unfoldable pub on_header : Receive → ℕ → Text → Text → Receive × Reply
  unfolding find_entry reject put_entry
  on_header r id name value = elim (find_entry id r.streams) [
    | none ↦ (r, Reply.code stream_closed)
    | some e ↦ elim e.pending_headers [
      | none ↦ rejected r id protocol_error
      | some pending ↦
          let (h, error) = headers_append o.make_address_v6 pending name value in
          let kept = update r id (record e { pending_headers = some h }) in
          elim error [ none ↦ (kept, Reply.code no_error) | some x ↦ reject o.now kept id (some x) ]
    ]
  ]

  unfoldable pub finish_initial : Receive → Entry → Http2Headers → HeaderBlock → Receive × Reply
  unfolding reject put_entry notify after_notify
  finish_initial r e h block =
      let id = block.stream_id in
      let in_response = is_client r.role in
      let declared = content_length h in
      let forbidden =
        in_response && (e.head_response || block.status_code == 204 || block.status_code == 304) in
      let stored = update r id (record e {
        body_forbidden = forbidden;
        expected_length = if forbidden then e.expected_length else declared;
        stream = record e.stream { initial_headers = h };
        pending_headers = none;
      }) in
      if in_response && block.status_code == 204 && is_some declared
      then rejected (update r id (record e { body_forbidden = forbidden })) id protocol_error
      else if not forbidden && over declared (message_limit r in_response)
      then rejected (update r id (record e { body_forbidden = forbidden })) id enhance_your_calm
      else after_notify id (notify (o.on_headers_ready id) stored)

  -- The branches of onEndHeaders behind the seal.
  unfoldable pub end_response : Receive → Entry → Http2Headers → HeaderBlock → Receive × Reply
  unfolding reject put_entry notify after_notify finish_initial
  end_response r e h block =
      let id = block.stream_id in
      if not (status h == block.status_code)
      then rejected r id protocol_error
      else if ltb block.status_code 200
      then if block.end_stream
        then rejected r id protocol_error
        else after_notify id (notify (o.on_informational_headers id) (update r id (no_pending e)))
      else finish_initial r e h block

  unfoldable pub end_block : Receive → Entry → Http2Headers → HeaderBlock → Receive × Reply
  unfolding reject put_entry finish_initial end_response
  end_block r e h block =
      let id = block.stream_id in
      if is_trailers block.kind
      then if not block.end_stream then rejected r id protocol_error else (
        update r id
            (record e { stream = record e.stream { trailers = h }; pending_headers = none }),
        Reply.code no_error,
      )
      else if is_response block.kind
      then end_response r e h block
      else finish_initial r e h block

  unfoldable pub on_end_headers : Receive → HeaderBlock → Receive × Reply
  unfolding find_entry reject put_entry end_block
  on_end_headers r block =
      let id = block.stream_id in
      elim (find_entry id r.streams) [
        | none ↦ (r, Reply.code stream_closed)
        | some e ↦ elim e.pending_headers [
          | none ↦ rejected r id protocol_error
          | some pending ↦
              let (h, error) = headers_seal o.make_address_v6 pending in
              let sealed = record e { pending_headers = some h } in
              if not (same_kind e.pending_kind block.kind)
              then rejected r id protocol_error
              else elim error [
                | some x ↦ reject o.now (update r id sealed) id (some x)
                | none ↦ end_block (update r id sealed) sealed h block
              ]
        ]
      ]
