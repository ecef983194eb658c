-- ===== src/Http2/Receive/Blocks.antt =====
-- Http2Receive.cpp: the table under the end of a header block.
use hical.Base.{
  ◌≡◌, refl, ap, true, false, not, ◌&&◌, ◌||◌, none, some, ltb, ◌==◌, if◌then◌else◌, is_some, arith,
  if_cases, option_holds,
}
use hical.Http2.Error.{protocol_error, enhance_your_calm}
use hical.Http2.Headers.Storage.{HeaderKind, request, response, trailers, is_trailers, is_response}
use hical.Http2.Headers.Seal.{Http2Headers, content_length, headers_seal, status}
use hical.Http2.Receive.{
  Outside, Entry, HeaderBlock, Receive, find_entry, update, reject, stream_error, is_client,
  same_kind,
}
use hical.Http2.Receive.Events.{
  notify, after_notify, finish_initial, end_response, end_block, on_end_headers, message_limit,
  over,
}
use hical.Http2.Receive.Table.{IsEntry, IsTable, update-IsTable, found-IsEntry}
use hical.Http2.Receive.Answers.{KeepsTable, reject-IsTable}
use hical.Http2.Receive.Entries.{
  pending-IsEntry, no_pending-IsEntry, trailers-IsEntry, forbidden-IsEntry, initial-IsEntry,
}
use hical.Http2.Receive.Handlers.{notify-IsTable, after_notify-IsTable}

not_trailers :
    (a b : HeaderKind) → same_kind a b ≡ true → is_trailers b ≡ false → is_trailers a ≡ false
not_trailers request b h n = refl
not_trailers response b h n = refl
not_trailers trailers request h n = absurd (ground arith)
not_trailers trailers response h n = absurd (ground arith)
not_trailers trailers trailers h n = absurd (ground arith)

module _ (o : Outside) where
  finish_initial-IsTable :
      (r : Receive) (e : Entry) (h : Http2Headers) (block : HeaderBlock)
      → IsTable r
      → IsEntry e
      → is_some e.pending_headers ≡ true
      → is_trailers e.pending_kind ≡ false
      → KeepsTable (finish_initial o r e h block)
  unfolding finish_initial
  finish_initial-IsTable r e h block k p q t =
      let id = block.stream_id in
      let forbidden =
        is_client r.role
        && (e.head_response || block.status_code == 204 || block.status_code == 304) in
      let marked : Receive = update r id (record e { body_forbidden = forbidden }) in
      let marked_sound =
        update-IsTable r id (record e { body_forbidden = forbidden }) k
          (forbidden-IsEntry e forbidden p) in
      let stored : Receive = update r id (record e {
        body_forbidden = forbidden;
        expected_length = if forbidden then e.expected_length else content_length h;
        stream = record e.stream { initial_headers = h };
        pending_headers = none;
      }) in
      let ready = after_notify o id (notify o (o.on_headers_ready id) stored) in
      let too_long = reject o.now marked id (some (stream_error id enhance_your_calm)) in
      let over_limit =
        not forbidden && over (content_length h) (message_limit r (is_client r.role)) in
      if_cases KeepsTable
        (is_client r.role && block.status_code == 204 && is_some (content_length h))
        (reject o.now marked id (some (stream_error id protocol_error)))
        (if over_limit then too_long else ready)
        (λ c. reject-IsTable o.now marked id (some (stream_error id protocol_error)) marked_sound)
        (λ c.
          if_cases KeepsTable over_limit too_long ready
            (λ d.
              reject-IsTable o.now marked id (some (stream_error id enhance_your_calm))
                marked_sound)
            (λ d. after_notify-IsTable o id _ (
              notify-IsTable o (o.on_headers_ready id) stored (
                update-IsTable r id _ k (initial-IsEntry e h forbidden (content_length h) p q t)))))

  end_response-IsTable :
      (r : Receive) (e : Entry) (h : Http2Headers) (block : HeaderBlock)
      → IsTable r
      → IsEntry e
      → is_some e.pending_headers ≡ true
      → is_trailers e.pending_kind ≡ false
      → KeepsTable (end_response o r e h block)
  unfolding end_response
  end_response-IsTable r e h block k p q t =
      let id = block.stream_id in
      if_cases KeepsTable (not (status h == block.status_code)) _ _
        (λ c. reject-IsTable o.now r id (some (stream_error id protocol_error)) k)
        (λ c.
          if_cases KeepsTable (ltb block.status_code 200) _ _
            (λ d.
              if_cases KeepsTable block.end_stream _ _
                (λ x. reject-IsTable o.now r id (some (stream_error id protocol_error)) k)
                (λ x. after_notify-IsTable o id _ (
                  notify-IsTable o (o.on_informational_headers id) _
                    (update-IsTable r id _ k (no_pending-IsEntry e p)))))
            (λ d. finish_initial-IsTable r e h block k p q t))

  end_block-IsTable :
      (r : Receive) (e : Entry) (h : Http2Headers) (block : HeaderBlock)
      → IsTable r
      → IsEntry e
      → is_some e.pending_headers ≡ true
      → same_kind e.pending_kind block.kind ≡ true
      → KeepsTable (end_block o r e h block)
  unfolding end_block
  end_block-IsTable r e h block k p q t =
      let id = block.stream_id in
      if_cases KeepsTable (is_trailers block.kind) _ _
        (λ c.
          if_cases KeepsTable (not block.end_stream) _ _
            (λ d. reject-IsTable o.now r id (some (stream_error id protocol_error)) k)
            (λ d. record { sound = update-IsTable r id _ k (trailers-IsEntry e h p) }))
        (λ c.
          let first = not_trailers e.pending_kind block.kind t c in
          if_cases KeepsTable (is_response block.kind) _ _
            (λ d. end_response-IsTable r e h block k p q first)
            (λ d. finish_initial-IsTable r e h block k p q first))

  pub on_end_headers-IsTable :
      (r : Receive) (block : HeaderBlock) → IsTable r → KeepsTable (on_end_headers o r block)
  unfolding on_end_headers
  on_end_headers-IsTable r block k =
      let id = block.stream_id in
      option_holds KeepsTable (find_entry id r.streams) _ _ (λ n. record { sound = k })
        (λ e f.
          option_holds KeepsTable e.pending_headers _ _
            (λ n. reject-IsTable o.now r id (some (stream_error id protocol_error)) k)
            (λ pending g.
              let (h, error) = headers_seal o.make_address_v6 pending in
              let entry = pending-IsEntry e h (found-IsEntry r id e k f) (ap is_some g) in
              let sound = update-IsTable r id (record e { pending_headers = some h }) k entry in
              if_cases KeepsTable (not (same_kind e.pending_kind block.kind)) _ _
                (λ c. reject-IsTable o.now r id (some (stream_error id protocol_error)) k)
                (λ c.
                  option_holds KeepsTable error _ _
                    (λ n. end_block-IsTable _ _ h block sound entry refl (ground arith))
                    (λ x y. reject-IsTable o.now _ id (some x) sound))))
