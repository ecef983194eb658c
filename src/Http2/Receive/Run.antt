-- ===== src/Http2/Receive/Run.antt =====
-- Http2Receive.cpp: a connection under any sequence of events.
use hical.Base.{
  All, ℕ, ◌+◌, ◌≡◌, Bool, true, false, List, [], ◌∷◌, Option, none, some, Text, length,
  if◌then◌else◌, is_some, arith, if_cases, if_holds, option_holds, ◌∙◌, sym,
}
use hical.Http2.Error.{NetworkError}
use hical.Http2.Budget.{client}
use hical.Http2.Headers.Storage.{response}
use hical.Http2.Stream.{Stream, create, destroy, received_bytes}
use hical.Http2.Receive.{
  Outside, Entry, HeaderBlock, Receive, find_entry, fail_connection, new_entry, add_client_stream,
}
use hical.Http2.Receive.Events.{cancel, on_begin_headers, on_header, on_end_headers}
use hical.Http2.Receive.Data.{on_data, on_end_stream, on_stream_close, on_error}
use hical.Http2.Receive.Table.{
  IsEnded, IsEntry, IsTable, found-IsEntry, shared-IsTable, enrol-IsTable,
}
use hical.Http2.Receive.Answers.{fail_connection-IsTable}
use hical.Http2.Receive.Tasks.{
  publish, start_task, finish_task, publish-IsTable, start_task-IsTable, finish_task-IsTable,
}
use hical.Http2.Receive.Kept.{
  on_data-IsTable, on_end_stream-IsTable, on_stream_close-IsTable, on_error-IsTable,
}
use hical.Http2.Receive.Entries.{create-IsNew}
use hical.Http2.Receive.Handlers.{
  no_error_of, cancel-IsTable, on_begin_headers-IsTable, on_header-IsTable,
}
use hical.Http2.Receive.Blocks.{on_end_headers-IsTable}

-- What happens to a connection: a client creates and registers a stream, the codec reports an event,
-- the user cancels a stream or fails the connection, or the owner of a stream publishes its body, starts
-- its task or finishes it.
pub data Event : Type 0 where
  registers : ℕ → ℕ → Bool → Event
  begins_headers : ℕ → Event
  has_header : ℕ → Text → Text → Event
  ends_headers : HeaderBlock → Event
  has_data : ℕ → Text → Event
  ends_stream : ℕ → Event
  closes_stream : ℕ → ℕ → Event
  has_error : Option NetworkError → Event
  cancels_stream : ℕ → ℕ → Event
  fails_connection : Option NetworkError → Event
  publishes_body starts_task finishes_task : ℕ → Event

-- A stream that is not accepted goes with its caller.
unfoldable pub register : Receive → ℕ → ℕ → Bool → Receive
register r id peer_limit head = elim (create client r.shared id response peer_limit r.options) [
  | none ↦ r
  | some created ↦ elim created.1 [
    | none ↦ record r { shared = created.0 }
    | some t ↦
        let added = add_client_stream (record r { shared = created.0 }) t head in
        if is_some added.1 then record r { shared = destroy created.0 t } else added.0
  ]
]

head-IsEntry : (t : Stream) (head : Bool) → IsEntry (new_entry t false) → IsEntry (new_entry t head)
head-IsEntry t head p = record {
  consistent = p.consistent;
  fits = p.fits;
  fresh = p.fresh;
  unsealed_is_empty = p.unsealed_is_empty;
  unsealed_waits = p.unsealed_waits;
  exact = p.exact;
}

-- What is left is sound, and the answer is free.
record KeepsStreams (x : Receive × Option NetworkError) : Type 0 where
  sound : IsTable x.0

add_client_stream-KeepsStreams :
    (r : Receive) (t : Stream) (head : Bool)
    → IsTable r
    → IsEntry (new_entry t false)
    → KeepsStreams (add_client_stream r t head)
unfolding add_client_stream
add_client_stream-KeepsStreams r t head k p =
    if_cases KeepsStreams (is_some r.connection_error) _ _ (λ c. record { sound = k })
      (λ c.
        if_holds KeepsStreams _ _ _ (record { sound = k })
          (record {
            sound =
                enrol-IsTable r r.shared (new_entry t head) k (head-IsEntry t head p)
                  (no_error_of r.connection_error c);
          }))

add_client_stream-IsTable :
    (r : Receive) (t : Stream) (head : Bool)
    → IsTable r
    → IsEntry (new_entry t false)
    → IsTable (add_client_stream r t head).0
add_client_stream-IsTable r t head k p = (add_client_stream-KeepsStreams r t head k p).sound

register-IsTable :
    (r : Receive) (id peer_limit : ℕ) (head : Bool)
    → IsTable r
    → IsTable (register r id peer_limit head)
unfolding register
register-IsTable r id peer_limit head k =
    option_holds IsTable (create client r.shared id response peer_limit r.options) _ _ (λ n. k)
      (λ created f.
        let fresh = create-IsNew client r.shared id response peer_limit r.options created f in
        option_holds IsTable created.1 _ _ (λ n. shared-IsTable r created.0 k)
          (λ t g.
            let added = add_client_stream (record r { shared = created.0 }) t head in
            if_cases IsTable (is_some added.1) _ _ (λ c. shared-IsTable r (destroy created.0 t) k)
              (λ c.
                add_client_stream-IsTable (record r { shared = created.0 }) t head
                  (shared-IsTable r created.0 k) (fresh.entry t g))))

module _ (o : Outside) where
  unfoldable pub step : Receive → Event → Receive
  unfolding register on_begin_headers on_header on_end_headers on_data on_end_stream on_stream_close
      on_error cancel fail_connection publish start_task finish_task
  step r (Event.registers id peer_limit head) = register r id peer_limit head
  step r (Event.begins_headers id) = (on_begin_headers o r id).0
  step r (Event.has_header id name value) = (on_header o r id name value).0
  step r (Event.ends_headers block) = (on_end_headers o r block).0
  step r (Event.has_data id bytes) = (on_data o.now o.consume_result o.reset_result r id bytes).0
  step r (Event.ends_stream id) = (on_end_stream o.now o.consume_result o.reset_result r id).0
  step r (Event.closes_stream id number) =
      on_stream_close o.now o.consume_result o.reset_result r id number
  step r (Event.has_error error) = on_error o.now o.consume_result o.reset_result r error
  step r (Event.cancels_stream id number) = (cancel o r id number).0
  step r (Event.fails_connection error) = fail_connection o.now r error
  step r (Event.publishes_body id) = publish r id
  step r (Event.starts_task id) = start_task r id
  step r (Event.finishes_task id) = finish_task r id

  unfoldable pub run : Receive → List Event → Receive
  run r [] = r
  run r (e ∷ es) = run (step r e) es

  step-IsTable : (r : Receive) (e : Event) → IsTable r → IsTable (step r e)
  unfolding step
  step-IsTable r (Event.registers id peer_limit head) k = register-IsTable r id peer_limit head k
  step-IsTable r (Event.begins_headers id) k = (on_begin_headers-IsTable o r id k).sound
  step-IsTable r (Event.has_header id name value) k = (on_header-IsTable o r id name value k).sound
  step-IsTable r (Event.ends_headers block) k = (on_end_headers-IsTable o r block k).sound
  step-IsTable r (Event.has_data id bytes) k =
      (on_data-IsTable o.now o.consume_result o.reset_result r id bytes k).sound
  step-IsTable r (Event.ends_stream id) k =
      (on_end_stream-IsTable o.now o.consume_result o.reset_result r id k).sound
  step-IsTable r (Event.closes_stream id number) k =
      on_stream_close-IsTable o.now o.consume_result o.reset_result r id number k
  step-IsTable r (Event.has_error error) k =
      on_error-IsTable o.now o.consume_result o.reset_result r error k
  step-IsTable r (Event.cancels_stream id number) k = (cancel-IsTable o r id number k).sound
  step-IsTable r (Event.fails_connection error) k = fail_connection-IsTable o.now r error k
  step-IsTable r (Event.publishes_body id) k = publish-IsTable r id k
  step-IsTable r (Event.starts_task id) k = start_task-IsTable r id k
  step-IsTable r (Event.finishes_task id) k = finish_task-IsTable r id k

  -- Any sequence of events keeps a table sound.
  pub run-IsTable : (r : Receive) (es : List Event) → IsTable r → IsTable (run r es)
  unfolding run
  run-IsTable r [] k = k
  run-IsTable r (e ∷ es) k = run-IsTable (step r e) es (step-IsTable r e k)

  exact_length :
      (e : Entry) (n : ℕ)
      → IsEntry e
      → e.stream.body_complete ≡ true
      → e.stream.body_failed ≡ false
      → e.expected_length ≡ some n
      → received_bytes e.stream ≡ n
  exact_length e n p c f h = ground (arith, p.exact)

  -- A table that is sound, any events, and then an entry of it whose message is complete, did not
  -- fail and declared a length: the bytes of its body, pending and published, are as many.
  pub run_exact :
      (r : Receive) (es : List Event) (id n : ℕ) (e : Entry)
      → IsTable r
      → find_entry id (run r es).streams ≡ some e
      → e.stream.body_complete ≡ true
      → e.stream.body_failed ≡ false
      → e.expected_length ≡ some n
      → length e.stream.pending_body + length e.stream.mapped_body ≡ n
  run_exact r es id n e k f c g h =
      let p = found-IsEntry (run r es) id e (run-IsTable r es k) f in
      sym p.consistent.charged ∙ exact_length e n p c g h

  -- A table that is sound, and any events: every stream that has left the table by then holds no
  -- protocol slot, and its body is complete.
  pub run_ended : (r : Receive) (es : List Event) → IsTable r → All IsEnded (run r es).retired
  run_ended r es k = (run-IsTable r es k).ended
