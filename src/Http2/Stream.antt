-- ===== src/Http2/Stream.antt =====
-- src/core/http2/Http2Stream.cpp: one protocol stream, its task and its body. The quotas that its
-- leases share are passed along; the clock is the argument `now`. Storing bytes does not throw.
pub mod Wait
pub mod Consistent
pub mod Run
pub mod Results
use hical.Base.{
  ℕ, zero, suc, ◌+◌, ◌-◌, ◌^◌, Bool, true, false, not, ◌&&◌, ◌||◌, Option, none, some, List, [],
  ◌∷◌, ◌++◌, map, ltb, leb, ◌==◌, if◌then◌else◌, is_some, Text, length,
}
use hical.Http2.Options.{Http2Options, validation_error}
use hical.Http2.Error.{
  NetworkError, stream_failure, http2_stream_error, resource_limit_exceeded, operation_aborted,
  operation_in_progress, timed_out, stream_closed, enhance_your_calm, protocol_error,
}
use hical.Http2.Budget.{
  Shared, State, Lease, Role, reset, try_resize, acquire_protocol_stream, acquire_application_task,
  acquire_receive, acquire_send,
}
use hical.Http2.Headers.Storage.{HeaderKind, request, response, trailers, is_trailers, new_storage}
use hical.Http2.Headers.Seal.{Http2Headers, is_sealed}

-- A timer that a waiter sleeps on.
pub record Waiter : Type 0 where
  pub deadline : ℕ
  pub cancelled : Bool

pub record Stream : Type 0 where
  pub id : ℕ
  pub incoming_kind : HeaderKind
  pub initial_headers : Http2Headers
  pub trailers : Http2Headers
  pub protocol : Lease
  pub application : Lease
  pub receive : Lease
  pub send : Lease
  -- The body of the mapped request or response, by `incoming_kind`.
  pub mapped_body : Text
  pub pending_body : Text
  pub body_waiters : List Waiter
  pub error : Option NetworkError
  pub body_completed_at : ℕ
  pub body_complete : Bool
  pub body_failed : Bool
  pub body_published : Bool
  pub application_started : Bool
  pub application_finished : Bool

-- What a call leaves: the quotas, the stream, and what it returns.
abbrev pub Outcome : Type 0
Outcome = Shared × Stream × Option NetworkError

-- `std::string::max_size()`.
abbrev pub body_max_size : ℕ
body_max_size = 2 ^ 63 - 1

abbrev pub new_stream :
    ℕ → HeaderKind → Http2Headers → Http2Headers → Lease → Lease → Lease → Lease → Stream
new_stream id kind initial trailer protocol application receive send = record {
  id = id;
  incoming_kind = kind;
  initial_headers = initial;
  trailers = trailer;
  protocol = protocol;
  application = application;
  receive = receive;
  send = send;
  mapped_body = [];
  pending_body = [];
  body_waiters = [];
  error = none;
  body_completed_at = 0;
  body_complete = false;
  body_failed = false;
  body_published = false;
  application_started = false;
  application_finished = false;
}

-- `create` behind its checks: the slots are reserved one by one, and a slot that was taken goes
-- back when the next is refused.
unfoldable pub reserve : Role → Shared → ℕ → HeaderKind → ℕ → Http2Options → Shared × Option Stream
reserve role s id kind peer_limit o =
    let (s1, protocol) = acquire_protocol_stream role s peer_limit in
    let (s2, application) = acquire_application_task s1 in
    let (s3, receive) = acquire_receive s2 0 in
    let (s4, send) = acquire_send s3 0 in
    if not protocol.held
    then (s1, none)
    else if not application.held
    then ((reset s2 protocol).0, none)
    else (
      s4,
      some (
          new_stream id kind (new_storage kind id o) (new_storage trailers id o) protocol
            application receive send),
    )

-- `none` is the exception.
unfoldable pub create :
    Role → Shared → ℕ → HeaderKind → ℕ → Http2Options → Option (Shared × Option Stream)
unfolding validation_error reserve
create role s id kind peer_limit o =
    if is_some (validation_error o) || id == 0 || is_trailers kind
    then none
    else some (reserve role s id kind peer_limit o)

-- The destructor gives back what the members still hold, the last member first.
unfoldable pub destroy : Shared → Stream → Shared
destroy s t =
    let s1 = (reset s t.send).0 in
    let s2 = (reset s1 t.receive).0 in
    let s3 = (reset s2 t.application).0 in (reset s3 t.protocol).0

-- The Boolean says whether the caller gets a guard.
unfoldable pub start_application : Stream → Stream × Bool
start_application t =
    if not t.protocol.held || t.application_started || t.application_finished
    then (t, false)
    else (record t { application_started = true }, true)

unfoldable pub finish_application : Shared → Stream → Shared × Stream
finish_application s t =
    let (s', l) = reset s t.application in
    (s', record t { application_finished = true; application = l })

abbrev cancel_waiter : Waiter → Waiter
cancel_waiter w = record w { cancelled = true }

unfoldable pub complete_body_once : ℕ → Bool → Stream → Stream
complete_body_once now failed t = if t.body_complete then t else record t {
  body_completed_at = now;
  body_failed = failed;
  body_complete = true;
  body_waiters = map cancel_waiter t.body_waiters;
}

abbrev pub or_aborted : Option NetworkError → NetworkError
or_aborted none = record { code = operation_aborted; http2 = none }
or_aborted (some e) = e

-- A task that was never started ends with its stream; one that runs keeps its slot.
unfoldable pub end_protocol : Shared → Stream → Shared × Stream
end_protocol s t =
    let (s', l) = reset s t.protocol in
    let t' = record t { protocol = l } in
    let finished = finish_application s' t' in if t.application_started then (s', t') else finished

unfoldable pub fail : ℕ → Shared → Stream → Option NetworkError → Outcome
unfolding end_protocol finish_application
fail now s t error =
    if not t.protocol.held
    then (s, t, t.error)
    else (let (s', t') = end_protocol s (record t { error = some (or_aborted error) }) in
        (s', complete_body_once now true t', some (or_aborted error)))

unfoldable pub append_body : ℕ → Shared → Stream → Text → Outcome
append_body now s t bytes =
    let misplaced = stream_failure http2_stream_error stream_closed t.id in
    let (st, lease, fits) = try_resize s.state t.receive (t.receive.amount + length bytes) in
    if is_some t.error
    then (s, t, t.error)
    else if t.body_complete || not t.protocol.held || not (is_sealed t.initial_headers)
    then if t.protocol.held then fail now s t (some misplaced) else (s, t, some misplaced)
    else if ltb (body_max_size - t.receive.amount) (length bytes) || not fits
    then fail now s t (some (stream_failure resource_limit_exceeded enhance_your_calm t.id))
    else (
      record s { state = st },
      record t { receive = lease; pending_body = t.pending_body ++ bytes },
      none,
    )

unfoldable pub complete_body : ℕ → Shared → Stream → Outcome
complete_body now s t =
    if t.body_complete
    then (s, t, (if t.body_failed then t.error else none))
    else if not (is_sealed t.initial_headers)
    then fail now s t (some (stream_failure http2_stream_error protocol_error t.id))
    else (s, complete_body_once now false t, none)

unfoldable pub publish_body : Stream → Stream × Option NetworkError
publish_body t =
    if is_some t.error
    then (t, t.error)
    else if not t.body_complete
    then (t, some (record { code = operation_in_progress; http2 = none }))
    else if t.body_published
    then (t, none)
    else (record t { mapped_body = t.pending_body; pending_body = []; body_published = true }, none)

unfoldable pub reset_stream : ℕ → Shared → Stream → ℕ → Outcome
reset_stream now s t code = fail now s t (some (stream_failure http2_stream_error code t.id))

unfoldable pub close_protocol : ℕ → Shared → Stream → Shared × Stream
close_protocol now s t =
    let (s', t', _) = fail now s t (some (stream_failure http2_stream_error stream_closed t.id)) in
    if not t.body_complete then (s', t') else end_protocol s t

unfoldable pub reserve_send : Shared → Stream → ℕ → Shared × Stream × Bool
reserve_send s t bytes =
    let (st, lease, fits) = try_resize s.state t.send bytes in
    if (t.protocol.held || leb bytes t.send.amount) && fits
    then (record s { state = st }, record t { send = lease }, true)
    else (s, t, false)

-- The accessors `protocolOpen`, `receivedBytes` and `body`.
abbrev pub protocol_open : Stream → Bool
protocol_open t = t.protocol.held

abbrev pub received_bytes : Stream → ℕ
received_bytes t = t.receive.amount

unfoldable pub body : Stream → Text
body t =
    if not t.body_complete || t.body_failed
    then []
    else if not t.body_published
    then t.pending_body
    else t.mapped_body
