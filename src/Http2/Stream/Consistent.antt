-- ===== src/Http2/Stream/Consistent.antt =====
-- Http2Stream.cpp: an invariant of a stream, under each of its operations.
use hical.Base.{
  ℕ, ◌+◌, ◌≡◌, true, false, not, ◌&&◌, ◌||◌, Option, some, if◌then◌else◌, is_some, Text, length,
  length-append, arith,
}
use hical.Http2.Error.{
  NetworkError, stream_failure, http2_stream_error, protocol_error, stream_closed,
  resource_limit_exceeded, enhance_your_calm,
}
use hical.Http2.Budget.{Shared, State, Lease, reset, try_resize}
use hical.Http2.Stream.{
  Stream, start_application, finish_application, complete_body_once, end_protocol, fail,
  append_body, complete_body, publish_body, close_protocol, reserve_send,
}
use hical.Http2.Stream.Wait.{body_result}

-- How the flags, the leases and the first error of a stream hang together.
pub record IsConsistent (t : Stream) : Type 0 where
  -- A stream with an error is closed, and a closed stream waits for no more of its body.
  pub closed_by_error : (is_some t.error && t.protocol.held) ≡ false
  pub complete_when_closed : (t.protocol.held || t.body_complete) ≡ true
  pub failed_with_error : (not t.body_failed || is_some t.error) ≡ true
  pub failed_is_complete : (not t.body_failed || t.body_complete) ≡ true
  -- The task's slot is held until the task is finished; one that never started ends with the stream.
  pub slot_until_finished : t.application.held ≡ not t.application_finished
  pub finished_after_start :
      (t.protocol.held || t.application_started || t.application_finished) ≡ true
  pub finished_needs_start :
      (not (t.application_finished && t.protocol.held) || t.application_started) ≡ true
  -- Each received byte is charged, until the stream goes.
  pub charged : t.receive.amount ≡ length t.pending_body + length t.mapped_body
  pub published_is_complete : (not t.body_published || t.body_complete) ≡ true
  pub unpublished_is_empty : (if t.body_published then 0 else length t.mapped_body) ≡ 0

pub reset-held : (s : Shared) (l : Lease) → (reset s l).1.held ≡ false
unfolding reset
reset-held s l = ground arith

try_resize-amount :
    (st : State) (l : Lease) (bytes : ℕ)
    → let r = try_resize st l bytes in r.1.amount ≡ (if r.2 then bytes else l.amount)
unfolding try_resize
try_resize-amount st l bytes = ground arith

pub fail-IsConsistent :
    (now : ℕ) (s : Shared) (t : Stream) (e : Option NetworkError)
    → IsConsistent t
    → IsConsistent (fail now s t e).1
unfolding fail complete_body_once
fail-IsConsistent now s t e c =
    ground (arith, reset-held s t.protocol, reset-held (reset s t.protocol).0 t.application)

pub start_application-IsConsistent :
    (t : Stream) → IsConsistent t → IsConsistent (start_application t).0
unfolding start_application
start_application-IsConsistent t c = ground arith

-- A guard is given out once, so its task was started and is not finished.
pub finish_application-IsConsistent :
    (s : Shared) (t : Stream)
    → t.application_started ≡ true
    → IsConsistent t
    → IsConsistent (finish_application s t).1
unfolding finish_application
finish_application-IsConsistent s t started c = ground (arith, reset-held s t.application)

pub complete_body-IsConsistent :
    (now : ℕ) (s : Shared) (t : Stream) → IsConsistent t → IsConsistent (complete_body now s t).1
unfolding complete_body complete_body_once
complete_body-IsConsistent now s t c = ground (
  arith,
  fail-IsConsistent now s t (some (stream_failure http2_stream_error protocol_error t.id)),
)

pub publish_body-IsConsistent : (t : Stream) → IsConsistent t → IsConsistent (publish_body t).0
unfolding publish_body
publish_body-IsConsistent t c = ground arith

pub append_body-IsConsistent :
    (now : ℕ) (s : Shared) (t : Stream) (bytes : Text)
    → IsConsistent t
    → IsConsistent (append_body now s t bytes).1
unfolding append_body
append_body-IsConsistent now s t bytes c = ground (
  arith,
  fail-IsConsistent now s t (some (stream_failure http2_stream_error stream_closed t.id)),
  fail-IsConsistent now s t (some (stream_failure resource_limit_exceeded enhance_your_calm t.id)),
  try_resize-amount s.state t.receive (t.receive.amount + length bytes),
  length-append t.pending_body bytes,
)

end_protocol-IsConsistent :
    (s : Shared) (t : Stream)
    → t.body_complete ≡ true
    → IsConsistent t
    → IsConsistent (end_protocol s t).1
unfolding end_protocol finish_application
end_protocol-IsConsistent s t complete c =
    ground (arith, reset-held s t.protocol, reset-held (reset s t.protocol).0 t.application)

pub close_protocol-IsConsistent :
    (now : ℕ) (s : Shared) (t : Stream) → IsConsistent t → IsConsistent (close_protocol now s t).1
unfolding close_protocol
close_protocol-IsConsistent now s t c = ground (
  arith,
  end_protocol-IsConsistent s t,
  fail-IsConsistent now s t (some (stream_failure http2_stream_error stream_closed t.id)),
)

pub reserve_send-IsConsistent :
    (s : Shared) (t : Stream) (bytes : ℕ) → IsConsistent t → IsConsistent (reserve_send s t bytes).1
unfolding reserve_send
reserve_send-IsConsistent s t bytes c = ground arith

pub body_result-IsConsistent :
    (now : ℕ) (s : Shared) (t : Stream) (deadline : ℕ)
    → t.body_complete ≡ true
    → IsConsistent t
    → IsConsistent (body_result now s t deadline).1
unfolding body_result fail complete_body_once
body_result-IsConsistent now s t deadline complete c =
    ground (arith, reset-held s t.protocol, reset-held (reset s t.protocol).0 t.application)
