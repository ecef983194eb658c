-- ===== src/Examples/Stream.antt =====
-- A stream that receives a body, fails while its task runs, and one that is refused.
use hical.Base.{◌≤◌, ◌≡◌, ◌↔◌, refl, true, false, arith, [], ◌∷◌, some, none, codes}
use hical.Http2.Options.{default_options}
use hical.Http2.Error.{stream_failure, http2_stream_error, cancelled, NetworkError}
use hical.Http2.Budget.{
  Shared, no_lease, server, protocol_stream, application_task, receive_bytes, send_bytes,
  acquire_protocol_stream, acquire_application_task, reset,
}
use hical.Http2.Budget.Laws.{Covers}
use hical.Http2.Headers.Storage.{request}
use hical.Http2.Stream.{Stream, fail, reserve}
use hical.Http2.Stream.Wait.{body_result}
use hical.Http2.Stream.Consistent.{IsConsistent}
use hical.Http2.Stream.Run.{
  appends, completes, publishes, resets, wakes, finishes, run, run-IsConsistent,
}
use hical.Http2.Stream.Results.{
  run-error, fail_keeps_task, body_result_iff, reserve_refused, SameCounts,
}

abbrev pub taken : Shared
taken = record {
  state = record {
    used = record { protocol_streams = 1; application_tasks = 1; receive = 2; send = 0 };
    limits = record { protocol_streams = 1; application_tasks = 1; receive = 100; send = 100 };
    stream_receive_limit = 60;
    has_service = true;
  };
  service = record { limit = 4; used = 1 };
}

-- A stream whose head is sealed, with two bytes received and its task running.
abbrev pub running : Stream
running = record {
  id = 1;
  incoming_kind = request;
  initial_headers = some (record {
    kind = request;
    stream_id = 1;
    max_fields = 64;
    max_bytes = 8192;
    decoded_fields = 0;
    decoded_bytes = 0;
    entries = [];
    views = [];
    bytes = [];
    content_length = none;
    status = 0;
    regular_seen = false;
    sealed = true;
    error = none;
  });
  trailers = none;
  protocol = record { held = true; resource = protocol_stream; amount = 1; limit = 1 };
  application = record { held = true; resource = application_task; amount = 1; limit = 1 };
  receive = record { held = true; resource = receive_bytes; amount = 2; limit = 60 };
  send = record { held = true; resource = send_bytes; amount = 0; limit = 100 };
  mapped_body = [];
  pending_body = codes "ab";
  body_waiters = [];
  error = none;
  body_completed_at = 0;
  body_complete = false;
  body_failed = false;
  body_published = false;
  application_started = true;
  application_finished = false;
}

pub running-IsConsistent : IsConsistent running
running-IsConsistent = record {
  closed_by_error = refl;
  complete_when_closed = refl;
  failed_with_error = refl;
  failed_is_complete = refl;
  slot_until_finished = refl;
  finished_after_start = refl;
  finished_needs_start = refl;
  charged = refl;
  published_is_complete = refl;
  unpublished_is_empty = refl;
}

run-IsConsistent_example :
    IsConsistent
      (run
        (taken, running)
        (appends 5 (codes "cd") ∷ wakes 6 0 6 none ∷ completes 7 ∷ finishes ∷ [])).1
run-IsConsistent_example =
    run-IsConsistent (taken, running)
      (appends 5 (codes "cd") ∷ wakes 6 0 6 none ∷ completes 7 ∷ finishes ∷ []) running-IsConsistent

abbrev reset_by_peer : NetworkError
reset_by_peer = stream_failure http2_stream_error cancelled 1

-- The stream after the peer has reset it.
abbrev broken : Stream
broken = record running {
  protocol = record { held = false; resource = protocol_stream; amount = 0; limit = 1 };
  error = some reset_by_peer;
  body_completed_at = 5;
  body_complete = true;
  body_failed = true;
}

broken-IsConsistent : IsConsistent broken
broken-IsConsistent = record {
  closed_by_error = refl;
  complete_when_closed = refl;
  failed_with_error = refl;
  failed_is_complete = refl;
  slot_until_finished = refl;
  finished_after_start = refl;
  finished_needs_start = refl;
  charged = refl;
  published_is_complete = refl;
  unpublished_is_empty = refl;
}

run-error_example :
    (run (taken, broken) (resets 8 11 ∷ completes 9 ∷ publishes ∷ [])).1.error ≡ some reset_by_peer
run-error_example =
    run-error (taken, broken) (resets 8 11 ∷ completes 9 ∷ publishes ∷ []) reset_by_peer
      broken-IsConsistent refl

fail_keeps_task_example :
    let r = fail 5 taken running (some reset_by_peer) in
    (r.1.protocol.held ≡ false)
    × (r.1.application ≡ running.application)
    × (r.0.state.used.application_tasks ≡ 1)
    × (r.0.service ≡ taken.service)
fail_keeps_task_example = fail_keeps_task 5 taken running (some reset_by_peer) refl refl refl

-- The stream after its body came at time 5.
abbrev whole : Stream
whole = record running { body_completed_at = 5; body_complete = true }

whole-IsConsistent : IsConsistent whole
whole-IsConsistent = record {
  closed_by_error = refl;
  complete_when_closed = refl;
  failed_with_error = refl;
  failed_is_complete = refl;
  slot_until_finished = refl;
  finished_after_start = refl;
  finished_needs_start = refl;
  charged = refl;
  published_is_complete = refl;
  unpublished_is_empty = refl;
}

body_result_iff_example :
    ((body_result 9 taken whole 4).2 ≡ none) ↔ ((whole.body_failed ≡ false) × (5 ≤ 4))
body_result_iff_example = body_result_iff 9 taken whole 4 whole-IsConsistent refl

taken-Covers : Covers taken no_lease
taken-Covers = record {
  bounded = λ r. ground arith;
  fits = λ r. ground arith;
  covers = λ r. ground arith;
  service_bounded = omega arith;
  service_fits = omega arith;
  service_covers = omega arith;
}

-- The connection's only slot is taken.
taken_refuses : (reserve server taken 3 request 100 default_options).1 ≡ none
unfolding reserve acquire_protocol_stream acquire_application_task reset
taken_refuses = refl

reserve_refused_example : SameCounts taken (reserve server taken 3 request 100 default_options).0
reserve_refused_example =
    reserve_refused server taken 3 request 100 default_options taken-Covers taken_refuses
