-- ===== src/Examples/Receive.antt =====
-- A server connection that receives a request with a body, and DATA that is refused.
use hical.Base.{All, ◌≡◌, ◌+◌, refl, true, false, [], ◌∷◌, some, none, List, length, codes}
use hical.Http2.Options.{default_options}
use hical.Http2.Budget.{server, receive_bytes, try_resize}
use hical.Http2.Stream.{append_body, complete_body, complete_body_once, publish_body}
use hical.Http2.Receive.Events.{cancel}
use hical.Http2.Receive.{fail_connection, Outside, Entry, CodecCall, Receive, new_entry, find_entry}
use hical.Http2.Receive.Data.{on_data}
use hical.Http2.Receive.Tasks.{publish}
use hical.Http2.Receive.Table.{IsTable, IsEnded}
use hical.Http2.Receive.Effects.{credited, on_data-credited}
use hical.Http2.Receive.Run.{
  run_ended, cancels_stream, fails_connection, Event, has_data, ends_stream, publishes_body, step,
  run, run_exact,
}
use hical.Examples.Stream.{running, taken, running-IsConsistent}

-- The codec does what it is asked to, and the notifications do nothing.
abbrev quiet : Outside
quiet = record {
  now = 7;
  make_address_v6 = λ t. none;
  consume_result = λ id n. none;
  reset_result = λ id n. none;
  on_headers_ready = λ id. [];
  on_informational_headers = λ id. [];
}

-- A connection with one stream, whose message declares five bytes and has two.
abbrev declared : Entry
declared = record (new_entry running false) { expected_length = some 5 }

abbrev streaming : Receive
streaming = record {
  role = server;
  options = default_options;
  shared = taken;
  streams = declared ∷ [];
  retired = [];
  connection_error = none;
  last_server_stream_id = 1;
  codec_calls = [];
}

streaming-IsTable : IsTable streaming
streaming-IsTable = record {
  entries = (
    record {
      consistent = running-IsConsistent;
      fits = refl;
      fresh = refl;
      unsealed_is_empty = refl;
      unsealed_waits = refl;
      exact = refl;
    },
    tt,
  );
  empty_after_error = refl;
  ended = tt;
}

abbrev last_events : List Event
last_events =
    has_data 1 (codes "c") ∷ has_data 1 (codes "de") ∷ ends_stream 1 ∷ publishes_body 1 ∷ []

abbrev ended : Receive
ended = run quiet streaming last_events

abbrev ended_entry : Entry
ended_entry = record declared {
  stream = record running {
    receive = record { held = true; resource = receive_bytes; amount = 5; limit = 60 };
    pending_body = [];
    mapped_body = codes "abcde";
    body_published = true;
    body_complete = true;
    body_completed_at = 7;
  };
}

run_exact_example :
    length ended_entry.stream.pending_body + length ended_entry.stream.mapped_body ≡ 5
unfolding run find_entry step append_body try_resize complete_body complete_body_once publish
    publish_body
run_exact_example =
    run_exact quiet streaming last_events 1 5 ended_entry streaming-IsTable refl refl refl refl

-- The credit of both pieces was given back.
codec_calls_of_run : ended.codec_calls ≡ CodecCall.consumes 1 1 ∷ CodecCall.consumes 1 2 ∷ []
unfolding run step append_body try_resize complete_body publish complete_body_once
codec_calls_of_run = refl

-- Four bytes are more than the message has left: the codec is not called.
on_data-credited_example :
    (on_data 7 (λ id n. none) (λ id n. none) streaming 1 (codes "cdef")).0.codec_calls
    ≡ credited streaming.codec_calls 1 4
        (on_data 7 (λ id n. none) (λ id n. none) streaming 1 (codes "cdef")).1
on_data-credited_example =
    on_data-credited 7 (λ id n. none) (λ id n. none) streaming 1 (codes "cdef")

-- The stream is cancelled while its reader waits, and then the connection fails.
abbrev broken_events : List Event
broken_events = cancels_stream 1 8 ∷ fails_connection none ∷ []

run_ended_example : All IsEnded (run quiet streaming broken_events).retired
run_ended_example = run_ended quiet streaming broken_events streaming-IsTable

-- The cancelled stream is the one that left.
retired_of_run : length (run quiet streaming broken_events).retired ≡ 1
unfolding run step cancel fail_connection
retired_of_run = refl
