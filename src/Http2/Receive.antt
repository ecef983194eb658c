-- ===== src/Http2/Receive.antt =====
-- src/core/http2/Http2Receive.cpp: the table of the streams of a connection, and the events that
-- the codec reports. A stream that leaves the table may still be held by its task, so it is kept
-- in `retired`. The table is in the order of the insertions, where the code's map has no order.
-- The codec's operations are parameters, and its calls are recorded in order; the user's
-- notifications may cancel streams and fail the connection before they return.
pub mod Events
pub mod Data
pub mod Effects
pub mod Table
pub mod Ended
pub mod Answers
pub mod Bodies
pub mod Kept
pub mod Entries
pub mod Handlers
pub mod Blocks
pub mod Tasks
pub mod Run
use hical.Base.{
  ℕ, zero, suc, ◌+◌, ◌-◌, ◌%◌, ◌≡◌, Bool, true, false, not, ◌&&◌, ◌||◌, List, [], ◌∷◌, ◌++◌, Option,
  none, some, Text, length, ltb, leb, ◌==◌, if◌then◌else◌, is_some, is_empty,
}
use hical.Http2.Options.{Http2Options}
use hical.Http2.Error.{
  ErrorCode, NetworkError, stream_failure, http2_stream_error, http2_connection_error,
  resource_limit_exceeded, operation_aborted, invalid_configuration, is_resource_limit, no_error,
  protocol_error, internal_error, stream_closed, refused_stream, cancelled, enhance_your_calm,
}
use hical.Http2.Budget.{Shared, Role, client, server}
use hical.Http2.Headers.Storage.{
  HeaderKind, request, response, trailers, new_storage, is_trailers, is_response,
}
use hical.Http2.Headers.Seal.{
  Http2Headers, is_sealed, content_length, status, headers_append, headers_seal,
}
use hical.Http2.Stream.{
  Stream, create, fail, append_body, complete_body, close_protocol, reset_stream, protocol_open,
  received_bytes, Outcome,
}

pub record Entry : Type 0 where
  pub stream : Stream
  -- none is a null pointer.
  pub pending_headers : Option Http2Headers
  pub pending_kind : HeaderKind
  pub expected_length : Option ℕ
  pub head_response : Bool
  pub body_forbidden : Bool

-- Http2Codec::HeaderBlock
pub record HeaderBlock : Type 0 where
  pub stream_id : ℕ
  pub kind : HeaderKind
  pub status_code : ℕ
  pub end_stream : Bool

-- A call of the codec: `consume(streamId, size)` or `reset(streamId, code)`.
pub data CodecCall : Type 0 where
  consumes resets : ℕ → ℕ → CodecCall

-- What the user's notification does to the connection, in order: it cancels a stream with a code, or
-- fails the connection.
pub data UserCall : Type 0 where
  cancels : ℕ → ℕ → UserCall
  fails : Option NetworkError → UserCall

pub record Receive : Type 0 where
  pub role : Role
  pub options : Http2Options
  pub shared : Shared
  pub streams : List Entry
  pub retired : List Stream
  pub connection_error : Option NetworkError
  pub last_server_stream_id : ℕ
  pub codec_calls : List CodecCall

-- What a handler gives back to the codec: a code, or an exception.
pub data Reply : Type 0 where
  code : ℕ → Reply
  thrown : Reply

-- What a connection calls: the codec, which answers a call with an error or none, the user's
-- notifications, the clock and the parser of addresses.
pub record Outside : Type 0 where
  pub now : ℕ
  pub make_address_v6 : Text → Option Text
  pub consume_result : ℕ → ℕ → Option NetworkError
  pub reset_result : ℕ → ℕ → Option NetworkError
  pub on_headers_ready : ℕ → List UserCall
  pub on_informational_headers : ℕ → List UserCall

abbrev pub is_client : Role → Bool
is_client client = true
is_client server = false

abbrev pub same_kind : HeaderKind → HeaderKind → Bool
same_kind request request = true
same_kind response response = true
same_kind trailers trailers = true
same_kind _ _ = false

abbrev pub new_entry : Stream → Bool → Entry
new_entry t head_response = record {
  stream = t;
  pending_headers = none;
  pending_kind = request;
  expected_length = none;
  head_response = head_response;
  body_forbidden = false;
}

-- `streams_.find(streamId)`
unfoldable pub find_entry : ℕ → List Entry → Option Entry
find_entry id [] = none
find_entry id (e ∷ es) = let rest = find_entry id es in if e.stream.id == id then some e else rest

-- `streams_.erase`
unfoldable pub without_entry : ℕ → List Entry → List Entry
without_entry id [] = []
without_entry id (e ∷ es) =
    let rest = without_entry id es in if e.stream.id == id then es else e ∷ rest

-- The entry of that stream, changed in place.
unfoldable pub put_entry : ℕ → Entry → List Entry → List Entry
put_entry id f [] = []
put_entry id f (e ∷ es) =
    let rest = put_entry id f es in if e.stream.id == id then f ∷ es else e ∷ rest

abbrev pub update : Receive → ℕ → Entry → Receive
update r id e = record r { streams = put_entry id e r.streams }

-- streamError: the code of the error follows the code of the stream.
abbrev pub stream_error : ℕ → ℕ → NetworkError
stream_error id number =
    stream_failure
      (if number == enhance_your_calm then resource_limit_exceeded else http2_stream_error) number
      id

-- Without a code of its own, an error cancels the stream.
abbrev pub code_of : Option NetworkError → Option ℕ
code_of none = none
code_of (some e) = elim e.http2 [ none ↦ none | some info ↦ some info.code ]

abbrev pub is_limit : Option NetworkError → Bool
is_limit none = false
is_limit (some e) = is_resource_limit e.code

unfoldable pub rejection_code : Option NetworkError → ℕ
rejection_code error =
    let default = if is_limit error then enhance_your_calm else cancelled in
    elim (code_of error) [
      | none ↦ default
      | some number ↦ if number == no_error then default else number
    ]

-- The time is an argument of every operation that ends a stream.
unfoldable pub fail_all : ℕ → Option NetworkError → Shared → List Entry → Shared × List Stream
fail_all now error s [] = (s, [])
fail_all now error s (e ∷ es) =
    let (s1, t, _) = fail now s e.stream error in
    let (s2, ts) = fail_all now error s1 es in (s2, t ∷ ts)

abbrev pub or_cancelled : Option NetworkError → Option NetworkError
or_cancelled none = some (record { code = operation_aborted; http2 = none })
or_cancelled (some e) = some e

-- Http2Receive::fail
unfoldable pub fail_connection : ℕ → Receive → Option NetworkError → Receive
unfolding fail_all
fail_connection now r error =
    let (s, ts) = fail_all now (or_cancelled error) r.shared r.streams in
    if is_some r.connection_error then r else record r {
      shared = s;
      streams = [];
      retired = r.retired ++ ts;
      connection_error = or_cancelled error;
    }

unfoldable pub reject : ℕ → Receive → ℕ → Option NetworkError → Receive × Reply
unfolding find_entry without_entry rejection_code
reject now r id error = elim (find_entry id r.streams) [
  | none ↦ (r, Reply.code (rejection_code error))
  | some e ↦
      let (s, t, _) = fail now r.shared e.stream error in
      (
        record r {
          shared = s;
          streams = without_entry id r.streams;
          retired = r.retired ++ t ∷ [];
        },
        Reply.code (rejection_code error),
      )
]

-- checkOperation: a codec error ends the connection, and is thrown.
unfoldable pub check_operation : ℕ → Receive → Option NetworkError → Reply → Receive × Reply
unfolding fail_connection
check_operation now r none reply = (r, reply)
check_operation now r (some e) reply = (
  fail_connection now r (some (stream_failure http2_connection_error internal_error 0)),
  Reply.thrown,
)

-- A call of the codec, with what the codec answers to it.
unfoldable pub codec_reset :
    ℕ → (ℕ → ℕ → Option NetworkError) → Receive → ℕ → ℕ → Reply → Receive × Reply
unfolding check_operation
codec_reset now reset_result r id number reply =
    check_operation now
      (record r { codec_calls = r.codec_calls ++ CodecCall.resets id number ∷ [] })
      (reset_result id number) reply

unfoldable pub codec_consume :
    ℕ → (ℕ → ℕ → Option NetworkError) → Receive → ℕ → ℕ → Reply → Receive × Reply
unfolding check_operation
codec_consume now consume_result r id size reply =
    check_operation now
      (record r { codec_calls = r.codec_calls ++ CodecCall.consumes id size ∷ [] })
      (consume_result id size) reply

unfoldable pub find : Receive → ℕ → Option Stream
unfolding find_entry
find r id = elim (find_entry id r.streams) [ none ↦ none | some e ↦ some e.stream ]

abbrev pub size : Receive → ℕ
size r = length r.streams

unfoldable pub add_client_stream : Receive → Stream → Bool → Receive × Option NetworkError
unfolding find_entry
add_client_stream r t head_response =
    if is_some r.connection_error
    then (r, r.connection_error)
    else if not (is_client r.role)
        || t.id == 0
        || t.id % 2 == 0
        || not (protocol_open t)
        || is_sealed t.initial_headers
        || is_some (find_entry t.id r.streams)
    then (r, some (record { code = invalid_configuration; http2 = none }))
    else (record r { streams = r.streams ++ new_entry t head_response ∷ [] }, none)
