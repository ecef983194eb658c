-- ===== src/Http2/Error.antt =====
-- `NetworkError` of src/core/Error.h and `Http2Code` of src/core/http2/Http2Codec.h. Messages are
-- left out. A returned error is an `Option`: `none` is the value with the code `hNoError`.
use hical.Base.{ℕ, Bool, true, false, Option, some}

pub data ErrorCode : Type 0 where
  eof connection_reset connection_refused timed_out connection_in_progress : ErrorCode
  connection_aborted address_in_use address_not_available network_unreachable : ErrorCode
  host_unreachable operation_aborted operation_in_progress broken_pipe : ErrorCode
  permission_denied too_many_open_files would_block ssl_handshake_error : ErrorCode
  ssl_invalid_certificate ssl_protocol_error protocol_unavailable : ErrorCode
  protocol_negotiation_failed http2_connection_error http2_stream_error : ErrorCode
  resource_limit_exceeded invalid_configuration unknown : ErrorCode

abbrev pub is_resource_limit : ErrorCode → Bool
is_resource_limit resource_limit_exceeded = true
is_resource_limit _ = false

-- `Http2Code`, by its number: a value from the peer may be none of the enumerators.
abbrev pub no_error : ℕ
no_error = 0

abbrev pub protocol_error : ℕ
protocol_error = 1

abbrev pub internal_error : ℕ
internal_error = 2

abbrev pub stream_closed : ℕ
stream_closed = 5

abbrev pub refused_stream : ℕ
refused_stream = 7

abbrev pub cancelled : ℕ
cancelled = 8

abbrev pub enhance_your_calm : ℕ
enhance_your_calm = 11

pub record Http2ErrorInfo : Type 0 where
  pub code : ℕ
  pub stream_id : ℕ

pub record NetworkError : Type 0 where
  pub code : ErrorCode
  pub http2 : Option Http2ErrorInfo

-- An error with its HTTP/2 code and stream.
abbrev pub stream_failure : ErrorCode → ℕ → ℕ → NetworkError
stream_failure code number stream_id = record {
  code = code;
  http2 = some (record { code = number; stream_id = stream_id });
}
