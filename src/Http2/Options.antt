-- ===== src/Http2/Options.antt =====
-- src/core/Http2Options.h: the limits, and the checks that every component runs on them.
use hical.Base.{ℕ, ◌*◌, not, ◌||◌, Option, none, some, ltb, ◌==◌, if◌then◌else◌, ℤ, pos, positive}

abbrev pub max_header_fields_cap : ℕ
max_header_fields_cap = 64

abbrev pub header_field_overhead_bytes : ℕ
header_field_overhead_bytes = 32

abbrev pub default_window_size : ℕ
default_window_size = 65535

abbrev pub max_window_size : ℕ
max_window_size = 0x7fffffff

abbrev pub min_frame_bytes : ℕ
min_frame_bytes = 16384

abbrev pub max_frame_bytes_cap : ℕ
max_frame_bytes_cap = 0xffffff

pub record Http2Options : Type 0 where
  pub max_concurrent_streams : ℕ
  pub max_application_tasks : ℕ
  pub max_server_application_tasks : ℕ
  pub max_header_bytes : ℕ
  pub max_header_fields : ℕ
  pub max_body_bytes : ℕ
  pub max_connection_receive_bytes : ℕ
  pub max_connection_send_bytes : ℕ
  pub max_output_batch_bytes : ℕ
  pub max_file_prefetch_bytes : ℕ
  pub max_response_bytes : ℕ
  pub max_client_connection_receive_bytes : ℕ
  pub max_connections_per_origin : ℕ
  pub max_queued_requests_per_origin : ℕ
  pub initial_stream_window : ℕ
  pub initial_connection_window : ℕ
  pub max_frame_bytes : ℕ
  pub header_table_bytes : ℕ
  pub negotiation_timeout : ℤ
  pub header_timeout : ℤ
  pub body_timeout : ℤ
  pub write_timeout : ℤ
  pub queue_timeout : ℤ

-- One constructor for each message of `validationError`.
pub data OptionsError : Type 0 where
  task_limits header_limits body_limits output_limits client_limits window_limits : OptionsError
  timeouts : OptionsError

-- `none` is the empty string: the options are valid.
unfoldable pub validation_error : Http2Options → Option OptionsError
validation_error o =
    if o.max_concurrent_streams == 0
      || ltb max_window_size o.max_concurrent_streams
      || o.max_application_tasks == 0
      || o.max_server_application_tasks == 0
    then some task_limits
    else if o.max_header_fields == 0
        || ltb max_header_fields_cap o.max_header_fields
        || o.max_header_bytes == 0
    then some header_limits
    else if o.max_body_bytes == 0
        || ltb o.max_connection_receive_bytes o.max_body_bytes
        || o.max_connection_send_bytes == 0
    then some body_limits
    else if o.max_output_batch_bytes == 0
        || ltb o.max_connection_send_bytes o.max_output_batch_bytes
        || o.max_file_prefetch_bytes == 0
        || ltb o.max_connection_send_bytes o.max_file_prefetch_bytes
    then some output_limits
    else if o.max_response_bytes == 0
        || ltb o.max_client_connection_receive_bytes o.max_response_bytes
        || o.max_connections_per_origin == 0
        || o.max_queued_requests_per_origin == 0
    then some client_limits
    else if ltb max_window_size o.initial_stream_window
        || ltb o.initial_connection_window default_window_size
        || ltb max_window_size o.initial_connection_window
        || ltb o.max_frame_bytes min_frame_bytes
        || ltb max_frame_bytes_cap o.max_frame_bytes
    then some window_limits
    else if not (positive o.negotiation_timeout)
        || not (positive o.header_timeout)
        || not (positive o.body_timeout)
        || not (positive o.write_timeout)
        || not (positive o.queue_timeout)
    then some timeouts
    else none

abbrev ten_seconds : ℤ
ten_seconds = pos 10_000_000_000

abbrev thirty_seconds : ℤ
thirty_seconds = pos 30_000_000_000

-- The values that the members are initialised with; durations in nanoseconds.
abbrev pub default_options : Http2Options
default_options = record {
  max_concurrent_streams = 64;
  max_application_tasks = 64;
  max_server_application_tasks = 4096;
  max_header_bytes = 8 * 1024;
  max_header_fields = 64;
  max_body_bytes = 1024 * 1024;
  max_connection_receive_bytes = 8 * 1024 * 1024;
  max_connection_send_bytes = 8 * 1024 * 1024;
  max_output_batch_bytes = 64 * 1024;
  max_file_prefetch_bytes = 64 * 1024;
  max_response_bytes = 16 * 1024 * 1024;
  max_client_connection_receive_bytes = 32 * 1024 * 1024;
  max_connections_per_origin = 2;
  max_queued_requests_per_origin = 256;
  initial_stream_window = 65535;
  initial_connection_window = 65535;
  max_frame_bytes = 16384;
  header_table_bytes = 4096;
  negotiation_timeout = ten_seconds;
  header_timeout = ten_seconds;
  body_timeout = thirty_seconds;
  write_timeout = thirty_seconds;
  queue_timeout = thirty_seconds;
}
