-- ===== src/Examples/ChunkedBody.antt =====
-- Runs of the chunked body model of src/core/ChunkedBody.cpp.
use hical.Base.{◌%◌, ◌^◌, ◌≡◌, refl, true, List, [], ◌∷◌, ◌++◌, codes, length, All}
use hical.Http1.ChunkedBody.{
  ChunkedBody, new_body, write, end, to_hex, hex_digits, serialize_chunked_body,
  serialize_chunked_body_to, append_chunks, append_trailers, serialize_trailer_frame,
  chunked_body_wire_size,
}
use hical.Http1.ChunkedBody.Wire.{
  IsFilled, all_frames, wire_size-length, serialize_chunked_body-frames,
}
use hical.Http1.ChunkedBody.Collect.{Call, write_call, end_call, call, run, collected, run-new_body}

abbrev calls : List Call
calls =
    write_call (codes "Hello, chunked world")
    ∷ write_call []
    ∷ write_call (codes "!")
    ∷ end_call (record { name = codes "X-Sum"; value = codes "1" } ∷ [])
    ∷ write_call (codes "late")
    ∷ []

abbrev body : ChunkedBody
body = record {
  chunks = codes "Hello, chunked world" ∷ codes "!" ∷ [];
  trailers = record { name = codes "X-Sum"; value = codes "1" } ∷ [];
  finished = true;
}

body_collected : run new_body calls ≡ body
unfolding run call write end
body_collected = refl

body_written :
    serialize_chunked_body body
    ≡ codes "14"
      ++ (13 ∷ 10 ∷ codes "Hello, chunked world")
      ++ (13 ∷ 10 ∷ codes "1")
      ++ (13 ∷ 10 ∷ codes "!")
      ++ (13 ∷ 10 ∷ codes "0")
      ++ (13 ∷ 10 ∷ codes "X-Sum: 1")
      ++ (13 ∷ 10 ∷ 13 ∷ 10 ∷ [])
unfolding serialize_chunked_body serialize_chunked_body_to append_chunks append_trailers to_hex
    hex_digits
body_written = refl

wire_size-length_example :
    chunked_body_wire_size body ≡ length (serialize_chunked_body body) % 2 ^ 64
wire_size-length_example = wire_size-length body

serialize_chunked_body-frames_example :
    serialize_chunked_body body ≡ all_frames body.chunks ++ serialize_trailer_frame body.trailers
serialize_chunked_body-frames_example = serialize_chunked_body-frames body (refl, (refl, tt))

run-new_body_example :
    (run new_body calls ≡ collected [] calls) × All IsFilled (run new_body calls).chunks
run-new_body_example = run-new_body calls
