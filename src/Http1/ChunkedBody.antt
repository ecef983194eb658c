-- ===== src/Http1/ChunkedBody.antt =====
-- src/core/ChunkedBody.h and ChunkedBody.cpp: a response body in chunks, and its wire format.
use hical.Base.{
  ℕ, zero, suc, ◌+◌, ◌/◌, ◌%◌, Bool, true, false, ◌||◌, List, [], ◌∷◌, ◌++◌, Text, codes, length,
  ltb, if◌then◌else◌, is_empty, add64,
}
pub mod Wire
pub mod Collect

pub record ChunkExtension : Type 0 where
  pub name : Text
  pub value : Text

pub record ChunkedBody : Type 0 where
  pub chunks : List Text
  pub trailers : List ChunkExtension
  pub finished : Bool

abbrev pub new_body : ChunkedBody
new_body = record { chunks = []; trailers = []; finished = false }

unfoldable pub write : ChunkedBody → Text → ChunkedBody
write body input =
    if body.finished || is_empty input
    then body
    else record body { chunks = body.chunks ++ (input ∷ []) }

unfoldable pub end : ChunkedBody → List ChunkExtension → ChunkedBody
end body trailers =
    if body.finished then body else record body { finished = true; trailers = trailers }

-- `std::to_chars` in base 16, in lower case.
abbrev pub hex_digit : ℕ → ℕ
hex_digit d = if ltb d 10 then 48 + d else 87 + d

unfoldable pub hex_digits : ℕ → ℕ → Text
hex_digits zero n = []
hex_digits (suc fuel) n =
    let high = hex_digits fuel (n / 16) in
    if ltb n 16 then hex_digit n ∷ [] else high ++ (hex_digit (n % 16) ∷ [])

-- A size_t has at most sixteen digits.
unfoldable pub to_hex : ℕ → Text
unfolding hex_digits
to_hex n = hex_digits 16 n

abbrev pub crlf : Text
crlf = 13 ∷ 10 ∷ []

unfoldable pub serialize_chunk_frame : Text → Text
unfolding to_hex
serialize_chunk_frame input =
    if is_empty input
    then 48 ∷ 13 ∷ 10 ∷ 13 ∷ 10 ∷ []
    else to_hex (length input) ++ (crlf ++ (input ++ crlf))

-- The loop over the trailers, which appends to the string.
unfoldable pub append_trailers : Text → List ChunkExtension → Text
append_trailers result [] = result
append_trailers result (ext ∷ exts) =
    append_trailers (result ++ (ext.name ++ (58 ∷ 32 ∷ (ext.value ++ crlf)))) exts

unfoldable pub serialize_trailer_frame : List ChunkExtension → Text
unfolding append_trailers
serialize_trailer_frame trailers = append_trailers (48 ∷ crlf) trailers ++ crlf

unfoldable pub append_chunks : Text → List Text → Text
unfolding to_hex
append_chunks out [] = out
append_chunks out (chunk ∷ chunks) =
    append_chunks (out ++ (to_hex (length chunk) ++ (crlf ++ (chunk ++ crlf)))) chunks

unfoldable pub serialize_chunked_body_to : Text → ChunkedBody → Text
unfolding append_chunks append_trailers
serialize_chunked_body_to out body =
    append_trailers (append_chunks out body.chunks ++ (48 ∷ crlf)) body.trailers ++ crlf

unfoldable pub serialize_chunked_body : ChunkedBody → Text
unfolding serialize_chunked_body_to
serialize_chunked_body body = serialize_chunked_body_to [] body

-- The sums of chunkedBodyWireSize, on size_t.
unfoldable pub add_chunks : ℕ → List Text → ℕ
unfolding to_hex
add_chunks total [] = total
add_chunks total (chunk ∷ chunks) =
    add_chunks (add64 (add64 total (length (to_hex (length chunk)) + 2)) (length chunk + 2)) chunks

unfoldable pub add_trailers : ℕ → List ChunkExtension → ℕ
add_trailers total [] = total
add_trailers total (ext ∷ exts) =
    add_trailers (add64 total (length ext.name + 2 + length ext.value + 2)) exts

unfoldable pub chunked_body_wire_size : ChunkedBody → ℕ
unfolding add_chunks add_trailers
chunked_body_wire_size body =
    add64 (add_trailers (add64 (add_chunks 0 body.chunks) 3) body.trailers) 2
