-- ===== src/Http1/ChunkedBody/Wire.antt =====
-- The wire format of src/core/ChunkedBody.cpp: its size, and the body as its frames one by one.
use hical.Base.{
  ℕ, ◌+◌, ◌%◌, ◌^◌, ◌≡◌, refl, sym, ap, ◌∙◌, false, List, [], ◌∷◌, ◌++◌, Text, length, is_empty,
  add64, arith, length-append, append_assoc, append-nil, All,
}
use hical.Http1.ChunkedBody.{
  ChunkExtension, ChunkedBody, crlf, to_hex, serialize_chunk_frame, append_trailers,
  serialize_trailer_frame, append_chunks, serialize_chunked_body_to, serialize_chunked_body,
  add_chunks, add_trailers, chunked_body_wire_size,
}

-- What stands for a chunk that is not empty.
abbrev frame_of : Text → Text
frame_of chunk = to_hex (length chunk) ++ (crlf ++ (chunk ++ crlf))

length-frame_of :
    (chunk : Text)
    → length (frame_of chunk) ≡ length (to_hex (length chunk)) + 2 + (length chunk + 2)
length-frame_of chunk = omega (
  arith,
  length-append (to_hex (length chunk)) (crlf ++ (chunk ++ crlf)),
  length-append chunk crlf,
)

add_chunks-length :
    (total : ℕ) (out : Text) (chunks : List Text)
    → total ≡ length out % 2 ^ 64
    → add_chunks total chunks ≡ length (append_chunks out chunks) % 2 ^ 64
unfolding add_chunks append_chunks
add_chunks-length total out [] h = h
add_chunks-length total out (chunk ∷ chunks) h =
    add_chunks-length (add64 (add64 total (length (to_hex (length chunk)) + 2)) (length chunk + 2))
      (out ++ frame_of chunk) chunks
      (omega (arith, h, length-append out (frame_of chunk), length-frame_of chunk))

add_trailers-length :
    (total : ℕ) (out : Text) (exts : List ChunkExtension)
    → total ≡ length out % 2 ^ 64
    → add_trailers total exts ≡ length (append_trailers out exts) % 2 ^ 64
unfolding add_trailers append_trailers
add_trailers-length total out [] h = h
add_trailers-length total out (ext ∷ exts) h =
    add_trailers-length (add64 total (length ext.name + 2 + length ext.value + 2))
      (out ++ (ext.name ++ (58 ∷ 32 ∷ (ext.value ++ crlf)))) exts
      (omega (
        arith,
        h,
        length-append out (ext.name ++ (58 ∷ 32 ∷ (ext.value ++ crlf))),
        length-append ext.name (58 ∷ 32 ∷ (ext.value ++ crlf)),
        length-append ext.value crlf,
      ))

-- The size that is computed beforehand is the length of what is written, as a size_t.
pub wire_size-length :
    (body : ChunkedBody)
    → chunked_body_wire_size body ≡ length (serialize_chunked_body body) % 2 ^ 64
unfolding chunked_body_wire_size serialize_chunked_body serialize_chunked_body_to
wire_size-length body =
    let chunks = append_chunks [] body.chunks in
    let h = add_chunks-length 0 [] body.chunks (omega arith) in
    let k =
      add_trailers-length (add64 (add_chunks 0 body.chunks) 3) (chunks ++ (48 ∷ crlf)) body.trailers
        (omega (arith, h, length-append chunks (48 ∷ crlf))) in
    omega (arith, k, length-append (append_trailers (chunks ++ (48 ∷ crlf)) body.trailers) crlf)

-- The frames of the chunks, each as serializeChunkFrame writes it.
abbrev pub all_frames : List Text → Text
all_frames [] = []
all_frames (chunk ∷ chunks) = serialize_chunk_frame chunk ++ all_frames chunks

abbrev pub IsFilled : Text → Type 0
IsFilled chunk = is_empty chunk ≡ false

serialize_chunk_frame-frame_of :
    (chunk : Text) → IsFilled chunk → serialize_chunk_frame chunk ≡ frame_of chunk
unfolding serialize_chunk_frame
serialize_chunk_frame-frame_of chunk h = ground (arith, h)

append_chunks-all_frames :
    (out : Text) (chunks : List Text)
    → All IsFilled chunks
    → append_chunks out chunks ≡ out ++ all_frames chunks
unfolding append_chunks
append_chunks-all_frames out [] h = sym (append-nil out)
append_chunks-all_frames out (chunk ∷ chunks) (h, hs) =
    append_chunks-all_frames (out ++ frame_of chunk) chunks hs
    ∙ append_assoc out (frame_of chunk) (all_frames chunks)
    ∙ ap (λ x. out ++ (x ++ all_frames chunks)) (sym (serialize_chunk_frame-frame_of chunk h))

append_trailers-append :
    (xs ys : Text) (exts : List ChunkExtension)
    → append_trailers (xs ++ ys) exts ≡ xs ++ append_trailers ys exts
unfolding append_trailers
append_trailers-append xs ys [] = refl
append_trailers-append xs ys (ext ∷ exts) =
    ap (λ x. append_trailers x exts)
      (append_assoc xs ys (ext.name ++ (58 ∷ 32 ∷ (ext.value ++ crlf))))
    ∙ append_trailers-append xs (ys ++ (ext.name ++ (58 ∷ 32 ∷ (ext.value ++ crlf)))) exts

-- A body with no empty chunk is written in one piece as it would be streamed: the frame of each chunk
-- in order, and then the last frame with the trailers.
pub serialize_chunked_body-frames :
    (body : ChunkedBody)
    → All IsFilled body.chunks
    → serialize_chunked_body body ≡ all_frames body.chunks ++ serialize_trailer_frame body.trailers
unfolding serialize_chunked_body serialize_chunked_body_to serialize_trailer_frame
serialize_chunked_body-frames body h =
    let frames = all_frames body.chunks in
    ap (λ x. append_trailers (x ++ (48 ∷ crlf)) body.trailers ++ crlf)
      (append_chunks-all_frames [] body.chunks h)
    ∙ ap (λ x. x ++ crlf) (append_trailers-append frames (48 ∷ crlf) body.trailers)
    ∙ append_assoc frames (append_trailers (48 ∷ crlf) body.trailers) crlf
