-- ===== src/Http1.antt =====
-- HTTP/1.1, src/core: the chunked transfer coding.
pub mod ChunkedBody
