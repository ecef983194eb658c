-- ===== src/Http2.antt =====
-- The HTTP/2 layer, src/core/http2.
pub mod Options
pub mod Error
pub mod Budget
pub mod Headers
pub mod Stream
pub mod Receive
