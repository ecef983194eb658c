-- ===== src/Ws.antt =====
-- WebSocket, src/core: the frames of RFC 6455.
pub mod Mask
pub mod Frame
pub mod Session
