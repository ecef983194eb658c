-- ===== src/Routing.antt =====
-- The router, src/core/Router.cpp and Router.h, with the methods of HttpTypes.h.
pub mod Method
pub mod Path
pub mod Table
pub mod PerfectHash
pub mod Decode
pub mod Allow
pub mod Resolve
pub mod Dispatch
pub mod Stream
