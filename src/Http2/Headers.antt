-- ===== src/Http2/Headers.antt =====
-- src/core/http2/Http2Headers.cpp: the storage of one header block. `make_address_v6` is the parser
-- of Boost.Asio, which gives the 16 bytes of an IPv6 address.
pub mod Syntax
pub mod Storage
pub mod Seal
