-- ===== src/Http2.antt =====
-- http/src/http2: the HTTP/2 connection, one child module for each source file.
pub mod Error
pub mod Settings
pub mod SipHash
pub mod StaticIndex
pub mod Frame
pub mod Hpack
