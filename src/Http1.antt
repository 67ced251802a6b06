-- ===== src/Http1.antt =====
-- http/src/http11.rs: HTTP/1.1 over readers and writers.
pub mod BufWriter
pub mod Status
pub mod Lines
pub mod Body
pub mod Parse
