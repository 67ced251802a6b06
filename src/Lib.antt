-- ===== src/Lib.antt =====
-- The HTTP library of proxy_rs (http/src), as far as it is modelled: byte buffers shared with foreign
-- code, the HTTP/2 frame layer and the header compression, and HTTP/1.1.
--
-- The program is a proxy that loads its protocol code from a C-compatible library. http/src/buffer.rs
-- holds the growable byte buffer that crosses the interface. http/src/http2/frame/ reads and writes
-- one kind of frame in each file, over readers and writers of bytes; mod.rs there has the integers of
-- the wire and the header that stands in front of every frame. http/src/http2/context.rs has the
-- settings that two peers agree on, http/src/http2/error.rs the error codes, and
-- http/src/http2/hpack/ the header compression.
--
-- Files:
--   Io: readers and writers (`std::io::Read` and `Write`) as explicit states, results with errors and
--     panics, and the monad that threads them. A reader is the bytes that it still delivers and the
--     error behind them; a writer is what it took, how much more it takes, and the error past that.
--   Buffer: http/src/buffer.rs. `buf` is the memory behind the pointer, with none for null, of `cap`
--     bytes. The allocator is a parameter: it answers a size with a block, of which the code relies
--     only on the length. Arithmetic is that of a release build: sums wrap at 2 ^ 64, and a shift of a
--     byte takes its distance modulo 8.
--   Http2/Error: http/src/http2/error.rs, with `TryFrom<u32>`, the texts and `get_error_code`.
--   Http2/Settings: `Setting`, `Settings` and `SettingName` of http/src/http2/context.rs.
--   Http2/SipHash, Http2/StaticIndex: the hash, the map of header names and
--     `get_static_header_index` of http/src/http2/context.rs.
--   Http2/Frame: http/src/http2/frame/mod.rs. Its children Data, Headers, Continuation, SettingsFrame,
--     GoAway, Ping, Priority, RstStream and WindowUpdate are the files of the same names there, with
--     `read_frame` and `write_frame`. A read into a caller's frame object threads that object and the
--     reader, so that both outlive an error.
--   Http2/Hpack: http/src/http2/hpack/. Hpack/Integer and Hpack/Text are the integers and strings of
--     literal.rs, Hpack/Huffman is huffman.rs, Hpack/Tables is tables.rs and Hpack/Block is the decoder
--     of fields in http/src/http2/frame/header.rs. The deque of bytes of the
--     dynamic table is the list of its bytes, and a range past its end panics.
--   Foreign: http/src/lib.rs and http/src/result.rs, and the form that the exported functions share. A
--     pointer is null, misaligned or one to a value, a result is a record, and a failed assertion is
--     none. Foreign/Frames has the exported functions of http/src/http2/frame/, Foreign/Bytes the
--     buffers that foreign code lends, and Foreign/Preface the start of a connection in
--     http/src/http2/mod.rs.
--   Bio: http/src/bio.rs, over any state behind a callback; the text that a `BStr` shows is a
--     parameter, since bstr is another library.
--   Request: http/src/request.rs. The map of headers is a list of names with their values.
--   Response: http/src/response.rs. The function that writes a status and the one that writes a body
--     are parameters, and get the result object and the writer; Response/Reason has the phrases.
--   Http1: http/src/http11.rs. Http1/Parse is `http_parse_http11_request`, Http1/Body is `Body` with
--     `get_body_reader`, and Http1/Status is `http11_write_status`. Http1/Lines has what they use of the
--     standard library for lines, UTF-8, white space and numbers, over a `BufReader`, which is the bytes
--     that it still delivers and the error or the end behind them; how many bytes a read has at once is
--     a parameter. Http1/BufWriter is `std::io::BufWriter`, whose buffer holds 8192 bytes.
--   Tests: runs at concrete inputs.
--
-- Fuel: the doubling loop of `Buffer::reserve_len` has 65 rounds, enough for any length up to 2 ^ 63.
-- The loop of SETTINGS frames has one round for each byte of the frame, and takes six bytes in each.
-- The loop of `write_integer` has nine rounds, since a `u64` has ten digits of seven bits. The evicting
-- loops of the dynamic table have as many rounds as it has bytes, and each takes an entry of 32 bytes
-- or more. A writer behind a `BufWriter` takes a byte or more in each round of its loop, which has a
-- round for each byte. The loop over header lines has a round for each byte that is left and one more,
-- and a line takes a byte or more; without fuel it has no answer.
-- The loop of `SipHash::add` has a round for each eight bytes.
--
-- Not modelled: printing a result (`http_print_err`, `http_write_err`), the allocation of objects that
-- are handed out and the end of what they own, the safe wrapper http_rs, and the server with its
-- plugins and TLS, which is sockets, threads and calls of other libraries.
pub mod Prelude
pub mod Io
pub mod Buffer
pub mod Http2
pub mod Foreign
pub mod Bio
pub mod Request
pub mod Response
pub mod Http1
pub mod Tests
