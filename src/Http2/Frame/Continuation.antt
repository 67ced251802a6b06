-- ===== src/Http2/Frame/Continuation.antt =====
-- http/src/http2/frame/continuation.rs
pub mod RoundTrip
pub mod Keeps
use proxy_rs.Prelude.{ℕ, ◌+◌, ◌-◌, ◌%◌, ◌^◌, Bool, not, List, bit_and, ◌==◌, if◌then◌else◌, length}
use proxy_rs.Buffer.{Buffer, reserve}
use proxy_rs.Io.{
  M, Source, Sink, IoError, IoProtoError, protocol, protocol_error, assert, fail_if, from_io, ◌>>=◌,
  ◌>>◌, return, write_all,
}
use proxy_rs.Http2.Frame.{FrameHeader, write_header}
use proxy_rs.Http2.Frame.Body.{modify, read_exact_into}

pub record ContinuationFrame : Type 0 where
  pub payload : Buffer
  pub is_end : Bool

abbrev pub type_num : ℕ
type_num = 0x9

-- `FLAGS_END_HEADERS` of header.rs.
abbrev pub flags_end_headers : ℕ
flags_end_headers = 0x04

-- `reserve(n); let start = len; len += n; read_exact(&mut data[start..])`
abbrev pub read_more : ℕ → M (ContinuationFrame × Source) IoProtoError (Unit {0})
read_more n (f, s) =
    let start = f.payload.len in
    let grown : Buffer = record (reserve f.payload n) { len = (start + n) % 2 ^ 64 } in
    let (r, (b, s')) = from_io (read_exact_into start) (grown, s) in
    (r, (record f { payload = b }, s'))

-- The payload is appended to what the buffer holds.
unfoldable pub read_frame : FrameHeader → M (ContinuationFrame × Source) IoProtoError (Unit {0})
read_frame header = do
  assert (header.frame_type == type_num)
  fail_if (header.stream_id == 0) (protocol protocol_error)
  read_more header.frame_len
  modify (λ f. record f { is_end = not (bit_and header.flags flags_end_headers == 0) })

unfoldable pub write_frame : ℕ → Bool → List ℕ → M Sink IoError ℕ
write_frame stream_id is_end payload = do
  written ← write_header (record {
    stream_id = stream_id;
    frame_len = length payload % 2 ^ 32;
    frame_type = type_num;
    flags = if is_end then flags_end_headers else 0;
  })
  write_all payload
  return (written + length payload)
