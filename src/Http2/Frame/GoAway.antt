-- ===== src/Http2/Frame/GoAway.antt =====
-- http/src/http2/frame/go_away.rs
pub mod RoundTrip
pub mod Keeps
use proxy_rs.Prelude.{ℕ, ◌+◌, ◌-◌, ◌%◌, ◌^◌, not, List, bit_and, ltb, ◌==◌, length}
use proxy_rs.Buffer.{Buffer, reserve_len}
use proxy_rs.Io.{
  M, Source, Sink, IoError, IoProtoError, ErrorCode, protocol, protocol_error, frame_size_error,
  assert, fail_if, from_io, ◌>>=◌, ◌>>◌, return, write_all,
}
use proxy_rs.Http2.Error.{error_value}
use proxy_rs.Http2.Frame.{FrameHeader, read_u32, write_header, write_u32}
use proxy_rs.Http2.Frame.Body.{on_source, modify, read_exact_into}

pub record GoAwayFrame : Type 0 where
  pub last_id : ℕ
  pub error_code : ℕ
  pub debug_data : Buffer

abbrev pub type_num : ℕ
type_num = 0x7

abbrev pub read_debug_data : M (GoAwayFrame × Source) IoProtoError (Unit {0})
read_debug_data (f, s) =
    let (r, (b, s')) = from_io (read_exact_into 0) (f.debug_data, s) in
    (r, (record f { debug_data = b }, s'))

abbrev pub resize_debug_data : ℕ → GoAwayFrame → GoAwayFrame
resize_debug_data n f = record f { debug_data = record (reserve_len f.debug_data n) { len = n } }

unfoldable pub read_frame : FrameHeader → M (GoAwayFrame × Source) IoProtoError (Unit {0})
read_frame header = do
  assert (header.frame_type == type_num)
  fail_if (not (header.stream_id == 0)) (protocol protocol_error)
  fail_if (ltb header.frame_len 8) (protocol frame_size_error)
  id ← on_source (from_io read_u32)
  code ← on_source (from_io read_u32)
  modify (resize_debug_data (header.frame_len - 8))
  read_debug_data
  modify (λ f. record f { last_id = bit_and id 0x7FFFFFFF; error_code = code })

unfoldable pub write_frame : ℕ → ErrorCode → List ℕ → M Sink IoError ℕ
write_frame last_id error payload = do
  written ← write_header (record {
    stream_id = 0;
    frame_len = (length payload % 2 ^ 32 + 8) % 2 ^ 32;
    frame_type = type_num;
    flags = 0;
  })
  write_u32 (bit_and last_id 0x7FFFFFFF)
  write_u32 (error_value error)
  write_all payload
  return (written + 4 + 4 + length payload)
