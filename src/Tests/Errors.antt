-- ===== src/Tests/Errors.antt =====
-- Runs of reads that the peer cuts short.
use proxy_rs.Prelude.{[], ◌∷◌, ℕ, arith}
use proxy_rs.Buffer.{IsValid}
use proxy_rs.Io.{Source, unexpected_eof}
use proxy_rs.Http2.Frame.{FrameHeader}
use proxy_rs.Http2.Frame.Wire.{holding}
use proxy_rs.Http2.Frame.Data
use proxy_rs.Http2.Frame.GoAway
use proxy_rs.Http2.Frame.Headers
use proxy_rs.Http2.Frame.Data.Keeps.{data_buffer_IsValid}
use proxy_rs.Http2.Frame.GoAway.Keeps.{go_away_buffer_IsValid}
use proxy_rs.Http2.Frame.Headers.Keeps.{headers_buffer_IsValid}
use proxy_rs.Http2.Frame.Continuation
use proxy_rs.Http2.Frame.Continuation.Keeps.{continuation_buffer_IsValid}
use proxy_rs.Tests.{small_buffer-IsValid, small_buffer-len}
use proxy_rs.Tests.Payload.{continuation_object, data_object, go_away_object, headers_object}

-- A padded frame of ten bytes, of which two arrive.
abbrev announced : ℕ → ℕ → FrameHeader
announced frame_type stream_id = record {
  stream_id = stream_id;
  frame_len = 10;
  frame_type = frame_type;
  flags = 8;
}

abbrev cut_short : Source
cut_short = holding (3 ∷ 1 ∷ []) unexpected_eof

data_error_example : IsValid (Data.read_frame (announced 0 5) (data_object, cut_short)).1.0.payload
data_error_example =
    data_buffer_IsValid (announced 0 5) data_object cut_short (omega arith) small_buffer-IsValid

go_away_error_example :
    IsValid (GoAway.read_frame (announced 7 0) (go_away_object, cut_short)).1.0.debug_data
go_away_error_example =
    go_away_buffer_IsValid (announced 7 0) go_away_object cut_short (omega arith)
      small_buffer-IsValid

headers_error_example :
    IsValid (Headers.read_frame (announced 1 5) (headers_object, cut_short)).1.0.payload
headers_error_example =
    headers_buffer_IsValid (announced 1 5) headers_object cut_short (omega arith)
      small_buffer-IsValid

continuation_error_example :
    IsValid (Continuation.read_frame (announced 9 5) (continuation_object, cut_short)).1.0.payload
continuation_error_example =
    continuation_buffer_IsValid (announced 9 5) continuation_object cut_short
      (omega (arith, small_buffer-len)) small_buffer-IsValid
