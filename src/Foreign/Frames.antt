-- ===== src/Foreign/Frames.antt =====
-- The exported functions of http/src/http2/frame/: each file's `http_*_read_frame` and
-- `http_*_write_frame` around its `read_frame` and `write_frame`.
use proxy_rs.Prelude.{
  ℕ, ◌/◌, ◌^◌, Bool, true, not, Option, none, some, bit_and, bit_or, ◌==◌, if◌then◌else◌,
}
use proxy_rs.Buffer.{is_sane}
use proxy_rs.Io.{ErrorCode, Source, Sink, ◌>>=◌, return}
use proxy_rs.Http2.Settings.{Settings}
use proxy_rs.Http2.Frame.{FrameHeader, read_header, write_header}
use proxy_rs.Http2.Frame.Data
use proxy_rs.Http2.Frame.Data.{DataFrame}
use proxy_rs.Http2.Frame.Headers
use proxy_rs.Http2.Frame.Headers.{
  HeaderFrame, Priority, flags_padded, flags_priority, flags_end_headers, flags_end_stream,
}
use proxy_rs.Http2.Frame.Continuation
use proxy_rs.Http2.Frame.Continuation.{ContinuationFrame}
use proxy_rs.Http2.Frame.GoAway
use proxy_rs.Http2.Frame.GoAway.{GoAwayFrame}
use proxy_rs.Http2.Frame.SettingsFrame
use proxy_rs.Http2.Frame.SettingsFrame.{SettingsFrame}
use proxy_rs.Http2.Frame.Ping
use proxy_rs.Http2.Frame.Ping.{PingFrame}
use proxy_rs.Http2.Frame.Priority
use proxy_rs.Http2.Frame.Priority.{PriorityFrame}
use proxy_rs.Http2.Frame.RstStream
use proxy_rs.Http2.Frame.WindowUpdate
use proxy_rs.Http2.Frame.WindowUpdate.{WindowUpdateFrame}
use proxy_rs.Foreign.{
  Pointer, with_pointer, HttpResult, Called, Coded, io_pieces, proto_pieces, call_writer,
  call_reader, call_filler,
}
use proxy_rs.Foreign.Bytes.{ConstBuffer, const_slice, const_is_sane}

-- The context holds the settings.
unfoldable pub http_frame_read_header :
    Pointer Settings → Pointer Source → Pointer (HttpResult FrameHeader) → Coded FrameHeader
http_frame_read_header context reader res =
    with_pointer context (λ c. call_reader reader (read_header c) res)

unfoldable pub http_frame_write_header :
    Pointer Sink → FrameHeader → Pointer (HttpResult ℕ) → Called ℕ Sink
http_frame_write_header writer header res =
    call_writer io_pieces writer true (write_header header >>= λ _. return 9) res

unfoldable pub http_data_read_frame :
    Pointer Source → FrameHeader → Pointer (HttpResult DataFrame) → Coded DataFrame
http_data_read_frame reader header res = call_filler reader (λ f. true) (Data.read_frame header) res

-- `Some(v).filter(|_| test)`
abbrev pub given : {A : Type 0} → Bool → A → Option A
given test v = if test then some v else none

unfoldable pub http_data_write_frame :
    Pointer Sink → ℕ → Bool → ℕ → ConstBuffer → Bool → Pointer (HttpResult ℕ) → Called ℕ Sink
http_data_write_frame writer stream_id enable_pad pad buffer is_end res =
    call_writer io_pieces writer (const_is_sane buffer)
      (Data.write_frame stream_id (given enable_pad pad) (const_slice buffer) is_end) res

unfoldable pub http_header_read_frame :
    Pointer Source → FrameHeader → Pointer (HttpResult HeaderFrame) → Coded HeaderFrame
http_header_read_frame reader header res =
    call_filler reader (λ f. true) (Headers.read_frame header) res

-- The fields of `frame_props_packed`.
abbrev pub props_flags : ℕ → ℕ
props_flags packed = bit_and packed 0xFF

abbrev pub props_priority : ℕ → Priority
props_priority packed = record {
  dep = bit_and (packed / 2 ^ 0x20) 0x7FFFFFFF;
  exclusive = not (bit_and (props_flags packed) 0x2 == 0);
  weight = bit_and (packed / 2 ^ 0x08) 0xFF;
}

abbrev pub props_pad : ℕ → ℕ
props_pad packed = bit_and (packed / 2 ^ 0x10) 0xFF

unfoldable pub http_header_write_frame :
    Pointer Sink → ℕ → ℕ → ConstBuffer → Pointer (HttpResult ℕ) → Called ℕ Sink
http_header_write_frame writer stream_id frame_props_packed payload res =
    let flags = props_flags frame_props_packed in
    call_writer io_pieces writer (const_is_sane payload)
      (Headers.write_frame stream_id
        (given (not (bit_and flags flags_padded == 0)) (props_pad frame_props_packed))
        (given (not (bit_and flags flags_priority == 0)) (props_priority frame_props_packed))
        (bit_and flags (bit_or flags_end_headers flags_end_stream)) (const_slice payload))
      res

unfoldable pub http_continuation_read_frame :
    Pointer Source → FrameHeader → Pointer (HttpResult ContinuationFrame) → Coded ContinuationFrame
http_continuation_read_frame reader header res =
    call_filler reader (λ f. is_sane f.payload) (Continuation.read_frame header) res

unfoldable pub http_continuation_write_frame :
    Pointer Sink → ℕ → Bool → ConstBuffer → Pointer (HttpResult ℕ) → Called ℕ Sink
http_continuation_write_frame writer stream_id is_end payload res =
    call_writer io_pieces writer (const_is_sane payload)
      (Continuation.write_frame stream_id is_end (const_slice payload)) res

unfoldable pub http_go_away_read_frame :
    Pointer Source → FrameHeader → Pointer (HttpResult GoAwayFrame) → Coded GoAwayFrame
http_go_away_read_frame reader header res =
    call_filler reader (λ f. true) (GoAway.read_frame header) res

-- The buffer is not checked here.
unfoldable pub http_go_away_write_frame :
    Pointer Sink → ℕ → ErrorCode → ConstBuffer → Pointer (HttpResult ℕ) → Called ℕ Sink
http_go_away_write_frame writer last_id error payload res =
    call_writer io_pieces writer true (GoAway.write_frame last_id error (const_slice payload)) res

unfoldable pub http_settings_read_frame :
    Pointer Source → FrameHeader → Pointer (HttpResult SettingsFrame) → Coded SettingsFrame
http_settings_read_frame reader header res =
    call_reader reader (SettingsFrame.read_frame header) res

unfoldable pub http_settings_write_frame :
    Pointer Sink → SettingsFrame → Pointer (HttpResult ℕ) → Called ℕ Sink
http_settings_write_frame writer frame res =
    call_writer io_pieces writer true (SettingsFrame.write_frame frame) res

unfoldable pub http_ping_read_frame :
    Pointer Source → FrameHeader → Pointer (HttpResult PingFrame) → Coded PingFrame
http_ping_read_frame reader header res = call_reader reader (Ping.read_frame header) res

unfoldable pub http_ping_write_frame :
    Pointer Sink → PingFrame → Pointer (HttpResult ℕ) → Called ℕ Sink
http_ping_write_frame writer frame res =
    call_writer io_pieces writer true (Ping.write_frame frame) res

unfoldable pub http_priority_read_frame :
    Pointer Source → FrameHeader → Pointer (HttpResult PriorityFrame) → Coded PriorityFrame
http_priority_read_frame reader header res = call_reader reader (Priority.read_frame header) res

unfoldable pub http_priority_write_frame :
    Pointer Sink → ℕ → PriorityFrame → Pointer (HttpResult ℕ) → Called ℕ Sink
http_priority_write_frame writer stream_id frame res =
    call_writer io_pieces writer true (Priority.write_frame stream_id frame) res

unfoldable pub http_rst_stream_read_frame :
    Pointer Source → FrameHeader → Pointer (HttpResult ℕ) → Coded ℕ
http_rst_stream_read_frame reader header res = call_reader reader (RstStream.read_frame header) res

unfoldable pub http_rst_stream_write_frame :
    Pointer Sink → ℕ → ℕ → Pointer (HttpResult ℕ) → Called ℕ Sink
http_rst_stream_write_frame writer stream_id error_code res =
    call_writer io_pieces writer true (RstStream.write_frame stream_id error_code) res

unfoldable pub http_window_update_read_frame :
    Pointer Source → FrameHeader → Pointer (HttpResult WindowUpdateFrame) → Coded WindowUpdateFrame
http_window_update_read_frame reader header res =
    call_reader reader (WindowUpdate.read_frame header) res

unfoldable pub http_window_update_write_frame :
    Pointer Sink → ℕ → ℕ → Pointer (HttpResult ℕ) → Called ℕ Sink
http_window_update_write_frame writer stream_id increment res =
    call_writer proto_pieces writer true (WindowUpdate.write_frame stream_id increment) res
