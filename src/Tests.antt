-- ===== src/Tests.antt =====
-- Inputs of the tests: bytes behind a frame, a message, and an empty buffer.
pub mod Fixed
pub mod Payload
pub mod Parts
pub mod Hpack
pub mod Errors
pub mod Exported
pub mod Callbacks
pub mod Responses
pub mod Parsing
pub mod Index
use proxy_rs.Prelude.{
  ℕ, ◌+◌, ◌<◌, ◌^◌, ◌≡◌, ◌↔◌, ◌≢◌, refl, inl, inr, Bool, true, false, Option, none, some, List, [],
  ◌∷◌, ◌++◌, length, replicate, length-replicate, arith, bit_and, if◌then◌else◌, ltb, ◌%◌,
}
use proxy_rs.Buffer.{
  Buffer, IsValid, as_slice, new_buffer_with, push_slice, push, extend, copy_slice, reserve_len,
  is_sane,
}
use proxy_rs.Buffer.Contents.{
  IsAppended, IsReserved, push_slice-IsAppended, push-IsAppended, copy_slice-contents,
  reserve_len-IsReserved,
}
use proxy_rs.Buffer.Extend.{extend-IsAppended}
use proxy_rs.Buffer.Lifetime.{new_buffer_with-IsValid, IsValid-is_sane}
use proxy_rs.Io.{
  Sink, IoError, unexpected_eof, write_zero, ErrorCode, cancel, ok, err, protocol, frame_size_error,
  ◌>>=◌, ◌>>◌, return, write_all,
}
use proxy_rs.Http2.Error.{error_value, error_code, error_code_iff}
use proxy_rs.Http2.Settings.{
  Settings, SettingName, header_table_size, enable_push, max_concurrent_streams,
  initial_window_size, max_frame_size, max_header_list_size, default_settings, set_value,
}
use proxy_rs.Http2.Frame.{FrameHeader, read_header, write_header}
use proxy_rs.Http2.Frame.Wire.{holding, wire_header}
use proxy_rs.Http2.Frame.Header.{write_header-wire, read_header-wire}
use proxy_rs.Http2.Frame.Body.{on_source}
use proxy_rs.Http2.Frame.Data.{DataFrame}
use proxy_rs.Http2.Frame.GoAway.{GoAwayFrame}
use proxy_rs.Http2.Frame.Continuation.{ContinuationFrame}
use proxy_rs.Http2.Frame.Headers.{HeaderFrame, Priority, end_flags}
use proxy_rs.Http2.Frame.Ping.{PingFrame}
use proxy_rs.Http2.Frame.Priority.{PriorityFrame}
use proxy_rs.Http2.Frame.WindowUpdate.{WindowUpdateFrame}
use proxy_rs.Http2.Frame.SettingsFrame.{SettingsFrame}
use proxy_rs.Http2.Frame.SettingsFrame.Merge.{IsMadeFromDefault}
use proxy_rs.Http2.Frame.SettingsFrame.RoundTrip.{IsAllowed}
use proxy_rs.Http2.Frame.Data
use proxy_rs.Http2.Frame.GoAway
use proxy_rs.Http2.Frame.Continuation
use proxy_rs.Http2.Frame.Headers
use proxy_rs.Http2.Frame.Ping
use proxy_rs.Http2.Frame.Priority as PriorityFile
use proxy_rs.Http2.Frame.RstStream
use proxy_rs.Http2.Frame.WindowUpdate
use proxy_rs.Http2.Frame.SettingsFrame
use proxy_rs.Http2.Frame.RoundTrip.{written_by, Delivers}
use proxy_rs.Http2.Frame.RoundTrip.Sizes.{Holds}
use proxy_rs.Http2.Frame.RoundTrip.Fixed.{
  ping_round_trip, priority_round_trip, rst_stream_round_trip, window_update_round_trip,
  settings_round_trip,
}
use proxy_rs.Http2.Frame.RoundTrip.Payload.{
  IsHeaderFrame, data_round_trip, go_away_round_trip, continuation_round_trip, headers_round_trip,
}
use proxy_rs.Http2.Hpack.Integer.{parse_integer, write_integer}
use proxy_rs.Http2.Hpack.Integer.RoundTrip.{integer_round_trip}

-- The bytes behind a frame, and a message.
abbrev pub behind : List ℕ
behind = 7 ∷ 8 ∷ []

abbrev pub message : List ℕ
message = 104 ∷ 105 ∷ []

abbrev pub zeroed : ℕ → List ℕ
zeroed n = replicate n 0

abbrev pub small_buffer : Buffer
small_buffer = new_buffer_with 4 zeroed

pub small_buffer-IsValid : IsValid small_buffer
small_buffer-IsValid =
    (new_buffer_with-IsValid 4 zeroed (omega arith) (λ k. length-replicate {0} {A = ℕ} k 0)).0

pub small_buffer-len : small_buffer.len ≡ 0
unfolding new_buffer_with
small_buffer-len = refl
