-- ===== src/Tests/Payload.antt =====
-- Runs of the frames of data.rs, go_away.rs, continuation.rs and header.rs.
use proxy_rs.Prelude.{◌≡◌, true, false, some, ◌++◌, arith}
use proxy_rs.Buffer.{as_slice}
use proxy_rs.Io.{unexpected_eof, cancel, ◌>>=◌}
use proxy_rs.Http2.Error.{error_value}
use proxy_rs.Http2.Settings.{default_settings}
use proxy_rs.Http2.Frame.{read_header}
use proxy_rs.Http2.Frame.Wire.{holding}
use proxy_rs.Http2.Frame.Body.{on_source}
use proxy_rs.Http2.Frame.Data.{DataFrame}
use proxy_rs.Http2.Frame.GoAway.{GoAwayFrame}
use proxy_rs.Http2.Frame.Continuation.{ContinuationFrame}
use proxy_rs.Http2.Frame.Headers.{HeaderFrame, Priority, end_flags}
use proxy_rs.Http2.Frame.Data
use proxy_rs.Http2.Frame.GoAway
use proxy_rs.Http2.Frame.Continuation
use proxy_rs.Http2.Frame.Headers
use proxy_rs.Http2.Frame.RoundTrip.{written_by, Delivers}
use proxy_rs.Http2.Frame.RoundTrip.Sizes.{Holds}
use proxy_rs.Http2.Frame.RoundTrip.Payload.{
  IsHeaderFrame, data_round_trip, go_away_round_trip, continuation_round_trip, headers_round_trip,
}
use proxy_rs.Tests.{behind, message, small_buffer, small_buffer-IsValid, small_buffer-len}

abbrev pub data_object : DataFrame
data_object = record { is_end = false; payload = small_buffer }

data_example :
    Delivers
      ((on_source (read_header default_settings) >>= Data.read_frame) (
        data_object,
        holding (written_by 40 (Data.write_frame 5 (some 3) message true) ++ behind) unexpected_eof,
      ))
      (holding behind unexpected_eof)
      (λ g. Holds g.payload message × (g.is_end ≡ true))
data_example =
    data_round_trip default_settings 40 behind unexpected_eof 5 (some 3) message true data_object
      (omega arith) (λ h. omega arith) (omega arith) (omega arith) (omega arith) (omega arith)
      small_buffer-IsValid

abbrev pub go_away_object : GoAwayFrame
go_away_object = record { last_id = 0; error_code = 0; debug_data = small_buffer }

go_away_example :
    Delivers
      ((on_source (read_header default_settings) >>= GoAway.read_frame) (
        go_away_object,
        holding (written_by 40 (GoAway.write_frame 5 cancel message) ++ behind) unexpected_eof,
      ))
      (holding behind unexpected_eof)
      (λ g. Holds g.debug_data message × ((g.last_id ≡ 5) × (g.error_code ≡ error_value cancel)))
go_away_example =
    go_away_round_trip default_settings 40 behind unexpected_eof 5 cancel message go_away_object
      (omega arith) (omega arith) (omega arith) (omega arith) small_buffer-IsValid

abbrev pub continuation_object : ContinuationFrame
continuation_object = record { payload = small_buffer; is_end = false }

continuation_example :
    Delivers
      ((on_source (read_header default_settings) >>= Continuation.read_frame) (
        continuation_object,
        holding (written_by 40 (Continuation.write_frame 5 true message) ++ behind) unexpected_eof,
      ))
      (holding behind unexpected_eof)
      (λ g. Holds g.payload (as_slice small_buffer ++ message) × (g.is_end ≡ true))
continuation_example =
    continuation_round_trip default_settings 40 behind unexpected_eof 5 true message
      continuation_object (omega arith) (λ h. omega arith) (omega arith) (omega arith)
      (omega (arith, small_buffer-len)) (omega arith) small_buffer-IsValid

abbrev pub headers_object : HeaderFrame
headers_object = record {
  payload = small_buffer;
  stream_dep = 0;
  exclusive = false;
  weight = 0;
  end = 0;
}

abbrev on_three_headers : Priority
on_three_headers = record { dep = 3; exclusive = true; weight = 9 }

headers_example :
    Delivers
      ((on_source (read_header default_settings) >>= Headers.read_frame) (
        headers_object,
        holding
            (written_by 40 (Headers.write_frame 5 (some 3) (some on_three_headers) 5 message)
              ++ behind)
            unexpected_eof,
      ))
      (holding behind unexpected_eof)
      (IsHeaderFrame (some on_three_headers) 5 message)
headers_example =
    headers_round_trip default_settings 40 behind unexpected_eof 5 (some 3) (some on_three_headers)
      5 message headers_object (omega arith) (λ h. omega arith) (omega arith) (omega arith)
      (λ h. omega arith) (omega arith) (omega arith) (omega arith) small_buffer-IsValid
