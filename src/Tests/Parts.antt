-- ===== src/Tests/Parts.antt =====
-- Runs of the buffer, the frame header, the error codes and the integers of HPACK.
use proxy_rs.Prelude.{◌⊎◌, ◌≤◌, ◌<◌, ◌*◌, ◌≡◌, ◌++◌, length, arith, if◌then◌else◌, ltb}
use proxy_rs.Buffer.Capacity.{grow_bounds}
use proxy_rs.Buffer.{grow, grow_fuel, push_slice}
use proxy_rs.Buffer.Contents.{IsAppended, push_slice-IsAppended}
use proxy_rs.Io.{unexpected_eof, ok, err, protocol, frame_size_error}
use proxy_rs.Http2.Settings.{default_settings}
use proxy_rs.Http2.Frame.{read_header}
use proxy_rs.Http2.Frame.Wire.{holding, wire_header}
use proxy_rs.Http2.Frame.Header.{read_header-wire}
use proxy_rs.Http2.Frame.RoundTrip.{written_by}
use proxy_rs.Http2.Hpack.Integer.{parse_integer, write_integer}
use proxy_rs.Http2.Hpack.Integer.RoundTrip.{integer_round_trip}
use proxy_rs.Tests.{behind, message, small_buffer, small_buffer-IsValid, small_buffer-len}

integer_example :
    parse_integer 5 (written_by 11 (write_integer 1 5 1337) ++ behind)
    ≡ ok (1337, length (written_by 11 (write_integer 1 5 1337)))
integer_example =
    integer_round_trip 1 5 1337 11 behind (omega arith) (omega arith) (omega arith) (omega arith)

read_header_example :
    read_header default_settings (holding (wire_header 20000 1 4 5 ++ behind) unexpected_eof) ≡ (
      (if ltb default_settings.frame_size.value 20000
          then err (protocol frame_size_error)
          else ok (record { stream_id = 5; frame_len = 20000; frame_type = 1; flags = 4 })),
      holding behind unexpected_eof,
    )
read_header_example =
    read_header-wire default_settings 20000 1 4 5 behind unexpected_eof (omega arith) (omega arith)

push_slice_example : IsAppended small_buffer message (push_slice small_buffer message)
push_slice_example =
    push_slice-IsAppended small_buffer small_buffer-IsValid message
      (omega (arith, small_buffer-len))

grow_bounds_example :
    (1000 ≤ grow grow_fuel 3 1000)
    × (3 ≤ grow grow_fuel 3 1000)
    × ((grow grow_fuel 3 1000 ≡ 3) ⊎ (grow grow_fuel 3 1000 < 2 * 1000))
grow_bounds_example = grow_bounds 3 1000 (omega arith)
