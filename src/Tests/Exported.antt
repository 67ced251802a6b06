-- ===== src/Tests/Exported.antt =====
-- Runs of the exported functions: pointers, results, frames and the preface.
use proxy_rs.Prelude.{
  length, ℕ, ◌+◌, ◌<◌, ◌≡◌, ◌≢◌, ◌↔◌, ◌⊎◌, refl, true, false, some, none, ◌++◌, arith, take,
}
use proxy_rs.Buffer.{Buffer, IsValid, as_slice}
use proxy_rs.Io.{Source, Sink, no_error, unexpected_eof}
use proxy_rs.Http2.Error.{show_io_proto_error}
use proxy_rs.Http2.Settings.{default_settings}
use proxy_rs.Http2.Frame.{FrameHeader}
use proxy_rs.Http2.Frame.Wire.{holding}
use proxy_rs.Http2.Frame.RoundTrip.{empty_sink}
use proxy_rs.Http2.Frame.Data
use proxy_rs.Http2.Frame.Data.{DataFrame}
use proxy_rs.Http2.Frame.Continuation
use proxy_rs.Http2.Frame.Continuation.{ContinuationFrame}
use proxy_rs.Http2.Frame.SettingsFrame
use proxy_rs.Http2.Frame.SettingsFrame.{SettingsFrame, ack, settings}
use proxy_rs.Http2.Frame.SettingsFrame.Wire.{wire_frame}
use proxy_rs.Http2.Hpack.Tables.{new_table}
use proxy_rs.Foreign.{to, HttpResult}
use proxy_rs.Foreign.Reports.{IsReady, Tells, Answers, Fills}
use proxy_rs.Foreign.Frames.{
  http_frame_read_header, http_data_read_frame, http_continuation_read_frame,
  http_settings_read_frame, http_settings_write_frame,
}
use proxy_rs.Foreign.Wire.{readers-Answers, settings_exported_round_trip}
use proxy_rs.Foreign.Bytes.{
  ConstBuffer, const_slice, const_is_sane, is_nonoverlapping, copy_buffer, buffer_push_slice,
}
use proxy_rs.Foreign.Bytes.Overlap.{is_nonoverlapping_iff}
use proxy_rs.Foreign.Bytes.Copy.{copy_buffer-contents}
use proxy_rs.Foreign.Preface.{Context, client_preface, connect, http_http2_start_connection}
use proxy_rs.Foreign.Preface.Handshake.{start_connection-Starts, connect-silent}
use proxy_rs.Http2.Frame.SettingsFrame.RoundTrip.{read_frame-wire}
use proxy_rs.Tests.{behind, message, small_buffer, small_buffer-IsValid, small_buffer-len}
use proxy_rs.Tests.Fixed.{small_window, small_window-IsMadeFromDefault, small_window-IsAllowed}

-- A result as a caller makes it.
abbrev pub fresh : {A : Type 0} → A → HttpResult A
fresh a = record { is_ok = true; ok = to a; err = small_buffer }

pub fresh-IsReady : {A : Type 0} (a : A) → IsReady (fresh a) a
fresh-IsReady a = record { place = refl; buffer = small_buffer-IsValid }

abbrev some_header : FrameHeader
some_header = record { stream_id = 1; frame_len = 2; frame_type = 4; flags = 0 }

abbrev some_data : DataFrame
some_data = record { is_end = false; payload = small_buffer }

abbrev some_continuation : ContinuationFrame
some_continuation = record { payload = small_buffer; is_end = false }

abbrev some_context : Context
some_context = record { settings = default_settings; header_table = new_table 0 }

exported_example :
    (w : Sink) × ((s : Source) × ((header : FrameHeader) × ((written : HttpResult ℕ)
          × ((headed : HttpResult FrameHeader) × ((framed : HttpResult SettingsFrame)
                × ((http_settings_write_frame
                        (to (empty_sink 45))
                        (settings small_window)
                        (to (fresh 0))
                      ≡ some (written, w))
                    × (Tells written (length w.written)
                        × ((http_frame_read_header
                                (to default_settings)
                                (to (holding (w.written ++ behind) unexpected_eof))
                                (to (fresh some_header))
                              ≡ some (no_error, (headed, s)))
                            × (Tells headed header
                                × ((http_settings_read_frame (to s) header (to (fresh ack))
                                      ≡ some (no_error, (framed, holding behind unexpected_eof)))
                                    × Tells framed (settings small_window)))))))))))
exported_example =
    settings_exported_round_trip default_settings (settings small_window) ack some_header 0 45
      behind unexpected_eof (fresh 0) (fresh some_header) (fresh ack) (fresh-IsReady 0)
      (fresh-IsReady some_header) (fresh-IsReady ack)
      (small_window-IsMadeFromDefault, small_window-IsAllowed) (omega arith) (omega arith)

start_example :
    (r : HttpResult Context) × ((w : Sink) × ((http_http2_start_connection
            (to (
              holding
                (client_preface ++ (wire_frame (settings small_window) ++ behind))
                unexpected_eof))
            (to (empty_sink 90))
            default_settings
            (to (fresh some_context))
          ≡ some (r, (holding behind unexpected_eof, w)))
        × (Tells r (record {
          settings = small_window;
          header_table = new_table default_settings.table_size.value;
        })
            × (w.written ≡ wire_frame ack ++ wire_frame (settings default_settings)))))
start_example =
    start_connection-Starts default_settings (settings small_window)
      (wire_frame (settings small_window) ++ behind) behind unexpected_eof 90 some_context
      (fresh some_context) (fresh-IsReady some_context)
      (read_frame-wire default_settings (settings small_window) behind unexpected_eof
        (small_window-IsMadeFromDefault, small_window-IsAllowed) (omega arith))
      (omega arith)

silent_example :
    ((connect default_settings (holding behind unexpected_eof, empty_sink 90)).1.1 ≡ empty_sink 90)
    ⊎ (take 24 behind ≡ client_preface)
silent_example = connect-silent default_settings (holding behind unexpected_eof) (empty_sink 90)

overlap_example :
    (is_nonoverlapping 1000 8 1008 4 ≡ true) ↔ ((i j : ℕ) → i < 8 → j < 4 → 1000 + i ≢ 1008 + j)
overlap_example =
    is_nonoverlapping_iff 1000 8 1008 4 (omega arith) (omega arith) (omega arith) (omega arith)

abbrev source_bytes : ConstBuffer
source_bytes = record { len = 2; memory = some message; addr = 1000 }

copy_example :
    ((is_nonoverlapping 2000 small_buffer.cap 1000 2 ≡ true)
      × ((b : Buffer) × ((copy_buffer (to small_buffer) 2000 source_bytes ≡ some b)
            × (IsValid b
                × ((as_slice b ≡ const_slice source_bytes)
                    × ((c : Buffer) × ((buffer_push_slice (to small_buffer) 2000 source_bytes
                            ≡ some c)
                          × (IsValid c
                              × (as_slice c
                                  ≡ as_slice small_buffer ++ const_slice source_bytes)))))))))
    ⊎ ((is_nonoverlapping 2000 small_buffer.cap 1000 2 ≡ false)
        × ((copy_buffer (to small_buffer) 2000 source_bytes ≡ none)
            × (buffer_push_slice (to small_buffer) 2000 source_bytes ≡ none)))
unfolding const_is_sane
copy_example =
    copy_buffer-contents small_buffer 2000 source_bytes small_buffer-IsValid refl
      (omega (arith, small_buffer-len))

answers_example :
    Answers
      (http_settings_read_frame (to (holding behind unexpected_eof)) some_header (to (fresh ack)))
      ack
      (SettingsFrame.read_frame some_header (holding behind unexpected_eof))
    × (Fills
          (http_data_read_frame
            (to (holding behind unexpected_eof))
            some_header
            (to (fresh some_data)))
          (fresh some_data)
          (Data.read_frame some_header (some_data, holding behind unexpected_eof))
        × Fills
            (http_continuation_read_frame
              (to (holding behind unexpected_eof))
              some_header
              (to (fresh some_continuation)))
            (fresh some_continuation)
            (Continuation.read_frame some_header
              (some_continuation, holding behind unexpected_eof)))
unfolding SettingsFrame.read_frame Data.read_frame Continuation.read_frame show_io_proto_error
answers_example =
    readers-Answers (holding behind unexpected_eof) some_header ack some_data some_continuation
      (fresh ack) (fresh some_data) (fresh some_continuation) (fresh-IsReady ack)
      (fresh-IsReady some_data) (fresh-IsReady some_continuation) small_buffer-IsValid (omega arith)
      tt tt
