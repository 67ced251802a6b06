-- ===== src/Tests/Fixed.antt =====
-- Runs of the frames of ping.rs, priority.rs, rst_stream.rs, window_update.rs and settings.rs.
use proxy_rs.Prelude.{◌≡◌, refl, inl, inr, true, ◌++◌, arith}
use proxy_rs.Io.{unexpected_eof, ok, ◌>>=◌}
use proxy_rs.Http2.Settings.{
  Settings, header_table_size, enable_push, max_concurrent_streams, initial_window_size,
  max_frame_size, max_header_list_size, default_settings, set_value,
}
use proxy_rs.Http2.Frame.{read_header}
use proxy_rs.Http2.Frame.Wire.{holding}
use proxy_rs.Http2.Frame.Ping.{PingFrame}
use proxy_rs.Http2.Frame.Priority.{PriorityFrame}
use proxy_rs.Http2.Frame.WindowUpdate.{WindowUpdateFrame}
use proxy_rs.Http2.Frame.SettingsFrame.{SettingsFrame}
use proxy_rs.Http2.Frame.SettingsFrame.Merge.{IsMadeFromDefault}
use proxy_rs.Http2.Frame.SettingsFrame.RoundTrip.{IsAllowed}
use proxy_rs.Http2.Frame.Ping
use proxy_rs.Http2.Frame.Priority as PriorityFile
use proxy_rs.Http2.Frame.RstStream
use proxy_rs.Http2.Frame.WindowUpdate
use proxy_rs.Http2.Frame.SettingsFrame
use proxy_rs.Http2.Frame.RoundTrip.{written_by}
use proxy_rs.Http2.Frame.RoundTrip.Fixed.{short_round_trips, settings_round_trip}
use proxy_rs.Tests.{behind}

abbrev acked : PingFrame
acked = record { payload = 77; is_ack = true }

abbrev on_three : PriorityFrame
on_three = record { stream_dep = 3; exclusive = true; weight = 9 }

abbrev wider : WindowUpdateFrame
wider = record { stream_id = 5; increment = 1000 }

short_example :
    ((read_header default_settings >>= Ping.read_frame)
        (holding (written_by 20 (Ping.write_frame acked) ++ behind) unexpected_eof)
      ≡ (ok acked, holding behind unexpected_eof))
    × (((read_header default_settings >>= PriorityFile.read_frame)
            (holding (written_by 20 (PriorityFile.write_frame 5 on_three) ++ behind) unexpected_eof)
          ≡ (ok on_three, holding behind unexpected_eof))
        × (((read_header default_settings >>= RstStream.read_frame)
                (holding (written_by 20 (RstStream.write_frame 5 8) ++ behind) unexpected_eof)
              ≡ (ok 8, holding behind unexpected_eof))
            × ((read_header default_settings >>= WindowUpdate.read_frame) (
                  holding
                    (written_by 20 (WindowUpdate.write_frame 5 1000) ++ behind)
                    unexpected_eof)
                ≡ (ok wider, holding behind unexpected_eof))))
short_example =
    short_round_trips default_settings acked on_three wider 5 8 20 behind unexpected_eof
      (omega arith) (omega arith) (λ h. omega arith) (omega arith) (λ h. omega arith) (omega arith)
      (omega arith) (λ h. omega arith) (omega arith) (omega arith) (omega arith)

abbrev pub small_window : Settings
small_window = record default_settings { window_size = set_value default_settings.window_size 1000 }

pub small_window-IsMadeFromDefault : IsMadeFromDefault small_window
small_window-IsMadeFromDefault header_table_size = inl refl
small_window-IsMadeFromDefault enable_push = inl refl
small_window-IsMadeFromDefault max_concurrent_streams = inl refl
small_window-IsMadeFromDefault initial_window_size = inr (1000, (omega arith, refl))
small_window-IsMadeFromDefault max_frame_size = inl refl
small_window-IsMadeFromDefault max_header_list_size = inl refl

pub small_window-IsAllowed : IsAllowed small_window
unfolding set_value
small_window-IsAllowed = record {
  push = inr refl;
  window = omega arith;
  frame_min = omega arith;
  frame_max = omega arith;
}

settings_example :
    (read_header default_settings >>= SettingsFrame.read_frame) (
      holding
        (written_by 45 (SettingsFrame.write_frame (SettingsFrame.settings small_window)) ++ behind)
        unexpected_eof)
    ≡ (ok (SettingsFrame.settings small_window), holding behind unexpected_eof)
settings_example =
    settings_round_trip default_settings (SettingsFrame.settings small_window) 45 behind
      unexpected_eof (small_window-IsMadeFromDefault, small_window-IsAllowed) (omega arith)
      (omega arith)
