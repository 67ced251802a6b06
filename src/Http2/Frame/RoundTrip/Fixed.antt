-- ===== src/Http2/Frame/RoundTrip/Fixed.antt =====
-- Frames without a payload of their own: ping.rs, priority.rs, rst_stream.rs, window_update.rs and
-- settings.rs under http/src/http2/frame/.
use proxy_rs.Prelude.{
  ℕ, ◌^◌, ◌≤◌, ◌<◌, ◌≡◌, ◌≢◌, List, [], ◌∷◌, ◌++◌, length, arith, length-append, if◌then◌else◌,
}
use proxy_rs.Prelude.Bytes.{to_be_bytes, length-to_be_bytes}
use proxy_rs.Io.{IoError, ok, ◌>>=◌}
use proxy_rs.Http2.Settings.{Settings, all_names}
use proxy_rs.Http2.Frame.{read_header}
use proxy_rs.Http2.Frame.Wire.{holding, dep_word}
use proxy_rs.Http2.Frame.Header.{length-wire_header}
use proxy_rs.Http2.Frame.Ping.{PingFrame}
use proxy_rs.Http2.Frame.Priority.{PriorityFrame}
use proxy_rs.Http2.Frame.WindowUpdate.{WindowUpdateFrame}
use proxy_rs.Http2.Frame.SettingsFrame.{SettingsFrame}
use proxy_rs.Http2.Frame.SettingsFrame.RoundTrip.{IsFramable}
use proxy_rs.Http2.Frame.Ping
use proxy_rs.Http2.Frame.Priority
use proxy_rs.Http2.Frame.RstStream
use proxy_rs.Http2.Frame.WindowUpdate
use proxy_rs.Http2.Frame.SettingsFrame
use proxy_rs.Http2.Frame.SettingsFrame.Wire
use proxy_rs.Http2.Frame.SettingsFrame.RoundTrip
use proxy_rs.Http2.Frame.RoundTrip.{written_by, written_by-wire, written_by-from_io, length-frame}

length-priority :
    (id : ℕ) (f : PriorityFrame) (room : ℕ) → 14 ≤ room → length (Priority.wire_frame id f) ≤ room
length-priority id f room h =
    let word = to_be_bytes 4 (dep_word f.exclusive f.stream_dep) in
    omega (
      arith,
      length-frame 5 2 0 id (word ++ (f.weight ∷ [])),
      length-append word (f.weight ∷ []),
      length-to_be_bytes 4 (dep_word f.exclusive f.stream_dep),
    )

pub length-settings :
    (f : SettingsFrame) (room : ℕ) → 45 ≤ room → length (SettingsFrame.Wire.wire_frame f) ≤ room
length-settings SettingsFrame.ack room h = omega (arith, length-wire_header 0 4 1 0)
length-settings (SettingsFrame.settings s) room h =
    let d = SettingsFrame.Wire.entries all_names s in
    omega
      (arith, length-frame (length d) 4 0 0 d, (SettingsFrame.Wire.length-entries all_names s).1)

-- A PING frame with a 64-bit payload that `write_frame` puts into a writer with room for it is
-- read back as it was written, whatever follows it, by a peer that takes frames of eight bytes.
pub ping_round_trip :
    (local : Settings) (f : PingFrame) (room : ℕ) (rest : List ℕ) (e : IoError)
    → f.payload < 2 ^ 64
    → 8 ≤ local.frame_size.value
    → 17 ≤ room
    → (read_header local >>= Ping.read_frame)
        (holding (written_by room (Ping.write_frame f) ++ rest) e)
      ≡ (ok f, holding rest e)
ping_round_trip local f room rest e hp hs hr =
    rw
      (written_by-wire room (Ping.write_frame f) (Ping.wire_frame f) _ (Ping.write_frame-wire f _) (
        omega (
          arith,
          length-frame 8 6 (if f.is_ack then 1 else 0) 0 (to_be_bytes 8 f.payload),
          length-to_be_bytes 8 f.payload,
        )))
      (Ping.read_frame-wire local f rest e hp hs)

-- A PRIORITY frame that `write_frame` puts into a writer with room for it is read back as it was
-- written, whatever follows it, by a peer that takes frames of five bytes, where the stream is
-- not 0, does not depend on itself, and both streams have 31 bits.
pub priority_round_trip :
    (local : Settings) (id : ℕ) (f : PriorityFrame) (room : ℕ) (rest : List ℕ) (e : IoError)
    → id < 2 ^ 31
    → id ≢ 0
    → f.stream_dep < 2 ^ 31
    → f.stream_dep ≢ id
    → 5 ≤ local.frame_size.value
    → 14 ≤ room
    → (read_header local >>= Priority.read_frame)
        (holding (written_by room (Priority.write_frame id f) ++ rest) e)
      ≡ (ok f, holding rest e)
priority_round_trip local id f room rest e hi h0 hd hn hs hr =
    rw
      (written_by-wire room (Priority.write_frame id f) (Priority.wire_frame id f) _
        (Priority.write_frame-wire id f _ hi hd) (length-priority id f room hr))
      (Priority.read_frame-wire local id f rest e hi h0 hd hn hs)

-- A RST_STREAM frame that `write_frame` puts into a writer with room for it gives its 32-bit
-- error code back, whatever follows it, by a peer that takes frames of four bytes, where the
-- stream is not 0 and has 31 bits.
pub rst_stream_round_trip :
    (local : Settings) (id code : ℕ) (room : ℕ) (rest : List ℕ) (e : IoError)
    → id < 2 ^ 31
    → id ≢ 0
    → code < 2 ^ 32
    → 4 ≤ local.frame_size.value
    → 13 ≤ room
    → (read_header local >>= RstStream.read_frame)
        (holding (written_by room (RstStream.write_frame id code) ++ rest) e)
      ≡ (ok code, holding rest e)
rst_stream_round_trip local id code room rest e hi h0 hc hs hr =
    rw
      (written_by-wire room (RstStream.write_frame id code) (RstStream.wire_frame id code) _
        (RstStream.write_frame-wire id code _ hi)
        (omega (arith, length-frame 4 3 0 id (to_be_bytes 4 code), length-to_be_bytes 4 code)))
      (RstStream.read_frame-wire local id code rest e hi h0 hc hs)

-- A SETTINGS frame that `write_frame` puts into a writer with room for 45 bytes is read back as
-- it was written, whatever follows it, by a peer that takes frames of 36 bytes: an
-- acknowledgement, or settings that `set_value` made from the defaults with `u32` values and
-- that have a push flag of 0 or 1, a window below 2 ^ 31 and a frame size from 2 ^ 14 to 2 ^ 24
-- - 1.
pub settings_round_trip :
    (local : Settings) (f : SettingsFrame) (room : ℕ) (rest : List ℕ) (e : IoError)
    → IsFramable f
    → 36 ≤ local.frame_size.value
    → 45 ≤ room
    → (read_header local >>= SettingsFrame.read_frame)
        (holding (written_by room (SettingsFrame.write_frame f) ++ rest) e)
      ≡ (ok f, holding rest e)
settings_round_trip local f room rest e hf hs hr =
    rw
      (written_by-wire room (SettingsFrame.write_frame f) (SettingsFrame.Wire.wire_frame f) _
        (SettingsFrame.Wire.write_frame-wire f _) (length-settings f room hr))
      (SettingsFrame.RoundTrip.read_frame-wire local f rest e hf hs)

-- A WINDOW_UPDATE frame that `write_frame` puts into a writer with room for it is read back as
-- it was written, whatever follows it, by a peer that takes frames of four bytes, where the
-- increment is not 0 and both it and the stream have 31 bits.
pub window_update_round_trip :
    (local : Settings) (f : WindowUpdateFrame) (room : ℕ) (rest : List ℕ) (e : IoError)
    → f.stream_id < 2 ^ 31
    → f.increment ≢ 0
    → f.increment < 2 ^ 31
    → 4 ≤ local.frame_size.value
    → 13 ≤ room
    → (read_header local >>= WindowUpdate.read_frame)
        (holding (written_by room (WindowUpdate.write_frame f.stream_id f.increment) ++ rest) e)
      ≡ (ok f, holding rest e)
window_update_round_trip local f room rest e hi h0 hc hs hr =
    rw
      (written_by-from_io room (WindowUpdate.write_frame f.stream_id f.increment)
        (WindowUpdate.wire_frame f) _ (WindowUpdate.write_frame-wire f _ hi)
        (omega (
          arith,
          length-frame 4 8 0 f.stream_id (to_be_bytes 4 f.increment),
          length-to_be_bytes 4 f.increment,
        )))
      (WindowUpdate.read_frame-wire local f rest e hi h0 hc hs)

-- The four kinds of short frames: what `write_frame` puts into a writer with room for 17 bytes is read
-- back as it was written, whatever follows it, by a peer that takes frames of eight bytes: a PING with a
-- 64-bit payload; a PRIORITY on another stream; a RST_STREAM with its 32-bit code; and a WINDOW_UPDATE
-- whose increment is not 0. Streams and the increment have 31 bits, and the stream that is depended on or
-- ends is not 0.
pub short_round_trips :
    (local : Settings) (ping : PingFrame) (priority : PriorityFrame) (update : WindowUpdateFrame)
    (id code room : ℕ) (rest : List ℕ) (e : IoError)
    → ping.payload < 2 ^ 64
    → id < 2 ^ 31
    → id ≢ 0
    → priority.stream_dep < 2 ^ 31
    → priority.stream_dep ≢ id
    → code < 2 ^ 32
    → update.stream_id < 2 ^ 31
    → update.increment ≢ 0
    → update.increment < 2 ^ 31
    → 8 ≤ local.frame_size.value
    → 17 ≤ room
    → ((read_header local >>= Ping.read_frame)
          (holding (written_by room (Ping.write_frame ping) ++ rest) e)
        ≡ (ok ping, holding rest e))
      × (((read_header local >>= Priority.read_frame)
              (holding (written_by room (Priority.write_frame id priority) ++ rest) e)
            ≡ (ok priority, holding rest e))
          × (((read_header local >>= RstStream.read_frame)
                  (holding (written_by room (RstStream.write_frame id code) ++ rest) e)
                ≡ (ok code, holding rest e))
              × ((read_header local >>= WindowUpdate.read_frame) (
                    holding
                      (written_by room (WindowUpdate.write_frame update.stream_id update.increment)
                        ++ rest)
                      e)
                  ≡ (ok update, holding rest e))))
short_round_trips local ping priority update id code room rest e hp hi h0 hd hn hc hu hz hv hs hr =
    (
      ping_round_trip local ping room rest e hp hs hr,
      (
        priority_round_trip local id priority room rest e hi h0 hd hn (omega (arith, hs))
            (omega (arith, hr)),
        (
          rst_stream_round_trip local id code room rest e hi h0 hc (omega (arith, hs))
              (omega (arith, hr)),
          window_update_round_trip local update room rest e hu hz hv (omega (arith, hs))
              (omega (arith, hr)),
        ),
      ),
    )
