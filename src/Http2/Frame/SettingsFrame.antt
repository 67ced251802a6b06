-- ===== src/Http2/Frame/SettingsFrame.antt =====
-- http/src/http2/frame/settings.rs
pub mod Wire
pub mod Merge
pub mod RoundTrip
use proxy_rs.Prelude.{
  ℕ, zero, suc, ◌+◌, ◌*◌, ◌%◌, ◌^◌, Bool, not, ◌&&◌, ◌||◌, Option, none, some, List, [], ◌∷◌,
  bit_and, ltb, leb, ◌==◌, if◌then◌else◌, take,
}
use proxy_rs.Io.{
  M, Source, Sink, IoError, IoProtoError, protocol, protocol_error, frame_size_error,
  flow_control_error, assert, fail_if, from_io, ◌>>=◌, ◌>>◌, return, write_all,
}
use proxy_rs.Http2.Settings.{
  Settings, SettingName, all_names, setting_name, default_settings, get, set, num, setting_ne,
}
use proxy_rs.Http2.Frame.{
  FrameHeader, read_u16, read_u32, write_header, write_u16, write_u32, into_slice, sink_contents,
}

pub data SettingsFrame : Type 0 where
  settings : Settings → SettingsFrame
  ack : SettingsFrame

abbrev pub type_num : ℕ
type_num = 0x4

abbrev pub flags_ack : ℕ
flags_ack = 0x1

-- An unknown setting is passed over.
abbrev pub update : Settings → Option SettingName → ℕ → Settings
update s none value = s
update s (some name) value = set s name value

-- `while read < frame_len`, on fuel.
unfoldable pub settings_loop : ℕ → ℕ → ℕ → Settings → M Source IoError Settings
settings_loop zero read frame_len s = return s
settings_loop (suc fuel) read frame_len s =
    let round = (do
      setting ← read_u16
      value ← read_u32
      settings_loop fuel (read + 6) frame_len (update s (setting_name setting) value)) in
    if ltb read frame_len then round else return s

-- The checks on the values that were read.
unfoldable pub check_settings : Settings → M Source IoProtoError SettingsFrame
check_settings s = do
  fail_if (not (s.push.value == 0) && not (s.push.value == 1)) (protocol protocol_error)
  fail_if (leb 0x80000000 s.window_size.value) (protocol flow_control_error)
  fail_if (ltb s.frame_size.value (2 ^ 14) || leb (2 ^ 24) s.frame_size.value)
      (protocol protocol_error)
  return (settings s)

unfoldable pub read_settings : FrameHeader → M Source IoProtoError SettingsFrame
read_settings header = do
  fail_if (not (header.frame_len % 6 == 0)) (protocol frame_size_error)
  s ← from_io (settings_loop header.frame_len 0 header.frame_len default_settings)
  check_settings s

unfoldable pub read_ack : FrameHeader → M Source IoProtoError SettingsFrame
read_ack header = do fail_if (not (header.frame_len == 0)) (protocol frame_size_error); return ack

unfoldable pub read_frame : FrameHeader → M Source IoProtoError SettingsFrame
unfolding read_ack read_settings
read_frame header = do
  assert (header.frame_type == type_num)
  fail_if (not (header.stream_id == 0)) (protocol protocol_error)
  if not (bit_and header.flags flags_ack == 0) then read_ack header else read_settings header

abbrev pub is_changed : Settings → SettingName → Bool
is_changed s name = setting_ne (get s name) (get default_settings name)

-- The loop over `SettingName::ALL` that fills the buffer, and the length that it counts.
unfoldable pub write_changed : List SettingName → Settings → M Sink IoError (Unit {0})
write_changed [] s = return tt
write_changed (name ∷ names) s =
    let rest = write_changed names s in
    if is_changed s name
    then (do write_u16 (num (get s name)); write_u32 (get s name).value; rest)
    else rest

unfoldable pub changed_len : List SettingName → Settings → ℕ
changed_len [] s = 0
changed_len (name ∷ names) s = (if is_changed s name then 6 else 0) + changed_len names s

abbrev pub settings_header : ℕ → ℕ → FrameHeader
settings_header len flags = record {
  stream_id = 0;
  frame_len = len;
  frame_type = type_num;
  flags = flags;
}

unfoldable pub write_frame : SettingsFrame → M Sink IoError ℕ
write_frame ack = write_header (settings_header 0 flags_ack)
write_frame (settings s) = do
  buf ← into_slice 36 (write_changed all_names s)
  let len = changed_len all_names s
  written ← write_header (settings_header len 0)
  write_all (take len buf)
  return (written + len)
