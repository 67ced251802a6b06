-- ===== src/Http2/Frame.antt =====
-- http/src/http2/frame/mod.rs: integers on the wire and the nine bytes in front of every frame.
pub mod Wire
pub mod Header
pub mod Body
pub mod Data
pub mod GoAway
pub mod Continuation
pub mod Headers
pub mod SettingsFrame
pub mod Ping
pub mod Priority
pub mod RstStream
pub mod WindowUpdate
pub mod RoundTrip
use proxy_rs.Prelude.{ℕ, ◌+◌, ◌<◌, ◌^◌, List, [], ◌∷◌, ◌++◌, bit_and, ltb, drop, replicate}
use proxy_rs.Prelude.Bytes.{to_be_bytes, from_be_bytes}
use proxy_rs.Io.{
  M, Outcome, ok, err, panic, bind_outcome, ◌>>=◌, ◌>>◌, return, fail_if, from_io, Source, Sink,
  IoError, unexpected_eof, write_zero, IoProtoError, protocol, frame_size_error, read_exact,
  write_all,
}
use proxy_rs.Http2.Settings.{Settings}

pub record FrameHeader : Type 0 where
  pub stream_id : ℕ
  pub frame_len : ℕ
  pub frame_type : ℕ
  pub flags : ℕ

unfoldable pub read_u8 : M Source IoError ℕ
read_u8 = do buf ← read_exact 1; return (from_be_bytes buf)

unfoldable pub read_u16 : M Source IoError ℕ
read_u16 = do buf ← read_exact 2; return (from_be_bytes buf)

-- The three bytes are read behind a zero byte.
unfoldable pub read_u24 : M Source IoError ℕ
read_u24 = do buf ← read_exact 3; return (from_be_bytes (0 ∷ buf))

unfoldable pub read_u32 : M Source IoError ℕ
read_u32 = do buf ← read_exact 4; return (from_be_bytes buf)

unfoldable pub read_u64 : M Source IoError ℕ
read_u64 = do buf ← read_exact 8; return (from_be_bytes buf)

unfoldable pub write_u8 : ℕ → M Sink IoError (Unit {0})
write_u8 value = write_all (value ∷ [])

unfoldable pub write_u16 : ℕ → M Sink IoError (Unit {0})
write_u16 value = write_all (to_be_bytes 2 value)

unfoldable pub write_u24 : ℕ → M Sink IoError (Unit {0})
write_u24 value = write_all (drop 1 (to_be_bytes 4 (bit_and value 0x00FFFFFF)))

unfoldable pub write_u32 : ℕ → M Sink IoError (Unit {0})
write_u32 value = write_all (to_be_bytes 4 value)

unfoldable pub write_u64 : ℕ → M Sink IoError (Unit {0})
write_u64 value = write_all (to_be_bytes 8 value)

-- A read from a local slice, `let mut buf = header.as_slice()`: the outer state is not touched.
abbrev pub from_slice : {S E A : Type 0} → List ℕ → M Source E A → M S E A
from_slice bytes m s = ((m (record { pending = bytes; failure = unexpected_eof })).0, s)

-- Writes into a local zeroed array of `n` bytes, of which the result is the contents.
abbrev pub sink_contents :
    {S : Type 0} → Outcome IoError (Unit {0}) × Sink → S → Outcome IoError (List ℕ) × S
sink_contents (ok u, b) s = (ok (b.written ++ replicate b.room 0), s)
sink_contents (err e, b) s = (err e, s)
sink_contents (panic, b) s = (panic, s)

abbrev pub into_slice : {S : Type 0} → ℕ → M Sink IoError (Unit {0}) → M S IoError (List ℕ)
into_slice n m s = sink_contents (m (record { written = []; room = n; failure = write_zero })) s

-- What `read_header` does with the nine bytes.
unfoldable pub parse_header : Settings → M Source IoProtoError FrameHeader
unfolding read_u24 read_u8 read_u32
parse_header settings = do
  frame_len ← from_io read_u24
  fail_if (ltb settings.frame_size.value frame_len) (protocol frame_size_error)
  frame_type ← from_io read_u8
  flags ← from_io read_u8
  id ← from_io read_u32
  return (record {
    stream_id = bit_and id 0x7FFFFFFF;
    frame_len = frame_len;
    frame_type = frame_type;
    flags = flags;
  })

unfoldable pub read_header : Settings → M Source IoProtoError FrameHeader
unfolding parse_header
read_header settings = do header ← from_io (read_exact 9); from_slice header (parse_header settings)

unfoldable pub write_header : FrameHeader → M Sink IoError ℕ
unfolding write_u24 write_u8 write_u32
write_header header = do
  buf ← into_slice 9 (do
    write_u24 header.frame_len
    write_u8 header.frame_type
    write_u8 header.flags
    write_u32 (bit_and header.stream_id 0x7FFFFFFF))
  write_all buf
  return 9
