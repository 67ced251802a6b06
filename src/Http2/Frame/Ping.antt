-- ===== src/Http2/Frame/Ping.antt =====
-- http/src/http2/frame/ping.rs
use proxy_rs.Prelude.{
  ℕ, ◌+◌, ◌^◌, ◌≤◌, ◌<◌, ◌≡◌, refl, Bool, true, false, not, List, ◌++◌, bit_and, ◌==◌,
  if◌then◌else◌, append_assoc, arith,
}
use proxy_rs.Io.{
  M, Source, Sink, IoError, IoProtoError, protocol, protocol_error, frame_size_error, assert,
  fail_if, from_io, ◌>>=◌, ◌>>◌, return, ok, write_all,
}
use proxy_rs.Http2.Frame.{FrameHeader, read_header, write_header, read_u64, write_u64}
use proxy_rs.Prelude.Bytes.{to_be_bytes}
use proxy_rs.Io.Laws.{write_all-write_all}
use proxy_rs.Http2.Settings.{Settings}
use proxy_rs.Http2.Frame.Wire.{wire_header, holding, read_u64-wire}
use proxy_rs.Http2.Frame.Header.{write_header-then, read_header-fits}

-- `data` of the source is `payload`.
pub record PingFrame : Type 0 where
  pub payload : ℕ
  pub is_ack : Bool

abbrev pub type_num : ℕ
type_num = 0x6

abbrev pub flags_ack : ℕ
flags_ack = 0x1

unfoldable pub read_frame : FrameHeader → M Source IoProtoError PingFrame
read_frame header = do
  assert (header.frame_type == type_num)
  fail_if (not (header.stream_id == 0)) (protocol protocol_error)
  fail_if (not (header.frame_len == 8)) (protocol frame_size_error)
  payload ← from_io read_u64
  return (record { payload = payload; is_ack = not (bit_and header.flags flags_ack == 0) })

unfoldable pub write_frame : PingFrame → M Sink IoError ℕ
write_frame frame = do
  written ← write_header (record {
    stream_id = 0;
    frame_len = 8;
    frame_type = type_num;
    flags = if frame.is_ack then flags_ack else 0;
  })
  write_u64 frame.payload
  return (written + 8)

-- The 17 bytes of a PING frame.
abbrev pub wire_frame : PingFrame → List ℕ
wire_frame f =
    wire_header 8 type_num (if f.is_ack then flags_ack else 0) 0 ++ to_be_bytes 8 f.payload

pub write_frame-wire :
    (f : PingFrame) (s : Sink) → write_frame f s ≡ (write_all (wire_frame f) >> return 17) s
unfolding write_frame write_u64
write_frame-wire f s = simp (write_header-then, write_all-write_all)

ack_flag : (b : Bool) → not (bit_and (if b then flags_ack else 0) flags_ack == 0) ≡ b
ack_flag true = refl
ack_flag false = refl

pub read_frame-wire :
    (settings : Settings) (f : PingFrame) (rest : List ℕ) (e : IoError)
    → f.payload < 2 ^ 64
    → 8 ≤ settings.frame_size.value
    → (read_header settings >>= read_frame) (holding (wire_frame f ++ rest) e)
      ≡ (ok f, holding rest e)
unfolding read_frame
read_frame-wire settings f rest e hp hs = simp append_assoc (
    rw
      (
        read_header-fits settings 8 type_num _ 0 _ e (omega arith) (omega arith) hs,
        read_u64-wire f.payload rest e hp,
        ack_flag,
      )
      refl)
