-- ===== src/Http2/Frame/RstStream.antt =====
-- http/src/http2/frame/rst_stream.rs
use proxy_rs.Prelude.{
  ne→==-false, ℕ, ◌+◌, ◌%◌, ◌^◌, ◌≤◌, ◌<◌, ◌≡◌, ◌≢◌, refl, not, List, ◌++◌, ◌==◌, arith,
  append_assoc,
}
use proxy_rs.Prelude.Bytes.{to_be_bytes}
use proxy_rs.Io.{
  M, Source, Sink, IoError, IoProtoError, protocol, protocol_error, frame_size_error, assert,
  fail_if, from_io, ◌>>=◌, ◌>>◌, return, ok, write_all,
}
use proxy_rs.Io.Laws.{write_all-write_all}
use proxy_rs.Http2.Settings.{Settings}
use proxy_rs.Http2.Frame.{FrameHeader, read_header, write_header, read_u32, write_u32}
use proxy_rs.Http2.Frame.Wire.{wire_header, holding, read_u32-wire}
use proxy_rs.Http2.Frame.Header.{write_header-then, read_header-fits}

abbrev pub type_num : ℕ
type_num = 0x3

unfoldable pub read_frame : FrameHeader → M Source IoProtoError ℕ
read_frame header = do
  assert (header.frame_type == type_num)
  fail_if (header.stream_id == 0) (protocol protocol_error)
  fail_if (not (header.frame_len == 4)) (protocol frame_size_error)
  from_io read_u32

unfoldable pub write_frame : ℕ → ℕ → M Sink IoError ℕ
write_frame stream_id error_code = do
  written ←
      write_header
        (record { stream_id = stream_id; frame_len = 4; frame_type = type_num; flags = 0 })
  write_u32 error_code
  return (written + 4)

-- The 13 bytes of a RST_STREAM frame.
abbrev pub wire_frame : ℕ → ℕ → List ℕ
wire_frame id code = wire_header 4 type_num 0 id ++ to_be_bytes 4 code

pub write_frame-wire :
    (id code : ℕ) (s : Sink)
    → id < 2 ^ 31
    → write_frame id code s ≡ (write_all (wire_frame id code) >> return 13) s
unfolding write_frame write_u32
write_frame-wire id code s hi =
    let e : id % 2 ^ 31 ≡ id = omega arith in simp (write_header-then, write_all-write_all, e)

pub read_frame-wire :
    (settings : Settings) (id code : ℕ) (rest : List ℕ) (e : IoError)
    → id < 2 ^ 31
    → id ≢ 0
    → code < 2 ^ 32
    → 4 ≤ settings.frame_size.value
    → (read_header settings >>= read_frame) (holding (wire_frame id code ++ rest) e)
      ≡ (ok code, holding rest e)
unfolding read_frame
read_frame-wire settings id code rest e hi h0 hc hs = simp append_assoc (
    rw
      (
        read_header-fits settings 4 type_num 0 id _ e (omega arith) hi hs,
        ne→==-false id 0 h0,
        read_u32-wire code rest e hc,
      )
      refl)
