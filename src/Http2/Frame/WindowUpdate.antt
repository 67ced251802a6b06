-- ===== src/Http2/Frame/WindowUpdate.antt =====
-- http/src/http2/frame/window_update.rs
use proxy_rs.Prelude.{
  ne→==-false, ℕ, ◌+◌, ◌%◌, ◌^◌, ◌≤◌, ◌<◌, ◌≡◌, ◌≢◌, refl, not, List, ◌++◌, bit_and, ◌==◌, arith,
  append_assoc,
}
use proxy_rs.Prelude.Bits.{bit_and_fits}
use proxy_rs.Prelude.Bytes.{to_be_bytes}
use proxy_rs.Io.{
  M, Source, Sink, IoError, IoProtoError, protocol, protocol_error, frame_size_error, assert,
  fail_if, from_io, ◌>>=◌, ◌>>◌, return, ok, write_all,
}
use proxy_rs.Io.Laws.{from_io-bind2, write_all-write_all}
use proxy_rs.Http2.Settings.{Settings}
use proxy_rs.Http2.Frame.{FrameHeader, read_header, write_header, read_u32, write_u32}
use proxy_rs.Http2.Frame.Wire.{wire_header, holding, read_u32-wire}
use proxy_rs.Http2.Frame.Header.{write_header-then, read_header-fits}

pub record WindowUpdateFrame : Type 0 where
  pub stream_id : ℕ
  pub increment : ℕ

abbrev pub type_num : ℕ
type_num = 0x8

unfoldable pub read_frame : FrameHeader → M Source IoProtoError WindowUpdateFrame
read_frame header = do
  assert (header.frame_type == type_num)
  fail_if (not (header.frame_len == 4)) (protocol frame_size_error)
  word ← from_io read_u32
  fail_if (bit_and word 0x7FFFFFFF == 0) (protocol protocol_error)
  return (record { stream_id = header.stream_id; increment = bit_and word 0x7FFFFFFF })

-- The result type of the source is an `IOProtoResult`.
unfoldable pub write_frame : ℕ → ℕ → M Sink IoProtoError ℕ
write_frame stream_id increment = do
  written ← from_io (
      write_header
        (record { stream_id = stream_id; flags = 0; frame_len = 4; frame_type = type_num }))
  from_io (write_u32 increment)
  return (written + 4)

-- The 13 bytes of a WINDOW_UPDATE frame.
abbrev pub wire_frame : WindowUpdateFrame → List ℕ
wire_frame f = wire_header 4 type_num 0 f.stream_id ++ to_be_bytes 4 f.increment

-- The same writes before the errors are turned into those of the frame layer.
write_frame_io : ℕ → ℕ → M Sink IoError ℕ
write_frame_io stream_id increment = do
  written ←
      write_header
        (record { stream_id = stream_id; flags = 0; frame_len = 4; frame_type = type_num })
  write_u32 increment
  return (written + 4)

write_frame-from_io :
    (id inc : ℕ) (s : Sink) → write_frame id inc s ≡ from_io (write_frame_io id inc) s
unfolding write_frame write_frame_io
write_frame-from_io id inc s = from_io-bind2 (write_header _ s) (λ _. write_u32 inc) (λ w. w + 4)

pub write_frame-wire :
    (f : WindowUpdateFrame) (s : Sink)
    → f.stream_id < 2 ^ 31
    → write_frame f.stream_id f.increment s ≡ from_io (write_all (wire_frame f) >> return 13) s
unfolding write_frame_io write_u32
write_frame-wire f s hi =
    let e : f.stream_id % 2 ^ 31 ≡ f.stream_id = omega arith in
    rw (write_frame-from_io f.stream_id f.increment s)
      (simp (write_header-then, write_all-write_all, e))

pub read_frame-wire :
    (settings : Settings) (f : WindowUpdateFrame) (rest : List ℕ) (e : IoError)
    → f.stream_id < 2 ^ 31
    → f.increment ≢ 0
    → f.increment < 2 ^ 31
    → 4 ≤ settings.frame_size.value
    → (read_header settings >>= read_frame) (holding (wire_frame f ++ rest) e)
      ≡ (ok f, holding rest e)
unfolding read_frame
read_frame-wire settings f rest e hi h0 hc hs = simp append_assoc (
    rw
      (
        read_header-fits settings 4 type_num 0 f.stream_id _ e (omega arith) hi hs,
        read_u32-wire f.increment rest e (omega arith),
        bit_and_fits 31 f.increment hc,
        ne→==-false f.increment 0 h0,
      )
      refl)
