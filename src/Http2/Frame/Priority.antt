-- ===== src/Http2/Frame/Priority.antt =====
-- http/src/http2/frame/priority.rs
use proxy_rs.Prelude.{
  ne→==-false, ℕ, ◌+◌, ◌%◌, ◌^◌, ◌≤◌, ◌<◌, ◌≡◌, ◌≢◌, refl, Bool, not, List, [], ◌∷◌, ◌++◌, bit_and,
  bit_or, ◌==◌, if◌then◌else◌, length, arith, append_assoc, length-append, take, take-all,
}
use proxy_rs.Prelude.Bytes.{to_be_bytes, length-to_be_bytes}
use proxy_rs.Io.{
  M, Source, Sink, IoError, IoProtoError, protocol, protocol_error, frame_size_error, assert,
  fail_if, from_io, ◌>>=◌, ◌>>◌, return, ok, write_all,
}
use proxy_rs.Io.Laws.{write_all-write_all, write_all-append}
use proxy_rs.Http2.Settings.{Settings}
use proxy_rs.Http2.Frame.{
  FrameHeader, read_header, write_header, read_u8, read_u32, write_u8, write_u32, into_slice,
}
use proxy_rs.Http2.Frame.Wire.{
  wire_header, holding, read_u8-wire, read_u32-wire, dep_word, dep_word-or, dep_word-exclusive,
  dep_word-id, dep_word-lt,
}
use proxy_rs.Http2.Frame.Header.{write_header-then, read_header-fits, into_slice_full}

pub record PriorityFrame : Type 0 where
  pub stream_dep : ℕ
  pub exclusive : Bool
  pub weight : ℕ

abbrev pub type_num : ℕ
type_num = 0x2

-- A stream that depends on itself is refused before the weight is read.
unfoldable pub read_frame : FrameHeader → M Source IoProtoError PriorityFrame
read_frame header = do
  assert (header.frame_type == type_num)
  fail_if (header.stream_id == 0) (protocol protocol_error)
  fail_if (not (header.frame_len == 5)) (protocol frame_size_error)
  word ← from_io read_u32
  fail_if (bit_and word 0x7FFFFFFF == header.stream_id) (protocol protocol_error)
  weight ← from_io read_u8
  return (record {
    stream_dep = bit_and word 0x7FFFFFFF;
    exclusive = not (bit_and word 0x80000000 == 0);
    weight = weight;
  })

unfoldable pub write_frame : ℕ → PriorityFrame → M Sink IoError ℕ
write_frame stream_id frame = do
  buf ← into_slice 5 (do
    write_u32 (bit_or frame.stream_dep (if frame.exclusive then 0x80000000 else 0x0))
    write_u8 frame.weight)
  written ←
      write_header
        (record { stream_id = stream_id; frame_len = 5; frame_type = type_num; flags = 0 })
  write_all (take 5 buf)
  return (written + 5)

-- The 14 bytes of a PRIORITY frame.
abbrev pub wire_frame : ℕ → PriorityFrame → List ℕ
wire_frame id f =
    wire_header 5 type_num 0 id
    ++ (to_be_bytes 4 (dep_word f.exclusive f.stream_dep) ++ (f.weight ∷ []))

pub write_frame-wire :
    (id : ℕ) (f : PriorityFrame) (s : Sink)
    → id < 2 ^ 31
    → f.stream_dep < 2 ^ 31
    → write_frame id f s ≡ (write_all (wire_frame id f) >> return 14) s
unfolding write_frame write_u32 write_u8
write_frame-wire id f s hi hd =
    let e : id % 2 ^ 31 ≡ id = omega arith in
    let body : List ℕ = to_be_bytes 4 (dep_word f.exclusive f.stream_dep) ++ (f.weight ∷ []) in
    let size : length body ≡ 5 = omega (
      arith,
      length-append (to_be_bytes 4 (dep_word f.exclusive f.stream_dep)) (f.weight ∷ []),
      length-to_be_bytes 4 (dep_word f.exclusive f.stream_dep),
    ) in
    simp (dep_word-or f.exclusive f.stream_dep hd, ← write_all-append)
      (rw (into_slice_full 5 body s size, take-all 5 body (omega arith))
        (simp (write_header-then, write_all-write_all, e)))

pub read_frame-wire :
    (settings : Settings) (id : ℕ) (f : PriorityFrame) (rest : List ℕ) (e : IoError)
    → id < 2 ^ 31
    → id ≢ 0
    → f.stream_dep < 2 ^ 31
    → f.stream_dep ≢ id
    → 5 ≤ settings.frame_size.value
    → (read_header settings >>= read_frame) (holding (wire_frame id f ++ rest) e)
      ≡ (ok f, holding rest e)
unfolding read_frame
read_frame-wire settings id f rest e hi h0 hd hne hs = simp append_assoc (
    rw
      (
        read_header-fits settings 5 type_num 0 id _ e (omega arith) hi hs,
        ne→==-false id 0 h0,
        read_u32-wire (dep_word f.exclusive f.stream_dep) (f.weight ∷ rest) e
            (dep_word-lt f.exclusive f.stream_dep hd),
        dep_word-id f.exclusive f.stream_dep hd,
        dep_word-exclusive f.exclusive f.stream_dep hd,
        ne→==-false f.stream_dep id hne,
        read_u8-wire f.weight rest e,
      )
      refl)
