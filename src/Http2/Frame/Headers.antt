-- ===== src/Http2/Frame/Headers.antt =====
-- `read_frame` and `write_frame` of http/src/http2/frame/header.rs: the HEADERS frame with its
-- optional padding and priority.
pub mod Wire
pub mod Flags
pub mod RoundTrip
pub mod Keeps
use proxy_rs.Prelude.{
  ℕ, ◌+◌, ◌-◌, ◌%◌, ◌^◌, Bool, true, false, not, Option, none, some, List, [], ◌∷◌, bit_and, bit_or,
  ltb, ◌==◌, if◌then◌else◌, length, take,
}
use proxy_rs.Buffer.{Buffer, reserve_len}
use proxy_rs.Io.{
  M, Source, Sink, IoError, IoProtoError, protocol, protocol_error, assert, fail_if, from_io, ◌>>=◌,
  ◌>>◌, return, read_exact, write_all,
}
use proxy_rs.Http2.Frame.{FrameHeader, read_u8, read_u32, write_header, write_u8, write_u32}
use proxy_rs.Http2.Frame.Body.{on_source, modify, read_exact_into}
use proxy_rs.Http2.Frame.Data.{pad_buf}

-- `end` keeps the two end flags. `data` of the source is `payload`.
pub record HeaderFrame : Type 0 where
  pub payload : Buffer
  pub stream_dep : ℕ
  pub exclusive : Bool
  pub weight : ℕ
  pub end : ℕ

abbrev pub type_num : ℕ
type_num = 0x1

abbrev pub flags_end_stream : ℕ
flags_end_stream = 0x01

abbrev pub flags_end_headers : ℕ
flags_end_headers = 0x04

abbrev pub flags_padded : ℕ
flags_padded = 0x08

abbrev pub flags_priority : ℕ
flags_priority = 0x20

abbrev pub end_flags : ℕ
end_flags = bit_or flags_end_stream flags_end_headers

abbrev pub has_flag : FrameHeader → ℕ → Bool
has_flag header flag = not (bit_and header.flags flag == 0)

pub record Priority : Type 0 where
  pub dep : ℕ
  pub exclusive : Bool
  pub weight : ℕ

-- The length that is left after the padding's length byte, and the padding.
unfoldable pub read_padding : FrameHeader → M (HeaderFrame × Source) IoProtoError (ℕ × ℕ)
read_padding header =
    if has_flag header flags_padded
    then (do
      fail_if (header.frame_len == 0) (protocol protocol_error)
      pad_len ← on_source (from_io read_u8)
      return (header.frame_len - 1, pad_len))
    else return (header.frame_len, 0)

-- The length that is left after the priority, and the priority.
unfoldable pub read_priority :
    FrameHeader → ℕ → M (HeaderFrame × Source) IoProtoError (ℕ × Priority)
read_priority header frame_len =
    if has_flag header flags_priority
    then (do
      fail_if (ltb frame_len 5) (protocol protocol_error)
      d ← on_source (from_io read_u32)
      weight ← on_source (from_io read_u8)
      return (
        frame_len - 5,
        record {
          dep = bit_and d 0x7FFFFFFF;
          exclusive = not (bit_and d 0x80000000 == 0);
          weight = weight;
        },
      ))
    else return (frame_len, record { dep = 0; exclusive = false; weight = 16 })

-- The fields of the frame, and room for `n` bytes of payload.
abbrev pub fill_frame : FrameHeader → Priority → ℕ → HeaderFrame → HeaderFrame
fill_frame header p n f = record {
  payload = record (reserve_len f.payload n) { len = n };
  stream_dep = p.dep;
  exclusive = p.exclusive;
  weight = p.weight;
  end = bit_and header.flags end_flags;
}

abbrev pub read_payload : M (HeaderFrame × Source) IoProtoError (Unit {0})
read_payload (f, s) =
    let (r, (b, s')) = from_io (read_exact_into 0) (f.payload, s) in
    (r, (record f { payload = b }, s'))

-- The payload and the padding behind it, in the `left` bytes of the frame that follow the fields.
unfoldable pub read_body :
    FrameHeader → ℕ → ℕ → Priority → M (HeaderFrame × Source) IoProtoError (Unit {0})
read_body header left pad_len priority = do
  fail_if (ltb left pad_len) (protocol protocol_error)
  fail_if (priority.dep == header.stream_id) (protocol protocol_error)
  modify (fill_frame header priority (left - pad_len))
  read_payload
  _ ← on_source (from_io (read_exact pad_len))
  return tt

unfoldable pub read_frame : FrameHeader → M (HeaderFrame × Source) IoProtoError (Unit {0})
read_frame header = do
  assert (header.frame_type == type_num)
  fail_if (header.stream_id == 0) (protocol protocol_error)
  (left, pad_len) ← read_padding header
  (left, priority) ← read_priority header left
  read_body header left pad_len priority

abbrev pub pad_flags : Option ℕ → ℕ → ℕ
pad_flags none flags = flags
pad_flags (some pad) flags = bit_or flags flags_padded

abbrev pub priority_flags : Option Priority → ℕ → ℕ
priority_flags none flags = flags
priority_flags (some p) flags = bit_or flags flags_priority

abbrev pub pad_size : Option ℕ → ℕ → ℕ
pad_size none len = len
pad_size (some pad) len = (len + (1 + pad)) % 2 ^ 32

abbrev pub priority_size : Option Priority → ℕ → ℕ
priority_size none len = len
priority_size (some p) len = (len + 5) % 2 ^ 32

abbrev pub write_pad_len : Option ℕ → ℕ → M Sink IoError ℕ
unfolding write_u8
write_pad_len none written = return written
write_pad_len (some pad) written = write_u8 pad >> return (written + 1)

abbrev pub write_priority : Option Priority → ℕ → M Sink IoError ℕ
unfolding write_u8 write_u32
write_priority none written = return written
write_priority (some p) written = do
  write_u32 (bit_or (bit_and p.dep 0x7FFFFFFF) (if p.exclusive then 0x80000000 else 0))
  write_u8 p.weight
  return (written + 5)

abbrev pub write_padding : Option ℕ → ℕ → M Sink IoError ℕ
write_padding none written = return written
write_padding (some pad) written = write_all (take pad pad_buf) >> return (written + pad)

unfoldable pub write_frame : ℕ → Option ℕ → Option Priority → ℕ → List ℕ → M Sink IoError ℕ
write_frame stream_id pad priority ends payload = do
  written ← write_header (record {
    stream_id = stream_id;
    frame_len = priority_size priority (pad_size pad (length payload % 2 ^ 32));
    frame_type = type_num;
    flags = priority_flags priority (pad_flags pad (bit_and ends end_flags));
  })
  written ← write_pad_len pad written
  written ← write_priority priority written
  write_all payload
  write_padding pad (written + length payload)
