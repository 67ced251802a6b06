-- ===== src/Http2/Frame/Data.antt =====
-- http/src/http2/frame/data.rs. `data` of the source is `payload`.
pub mod RoundTrip
pub mod Keeps
use proxy_rs.Prelude.{
  ℕ, ◌+◌, ◌-◌, ◌%◌, ◌^◌, Bool, true, false, not, Option, none, some, List, [], ◌∷◌, ◌++◌, bit_and,
  bit_or, ltb, ◌==◌, if◌then◌else◌, length, take, replicate,
}
use proxy_rs.Buffer.{Buffer, reserve_len}
use proxy_rs.Io.{
  M, Source, Sink, IoError, IoProtoError, protocol, protocol_error, assert, fail_if, from_io, ◌>>=◌,
  ◌>>◌, return, write_all, read_exact,
}
use proxy_rs.Http2.Frame.{FrameHeader, read_u8, write_header}
use proxy_rs.Http2.Frame.Body.{on_source, modify, read_exact_into}

pub record DataFrame : Type 0 where
  pub is_end : Bool
  pub payload : Buffer

abbrev pub type_num : ℕ
type_num = 0x0

abbrev pub flags_end_stream : ℕ
flags_end_stream = 0x1

abbrev pub flags_padded : ℕ
flags_padded = 0x8

abbrev pub is_padded : FrameHeader → Bool
is_padded header = not (bit_and header.flags flags_padded == 0)

-- A read into the payload.
abbrev pub read_payload : M (DataFrame × Source) IoProtoError (Unit {0})
read_payload (f, s) =
    let (r, (b, s')) = from_io (read_exact_into 0) (f.payload, s) in
    (r, (record f { payload = b }, s'))

-- The length of the padding, if the flags announce one.
unfoldable pub read_padding : FrameHeader → M (DataFrame × Source) IoProtoError ℕ
read_padding header =
    if is_padded header
    then (do fail_if (header.frame_len == 0) (protocol protocol_error); on_source (from_io read_u8))
    else return 0

-- `data.reserve_len(n); data.len = n`
abbrev pub resize_payload : ℕ → DataFrame → DataFrame
resize_payload n f = record f { payload = record (reserve_len f.payload n) { len = n } }

-- The payload and the padding behind it, in the `data_len` bytes that are left of the frame.
unfoldable pub read_body : FrameHeader → ℕ → ℕ → M (DataFrame × Source) IoProtoError (Unit {0})
read_body header data_len padding_len = do
  fail_if (ltb data_len padding_len) (protocol protocol_error)
  modify (resize_payload (data_len - padding_len))
  read_payload
  _ ← on_source (from_io (read_exact padding_len))
  modify (λ f. record f { is_end = not (bit_and header.flags flags_end_stream == 0) })

unfoldable pub read_frame : FrameHeader → M (DataFrame × Source) IoProtoError (Unit {0})
read_frame header = do
  assert (header.frame_type == type_num)
  fail_if (header.stream_id == 0) (protocol protocol_error)
  padding_len ← read_padding header
  read_body header (if is_padded header then header.frame_len - 1 else header.frame_len) padding_len

-- `PAD_BUF`
abbrev pub pad_buf : List ℕ
pad_buf = replicate 256 0

-- `frame_len` is a `u32`, and its sums wrap.
abbrev pub padded_len : Option ℕ → ℕ → ℕ
padded_len none n = n % 2 ^ 32
padded_len (some pad) n = (n % 2 ^ 32 + (1 + pad)) % 2 ^ 32

abbrev pub write_pad_len : Option ℕ → ℕ → M Sink IoError ℕ
write_pad_len none written = return written
write_pad_len (some pad) written = write_all (pad ∷ []) >> return (written + 1)

abbrev pub write_padding : Option ℕ → ℕ → M Sink IoError ℕ
write_padding none written = return written
write_padding (some pad) written = write_all (take pad pad_buf) >> return (written + pad)

abbrev pub frame_flags : Option ℕ → Bool → ℕ
frame_flags none is_end = if is_end then flags_end_stream else 0
frame_flags (some pad) is_end = bit_or (if is_end then flags_end_stream else 0) flags_padded

unfoldable pub write_frame : ℕ → Option ℕ → List ℕ → Bool → M Sink IoError ℕ
write_frame stream_id pad payload is_end = do
  written ← write_header (record {
    stream_id = stream_id;
    frame_len = padded_len pad (length payload);
    frame_type = type_num;
    flags = frame_flags pad is_end;
  })
  written ← write_pad_len pad written
  write_all payload
  write_padding pad (written + length payload)
