-- ===== src/Http2/Error.antt =====
-- `ErrorCode` and `IOProtoError` of http/src/http2/error.rs. The types stand in Io; here are the
-- numbers on the wire and the texts that a caller sees.
use proxy_rs.Prelude.{
  ℕ, ◌≡◌, ◌↔◌, refl, Option, none, some, List, ◌++◌, ◌==◌, if◌then◌else◌, arith, codes,
}
use proxy_rs.Io.{
  ErrorCode, no_error, protocol_error, internal_error, flow_control_error, settings_timeout,
  stream_closed, frame_size_error, refused_stream, cancel, compression_error, connect_error,
  enhance_your_calm, inadequate_security, http11_required, IoError, unexpected_eof, write_zero,
  other, IoProtoError, io, protocol,
}

-- `error as u32`
unfoldable pub error_value : ErrorCode → ℕ
error_value no_error = 0x0
error_value protocol_error = 0x1
error_value internal_error = 0x2
error_value flow_control_error = 0x3
error_value settings_timeout = 0x4
error_value stream_closed = 0x5
error_value frame_size_error = 0x6
error_value refused_stream = 0x7
error_value cancel = 0x8
error_value compression_error = 0x9
error_value connect_error = 0xa
error_value enhance_your_calm = 0xb
error_value inadequate_security = 0xc
error_value http11_required = 0xd

-- `ErrorCode::try_from`; `none` is `Err(())`.
unfoldable pub error_code : ℕ → Option ErrorCode
error_code v =
    if v == 0x0
    then some no_error
    else if v == 0x1
    then some protocol_error
    else if v == 0x2
    then some internal_error
    else if v == 0x3
    then some flow_control_error
    else if v == 0x4
    then some settings_timeout
    else if v == 0x5
    then some stream_closed
    else if v == 0x6
    then some frame_size_error
    else if v == 0x7
    then some refused_stream
    else if v == 0x8
    then some cancel
    else if v == 0x9
    then some compression_error
    else if v == 0xa
    then some connect_error
    else if v == 0xb
    then some enhance_your_calm
    else if v == 0xc
    then some inadequate_security
    else if v == 0xd
    then some http11_required
    else none

-- `impl Display for ErrorCode`
unfoldable pub show_error_code : ErrorCode → List ℕ
show_error_code no_error = codes "No error (0x0)"
show_error_code protocol_error = codes "Protocol error (0x1)"
show_error_code internal_error = codes "Internal error (0x2)"
show_error_code flow_control_error = codes "Flow control error (0x3)"
show_error_code settings_timeout = codes "Settings timeout (0x4)"
show_error_code stream_closed = codes "Stream closed (0x5)"
show_error_code frame_size_error = codes "Frame size error (0x6)"
show_error_code refused_stream = codes "Refused stream (0x7)"
show_error_code cancel = codes "Cancel (0x8)"
show_error_code compression_error = codes "Compression error (0x9)"
show_error_code connect_error = codes "Connect error (0xa)"
show_error_code enhance_your_calm = codes "Enhance your calm (0xb)"
show_error_code inadequate_security = codes "Inadequate security (0xc)"
show_error_code http11_required = codes "HTTP/1.1 required (0xd)"

-- The texts of `std::io::Error`.
unfoldable pub show_io_error : IoError → List ℕ
show_io_error unexpected_eof = codes "failed to fill whole buffer"
show_io_error write_zero = codes "failed to write whole buffer"
show_io_error (other message) = message

-- `impl Display for IOProtoError`
unfoldable pub show_io_proto_error : IoProtoError → List ℕ
unfolding show_io_error show_error_code
show_io_proto_error (io e) = codes "Failed IO operation: " ++ show_io_error e
show_io_proto_error (protocol e) = codes "Protocol Error: " ++ show_error_code e

-- `IOProtoError::get_error_code`
unfoldable pub get_error_code : IoProtoError → ErrorCode
get_error_code (protocol c) = c
get_error_code (io e) = internal_error

error_code-error_value : (c : ErrorCode) → error_code (error_value c) ≡ some c
unfolding error_code error_value
error_code-error_value no_error = refl
error_code-error_value _ = refl

-- The numbers and the enum are one to one: a number is read as the code that has it, and a code's
-- number is read as that code.
pub error_code_iff : (v : ℕ) (c : ErrorCode) → (error_code v ≡ some c) ↔ (v ≡ error_value c)
unfolding error_code error_value
error_code_iff v c = (λ h. ground arith, λ h. rw h (error_code-error_value c))
