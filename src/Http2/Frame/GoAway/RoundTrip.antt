-- ===== src/Http2/Frame/GoAway/RoundTrip.antt =====
-- GOAWAY frames: the bytes that `write_frame` puts on the wire, and that `read_frame` takes them back.
use proxy_rs.Prelude.{
  ℕ, ◌+◌, ◌-◌, ◌%◌, ◌^◌, ◌≤◌, ◌<◌, ◌≡◌, refl, List, ◌++◌, length, arith, append_assoc, le→not-ltb,
}
use proxy_rs.Prelude.Bits.{bit_and_fits}
use proxy_rs.Prelude.Bytes.{to_be_bytes}
use proxy_rs.Buffer.{reserve_len}
use proxy_rs.Io.{Sink, IoError, ErrorCode, ok, write_all, ◌>>=◌, ◌>>◌, return}
use proxy_rs.Io.Laws.{write_all-write_all}
use proxy_rs.Http2.Settings.{Settings}
use proxy_rs.Http2.Error.{error_value}
use proxy_rs.Http2.Frame.{read_header, write_u32}
use proxy_rs.Http2.Frame.Wire.{wire_header, holding, read_u32-wire}
use proxy_rs.Http2.Frame.Header.{write_header-then, read_header-fits}
use proxy_rs.Http2.Frame.Body.{on_source, store}
use proxy_rs.Http2.Frame.Body.Laws.{read_exact_into-append}
use proxy_rs.Http2.Frame.GoAway.{GoAwayFrame, type_num, resize_debug_data, read_frame, write_frame}

-- The bytes of a GOAWAY frame.
abbrev pub wire_frame : ℕ → ErrorCode → List ℕ → List ℕ
wire_frame id code payload =
    wire_header (length payload + 8) type_num 0 0
    ++ (to_be_bytes 4 id ++ (to_be_bytes 4 (error_value code) ++ payload))

pub write_frame-wire :
    (id : ℕ) (code : ErrorCode) (payload : List ℕ) (s : Sink)
    → id < 2 ^ 31
    → length payload + 8 < 2 ^ 24
    → write_frame id code payload s
      ≡ (write_all (wire_frame id code payload) >> return (17 + length payload)) s
unfolding write_frame write_u32
write_frame-wire id code payload s hi hl =
    let l : (length payload % 2 ^ 32 + 8) % 2 ^ 32 % 2 ^ 24 ≡ length payload + 8 = omega arith in
    simp (write_header-then, write_all-write_all, l, bit_and_fits 31 id hi, append_assoc)

-- The frame object that a read leaves.
abbrev pub received : GoAwayFrame → ℕ → ErrorCode → List ℕ → GoAwayFrame
received f id code payload = record {
  last_id = id;
  error_code = error_value code;
  debug_data =
      store (record (reserve_len f.debug_data (length payload)) { len = length payload }) 0 payload;
}

error_value-lt : (code : ErrorCode) → error_value code < 2 ^ 32
unfolding error_value
error_value-lt code = ground arith

pub read_frame-wire :
    (settings : Settings) (id : ℕ) (code : ErrorCode) (payload : List ℕ) (f : GoAwayFrame)
    (rest : List ℕ) (e : IoError)
    → id < 2 ^ 31
    → length payload + 8 < 2 ^ 24
    → length payload + 8 ≤ settings.frame_size.value
    → (on_source (read_header settings) >>= read_frame)
        (f, holding (wire_frame id code payload ++ rest) e)
      ≡ (ok tt, (received f id code payload, holding rest e))
unfolding read_frame
read_frame-wire settings id code payload f rest e hi hl hs =
    let size : length payload + 8 - 8 ≡ length payload = omega arith in
    simp append_assoc (
      rw
        (
          read_header-fits settings (length payload + 8) type_num 0 0 _ e hl (omega arith) hs,
          le→not-ltb (length payload + 8) 8 (omega arith),
          read_u32-wire id _ e (omega arith),
          read_u32-wire (error_value code) (payload ++ rest) e (error_value-lt code),
          size,
          read_exact_into-append (resize_debug_data (length payload) f).debug_data 0 payload rest e
              (omega arith),
          bit_and_fits 31 id hi,
        )
        refl)
