-- ===== src/Http2/Frame/Data/Keeps.antt =====
-- However `read_frame` ends, the buffer of the frame object stays valid.
use proxy_rs.Prelude.{ℕ, ◌-◌, ◌^◌, ◌≤◌, ◌<◌, not, bit_and, ltb, ◌==◌, if◌then◌else◌, arith}
use proxy_rs.Buffer.{IsValid}
use proxy_rs.Io.{Source, from_io, read_exact, protocol, protocol_error}
use proxy_rs.Http2.Frame.{FrameHeader, read_u8}
use proxy_rs.Http2.Frame.Body.{modify}
use proxy_rs.Http2.Frame.Body.Laws.{resized-IsValid, read_exact_into-IsValid}
use proxy_rs.Http2.Frame.Body.Keeps.{
  Keeps, Any, Keeps-bind, Keeps-then, Keeps-on_source, Keeps-fail_if, Keeps-assert, Keeps-modify,
  Keeps-if, Keeps-return, returned-Any,
}
use proxy_rs.Http2.Frame.Data.{
  DataFrame, type_num, flags_end_stream, is_padded, read_payload, read_padding, resize_payload,
  read_body, read_frame,
}

abbrev IsSound : DataFrame → Type 0
IsSound f = IsValid f.payload

read_payload-Keeps : Keeps IsSound Any read_payload
read_payload-Keeps = record {
  run = λ f s v.
      (read_exact_into-IsValid f.payload 0 s v (omega arith), returned-Any (read_payload (f, s)).0);
}

read_padding-Keeps : (header : FrameHeader) → Keeps IsSound Any (read_padding header)
unfolding read_padding
read_padding-Keeps header =
    let guard = Keeps-fail_if IsSound (header.frame_len == 0) (protocol protocol_error) in
    Keeps-if IsSound Any (is_padded header) _ _
      (Keeps-then IsSound Any _ _ guard (Keeps-on_source IsSound (from_io read_u8)))
      (Keeps-return IsSound Any 0 tt)

read_body-Keeps :
    (header : FrameHeader) (data_len pad : ℕ)
    → data_len ≤ 2 ^ 63
    → Keeps IsSound Any (read_body header data_len pad)
unfolding read_body
read_body-Keeps header data_len pad h =
    let guard = Keeps-fail_if IsSound (ltb data_len pad) (protocol protocol_error) in
    let sized =
      Keeps-modify IsSound (resize_payload (data_len - pad))
        (λ f v. resized-IsValid f.payload (data_len - pad) v (omega arith)) in
    let flag : DataFrame → DataFrame =
      λ f. record f { is_end = not (bit_and header.flags flags_end_stream == 0) } in
    let rest = Keeps-on_source IsSound (from_io (read_exact pad)) in
    Keeps-then IsSound Any _ _ guard (
      Keeps-then IsSound Any _ _ sized (
        Keeps-then IsSound Any _ _ read_payload-Keeps (
          Keeps-bind IsSound Any Any _ (λ bytes. modify flag) rest
            (λ bytes q. Keeps-modify IsSound flag (λ f v. v)))))

-- However reading the rest of a DATA frame ends, with the frame, an error or a failed assertion, and
-- whatever the reader delivers, a buffer of the frame object that was valid is valid.
pub data_buffer_IsValid :
    (header : FrameHeader) (f : DataFrame) (s : Source)
    → header.frame_len < 2 ^ 24
    → IsValid f.payload
    → IsValid (read_frame header (f, s)).1.0.payload
unfolding read_frame
data_buffer_IsValid header f s h v = (whole.run f s v).0
  where
    whole : Keeps IsSound Any (read_frame header)
    whole =
        let len = if is_padded header then header.frame_len - 1 else header.frame_len in
        let typed = Keeps-assert IsSound (header.frame_type == type_num) in
        let guard = Keeps-fail_if IsSound (header.stream_id == 0) (protocol protocol_error) in
        Keeps-then IsSound Any _ _ typed (
          Keeps-then IsSound Any _ _ guard (
            Keeps-bind IsSound Any Any _ (read_body header len) (read_padding-Keeps header)
              (λ pad q. read_body-Keeps header len pad (ground arith))))
