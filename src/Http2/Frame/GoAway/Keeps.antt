-- ===== src/Http2/Frame/GoAway/Keeps.antt =====
-- However `read_frame` ends, the buffer of the frame object stays valid.
use proxy_rs.Prelude.{ℕ, ◌-◌, ◌^◌, ◌<◌, not, bit_and, ltb, ◌==◌, arith}
use proxy_rs.Buffer.{IsValid}
use proxy_rs.Io.{Source, from_io, protocol, protocol_error, frame_size_error, ◌>>=◌, ◌>>◌}
use proxy_rs.Http2.Frame.{FrameHeader, read_u32}
use proxy_rs.Http2.Frame.Body.{on_source, modify}
use proxy_rs.Http2.Frame.Body.Laws.{resized-IsValid, read_exact_into-IsValid}
use proxy_rs.Http2.Frame.Body.Keeps.{
  Keeps, Any, Keeps-bind, Keeps-then, Keeps-on_source, Keeps-fail_if, Keeps-assert, Keeps-modify,
  returned-Any,
}
use proxy_rs.Http2.Frame.GoAway.{
  GoAwayFrame, type_num, read_debug_data, resize_debug_data, read_frame,
}

abbrev IsSound : GoAwayFrame → Type 0
IsSound f = IsValid f.debug_data

read_debug_data-Keeps : Keeps IsSound Any read_debug_data
read_debug_data-Keeps = record {
  run = λ f s v. (
    read_exact_into-IsValid f.debug_data 0 s v (omega arith),
    returned-Any (read_debug_data (f, s)).0,
  );
}

-- However reading the rest of a GOAWAY frame ends, with the frame, an error or a failed assertion,
-- and whatever the reader delivers, a buffer of the frame object that was valid is valid.
pub go_away_buffer_IsValid :
    (header : FrameHeader) (f : GoAwayFrame) (s : Source)
    → header.frame_len < 2 ^ 24
    → IsValid f.debug_data
    → IsValid (read_frame header (f, s)).1.0.debug_data
unfolding read_frame
go_away_buffer_IsValid header f s h v = (whole.run f s v).0
  where
    filled : ℕ → ℕ → GoAwayFrame → GoAwayFrame
    filled id code f = record f { last_id = bit_and id 0x7FFFFFFF; error_code = code }

    whole : Keeps IsSound Any (read_frame header)
    whole =
        let typed = Keeps-assert IsSound (header.frame_type == type_num) in
        let stream =
          Keeps-fail_if IsSound (not (header.stream_id == 0)) (protocol protocol_error) in
        let size = Keeps-fail_if IsSound (ltb header.frame_len 8) (protocol frame_size_error) in
        let word = Keeps-on_source IsSound (from_io read_u32) in
        let sized =
          Keeps-modify IsSound (resize_debug_data (header.frame_len - 8))
            (λ f v. resized-IsValid f.debug_data (header.frame_len - 8) v (omega arith)) in
        let body : (id code : ℕ)
            → Keeps IsSound Any (
                modify (resize_debug_data (header.frame_len - 8))
                >> (read_debug_data >> modify (filled id code))) =
          λ id code. Keeps-then IsSound Any _ _ sized (
            Keeps-then IsSound Any _ _ read_debug_data-Keeps
              (Keeps-modify IsSound (filled id code) (λ f v. v))) in
        Keeps-then IsSound Any _ _ typed (
          Keeps-then IsSound Any _ _ stream (
            Keeps-then IsSound Any _ _ size (
              Keeps-bind IsSound Any Any _
                (λ id. on_source (from_io read_u32) >>= λ code.
                  modify (resize_debug_data (header.frame_len - 8))
                  >> (read_debug_data >> modify (filled id code)))
                word
                (λ id q.
                  Keeps-bind IsSound Any Any _
                    (λ code.
                      modify (resize_debug_data (header.frame_len - 8))
                      >> (read_debug_data >> modify (filled id code)))
                    word (λ code q. body id code)))))
