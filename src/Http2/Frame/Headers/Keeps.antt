-- ===== src/Http2/Frame/Headers/Keeps.antt =====
-- However `read_frame` ends, the buffer of the frame object stays valid.
use proxy_rs.Prelude.{ℕ, ◌-◌, ◌^◌, ◌≤◌, ◌<◌, false, not, bit_and, ltb, ◌==◌, arith}
use proxy_rs.Buffer.{IsValid}
use proxy_rs.Io.{
  M, Source, IoProtoError, from_io, protocol, protocol_error, ◌>>=◌, return, read_exact,
}
use proxy_rs.Http2.Frame.{FrameHeader, read_u32, read_u8}
use proxy_rs.Http2.Frame.Body.{on_source}
use proxy_rs.Http2.Frame.Body.Laws.{resized-IsValid, read_exact_into-IsValid}
use proxy_rs.Http2.Frame.Body.Keeps.{
  Keeps, Any, Keeps-bind, Keeps-then, Keeps-on_source, Keeps-fail_if, Keeps-assert, Keeps-modify,
  Keeps-if, Keeps-return, returned-Any,
}
use proxy_rs.Http2.Frame.Headers.{
  HeaderFrame, Priority, type_num, flags_padded, flags_priority, has_flag, read_padding,
  read_priority, fill_frame, read_payload, read_body, read_frame,
}

abbrev IsSound : HeaderFrame → Type 0
IsSound f = IsValid f.payload

-- The length that is left is within the frame.
abbrev Within : {A : Type 0} → ℕ → ℕ × A → Type 0
Within n (left, a) = left ≤ n

read_payload-Keeps : Keeps IsSound Any read_payload
read_payload-Keeps = record {
  run = λ f s v.
      (read_exact_into-IsValid f.payload 0 s v (omega arith), returned-Any (read_payload (f, s)).0);
}

read_padding-Keeps :
    (header : FrameHeader) → Keeps IsSound (Within header.frame_len) (read_padding header)
unfolding read_padding
read_padding-Keeps header =
    let n = header.frame_len in
    let guard = Keeps-fail_if IsSound (n == 0) (protocol protocol_error) in
    let byte = Keeps-on_source IsSound (from_io read_u8) in
    Keeps-if IsSound (Within n) (has_flag header flags_padded) _ _
      (Keeps-then IsSound (Within n) _ _ guard (
        Keeps-bind IsSound Any (Within n) _ (λ pad_len. return (n - 1, pad_len)) byte
          (λ pad_len q. Keeps-return IsSound (Within n) (n - 1, pad_len) (omega arith))))
      (Keeps-return IsSound (Within n) (n, 0) (omega arith))

abbrev priority_of : ℕ → ℕ → Priority
priority_of d weight = record {
  dep = bit_and d 0x7FFFFFFF;
  exclusive = not (bit_and d 0x80000000 == 0);
  weight = weight;
}

read_priority-Keeps :
    (header : FrameHeader) (n : ℕ) → Keeps IsSound (Within n) (read_priority header n)
unfolding read_priority
read_priority-Keeps header n =
    let guard = Keeps-fail_if IsSound (ltb n 5) (protocol protocol_error) in
    let word = Keeps-on_source IsSound (from_io read_u32) in
    let byte = Keeps-on_source IsSound (from_io read_u8) in
    Keeps-if IsSound (Within n) (has_flag header flags_priority) _ _
      (Keeps-then IsSound (Within n) _ _ guard (
        Keeps-bind IsSound Any (Within n) _
          (λ d. on_source (from_io read_u8) >>= λ weight. return (n - 5, priority_of d weight)) word
          (λ d q.
            Keeps-bind IsSound Any (Within n) _ (λ weight. return (n - 5, priority_of d weight))
              byte
              (λ weight q.
                Keeps-return IsSound (Within n) (n - 5, priority_of d weight) (omega arith)))))
      (Keeps-return IsSound (Within n) (n, record { dep = 0; exclusive = false; weight = 16 })
        (omega arith))

read_body-Keeps :
    (header : FrameHeader) (left pad_len : ℕ) (priority : Priority)
    → left ≤ 2 ^ 63
    → Keeps IsSound Any (read_body header left pad_len priority)
unfolding read_body
read_body-Keeps header left pad_len priority h =
    let guard = Keeps-fail_if IsSound (ltb left pad_len) (protocol protocol_error) in
    let other =
      Keeps-fail_if IsSound (priority.dep == header.stream_id) (protocol protocol_error) in
    let sized =
      Keeps-modify IsSound (fill_frame header priority (left - pad_len))
        (λ f v. resized-IsValid f.payload (left - pad_len) v (omega arith)) in
    let rest = Keeps-on_source IsSound (from_io (read_exact pad_len)) in
    Keeps-then IsSound Any _ _ guard (
      Keeps-then IsSound Any _ _ other (
        Keeps-then IsSound Any _ _ sized (
          Keeps-then IsSound Any _ _ read_payload-Keeps (
            Keeps-bind IsSound Any Any _ (λ bytes. return tt) rest
              (λ bytes q. Keeps-return IsSound Any tt tt)))))

-- However reading the rest of a HEADERS frame ends, with the frame, an error or a failed assertion,
-- and whatever the reader delivers, a buffer of the frame object that was valid is valid.
pub headers_buffer_IsValid :
    (header : FrameHeader) (f : HeaderFrame) (s : Source)
    → header.frame_len < 2 ^ 24
    → IsValid f.payload
    → IsValid (read_frame header (f, s)).1.0.payload
unfolding read_frame
headers_buffer_IsValid header f s h v = (whole.run f s v).0
  where
    behind : ℕ → ℕ × Priority → M (HeaderFrame × Source) IoProtoError (Unit {0})
    behind pad_len (left, priority) = read_body header left pad_len priority

    whole : Keeps IsSound Any (read_frame header)
    whole =
        let typed = Keeps-assert IsSound (header.frame_type == type_num) in
        let guard = Keeps-fail_if IsSound (header.stream_id == 0) (protocol protocol_error) in
        Keeps-then IsSound Any _ _ typed (
          Keeps-then IsSound Any _ _ guard (
            Keeps-bind IsSound (Within header.frame_len) Any _
              (λ (left, pad_len). read_priority header left >>= behind pad_len)
              (read_padding-Keeps header)
              (λ (left, pad_len) q.
                Keeps-bind IsSound (Within left) Any _ (behind pad_len)
                  (read_priority-Keeps header left)
                  (λ (less, priority) r.
                    read_body-Keeps header less pad_len priority (omega arith)))))
