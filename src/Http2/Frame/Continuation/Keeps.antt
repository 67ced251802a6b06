-- ===== src/Http2/Frame/Continuation/Keeps.antt =====
-- However `read_frame` ends, the buffer of the frame object stays valid.
use proxy_rs.Prelude.{ℕ, ◌+◌, ◌%◌, ◌^◌, ◌≤◌, ◌≡◌, ◌==◌, arith, Bool-cases, inl, inr}
use proxy_rs.Buffer.{Buffer, IsValid, reserve}
use proxy_rs.Buffer.Contents.{reserve-IsReserved}
use proxy_rs.Io.{Source, Outcome, IoProtoError, ok, err, panic, bind_outcome}
use proxy_rs.Http2.Frame.{FrameHeader}
use proxy_rs.Http2.Frame.Body.{modify}
use proxy_rs.Http2.Frame.Body.Laws.{read_exact_into-IsValid}
use proxy_rs.Http2.Frame.Continuation.{ContinuationFrame, type_num, read_more, read_frame}

read_more-IsValid :
    (n : ℕ) (f : ContinuationFrame) (s : Source)
    → IsValid f.payload
    → f.payload.len + n ≤ 2 ^ 63
    → IsValid (read_more n (f, s)).1.0.payload
read_more-IsValid n f s v h =
    let r = reserve-IsReserved f.payload v n h in
    let sum : (f.payload.len + n) % 2 ^ 64 ≡ f.payload.len + n = omega arith in
    let grown : Buffer = record (reserve f.payload n) { len = f.payload.len + n } in
    let w : IsValid grown = record {
      fits = r.roomy;
      sized = r.valid.sized;
      null = r.valid.null;
      bounded = r.valid.bounded;
      answers = r.valid.answers;
    } in
    rw sum (read_exact_into-IsValid grown f.payload.len s w (omega arith))

flagged :
    (g : ContinuationFrame → ContinuationFrame)
    (x : Outcome IoProtoError (Unit {0}) × (ContinuationFrame × Source))
    → ((f : ContinuationFrame) → IsValid f.payload → IsValid (g f).payload)
    → IsValid x.1.0.payload
    → IsValid (bind_outcome x (λ u. modify {E = IoProtoError} g)).1.0.payload
flagged g (ok u, (f, s)) h v = h f v
flagged g (err e, (f, s)) h v = v
flagged g (panic, (f, s)) h v = v

-- However reading the rest of a CONTINUATION frame ends, with the frame, an error or a failed
-- assertion, and whatever the reader delivers, a buffer of the frame object that was valid is valid,
-- where its length and that of the frame are at most 2 ^ 63 together.
pub continuation_buffer_IsValid :
    (header : FrameHeader) (f : ContinuationFrame) (s : Source)
    → f.payload.len + header.frame_len ≤ 2 ^ 63
    → IsValid f.payload
    → IsValid (read_frame header (f, s)).1.0.payload
unfolding read_frame
continuation_buffer_IsValid header f s h v = elim (Bool-cases (header.frame_type == type_num)) [
  | inr wrong ↦ rw wrong v
  | inl typed ↦ elim (Bool-cases (header.stream_id == 0)) [
    | inl zero_stream ↦ rw (typed, zero_stream) v
    | inr stream ↦
        rw (typed, stream)
          (flagged _ (read_more header.frame_len (f, s)) (λ g w. w)
            (read_more-IsValid header.frame_len f s v h))
  ]
]
