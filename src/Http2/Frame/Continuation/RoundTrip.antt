-- ===== src/Http2/Frame/Continuation/RoundTrip.antt =====
-- CONTINUATION frames: the bytes that `write_frame` puts on the wire, and that `read_frame` appends.
use proxy_rs.Prelude.{
  ℕ, ◌+◌, ◌%◌, ◌^◌, ◌≤◌, ◌<◌, ◌≡◌, ◌≢◌, refl, Bool, true, false, not, List, ◌++◌, bit_and, ◌==◌,
  if◌then◌else◌, length, arith, append_assoc, ne→==-false,
}
use proxy_rs.Buffer.{reserve}
use proxy_rs.Io.{Sink, IoError, ok, write_all, ◌>>=◌, ◌>>◌, return}
use proxy_rs.Io.Laws.{write_all-write_all}
use proxy_rs.Http2.Settings.{Settings}
use proxy_rs.Http2.Frame.{read_header}
use proxy_rs.Http2.Frame.Wire.{wire_header, holding}
use proxy_rs.Http2.Frame.Header.{write_header-then, read_header-fits}
use proxy_rs.Http2.Frame.Body.{on_source, store}
use proxy_rs.Http2.Frame.Body.Laws.{read_exact_into-append}
use proxy_rs.Http2.Frame.Continuation.{
  ContinuationFrame, type_num, flags_end_headers, read_frame, write_frame,
}

-- The bytes of a CONTINUATION frame.
abbrev pub wire_frame : ℕ → Bool → List ℕ → List ℕ
wire_frame id is_end payload =
    wire_header (length payload) type_num (if is_end then flags_end_headers else 0) id ++ payload

pub write_frame-wire :
    (id : ℕ) (is_end : Bool) (payload : List ℕ) (s : Sink)
    → id < 2 ^ 31
    → length payload < 2 ^ 24
    → write_frame id is_end payload s
      ≡ (write_all (wire_frame id is_end payload) >> return (9 + length payload)) s
unfolding write_frame
write_frame-wire id is_end payload s hi hl =
    let e : id % 2 ^ 31 ≡ id = omega arith in
    let l : length payload % 2 ^ 32 % 2 ^ 24 ≡ length payload = omega arith in
    simp (write_header-then, write_all-write_all, e, l)

-- The frame object that a read leaves: the payload behind what its buffer held.
abbrev pub received : ContinuationFrame → List ℕ → Bool → ContinuationFrame
received f payload is_end = record {
  payload =
      store (record (reserve f.payload (length payload)) { len = f.payload.len + length payload })
        f.payload.len payload;
  is_end = is_end;
}

end_flag :
    (b : Bool) → not (bit_and (if b then flags_end_headers else 0) flags_end_headers == 0) ≡ b
end_flag true = refl
end_flag false = refl

pub read_frame-wire :
    (settings : Settings) (id : ℕ) (is_end : Bool) (payload : List ℕ) (f : ContinuationFrame)
    (rest : List ℕ) (e : IoError)
    → id < 2 ^ 31
    → id ≢ 0
    → length payload < 2 ^ 24
    → length payload ≤ settings.frame_size.value
    → f.payload.len + length payload < 2 ^ 64
    → (on_source (read_header settings) >>= read_frame)
        (f, holding (wire_frame id is_end payload ++ rest) e)
      ≡ (ok tt, (received f payload is_end, holding rest e))
unfolding read_frame
read_frame-wire settings id is_end payload f rest e hi h0 hl hs hb =
    let size : (f.payload.len + length payload) % 2 ^ 64 ≡ f.payload.len + length payload =
      omega arith in
    simp append_assoc (
      rw
        (
          read_header-fits settings (length payload) type_num _ id _ e hl hi hs,
          ne→==-false id 0 h0,
          size,
          read_exact_into-append
              (record (reserve f.payload (length payload)) { len = f.payload.len + length payload })
              f.payload.len payload rest e refl,
          end_flag is_end,
        )
        refl)
