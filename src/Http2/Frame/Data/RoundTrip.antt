-- ===== src/Http2/Frame/Data/RoundTrip.antt =====
-- DATA frames: the bytes that `write_frame` puts on the wire, and that `read_frame` takes them back.
use proxy_rs.Prelude.{
  ℕ, ◌+◌, ◌-◌, ◌%◌, ◌^◌, ◌≤◌, ◌<◌, ◌≡◌, ◌≢◌, refl, ◌∙◌, Bool, true, false, not, Option, none, some,
  List, [], ◌∷◌, ◌++◌, bit_and, ◌==◌, length, take, replicate, arith, append_assoc,
  length-replicate, take-replicate, ne→==-false, le→not-ltb,
}
use proxy_rs.Buffer.{reserve_len}
use proxy_rs.Io.{Sink, IoError, ok, write_all, ◌>>=◌, ◌>>◌, return}
use proxy_rs.Io.Laws.{write_all-block, write_all-write_all, read_exact-append}
use proxy_rs.Http2.Settings.{Settings}
use proxy_rs.Http2.Frame.{FrameHeader, read_header}
use proxy_rs.Http2.Frame.Wire.{wire_header, holding, read_u8-wire}
use proxy_rs.Http2.Frame.Header.{write_header-then, read_header-fits}
use proxy_rs.Http2.Frame.Body.{on_source, store}
use proxy_rs.Http2.Frame.Body.Laws.{read_exact_into-append}
use proxy_rs.Http2.Frame.Data.{
  DataFrame, type_num, flags_end_stream, flags_padded, pad_buf, frame_flags, read_padding,
  read_body, resize_payload, read_frame, write_frame,
}

-- What the padding adds to a frame's length.
abbrev pub pad_extra : Option ℕ → ℕ
pad_extra none = 0
pad_extra (some pad) = pad + 1

abbrev pub wire_body : Option ℕ → List ℕ → List ℕ
wire_body none payload = payload
wire_body (some pad) payload = pad ∷ (payload ++ replicate pad 0)

-- The bytes of a DATA frame.
abbrev pub wire_frame : ℕ → Option ℕ → List ℕ → Bool → List ℕ
wire_frame id pad payload is_end =
    wire_header (length payload + pad_extra pad) type_num (frame_flags pad is_end) id
    ++ wire_body pad payload

abbrev pub IsPadding : Option ℕ → Type 0
IsPadding none = Unit {0}
IsPadding (some pad) = pad < 256

zeros : (pad : ℕ) → pad ≤ 256 → take pad pad_buf ≡ replicate pad 0
zeros pad h = take-replicate pad 256 0 h

pub write_frame-wire :
    (id : ℕ) (pad : Option ℕ) (payload : List ℕ) (is_end : Bool) (s : Sink)
    → id < 2 ^ 31
    → IsPadding pad
    → length payload + pad_extra pad < 2 ^ 24
    → write_frame id pad payload is_end s
      ≡ (write_all (wire_frame id pad payload is_end)
            >> return (9 + (length payload + pad_extra pad)))
          s
unfolding write_frame
write_frame-wire id none payload is_end s hi hp hl =
    let e : id % 2 ^ 31 ≡ id = omega arith in
    let l : length payload % 2 ^ 32 % 2 ^ 24 ≡ length payload + 0 = omega arith in
    let n : 9 + length payload ≡ 9 + (length payload + 0) = omega arith in
    simp (write_header-then, write_all-write_all, e, l, n)
write_frame-wire id (some pad) payload is_end s hi hp hl =
    let e : id % 2 ^ 31 ≡ id = omega arith in
    let l : (length payload % 2 ^ 32 + (1 + pad)) % 2 ^ 32 % 2 ^ 24 ≡ length payload + (pad + 1) =
      omega arith in
    let n : 9 + 1 + length payload + pad ≡ 9 + (length payload + (pad + 1)) = omega arith in
    write_header-then _ _ s
    ∙ write_all-block _ (pad ∷ []) 10 _ s
    ∙ simp (write_all-write_all, e, l, n, zeros pad (omega arith), append_assoc)

-- The frame object that a read leaves: the payload in the reserved buffer, and the end flag.
abbrev pub received : DataFrame → List ℕ → Bool → DataFrame
received f payload is_end = record {
  is_end = is_end;
  payload =
      store (record (reserve_len f.payload (length payload)) { len = length payload }) 0 payload;
}

end_flag : (pad : Option ℕ) (b : Bool) → not (bit_and (frame_flags pad b) flags_end_stream == 0) ≡ b
end_flag none true = refl
end_flag none false = refl
end_flag (some pad) true = refl
end_flag (some pad) false = refl

not_padded : (b : Bool) → not (bit_and (frame_flags none b) flags_padded == 0) ≡ false
not_padded true = refl
not_padded false = refl

padded : (pad : ℕ) (b : Bool) → not (bit_and (frame_flags (some pad) b) flags_padded == 0) ≡ true
padded pad true = refl
padded pad false = refl

read_body-wire :
    (header : FrameHeader) (data_len pad : ℕ) (payload : List ℕ) (f : DataFrame) (rest : List ℕ)
    (e : IoError)
    → data_len ≡ length payload + pad
    → read_body header data_len pad (f, holding (payload ++ (replicate pad 0 ++ rest)) e) ≡ (
      ok tt,
      (received f payload (not (bit_and header.flags flags_end_stream == 0)), holding rest e),
    )
unfolding read_body
read_body-wire header data_len pad payload f rest e h =
    let size : data_len - pad ≡ length payload = omega arith in
    rw
      (
        le→not-ltb data_len pad (omega arith),
        size,
        read_exact_into-append (resize_payload (length payload) f).payload 0 payload
            (replicate pad 0 ++ rest) e (omega arith),
        read_exact-append pad (replicate pad 0) rest e (length-replicate pad 0),
      )
      refl

pub read_frame-wire :
    (settings : Settings) (id : ℕ) (pad : Option ℕ) (payload : List ℕ) (is_end : Bool)
    (f : DataFrame) (rest : List ℕ) (e : IoError)
    → id < 2 ^ 31
    → id ≢ 0
    → IsPadding pad
    → length payload + pad_extra pad < 2 ^ 24
    → length payload + pad_extra pad ≤ settings.frame_size.value
    → (on_source (read_header settings) >>= read_frame)
        (f, holding (wire_frame id pad payload is_end ++ rest) e)
      ≡ (ok tt, (received f payload is_end, holding rest e))
unfolding read_frame read_padding replicate
read_frame-wire settings id none payload is_end f rest e hi h0 hp hl hs = simp append_assoc (
    rw
      (
        read_header-fits settings (length payload + 0) type_num (frame_flags none is_end) id _ e hl
            hi hs,
        ne→==-false id 0 h0,
        not_padded is_end,
      )
      (read_body-wire _ (length payload + 0) 0 payload f rest e (omega arith)
        ∙ rw (end_flag none is_end) refl))
read_frame-wire settings id (some pad) payload is_end f rest e hi h0 hp hl hs = simp append_assoc (
    rw
      (
        read_header-fits settings (length payload + (pad + 1)) type_num
            (frame_flags (some pad) is_end) id _ e hl hi hs,
        ne→==-false id 0 h0,
        padded pad is_end,
        ne→==-false (length payload + (pad + 1)) 0 (omega arith),
        read_u8-wire pad (payload ++ (replicate pad 0 ++ rest)) e,
      )
      (read_body-wire _ (length payload + (pad + 1) - 1) pad payload f rest e (omega arith)
        ∙ rw (end_flag (some pad) is_end) refl))
