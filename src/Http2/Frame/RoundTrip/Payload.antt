-- ===== src/Http2/Frame/RoundTrip/Payload.antt =====
-- Frames with a payload, which a read puts into the buffer of the caller's frame object: data.rs,
-- go_away.rs, continuation.rs and header.rs under http/src/http2/frame/.
use proxy_rs.Prelude.{
  ℕ, ◌+◌, ◌^◌, ◌≤◌, ◌<◌, ◌≡◌, ◌≢◌, refl, Bool, Option, List, ◌++◌, bit_and, length, arith,
}
use proxy_rs.Buffer.{IsValid, as_slice}
use proxy_rs.Io.{IoError, ErrorCode, ◌>>=◌}
use proxy_rs.Http2.Error.{error_value}
use proxy_rs.Http2.Settings.{Settings}
use proxy_rs.Http2.Frame.{read_header}
use proxy_rs.Http2.Frame.Wire.{holding}
use proxy_rs.Http2.Frame.Body.{on_source}
use proxy_rs.Http2.Frame.Data.{DataFrame}
use proxy_rs.Http2.Frame.Data.RoundTrip.{IsPadding, pad_extra}
use proxy_rs.Http2.Frame.GoAway.{GoAwayFrame}
use proxy_rs.Http2.Frame.Continuation.{ContinuationFrame}
use proxy_rs.Http2.Frame.Headers.{HeaderFrame, Priority, end_flags}
use proxy_rs.Http2.Frame.Headers.Wire.{
  priority_or_default, priority_extra, priority_prefix, pad_prefix, wire_padding, IsPriority,
}
use proxy_rs.Http2.Frame.Data
use proxy_rs.Http2.Frame.GoAway
use proxy_rs.Http2.Frame.Continuation
use proxy_rs.Http2.Frame.Headers
use proxy_rs.Http2.Frame.RoundTrip.{written_by, written_by-wire, Delivers, delivers}
use proxy_rs.Http2.Frame.RoundTrip.Sizes.{
  Holds, filled, extended, length-data, length-go_away, length-continuation, length-headers,
}

-- A HEADERS frame object with this payload, priority and these end flags.
abbrev pub IsHeaderFrame : Option Priority → ℕ → List ℕ → HeaderFrame → Type 0
IsHeaderFrame priority ends payload g =
    let p = priority_or_default priority in
    Holds g.payload payload
    × ((g.stream_dep ≡ p.dep)
        × ((g.exclusive ≡ p.exclusive)
            × ((g.weight ≡ p.weight) × (g.end ≡ bit_and ends end_flags))))

module _ (local : Settings) (room : ℕ) (rest : List ℕ) (e : IoError) where
  -- A DATA frame, padded with up to 255 bytes or not, that `write_frame` puts into a writer with
  -- room for it is read back, whatever follows it: the buffer of the frame object is valid and
  -- holds the payload without the padding, the end flag is as written, and the reader stands
  -- behind the frame. The stream is not 0 and has 31 bits, the frame is within 24 bits of length
  -- and the peer's frame size, and the buffer was valid before.
  pub data_round_trip :
      (id : ℕ) (pad : Option ℕ) (payload : List ℕ) (is_end : Bool) (f : DataFrame)
      → id < 2 ^ 31
      → id ≢ 0
      → IsPadding pad
      → length payload + pad_extra pad < 2 ^ 24
      → length payload + pad_extra pad ≤ local.frame_size.value
      → 9 + (length payload + pad_extra pad) ≤ room
      → IsValid f.payload
      → Delivers
          ((on_source (read_header local) >>= Data.read_frame)
            (f, holding (written_by room (Data.write_frame id pad payload is_end) ++ rest) e))
          (holding rest e)
          (λ g. Holds g.payload payload × (g.is_end ≡ is_end))
  data_round_trip id pad payload is_end f hi h0 hp hl hs hr v =
      rw
        (written_by-wire room (Data.write_frame id pad payload is_end)
          (Data.RoundTrip.wire_frame id pad payload is_end) _
          (Data.RoundTrip.write_frame-wire id pad payload is_end _ hi hp hl)
          (length-data id pad payload is_end room hr))
        (delivers (λ g. Holds g.payload payload × (g.is_end ≡ is_end))
          (Data.RoundTrip.read_frame-wire local id pad payload is_end f rest e hi h0 hp hl hs)
          (filled f.payload payload v (omega arith), refl))

  -- A GOAWAY frame that `write_frame` puts into a writer with room for it is read back, whatever
  -- follows it: the last stream of 31 bits, the error code's number, and the debug data in a
  -- valid buffer. The frame is within 24 bits of length and the peer's frame size, and the
  -- buffer was valid before.
  pub go_away_round_trip :
      (id : ℕ) (code : ErrorCode) (payload : List ℕ) (f : GoAwayFrame)
      → id < 2 ^ 31
      → length payload + 8 < 2 ^ 24
      → length payload + 8 ≤ local.frame_size.value
      → 17 + length payload ≤ room
      → IsValid f.debug_data
      → Delivers
          ((on_source (read_header local) >>= GoAway.read_frame)
            (f, holding (written_by room (GoAway.write_frame id code payload) ++ rest) e))
          (holding rest e)
          (λ g. Holds g.debug_data payload × ((g.last_id ≡ id) × (g.error_code ≡ error_value code)))
  go_away_round_trip id code payload f hi hl hs hr v =
      rw
        (written_by-wire room (GoAway.write_frame id code payload)
          (GoAway.RoundTrip.wire_frame id code payload) _
          (GoAway.RoundTrip.write_frame-wire id code payload _ hi hl)
          (length-go_away id code payload room hr))
        (delivers
          (λ g. Holds g.debug_data payload × ((g.last_id ≡ id) × (g.error_code ≡ error_value code)))
          (GoAway.RoundTrip.read_frame-wire local id code payload f rest e hi hl hs)
          (filled f.debug_data payload v (omega arith), (refl, refl)))

  -- A CONTINUATION frame that `write_frame` puts into a writer with room for it is read back,
  -- whatever follows it: its payload goes behind what the buffer of the frame object held, the
  -- buffer stays valid, and the end flag is as written. The stream is not 0 and has 31 bits, the
  -- frame is within 24 bits of length and the peer's frame size, and the buffer was valid before
  -- and ends with at most 2 ^ 63 bytes.
  pub continuation_round_trip :
      (id : ℕ) (is_end : Bool) (payload : List ℕ) (f : ContinuationFrame)
      → id < 2 ^ 31
      → id ≢ 0
      → length payload < 2 ^ 24
      → length payload ≤ local.frame_size.value
      → f.payload.len + length payload ≤ 2 ^ 63
      → 9 + length payload ≤ room
      → IsValid f.payload
      → Delivers
          ((on_source (read_header local) >>= Continuation.read_frame)
            (f, holding (written_by room (Continuation.write_frame id is_end payload) ++ rest) e))
          (holding rest e)
          (λ g. Holds g.payload (as_slice f.payload ++ payload) × (g.is_end ≡ is_end))
  continuation_round_trip id is_end payload f hi h0 hl hs hc hr v =
      rw
        (written_by-wire room (Continuation.write_frame id is_end payload)
          (Continuation.RoundTrip.wire_frame id is_end payload) _
          (Continuation.RoundTrip.write_frame-wire id is_end payload _ hi hl)
          (length-continuation id is_end payload room hr))
        (delivers (λ g. Holds g.payload (as_slice f.payload ++ payload) × (g.is_end ≡ is_end))
          (Continuation.RoundTrip.read_frame-wire local id is_end payload f rest e hi h0 hl hs
            (omega arith))
          (extended f.payload payload v hc, refl))

  -- A HEADERS frame, with padding of up to 255 bytes and priority or without, that `write_frame`
  -- puts into a writer with room for it is read back, whatever follows it: the fragment without
  -- padding in a valid buffer, the priority or the default one, and the two end flags. The
  -- stream is not 0, does not depend on itself and has 31 bits like the one it depends on, the
  -- frame is within 24 bits of length and the peer's frame size, and the buffer was valid
  -- before.
  pub headers_round_trip :
      (id : ℕ) (pad : Option ℕ) (priority : Option Priority) (ends : ℕ) (payload : List ℕ)
      (f : HeaderFrame)
      → id < 2 ^ 31
      → id ≢ 0
      → Headers.Wire.IsPadding pad
      → IsPriority priority
      → (priority_or_default priority).dep ≢ id
      → length payload + Headers.Wire.pad_extra pad + priority_extra priority < 2 ^ 24
      → length payload + Headers.Wire.pad_extra pad + priority_extra priority
        ≤ local.frame_size.value
      → 9 + (length payload + Headers.Wire.pad_extra pad + priority_extra priority) ≤ room
      → IsValid f.payload
      → Delivers
          ((on_source (read_header local) >>= Headers.read_frame) (
            f,
            holding (written_by room (Headers.write_frame id pad priority ends payload) ++ rest) e,
          ))
          (holding rest e)
          (IsHeaderFrame priority ends payload)
  headers_round_trip id pad priority ends payload f hi h0 hp hq hd hl hs hr v =
      rw
        (written_by-wire room (Headers.write_frame id pad priority ends payload)
          (Headers.Wire.wire_frame id pad priority ends payload) _
          (Headers.Wire.write_frame-wire id pad priority ends payload _ hi hp hq hl)
          (length-headers id pad priority ends payload room hr))
        (delivers (IsHeaderFrame priority ends payload)
          (Headers.RoundTrip.read_frame-wire local id pad priority ends payload f rest e hi h0 hq hd
            hl hs)
          (filled f.payload payload v (omega arith), (refl, (refl, (refl, refl)))))
