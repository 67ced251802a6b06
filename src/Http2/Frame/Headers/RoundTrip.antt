-- ===== src/Http2/Frame/Headers/RoundTrip.antt =====
-- `read_frame` of a HEADERS frame takes back what `write_frame` wrote.
use proxy_rs.Prelude.{
  ℕ, ◌+◌, ◌-◌, ◌^◌, ◌≤◌, ◌<◌, ◌≡◌, ◌≢◌, refl, Option, none, some, List, ◌∷◌, ◌++◌, bit_and, length,
  replicate, arith, append_assoc, length-replicate, ne→==-false, le→not-ltb,
}
use native.Mathlib.Nat.{add-zero}
use proxy_rs.Buffer.{reserve_len}
use proxy_rs.Io.{IoError, ok, ◌>>=◌}
use proxy_rs.Io.Laws.{read_exact-append}
use proxy_rs.Http2.Settings.{Settings}
use proxy_rs.Http2.Frame.{FrameHeader, read_header}
use proxy_rs.Http2.Frame.Wire.{
  holding, read_u8-wire, read_u32-wire, dep_word, dep_word-exclusive, dep_word-id, dep_word-lt,
}
use proxy_rs.Http2.Frame.Header.{read_header-fits}
use proxy_rs.Http2.Frame.Body.{on_source, store}
use proxy_rs.Http2.Frame.Body.Laws.{read_exact_into-append}
use proxy_rs.Http2.Frame.Headers.{
  HeaderFrame, Priority, type_num, end_flags, flags_padded, flags_priority, has_flag, fill_frame,
  read_padding, read_body, read_priority, read_frame,
}
use proxy_rs.Http2.Frame.Headers.Wire.{
  pad_extra, priority_extra, pad_prefix, priority_prefix, wire_padding, frame_flags, wire_frame,
  is_some, pad_len, priority_or_default, IsPriority,
}
use proxy_rs.Http2.Frame.Headers.Flags.{flags_said}

-- The frame object that a read leaves.
abbrev pub received : HeaderFrame → Option Priority → ℕ → List ℕ → HeaderFrame
received f priority ends payload = record {
  payload =
      store (record (reserve_len f.payload (length payload)) { len = length payload }) 0 payload;
  stream_dep = (priority_or_default priority).dep;
  exclusive = (priority_or_default priority).exclusive;
  weight = (priority_or_default priority).weight;
  end = bit_and ends end_flags;
}

module _ (header : FrameHeader) (f : HeaderFrame) (rest : List ℕ) (e : IoError) where
  read_padding-wire :
      (pad : Option ℕ) (n : ℕ)
      → has_flag header flags_padded ≡ is_some pad
      → header.frame_len ≡ n + pad_extra pad
      → read_padding header (f, holding (pad_prefix pad ++ rest) e)
        ≡ (ok (n + pad_len pad, pad_len pad), (f, holding rest e))
  unfolding read_padding
  read_padding-wire none n h k = rw (h, k) refl
  read_padding-wire (some pad) n h k =
      let more : n + (pad + 1) - 1 ≡ n + pad = omega arith in
      rw (h, k, ne→==-false (n + (pad + 1)) 0 (omega arith), read_u8-wire pad rest e, more) refl

  read_priority-wire :
      (priority : Option Priority) (n : ℕ)
      → IsPriority priority
      → has_flag header flags_priority ≡ is_some priority
      → read_priority header
          (n + priority_extra priority)
          (f, holding (priority_prefix priority ++ rest) e)
        ≡ (ok (n, priority_or_default priority), (f, holding rest e))
  unfolding read_priority
  read_priority-wire none n v h = rw (h, add-zero) refl
  read_priority-wire (some p) n v h =
      let more : n + 5 - 5 ≡ n = omega arith in
      simp append_assoc (
        rw
          (
            h,
            le→not-ltb (n + 5) 5 (omega arith),
            read_u32-wire (dep_word p.exclusive p.dep) (p.weight ∷ rest) e
                (dep_word-lt p.exclusive p.dep v),
            read_u8-wire p.weight rest e,
            more,
            dep_word-id p.exclusive p.dep v,
            dep_word-exclusive p.exclusive p.dep v,
          )
          refl)

read_body-wire :
    (header : FrameHeader) (priority : Priority) (pad : ℕ) (payload : List ℕ) (f : HeaderFrame)
    (rest : List ℕ) (e : IoError)
    → priority.dep ≢ header.stream_id
    → read_body header
        (length payload + pad)
        pad
        priority
        (f, holding (payload ++ (replicate pad 0 ++ rest)) e)
      ≡ (
        ok tt,
        (
          record (fill_frame header priority (length payload) f) {
            payload = store (fill_frame header priority (length payload) f).payload 0 payload;
          },
          holding rest e,
        ),
      )
unfolding read_body
read_body-wire header priority pad payload f rest e h =
    let size : length payload + pad - pad ≡ length payload = omega arith in
    rw
      (
        le→not-ltb (length payload + pad) pad (omega arith),
        ne→==-false priority.dep header.stream_id h,
        size,
        read_exact_into-append (fill_frame header priority (length payload) f).payload 0 payload
            (replicate pad 0 ++ rest) e (omega arith),
        read_exact-append pad (replicate pad 0) rest e (length-replicate pad 0),
      )
      refl

wire_padding-replicate : (pad : Option ℕ) → wire_padding pad ≡ replicate (pad_len pad) 0
unfolding replicate
wire_padding-replicate none = refl
wire_padding-replicate (some pad) = refl

pub read_frame-wire :
    (settings : Settings) (id : ℕ) (pad : Option ℕ) (priority : Option Priority) (ends : ℕ)
    (payload : List ℕ) (f : HeaderFrame) (rest : List ℕ) (e : IoError)
    → id < 2 ^ 31
    → id ≢ 0
    → IsPriority priority
    → (priority_or_default priority).dep ≢ id
    → length payload + pad_extra pad + priority_extra priority < 2 ^ 24
    → length payload + pad_extra pad + priority_extra priority ≤ settings.frame_size.value
    → (on_source (read_header settings) >>= read_frame)
        (f, holding (wire_frame id pad priority ends payload ++ rest) e)
      ≡ (ok tt, (received f priority ends payload, holding rest e))
unfolding read_frame
read_frame-wire settings id pad priority ends payload f rest e hi h0 hq hd hl hs =
    let said = flags_said pad priority ends in
    let header : FrameHeader = record {
      stream_id = id;
      frame_len = length payload + pad_extra pad + priority_extra priority;
      frame_type = type_num;
      flags = frame_flags pad priority ends;
    } in
    let sum : length payload + pad_extra pad + priority_extra priority
        ≡ length payload + priority_extra priority + pad_extra pad =
      omega arith in
    let sum' : length payload + priority_extra priority + pad_len pad
        ≡ length payload + pad_len pad + priority_extra priority =
      omega arith in
    simp append_assoc (
      rw
        (
          read_header-fits settings _ type_num _ id _ e hl hi hs,
          ne→==-false id 0 h0,
          read_padding-wire header f
              (priority_prefix priority ++ (payload ++ (wire_padding pad ++ rest))) e pad
              (length payload + priority_extra priority) said.padded sum,
          sum',
          read_priority-wire header f (payload ++ (wire_padding pad ++ rest)) e priority
              (length payload + pad_len pad) hq said.prioritised,
          wire_padding-replicate pad,
          read_body-wire header (priority_or_default priority) (pad_len pad) payload f rest e hd,
          said.ends,
        )
        refl)
