-- ===== src/Http2/Frame/Header.antt =====
-- `write_header` and `read_header`: what stands on the wire, and the way back.
use proxy_rs.Prelude.{
  ap, sym, ◌≤◌, ◌∙◌, le→not-ltb, ℕ, ◌%◌, ◌^◌, ◌<◌, ◌≡◌, refl, List, [], ◌∷◌, ◌++◌, length, ltb,
  if◌then◌else◌, arith, Bool-cases, inl, inr, length-append, append_assoc, append-nil, replicate,
}
use proxy_rs.Prelude.Bits.{bit_and_mask, bit_and_fits}
use proxy_rs.Prelude.Bytes.{to_be_bytes, length-to_be_bytes}
use proxy_rs.Io.{
  M, bind_outcome, ok, err, ◌>>◌, return, Sink, IoError, protocol, frame_size_error, write_all,
  unexpected_eof,
}
use proxy_rs.Io.Laws.{bind_outcome_assoc, read_exact-append, write_all-write_all, write_all-append}
use proxy_rs.Http2.Settings.{Settings}
use proxy_rs.Http2.Frame.{FrameHeader, parse_header, read_header, write_header, into_slice}
use proxy_rs.Http2.Frame.Wire.{
  wire_header, holding, drop-to_be_bytes, read_u8-wire, read_u24-wire, read_u32-wire,
}

pub length-wire_header : (len type flags id : ℕ) → length (wire_header len type flags id) ≡ 9
length-wire_header len type flags id = omega (
  arith,
  length-append (to_be_bytes 3 len) (type ∷ flags ∷ to_be_bytes 4 id),
  length-to_be_bytes 3 len,
  length-to_be_bytes 4 id,
)

-- A local array that is filled exactly is what was written.
pub into_slice_full :
    {S : Type 0} (n : ℕ) (d : List ℕ) (s : S)
    → length d ≡ n
    → into_slice n (write_all d) s ≡ (ok d, s)
unfolding write_all replicate
into_slice_full n d s h = ground (arith, append-nil d)

-- `write_header` is one write of the nine bytes, on every writer, the length cut to 24 bits and the
-- stream to 31, and returns nine.
pub write_header-wire :
    (h : FrameHeader) (s : Sink)
    → write_header h s
      ≡ (write_all (wire_header (h.frame_len % 2 ^ 24) h.frame_type h.flags (h.stream_id % 2 ^ 31))
            >> return 9)
          s
unfolding write_header
write_header-wire h s =
    rw (bit_and_mask 24 h.frame_len, bit_and_mask 31 h.stream_id, drop-to_be_bytes)
      (simp (write_all-write_all, ← write_all-append, append_assoc)
        (rw (into_slice_full 9 _ s (length-wire_header _ _ _ _)) refl))

parse_header-wire :
    (settings : Settings) (len type flags id : ℕ)
    → len < 2 ^ 24
    → id < 2 ^ 31
    → (parse_header settings (holding (wire_header len type flags id) unexpected_eof)).0 ≡ (
        if ltb settings.frame_size.value len
        then err (protocol frame_size_error)
        else ok (record { stream_id = id; frame_len = len; frame_type = type; flags = flags }))
unfolding parse_header
parse_header-wire settings len type flags id hl hi =
    rw (read_u24-wire len (type ∷ flags ∷ to_be_bytes 4 id) unexpected_eof hl)
      (elim (Bool-cases (ltb settings.frame_size.value len)) [
        | inl big ↦ rw big refl
        | inr fits ↦
            rw
              (
                fits,
                read_u8-wire type (flags ∷ to_be_bytes 4 id) unexpected_eof,
                read_u8-wire flags (to_be_bytes 4 id) unexpected_eof,
                ← append-nil (to_be_bytes 4 id),
                read_u32-wire id [] unexpected_eof (omega arith),
                bit_and_fits 31 id hi,
              )
              refl
      ])

-- Reading the nine bytes of a header with a length of 24 bits and a stream of 31 gives its
-- fields, or a frame size error where the length is over the agreed one, and takes exactly those
-- bytes.
pub read_header-wire :
    (settings : Settings) (len type flags id : ℕ) (rest : List ℕ) (e : IoError)
    → len < 2 ^ 24
    → id < 2 ^ 31
    → read_header settings (holding (wire_header len type flags id ++ rest) e) ≡ (
      (if ltb settings.frame_size.value len
          then err (protocol frame_size_error)
          else ok (record { stream_id = id; frame_len = len; frame_type = type; flags = flags })),
      holding rest e,
    )
unfolding read_header
read_header-wire settings len type flags id rest e hl hi =
    rw
      (read_exact-append 9 (wire_header len type flags id) rest e
        (length-wire_header len type flags id))
      (rw (parse_header-wire settings len type flags id hl hi) refl)

-- The header is written before whatever a frame writes next.
pub write_header-then :
    {A : Type 0} (h : FrameHeader) (k : ℕ → M Sink IoError A) (s : Sink)
    → bind_outcome (write_header h s) k
      ≡ (write_all (wire_header (h.frame_len % 2 ^ 24) h.frame_type h.flags (h.stream_id % 2 ^ 31))
            >> k 9)
          s
write_header-then h k s = rw (write_header-wire h s) (bind_outcome_assoc (write_all _ s) _ k)

-- A frame within the agreed size is announced by its header.
pub read_header-fits :
    (settings : Settings) (len type flags id : ℕ) (rest : List ℕ) (e : IoError)
    → len < 2 ^ 24
    → id < 2 ^ 31
    → len ≤ settings.frame_size.value
    → read_header settings
        (holding (to_be_bytes 3 len ++ (type ∷ flags ∷ (to_be_bytes 4 id ++ rest))) e)
      ≡ (
        ok (record { stream_id = id; frame_len = len; frame_type = type; flags = flags }),
        holding rest e,
      )
read_header-fits settings len type flags id rest e hl hi hs =
    ap (λ t. read_header settings (holding t e))
      (sym (append_assoc (to_be_bytes 3 len) (type ∷ flags ∷ to_be_bytes 4 id) rest))
    ∙ read_header-wire settings len type flags id rest e hl hi
    ∙ rw (le→not-ltb settings.frame_size.value len hs) refl
