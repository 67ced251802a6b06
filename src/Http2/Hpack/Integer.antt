-- ===== src/Http2/Hpack/Integer.antt =====
-- `parse_integer` and `write_integer` of http/src/http2/hpack/literal.rs.
pub mod RoundTrip
use proxy_rs.Prelude.{
  ℕ, zero, suc, ◌+◌, ◌-◌, ◌*◌, ◌/◌, ◌%◌, ◌^◌, List, [], ◌∷◌, bit_and, bit_or, ltb, leb, ◌==◌,
  if◌then◌else◌,
}
use proxy_rs.Io.{M, Sink, IoError, Outcome, ok, err, write_all, ◌>>◌, return}
use proxy_rs.Http2.Hpack.{DecodeError, too_small, overflow}

-- `while m < 64`, on the data from `offset` on.
unfoldable pub parse_continued : ℕ → ℕ → ℕ → List ℕ → Outcome DecodeError (ℕ × ℕ)
parse_continued m output offset [] = if ltb m 64 then err too_small else err overflow
parse_continued m output offset (byte ∷ rest) =
    let next = (output + bit_and byte 0x7F * 2 ^ m % 2 ^ 64) % 2 ^ 64 in
    let more = parse_continued (m + 7) next (offset + 1) rest in
    if ltb m 64
    then (if bit_and byte 0x80 == 0 then ok (next, offset + 1) else more)
    else err overflow

-- `(1 << bits) - 1` of a `u8`, whose shift takes the distance modulo 8.
abbrev pub mask_of : ℕ → ℕ
mask_of bits = 2 ^ (bits % 8) - 1

-- The integer, and the number of bytes that it takes.
unfoldable pub parse_integer : ℕ → List ℕ → Outcome DecodeError (ℕ × ℕ)
parse_integer bits [] = err too_small
parse_integer bits (first_byte ∷ rest) =
    let mask = mask_of bits in
    let first = bit_and first_byte mask in
    if ltb first mask then ok (first, 1) else parse_continued 0 first 1 rest

-- `while int >= 128` and the last byte, on fuel.
unfoldable pub write_continued : ℕ → ℕ → ℕ → M Sink IoError ℕ
write_continued zero int len = do write_all (bit_and int 0x7F ∷ []); return (len + 1)
write_continued (suc fuel) int len =
    let rest = write_continued fuel (int / 128) (len + 1) in
    if leb 128 int
    then (do write_all (bit_or (bit_and int 0x7F) 0x80 ∷ []); rest)
    else (do write_all (bit_and int 0x7F ∷ []); return (len + 1))

-- A `u64` has at most nine rounds of seven bits before the last byte.
abbrev pub rounds : ℕ
rounds = 9

unfoldable pub write_integer : ℕ → ℕ → ℕ → M Sink IoError ℕ
write_integer prefix bits int =
    let mask = mask_of bits in
    let front = prefix * 2 ^ (bits % 8) % 256 in
    if ltb int mask
    then (do write_all (bit_or front (bit_and int mask) ∷ []); return 1)
    else (do write_all (bit_or front mask ∷ []); write_continued rounds (int - mask) 1)
