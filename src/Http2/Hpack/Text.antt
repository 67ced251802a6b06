-- ===== src/Http2/Hpack/Text.antt =====
-- `parse_string` and `write_string` of http/src/http2/hpack/literal.rs. The contents of the buffer
-- `out` are a result.
pub mod Literals
pub mod Written
use proxy_rs.Prelude.{
  ℕ, ◌+◌, Bool, List, [], ◌∷◌, bit_and, ltb, leb, ◌==◌, if◌then◌else◌, length, take, drop, Option,
  none, some, get_or,
}
use proxy_rs.Io.{M, Sink, IoError, Outcome, ok, err, panic, write_all, ◌>>=◌, ◌>>◌, return}
use proxy_rs.Http2.Hpack.{DecodeError, too_small}
use proxy_rs.Http2.Hpack.Integer.{parse_integer, write_integer}
use proxy_rs.Http2.Hpack.Huffman.{and_then, encode_bytes, get_size, decode_bytes}

-- `bytes.get(start..start + len)`. A sum past 2 ^ 64 is past the end of the bytes either way.
abbrev pub get_range : ℕ → ℕ → List ℕ → Option (List ℕ)
get_range start len bytes =
    if leb (start + len) (length bytes) then some (take len (drop start bytes)) else none

-- The string in the range, decoded if it is Huffman coded, and where it ends.
abbrev pub take_string : Bool → ℕ → Option (List ℕ) → Outcome DecodeError (ℕ × List ℕ)
take_string huffman end none = err too_small
take_string huffman end (some d) =
    let decoded = and_then (decode_bytes d) (λ out. ok (end, out)) in
    if huffman then decoded else ok (end, d)

unfoldable pub parse_string : List ℕ → Outcome DecodeError (ℕ × List ℕ)
parse_string bytes = and_then (parse_integer 7 bytes) (λ (len, parsed).
    take_string (bit_and (get_or bytes 0 0) 0x80 == 0x80) (parsed + len)
      (get_range parsed len bytes))

unfoldable pub write_string : List ℕ → M Sink IoError ℕ
write_string s =
    let size = get_size s in
    if ltb size (length s)
    then (do i ← write_integer 0x1 1 size; write_all (encode_bytes s); return (i + size))
    else (do i ← write_integer 0x0 1 (length s); write_all s; return (i + length s))
