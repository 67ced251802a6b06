-- ===== src/Http2/Hpack.antt =====
-- http/src/http2/hpack/: the errors of decoding, and the parts of the header compression.
pub mod Block
pub mod Huffman
pub mod Integer
pub mod Tables
pub mod Text
use proxy_rs.Prelude.{List, ℕ, codes}

pub data DecodeError : Type 0 where
  too_small overflow found_eos incomplete_data index_not_found table_too_small : DecodeError

-- `fmt`
unfoldable pub show_decode_error : DecodeError → List ℕ
show_decode_error too_small = codes "Not enough data to parse next item"
show_decode_error overflow = codes "Data overflowed type"
show_decode_error found_eos = codes "Found EOS while decoding"
show_decode_error incomplete_data = codes "Incomplete data"
show_decode_error index_not_found = codes "Index not found in tables"
show_decode_error table_too_small = codes "Table too small for given size"
