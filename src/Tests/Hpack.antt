-- ===== src/Tests/Hpack.antt =====
-- Runs of the dynamic table, the Huffman code and the string literals of HPACK.
use proxy_rs.Http2.Frame.RoundTrip.{written_by}
use proxy_rs.Http2.Hpack.Integer.{rounds}
use proxy_rs.Http2.Hpack.Integer.RoundTrip.{digits}
use proxy_rs.Http2.Hpack.Text.Written.{write_string_misread}
use proxy_rs.Prelude.{
  some, ltb, get_or, false, ◌-◌, ℕ, ◌≡◌, refl, true, List, [], ◌∷◌, ◌++◌, length, arith, get_elem?,
}
use proxy_rs.Io.{IoError, ok}
use proxy_rs.Http2.Hpack.Huffman.{
  encode_bytes, decode_bytes, get_size, code_len, code_of, push_bytes, push_code, push_bit,
  pad_last,
}
use proxy_rs.Http2.Hpack.Huffman.Codes.{huffman_codes, huffman_code_len}
use proxy_rs.Http2.Hpack.Huffman.RoundTrip.{huffman_round_trip}
use proxy_rs.Http2.Hpack.Huffman.Size.{get_size-length}
use proxy_rs.Http2.Hpack.Text.{write_string, parse_string}
use proxy_rs.Http2.Hpack.Text.Literals.{literal, literal_read}
use proxy_rs.Http2.Hpack.Tables.{DynamicTable, new_table, add_entry, insert, resize, get_entry}
use proxy_rs.Http2.Hpack.Tables.Entries.{Entry, IsTable}
use proxy_rs.Http2.Hpack.Tables.Room.{keep}
use proxy_rs.Http2.Hpack.Tables.Lookup.{get_entry-lookup}
use proxy_rs.Http2.Hpack.Tables.Insert.{Leaves, inserted, insert-inserted}
use proxy_rs.Http2.Hpack.Tables.Resize.{resize-keep}
use proxy_rs.Http2.Hpack.Tables.Run.{Call, enter, limit_to}
use proxy_rs.Http2.Hpack.Huffman.{add_sizes}
use proxy_rs.Http2.Hpack.Tables.Header.{Copy, header_get}
use proxy_rs.Http2.Hpack.Tables.Copied.{Copied, lookup, header_get-Copied}
use proxy_rs.Http2.Hpack.Block.{read_header}
use proxy_rs.Http2.Hpack.Block.Field.{Field, incremental, of_index, wire_field, meaning}
use proxy_rs.Http2.Hpack.Block.Literal.{Decoded}
use proxy_rs.Http2.Hpack.Block.Dispatch.{read_header-Decoded}
use proxy_rs.Tests.{behind, message, small_buffer, small_buffer-IsValid, small_buffer-len}

abbrev named : List ℕ
named = 110 ∷ []

-- A table of 100 bytes with one entry of 35.
abbrev one_entry : DynamicTable
one_entry = add_entry named message (new_table 100)

abbrev one : List Entry
one = (named, message) ∷ []

one_entry-IsTable : IsTable one_entry one
one_entry-IsTable = record {
  bytes = refl;
  count = omega arith;
  bounded = omega arith;
  agreed = omega arith;
  word = omega arith;
}

get_entry_example : get_entry {E = IoError} 0 one_entry ≡ (ok (get_elem? one 0), one_entry)
get_entry_example = get_entry-lookup one_entry one 0 one_entry-IsTable

insert_example :
    Leaves {E = IoError} one_entry (insert message named) tt (inserted 100 (message, named) one)
insert_example = insert-inserted one_entry one message named one_entry-IsTable

resize_example :
    (t' : DynamicTable) × ((resize {E = IoError} 34 one_entry ≡ (ok tt, t'))
      × (IsTable t' (keep 34 one) × (t'.max_size ≡ 34)))
resize_example = resize-keep one_entry one 34 one_entry-IsTable (omega arith)

abbrev no_entries : List Entry
no_entries = []

-- A limit that was permitted before is refused, and the entry stays until a lower limit.
abbrev calls : List Call
calls = enter (message, named) ∷ (limit_to 60 ∷ (limit_to 20 ∷ []))

huffman_example : decode_bytes (encode_bytes message) ≡ ok message
huffman_example = huffman_round_trip message (omega arith, (omega arith, tt))

get_size_example : get_size message ≡ length (encode_bytes message)
get_size_example = get_size-length message (omega arith, (omega arith, tt)) (omega arith)

literal_size : length (literal true message) ≡ 3
unfolding encode_bytes push_bytes push_code push_bit pad_last code_len code_of huffman_codes
    huffman_code_len
literal_size = refl

literal_example :
    parse_string (literal true message ++ behind) ≡ ok (length (literal true message), message)
literal_example =
    literal_read true message behind (omega arith, (omega arith, tt)) (omega (arith, literal_size))

message_plain : ltb (get_size message) (length message) ≡ false
unfolding get_size add_sizes code_len huffman_code_len
message_plain = refl

misread_example :
    parse_string (written_by 13 (write_string message) ++ behind)
    ≡ ok (2, get_or (digits rounds (length message - 1)) 0 0 ∷ [])
misread_example = write_string_misread message behind 13 (omega arith) message_plain (omega arith)

header_get_example :
    (r : Copy) × ((header_get {E = IoError} 62 small_buffer (some small_buffer) one_entry
        ≡ (ok r, one_entry))
      × Copied small_buffer (some small_buffer) (lookup one 62) r)
header_get_example =
    header_get-Copied one_entry one 62 small_buffer (some small_buffer) one_entry-IsTable
      small_buffer-IsValid
      (omega (arith, small_buffer-len), (small_buffer-IsValid, omega (arith, small_buffer-len)))

-- A literal with the name of the only entry of the table, which it joins.
abbrev joining : Field
joining = incremental (of_index 62) (record { huffman = false; bytes = message })

block_field_example :
    Decoded
      (read_header (wire_field joining ++ behind) small_buffer small_buffer one_entry)
      one_entry
      (length (wire_field joining))
      (meaning 100 100 one joining)
block_field_example =
    read_header-Decoded joining behind one_entry one small_buffer small_buffer
      ((omega arith, omega arith), ((omega arith, (omega arith, tt)), (omega arith, omega arith)))
      one_entry-IsTable (omega arith) small_buffer-IsValid small_buffer-IsValid
