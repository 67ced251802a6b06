-- ===== src/Http2/Hpack/Block.antt =====
-- `read_header` of http/src/http2/frame/header.rs: one field of a header block. The state is the
-- table of the context; the buffers of the caller are a result, since the code does not say what
-- they hold after an error.
pub mod Fill
pub mod Field
pub mod Decode
pub mod Literal
pub mod Dispatch
use proxy_rs.Prelude.{
  ℕ, ◌+◌, Bool, true, false, not, Option, none, some, List, [], ◌∷◌, bit_and, ltb, leb, ◌==◌,
  if◌then◌else◌, length, drop, get_or,
}
use proxy_rs.Buffer.{Buffer, clear, reserve_len, push, push_slice}
use proxy_rs.Io.{M, Outcome, ok, panic, fail, ◌>>=◌, ◌>>◌, return, fail_if}
use proxy_rs.Http2.Hpack.{DecodeError, too_small, index_not_found, table_too_small}
use proxy_rs.Http2.Hpack.Integer.{parse_integer}
use proxy_rs.Http2.Hpack.Huffman.{and_then}
use proxy_rs.Http2.Hpack.Text.{parse_string}
use proxy_rs.Http2.Hpack.Tables.{DynamicTable, insert, resize}
use proxy_rs.Http2.Hpack.Tables.Header.{Copy, header_get}
use proxy_rs.Buffer.{as_slice}

abbrev pub indexed_tag : ℕ
indexed_tag = 0x80

abbrev pub incremental_tag : ℕ
incremental_tag = 0x40

abbrev pub size_tag : ℕ
size_tag = 0x20

-- `tag & flag != 0`
abbrev pub has : ℕ → ℕ → Bool
has tag flag = not (bit_and tag flag == 0)

abbrev pub push_all : Buffer → List ℕ → Buffer
push_all b [] = b
push_all b (v ∷ rest) = push_all (push b v) rest

-- How `parse_string` fills its buffer: byte by byte while it decodes, or at once.
unfoldable pub fill : Bool → Buffer → List ℕ → Buffer
fill true out s = push_all (clear out) s
fill false out s = push_slice (reserve_len (clear out) (length s)) s

abbrev pub parse_string_into : List ℕ → Buffer → Outcome DecodeError (ℕ × Buffer)
parse_string_into bytes out =
    and_then (parse_string bytes)
      (λ (read, s). ok (read, fill (bit_and (get_or bytes 0 0) 0x80 == 0x80) out s))

abbrev pub parsed : {A : Type 0} → Outcome DecodeError A → M DynamicTable DecodeError A
parsed r t = (r, t)

-- `parse_string(&data[read..], out)`, and how far has then been read.
abbrev pub string_at : List ℕ → ℕ → Buffer → M DynamicTable DecodeError (ℕ × Buffer)
string_at bytes read out = parsed (
    if leb read (length bytes)
    then and_then (parse_string_into (drop read bytes) out) (λ (n, b). ok (read + n, b))
    else panic)

-- The buffers after `get`, whose error is that there is no such index.
abbrev pub found : Copy → M DynamicTable DecodeError (Buffer × Option Buffer)
found none = fail index_not_found
found (some c) = return c

abbrev pub value_of : Option Buffer → Buffer → Buffer
value_of none b = b
value_of (some v) b = v

unfoldable pub read_indexed :
    List ℕ → Buffer → Buffer → M DynamicTable DecodeError (ℕ × (Buffer × Buffer))
read_indexed bytes name value = do
  i ← parsed (parse_integer 7 bytes)
  c ← header_get i.0 name (some value)
  b ← found c
  return (i.1, (b.0, value_of b.1 value))

-- The name of an entry, without its value.
unfoldable pub entry_name : ℕ → ℕ → Buffer → M DynamicTable DecodeError (ℕ × Buffer)
entry_name index read name = do c ← header_get index name none; b ← found c; return (read, b.0)

-- The name of a literal field: a string of its own, or that of an entry.
unfoldable pub read_name : ℕ → List ℕ → Buffer → M DynamicTable DecodeError (ℕ × Buffer)
read_name bits bytes name = do
  i ← parsed (parse_integer bits bytes)
  if i.0 == 0 then string_at bytes i.1 name else entry_name i.0 i.1 name

unfoldable pub read_incremental :
    List ℕ → Buffer → Buffer → M DynamicTable DecodeError (ℕ × (Buffer × Buffer))
read_incremental bytes name value = do
  n ← read_name 6 bytes name
  v ← string_at bytes n.0 value
  insert (as_slice n.1) (as_slice v.1)
  return (v.0, (n.1, v.1))

unfoldable pub read_size :
    List ℕ → Buffer → Buffer → M DynamicTable DecodeError (ℕ × (Buffer × Buffer))
read_size bytes name value = do
  i ← parsed (parse_integer 5 bytes)
  λ t. fail_if (ltb t.permitted_size i.0) table_too_small t
  resize i.0
  return (i.1, (name, value))

unfoldable pub read_plain :
    List ℕ → Buffer → Buffer → M DynamicTable DecodeError (ℕ × (Buffer × Buffer))
read_plain bytes name value = do
  n ← read_name 4 bytes name
  v ← string_at bytes n.0 value
  return (v.0, (n.1, v.1))

-- How many bytes the field takes, its name and its value.
unfoldable pub read_header :
    List ℕ → Buffer → Buffer → M DynamicTable DecodeError (ℕ × (Buffer × Buffer))
read_header [] name value = fail too_small
read_header (tag ∷ rest) name value =
    let bytes = tag ∷ rest in
    if has tag indexed_tag
    then read_indexed bytes (clear name) (clear value)
    else if has tag incremental_tag
    then read_incremental bytes (clear name) (clear value)
    else if has tag size_tag
    then read_size bytes (clear name) (clear value)
    else read_plain bytes (clear name) (clear value)
