-- ===== src/Http2/Hpack/Block/Field.antt =====
-- Fields of a header block as RFC 7541 has them, their bytes, and what they mean on a list of
-- entries.
use proxy_rs.Prelude.{
  ℕ, ◌^◌, ◌≤◌, ◌<◌, Bool, Option, none, some, List, [], ◌++◌, length, ltb, if◌then◌else◌, All,
}
use proxy_rs.Prelude.Bytes.{IsByte}
use proxy_rs.Io.{Outcome, ok, err}
use proxy_rs.Http2.Hpack.{DecodeError, index_not_found, table_too_small}
use proxy_rs.Http2.Hpack.Integer.RoundTrip.{wire_integer}
use proxy_rs.Http2.Hpack.Text.Literals.{literal}
use proxy_rs.Http2.Hpack.Tables.Entries.{Entry}
use proxy_rs.Http2.Hpack.Tables.Room.{keep}
use proxy_rs.Http2.Hpack.Tables.Insert.{inserted}
use proxy_rs.Http2.Hpack.Tables.Copied.{Found, lookup}

-- A string, Huffman coded or plain.
pub record Text : Type 0 where
  pub huffman : Bool
  pub bytes : List ℕ

-- The name of a literal field: that of an entry, or one of its own.
pub data FieldName : Type 0 where
  of_index : ℕ → FieldName
  own : Text → FieldName

pub data Field : Type 0 where
  indexed : ℕ → Field
  incremental : FieldName → Text → Field
  size_update : ℕ → Field
  -- Without indexing, or never indexed.
  plain : Bool → FieldName → Text → Field

abbrev pub name_index : FieldName → ℕ
name_index (of_index i) = i
name_index (own s) = 0

abbrev pub name_wire : FieldName → List ℕ
name_wire (of_index i) = []
name_wire (own s) = literal s.huffman s.bytes

-- A literal field behind its prefix.
abbrev pub literal_wire : ℕ → ℕ → FieldName → Text → List ℕ
literal_wire prefix bits n v =
    wire_integer prefix bits (name_index n) ++ (name_wire n ++ literal v.huffman v.bytes)

abbrev pub wire_field : Field → List ℕ
wire_field (indexed i) = wire_integer 1 7 i
wire_field (incremental n v) = literal_wire 1 6 n v
wire_field (size_update s) = wire_integer 1 5 s
wire_field (plain never n v) = literal_wire (if never then 1 else 0) 4 n v

-- An index is a `u64`, and 0 stands for no entry; a string is one of bytes, of a length that a
-- buffer can hold.
abbrev pub IsText : Text → Type 0
IsText s =
    All IsByte s.bytes × ((length s.bytes ≤ 2 ^ 63) × (length (literal s.huffman s.bytes) < 2 ^ 64))

abbrev pub IsFieldName : FieldName → Type 0
IsFieldName (of_index i) = (0 < i) × (i < 2 ^ 64)
IsFieldName (own s) = IsText s

abbrev pub IsField : Field → Type 0
IsField (indexed i) = i < 2 ^ 64
IsField (incremental n v) = IsFieldName n × IsText v
IsField (size_update s) = s < 2 ^ 64
IsField (plain never n v) = IsFieldName n × IsText v

-- A header and the entries from then on.
abbrev pub Meaning : Type 0
Meaning = Outcome DecodeError (Entry × List Entry)

abbrev pub whole_entry : List Entry → Found → Meaning
whole_entry es none = err index_not_found
whole_entry es (some (n, none)) = ok ((n, []), es)
whole_entry es (some (n, some v)) = ok ((n, v), es)

abbrev pub name_in : Found → Option (List ℕ)
name_in none = none
name_in (some (n, v)) = some n

abbrev pub named : List Entry → FieldName → Option (List ℕ)
named es (of_index i) = name_in (lookup es i)
named es (own s) = some s.bytes

abbrev pub with_name : (Entry → List Entry) → List ℕ → Option (List ℕ) → Meaning
with_name after v none = err index_not_found
with_name after v (some n) = ok ((n, v), after (n, v))

-- What a field means where the table has these limits and entries.
abbrev pub meaning : ℕ → ℕ → List Entry → Field → Meaning
meaning max permitted es (indexed i) = whole_entry es (lookup es i)
meaning max permitted es (incremental n v) = with_name (λ e. inserted max e es) v.bytes (named es n)
meaning max permitted es (size_update s) =
    if ltb permitted s then err table_too_small else ok (([], []), keep s es)
meaning max permitted es (plain never n v) = with_name (λ e. es) v.bytes (named es n)
