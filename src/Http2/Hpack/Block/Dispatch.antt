-- ===== src/Http2/Hpack/Block/Dispatch.antt =====
-- `read_header` on the fields of RFC 7541: the first byte tells the kinds of field apart.
use proxy_rs.Prelude.{
  ℕ, ◌+◌, ◌-◌, ◌*◌, ◌^◌, ◌≤◌, ◌<◌, ◌≡◌, ◌∙◌, refl, sym, ap, true, false, List, [], ◌∷◌, ◌++◌,
  length, ltb, arith, append_assoc, Bool-cases, inl, inr, ltb→lt,
}
use proxy_rs.Prelude.Bits.{bit_and_flag}
use native.Mathlib.Nat.{one-le-pow}
use proxy_rs.Buffer.{Buffer, IsValid, clear}
use proxy_rs.Http2.Hpack.Integer.{rounds}
use proxy_rs.Http2.Hpack.Integer.RoundTrip.{wire_integer, digits}
use proxy_rs.Http2.Hpack.Text.Literals.{literal}
use proxy_rs.Http2.Hpack.Tables.{DynamicTable}
use proxy_rs.Http2.Hpack.Tables.Entries.{Entry, IsTable}
use proxy_rs.Http2.Hpack.Block.{
  has, read_indexed, read_incremental, read_size, read_plain, read_header,
}
use proxy_rs.Http2.Hpack.Block.Field.{
  Field, indexed, incremental, size_update, plain, IsField, Text, FieldName, name_index, name_wire,
  literal_wire, wire_field, meaning,
}
use proxy_rs.Http2.Hpack.Block.Literal.{
  Decoded, indexed-Decoded, incremental-Decoded, size-Decoded, plain-Decoded,
}

-- The first byte of an integer behind a prefix.
first_byte :
    (prefix bits int : ℕ)
    → (b : ℕ) × ((more : List ℕ) × ((wire_integer prefix bits int ≡ b ∷ more)
          × ((prefix * 2 ^ bits ≤ b) × (b < prefix * 2 ^ bits + 2 ^ bits))))
first_byte prefix bits int = elim (Bool-cases (ltb int (2 ^ bits - 1))) [
  | inl e ↦
      let k = ltb→lt _ _ e in
      (prefix * 2 ^ bits + int, ([], (rw e refl, (omega arith, omega arith))))
  | inr e ↦
      let one = one-le-pow bits 2 (omega arith) in
      (
        prefix * 2 ^ bits + (2 ^ bits - 1),
        (digits rounds (int - (2 ^ bits - 1)), (rw e refl, (omega arith, omega arith))),
      )
]

module _ (t : DynamicTable) (name value : Buffer) (b : ℕ) (rest : List ℕ) where
  to_indexed :
      128 ≤ b
      → b < 256
      → read_header (b ∷ rest) name value t ≡ read_indexed (b ∷ rest) (clear name) (clear value) t
  unfolding read_header
  to_indexed h k = let a : has b 0x80 ≡ true = ground (arith, bit_and_flag 7 b) in rw a refl

  to_incremental :
      64 ≤ b
      → b < 128
      → read_header (b ∷ rest) name value t
        ≡ read_incremental (b ∷ rest) (clear name) (clear value) t
  unfolding read_header
  to_incremental h k =
      let a : has b 0x80 ≡ false = ground (arith, bit_and_flag 7 b) in
      let c : has b 0x40 ≡ true = ground (arith, bit_and_flag 6 b) in rw (a, c) refl

  to_size :
      32 ≤ b
      → b < 64
      → read_header (b ∷ rest) name value t ≡ read_size (b ∷ rest) (clear name) (clear value) t
  unfolding read_header
  to_size h k =
      let a : has b 0x80 ≡ false = ground (arith, bit_and_flag 7 b) in
      let c : has b 0x40 ≡ false = ground (arith, bit_and_flag 6 b) in
      let d : has b 0x20 ≡ true = ground (arith, bit_and_flag 5 b) in rw (a, c, d) refl

  to_plain :
      b < 32
      → read_header (b ∷ rest) name value t ≡ read_plain (b ∷ rest) (clear name) (clear value) t
  unfolding read_header
  to_plain k =
      let a : has b 0x80 ≡ false = ground (arith, bit_and_flag 7 b) in
      let c : has b 0x40 ≡ false = ground (arith, bit_and_flag 6 b) in
      let d : has b 0x20 ≡ false = ground (arith, bit_and_flag 5 b) in rw (a, c, d) refl

-- Whatever follows the integer with which a field starts.
module _ (t : DynamicTable) (name value : Buffer) (int : ℕ) (rest : List ℕ) where
  from_indexed :
      read_header (wire_integer 1 7 int ++ rest) name value t
      ≡ read_indexed (wire_integer 1 7 int ++ rest) (clear name) (clear value) t
  from_indexed =
      let (b, (more, (e, (h, k)))) = first_byte 1 7 int in
      rw e (to_indexed t name value b (more ++ rest) (omega arith) (omega arith))

  from_incremental :
      read_header (wire_integer 1 6 int ++ rest) name value t
      ≡ read_incremental (wire_integer 1 6 int ++ rest) (clear name) (clear value) t
  from_incremental =
      let (b, (more, (e, (h, k)))) = first_byte 1 6 int in
      rw e (to_incremental t name value b (more ++ rest) (omega arith) (omega arith))

  from_size :
      read_header (wire_integer 1 5 int ++ rest) name value t
      ≡ read_size (wire_integer 1 5 int ++ rest) (clear name) (clear value) t
  from_size =
      let (b, (more, (e, (h, k)))) = first_byte 1 5 int in
      rw e (to_size t name value b (more ++ rest) (omega arith) (omega arith))

  from_plain :
      (prefix : ℕ)
      → prefix < 2
      → read_header (wire_integer prefix 4 int ++ rest) name value t
        ≡ read_plain (wire_integer prefix 4 int ++ rest) (clear name) (clear value) t
  from_plain prefix hp =
      let (b, (more, (e, (h, k)))) = first_byte prefix 4 int in
      rw e (to_plain t name value b (more ++ rest) (omega arith))

module _ (t : DynamicTable) (name value : Buffer) (n : FieldName) (v : Text) (rest : List ℕ) where
  behind : List ℕ
  behind = name_wire n ++ literal v.huffman v.bytes

  from_incremental_literal :
      read_header (literal_wire 1 6 n v ++ rest) name value t
      ≡ read_incremental (literal_wire 1 6 n v ++ rest) (clear name) (clear value) t
  unfolding behind
  from_incremental_literal =
      let e = append_assoc (wire_integer 1 6 (name_index n)) behind rest in
      ap (λ d. read_header d name value t) e
      ∙ from_incremental t name value (name_index n) (behind ++ rest)
      ∙ ap (λ d. read_incremental d (clear name) (clear value) t) (sym e)

  from_plain_literal :
      (prefix : ℕ)
      → prefix < 2
      → read_header (literal_wire prefix 4 n v ++ rest) name value t
        ≡ read_plain (literal_wire prefix 4 n v ++ rest) (clear name) (clear value) t
  unfolding behind
  from_plain_literal prefix hp =
      let e = append_assoc (wire_integer prefix 4 (name_index n)) behind rest in
      ap (λ d. read_header d name value t) e
      ∙ from_plain t name value (name_index n) (behind ++ rest) prefix hp
      ∙ ap (λ d. read_plain d (clear name) (clear value) t) (sym e)

-- `read_header` on the bytes of a field, whatever follows them, does what the field means on a table
-- of at most 2 ^ 63 bytes that holds these entries, and never panics: it gives the number of its
-- bytes, leaves the name and the value in the valid buffers of the caller, and the table holds the
-- entries that the field leaves; or it gives the error and leaves the table as it was, where an
-- index has no entry or a size is not permitted.
pub read_header-Decoded :
    (f : Field) (rest : List ℕ) (t : DynamicTable) (es : List Entry) (name value : Buffer)
    → IsField f
    → IsTable t es
    → t.permitted_size ≤ 2 ^ 63
    → IsValid name
    → IsValid value
    → Decoded
        (read_header (wire_field f ++ rest) name value t)
        t
        (length (wire_field f))
        (meaning t.max_size t.permitted_size es f)
read_header-Decoded (indexed i) rest t es name value hf it hp nv vv =
    rw (from_indexed t name value i rest) (indexed-Decoded t es name value it hp nv vv i rest hf)
read_header-Decoded (incremental n v) rest t es name value (hn, hv) it hp nv vv =
    rw (from_incremental_literal t name value n v rest)
      (incremental-Decoded t es name value it hp nv vv n v rest hn hv)
read_header-Decoded (size_update s) rest t es name value hf it hp nv vv =
    rw (from_size t name value s rest) (size-Decoded t es name value it hp nv vv s rest hf)
read_header-Decoded (plain true n v) rest t es name value (hn, hv) it hp nv vv =
    rw (from_plain_literal t name value n v rest 1 (omega arith))
      (plain-Decoded t es name value it hp nv vv n v rest hn hv 1 (omega arith))
read_header-Decoded (plain false n v) rest t es name value (hn, hv) it hp nv vv =
    rw (from_plain_literal t name value n v rest 0 (omega arith))
      (plain-Decoded t es name value it hp nv vv n v rest hn hv 0 (omega arith))
