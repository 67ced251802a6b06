-- ===== src/Http2/Hpack/Block/Decode.antt =====
-- The parts of a field behind its prefix: the name and the value of a literal.
use proxy_rs.Prelude.{
  ℕ, ◌*◌, ◌^◌, ◌≤◌, ◌<◌, ◌≡◌, ◌∙◌, refl, true, Option, none, some, List, [], ◌++◌, length, bit_and,
  leb, ◌==◌, arith, append-nil, length-append, drop-append, le→leb, get_or, ne→==-false,
}
use proxy_rs.Buffer.{Buffer, IsValid, clear}
use proxy_rs.Io.{Outcome, ok, err, ◌>>=◌, return}
use proxy_rs.Http2.Hpack.{DecodeError, index_not_found}
use proxy_rs.Http2.Hpack.Integer.RoundTrip.{wire_integer, parse_integer-wire}
use proxy_rs.Http2.Hpack.Text.Literals.{literal, literal_read}
use proxy_rs.Http2.Hpack.Tables.{DynamicTable}
use proxy_rs.Http2.Hpack.Tables.Entries.{Entry, IsTable}
use proxy_rs.Http2.Hpack.Tables.Header.{Copy, header_get}
use proxy_rs.Http2.Hpack.Tables.Copied.{Found, Fits, Copied, lookup, header_get-Copied}
use proxy_rs.Http2.Hpack.Block.{string_at, found, entry_name, read_name, fill}
use proxy_rs.Http2.Hpack.Block.Fill.{
  Holds, clear-len, clear-Holds, appended-Holds, fill-Holds, found_len, lookup_len,
}
use proxy_rs.Http2.Hpack.Block.Field.{
  Text, IsText, FieldName, of_index, own, IsFieldName, name_index, name_wire, name_in, named,
}

-- A literal behind what was read is taken into the buffer.
pub string_at-literal :
    (t : DynamicTable) (front rest : List ℕ) (s : Text) (out : Buffer)
    → IsText s
    → IsValid out
    → (b : Buffer) × ((string_at (front ++ (literal s.huffman s.bytes ++ rest)) (length front) out t
          ≡ (ok (length (front ++ literal s.huffman s.bytes), b), t))
        × Holds b s.bytes)
string_at-literal t front rest s out (hb, (hs, hl)) v =
    let wire = literal s.huffman s.bytes in
    let flag = bit_and (get_or (wire ++ rest) 0 0) 0x80 == 0x80 in
    let fits : leb (length front) (length (front ++ (wire ++ rest))) ≡ true =
      le→leb _ _ (omega (arith, length-append front (wire ++ rest))) in
    (
      fill flag out s.bytes,
      (
        rw
            (
              fits,
              drop-append (length front) front (wire ++ rest) refl,
              literal_read s.huffman s.bytes rest hb hl,
              length-append front wire,
            )
            refl,
        fill-Holds flag out s.bytes v hs,
      ),
    )

-- A result is the name and the number of bytes read so far, or the error that there is none.
abbrev pub NameRead :
    Outcome DecodeError (ℕ × Buffer) × DynamicTable → DynamicTable → ℕ → Option (List ℕ) → Type 0
NameRead r t len none = r ≡ (err index_not_found, t)
NameRead r t len (some s) = (b : Buffer) × ((r ≡ (ok (len, b), t)) × Holds b s)

NameRead-at :
    (r r' : Outcome DecodeError (ℕ × Buffer) × DynamicTable) (t : DynamicTable) (len : ℕ)
    (o : Option (List ℕ))
    → r ≡ r'
    → NameRead r' t len o
    → NameRead r t len o
NameRead-at r r' t len none e h = e ∙ h
NameRead-at r r' t len (some s) e (b, (h, k)) = (b, (e ∙ h, k))

name-Fits : (name : Buffer) (f : Found) → found_len f ≤ 2 ^ 63 → Fits (clear name) none f
name-Fits name none h = tt
name-Fits name (some (n, none)) h = (omega (arith, clear-len name), tt)
name-Fits name (some (n, some v)) h = (omega (arith, clear-len name), tt)

name-Copied :
    (t : DynamicTable) (name : Buffer) (read : ℕ) (f : Found) (r : Copy)
    → IsValid name
    → Copied (clear name) none f r
    → NameRead ((found r >>= λ b. return (read, b.0)) t) t read (name_in f)
name-Copied t name read none r v e = rw e refl
name-Copied t name read (some (n, w)) r v (b, (x, (e, (a, z)))) =
    (b, (rw e refl, appended-Holds name b n v a))

entry_name-found :
    (t : DynamicTable) (i read : ℕ) (name : Buffer) (r : Copy)
    → header_get {E = DecodeError} i (clear name) none t ≡ (ok r, t)
    → entry_name i read (clear name) t ≡ (found r >>= λ b. return (read, b.0)) t
unfolding entry_name
entry_name-found t i read name r e = rw e refl

entry_name-read :
    (t : DynamicTable) (es : List Entry) (i read : ℕ) (name : Buffer)
    → IsTable t es
    → t.permitted_size ≤ 2 ^ 63
    → IsValid name
    → NameRead (entry_name i read (clear name) t) t read (name_in (lookup es i))
entry_name-read t es i read name it hp v =
    let (r, (run, c)) =
      header_get-Copied {E = DecodeError} t es i (clear name) none it (clear-Holds name v).valid
        (name-Fits name (lookup es i) (lookup_len t es i it hp)) in
    NameRead-at _ _ t read (name_in (lookup es i)) (entry_name-found t i read name r run)
      (name-Copied t name read (lookup es i) r v c)

-- The name behind a prefix is read, whatever follows it.
module _ (prefix bits : ℕ) (hb : bits < 8) (h : prefix * 2 ^ bits < 256) (t : DynamicTable)
    (es : List Entry) (name : Buffer) (it : IsTable t es) (hp : t.permitted_size ≤ 2 ^ 63)
    (v : IsValid name) where
  pub read_name-read :
      (n : FieldName) (rest : List ℕ)
      → IsFieldName n
      → NameRead
          (read_name bits
            (wire_integer prefix bits (name_index n) ++ (name_wire n ++ rest))
            (clear name)
            t)
          t
          (length (wire_integer prefix bits (name_index n) ++ name_wire n))
          (named es n)
  unfolding read_name
  read_name-read (of_index i) rest (pos, hi) =
      let front = wire_integer prefix bits i in
      NameRead-at _ _ t _ (name_in (lookup es i))
        (rw
          (
            parse_integer-wire prefix bits i hb h rest hi,
            ne→==-false i 0 (omega arith),
            append-nil front,
          )
          refl)
        (entry_name-read t es i (length (front ++ [])) name it hp v)
  read_name-read (own s) rest hs =
      let front = wire_integer prefix bits 0 in
      let (b, (run, k)) =
        string_at-literal t front rest s (clear name) hs (clear-Holds name v).valid in
      (
        b,
        (
          rw
              (parse_integer-wire prefix bits 0 hb h (literal s.huffman s.bytes ++ rest)
                (omega arith))
              run,
          k,
        ),
      )
