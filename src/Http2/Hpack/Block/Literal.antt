-- ===== src/Http2/Hpack/Block/Literal.antt =====
-- Literal fields, with and without a new entry, and indexed ones, each as a whole.
use proxy_rs.Prelude.{
  ℕ, ◌*◌, ◌^◌, ◌≤◌, ◌<◌, ◌≡◌, ◌∙◌, refl, ap, Option, none, some, List, [], ◌++◌, length, ltb,
  if◌then◌else◌, arith, append_assoc, Bool-cases, inl, inr, not-ltb→le,
}
use proxy_rs.Buffer.{Buffer, IsValid, as_slice, clear}
use proxy_rs.Io.{M, Outcome, ok, err, panic, ◌>>=◌, return}
use proxy_rs.Http2.Hpack.{DecodeError, table_too_small}
use proxy_rs.Http2.Hpack.Integer.RoundTrip.{wire_integer, parse_integer-wire}
use proxy_rs.Http2.Hpack.Text.Literals.{literal}
use proxy_rs.Http2.Hpack.Tables.{DynamicTable, insert}
use proxy_rs.Http2.Hpack.Tables.Entries.{Entry, IsTable}
use proxy_rs.Http2.Hpack.Tables.Room.{keep}
use proxy_rs.Http2.Hpack.Tables.Insert.{inserted, insert-inserted}
use proxy_rs.Http2.Hpack.Tables.Resize.{resize-keep}
use proxy_rs.Http2.Hpack.Tables.Header.{Copy}
use proxy_rs.Http2.Hpack.Tables.Copied.{Found, Fits, Copied, lookup, header_get-Copied}
use proxy_rs.Http2.Hpack.Block.{
  string_at, found, value_of, read_name, read_indexed, read_incremental, read_size, read_plain,
}
use proxy_rs.Http2.Hpack.Block.Fill.{
  Holds, clear-len, clear-Holds, appended-Holds, found_len, lookup_len,
}
use proxy_rs.Http2.Hpack.Block.Field.{
  Text, IsText, FieldName, IsFieldName, name_index, name_wire, named, literal_wire, Meaning,
  whole_entry, with_name,
}
use proxy_rs.Http2.Hpack.Block.Decode.{NameRead, read_name-read, string_at-literal}

abbrev pub Read : Type 0
Read = Outcome DecodeError (ℕ × (Buffer × Buffer)) × DynamicTable

-- A result is what a field of this length means: the header is in the buffers and the table holds
-- the entries, or the error left the table as it was.
abbrev pub Decoded : Read → DynamicTable → ℕ → Meaning → Type 0
Decoded r t len (err e) = r ≡ (err e, t)
Decoded r t len panic = ⊥
Decoded r t len (ok ((n, v), es)) =
    (name : Buffer) × ((value : Buffer) × ((t' : DynamicTable) × ((r
            ≡ (ok (len, (name, value)), t'))
          × (Holds name n × (Holds value v × IsTable t' es)))))

pub Decoded-at :
    (r r' : Read) (t : DynamicTable) (len : ℕ) (m : Meaning)
    → r ≡ r'
    → Decoded r' t len m
    → Decoded r t len m
Decoded-at r r' t len (err e) p h = p ∙ h
Decoded-at r r' t len panic p h = h
Decoded-at r r' t len (ok ((n, v), es)) p (name, (value, (t', (h, k)))) =
    (name, (value, (t', (p ∙ h, k))))

-- What stands in front of the value of a literal.
abbrev head : ℕ → ℕ → FieldName → List ℕ
head prefix bits n = wire_integer prefix bits (name_index n) ++ name_wire n

module _ (t : DynamicTable) (es : List Entry) (name value : Buffer) (it : IsTable t es)
    (hp : t.permitted_size ≤ 2 ^ 63) (nv : IsValid name) (vv : IsValid value) where
  -- The value behind a name that was read or not.
  value_read :
      (bytes front rest : List ℕ) (len : ℕ) (s : Text) (m : M DynamicTable DecodeError (ℕ × Buffer))
      (o : Option (List ℕ))
      → bytes ≡ front ++ (literal s.huffman s.bytes ++ rest)
      → len ≡ length (front ++ literal s.huffman s.bytes)
      → IsText s
      → NameRead (m t) t (length front) o
      → Decoded
          ((m >>= λ n. string_at bytes n.0 (clear value) >>= λ v. return (v.0, (n.1, v.1))) t)
          t
          len
          (with_name (λ e. es) s.bytes o)
  value_read bytes front rest len s m none e el hs h = rw h refl
  value_read bytes front rest len s m (some n) e el hs (b, (h, k)) =
      let (w, (run, kw)) =
        string_at-literal t front rest s (clear value) hs (clear-Holds value vv).valid in
      (b, (w, (t, (rw (h, e, run, el) refl, (k, (kw, it))))))

  entry_added :
      (bytes front rest : List ℕ) (len : ℕ) (s : Text) (m : M DynamicTable DecodeError (ℕ × Buffer))
      (o : Option (List ℕ))
      → bytes ≡ front ++ (literal s.huffman s.bytes ++ rest)
      → len ≡ length (front ++ literal s.huffman s.bytes)
      → IsText s
      → NameRead (m t) t (length front) o
      → Decoded
          ((m >>= λ n. string_at bytes n.0 (clear value) >>= λ v.
              (insert (as_slice n.1) (as_slice v.1) >>= λ _. return (v.0, (n.1, v.1))))
            t)
          t
          len
          (with_name (λ e. inserted t.max_size e es) s.bytes o)
  entry_added bytes front rest len s m none e el hs h = rw h refl
  entry_added bytes front rest len s m (some n) e el hs (b, (h, k)) =
      let (w, (run, kw)) =
        string_at-literal t front rest s (clear value) hs (clear-Holds value vv).valid in
      let (t', (added, (it', same))) = insert-inserted {E = DecodeError} t es n s.bytes it in
      (b, (w, (t', (rw (h, e, run, el, k.contents, kw.contents, added) refl, (k, (kw, it'))))))

  -- The bytes of a literal, cut behind the prefix and in front of the value.
  cut :
      (prefix bits : ℕ) (n : FieldName) (s : Text) (rest : List ℕ)
      → (literal_wire prefix bits n s ++ rest
          ≡ wire_integer prefix bits (name_index n)
            ++ (name_wire n ++ (literal s.huffman s.bytes ++ rest)))
        × ((literal_wire prefix bits n s ++ rest
              ≡ head prefix bits n ++ (literal s.huffman s.bytes ++ rest))
            × (literal_wire prefix bits n s ≡ head prefix bits n ++ literal s.huffman s.bytes))
  cut prefix bits n s rest =
      (simp append_assoc refl, (simp append_assoc refl, simp append_assoc refl))

  module _ (n : FieldName) (s : Text) (rest : List ℕ) (hn : IsFieldName n) (hs : IsText s) where
    name_of_literal :
        (prefix bits : ℕ)
        → bits < 8
        → prefix * 2 ^ bits < 256
        → NameRead
            (read_name bits (literal_wire prefix bits n s ++ rest) (clear name) t)
            t
            (length (head prefix bits n))
            (named es n)
    name_of_literal prefix bits hb h = rw ((cut prefix bits n s rest).0) (
        read_name-read prefix bits hb h t es name it hp nv n (literal s.huffman s.bytes ++ rest) hn)

    pub plain-Decoded :
        (prefix : ℕ)
        → prefix < 2
        → Decoded
            (read_plain (literal_wire prefix 4 n s ++ rest) (clear name) (clear value) t)
            t
            (length (literal_wire prefix 4 n s))
            (with_name (λ e. es) s.bytes (named es n))
    unfolding read_plain
    plain-Decoded prefix h =
        let (_, (b, c)) = cut prefix 4 n s rest in
        value_read _ (head prefix 4 n) rest _ s
          (read_name 4 (literal_wire prefix 4 n s ++ rest) (clear name)) (named es n) b
          (ap length c) hs (name_of_literal prefix 4 (omega arith) (omega arith))

    pub incremental-Decoded :
        Decoded
          (read_incremental (literal_wire 1 6 n s ++ rest) (clear name) (clear value) t)
          t
          (length (literal_wire 1 6 n s))
          (with_name (λ e. inserted t.max_size e es) s.bytes (named es n))
    unfolding read_incremental
    incremental-Decoded =
        let (_, (b, c)) = cut 1 6 n s rest in
        entry_added _ (head 1 6 n) rest _ s
          (read_name 6 (literal_wire 1 6 n s ++ rest) (clear name)) (named es n) b (ap length c) hs
          (name_of_literal 1 6 (omega arith) (omega arith))

  whole-Fits : (f : Found) → found_len f ≤ 2 ^ 63 → Fits (clear name) (some (clear value)) f
  whole-Fits none h = tt
  whole-Fits (some (n, none)) h = (omega (arith, clear-len name), tt)
  whole-Fits (some (n, some v)) h = (
    omega (arith, clear-len name),
    ((clear-Holds value vv).valid, omega (arith, clear-len value)),
  )

  whole-Copied :
      (read : ℕ) (f : Found) (r : Copy)
      → Copied (clear name) (some (clear value)) f r
      → Decoded
          ((found r >>= λ b. return (read, (b.0, value_of b.1 (clear value)))) t)
          t
          read
          (whole_entry es f)
  whole-Copied read none r e = rw e refl
  whole-Copied read (some (n, none)) r (b, (w, (e, (a, z)))) = (
    b,
    (
      clear value,
      (t, (rw (e, z) refl, (appended-Holds name b n nv a, (clear-Holds value vv, it)))),
    ),
  )
  whole-Copied read (some (n, some v)) r (b, (w, (e, (a, (x, (z, c)))))) = (
    b,
    (x, (t, (rw (e, z) refl, (appended-Holds name b n nv a, (appended-Holds value x v vv c, it))))),
  )

  pub indexed-Decoded :
      (i : ℕ) (rest : List ℕ)
      → i < 2 ^ 64
      → Decoded
          (read_indexed (wire_integer 1 7 i ++ rest) (clear name) (clear value) t)
          t
          (length (wire_integer 1 7 i))
          (whole_entry es (lookup es i))
  unfolding read_indexed
  indexed-Decoded i rest hi =
      let (r, (run, c)) =
        header_get-Copied {E = DecodeError} t es i (clear name) (some (clear value)) it
          (clear-Holds name nv).valid (whole-Fits (lookup es i) (lookup_len t es i it hp)) in
      Decoded-at _ _ t _ (whole_entry es (lookup es i))
        (rw (parse_integer-wire 1 7 i (omega arith) (omega arith) rest hi, run) refl)
        (whole-Copied (length (wire_integer 1 7 i)) (lookup es i) r c)

  pub size-Decoded :
      (n : ℕ) (rest : List ℕ)
      → n < 2 ^ 64
      → Decoded
          (read_size (wire_integer 1 5 n ++ rest) (clear name) (clear value) t)
          t
          (length (wire_integer 1 5 n))
          (if ltb t.permitted_size n then err table_too_small else ok (([], []), keep n es))
  unfolding read_size
  size-Decoded n rest hi =
      let p = parse_integer-wire 1 5 n (omega arith) (omega arith) rest hi in
      elim (Bool-cases (ltb t.permitted_size n)) [
        | inl over ↦ rw (p, over) refl
        | inr fits ↦
            let k = not-ltb→le _ _ fits in
            let (t', (run, (it', same))) = resize-keep {E = DecodeError} t es n it (omega arith) in
            rw (p, fits, run)
              (
                clear name,
                (clear value, (t', (refl, (clear-Holds name nv, (clear-Holds value vv, it'))))),
              )
      ]
