-- ===== src/Http2/Hpack/Tables/Entries.antt =====
-- The dynamic table as a list of entries, the newest first, and its bytes.
use proxy_rs.Prelude.{
  ℕ, ◌+◌, ◌^◌, ◌≤◌, ◌<◌, ◌≡◌, ◌∙◌, refl, ap, List, [], ◌∷◌, ◌++◌, length, take, drop, arith, le→leb,
  length-append, take-append, drop-append,
}
use proxy_rs.Prelude.Bytes.{to_le_bytes, length-to_le_bytes, from_le_bytes-to_le_bytes}
use proxy_rs.Io.{ok}
use proxy_rs.Http2.Hpack.Tables.{DynamicTable, range, get_size, entry_bytes}

-- A header: its name and its value.
abbrev pub Entry : Type 0
Entry = List ℕ × List ℕ

-- RFC 7541 counts 32 bytes for each entry besides its name and value.
abbrev pub size_of : Entry → ℕ
size_of (name, value) = length name + length value + 32

abbrev pub total : List Entry → ℕ
total [] = 0
total (e ∷ es) = total es + size_of e

abbrev pub table_bytes : List Entry → List ℕ
table_bytes [] = []
table_bytes ((name, value) ∷ es) = table_bytes es ++ entry_bytes name value

-- The table holds these entries.
pub record IsTable (t : DynamicTable) (es : List Entry) : Type 0 where
  pub bytes : t.buffer ≡ table_bytes es
  pub count : t.num_elements ≡ length es
  pub bounded : total es ≤ t.max_size
  pub agreed : t.max_size ≤ t.permitted_size
  pub word : t.permitted_size < 2 ^ 64

pub length-entry_bytes :
    (name value : List ℕ) → length (entry_bytes name value) ≡ size_of (name, value)
length-entry_bytes name value =
    let size = length name + length value + 32 in
    let last = to_le_bytes 8 size in
    omega (
      arith,
      length-append last (
          to_le_bytes 8 (length name)
          ++ (to_le_bytes 8 (length value) ++ (name ++ (value ++ last)))),
      length-append (to_le_bytes 8 (length name))
          (to_le_bytes 8 (length value) ++ (name ++ (value ++ last))),
      length-append (to_le_bytes 8 (length value)) (name ++ (value ++ last)),
      length-append name (value ++ last),
      length-append value last,
      length-to_le_bytes 8 size,
      length-to_le_bytes 8 (length name),
      length-to_le_bytes 8 (length value),
    )

pub length-table_bytes : (es : List Entry) → length (table_bytes es) ≡ total es
length-table_bytes [] = refl
length-table_bytes ((name, value) ∷ es) = omega (
  arith,
  length-append (table_bytes es) (entry_bytes name value),
  length-entry_bytes name value,
  length-table_bytes es,
)

module _ {E : Type 0} (t : DynamicTable) where
  -- A range that lies in the table is the bytes that stand there.
  pub range-at :
      (front xs back : List ℕ) (offset n : ℕ)
      → t.buffer ≡ front ++ (xs ++ back)
      → length front ≡ offset
      → length xs ≡ n
      → range {E = E} offset n t ≡ (ok xs, t)
  unfolding range
  range-at front xs back offset n h ho hn =
      let size : length t.buffer ≡ length front + (length xs + length back) =
        ap length h
        ∙ length-append front (xs ++ back)
        ∙ ap (λ k. length front + k) (length-append xs back) in
      let cut : take n (drop offset t.buffer) ≡ xs =
        ap (λ b. take n (drop offset b)) h
        ∙ ap (take n) (drop-append offset front (xs ++ back) ho)
        ∙ take-append n xs back hn in
      rw (le→leb (offset + n) (length t.buffer) (omega arith), cut) refl

  pub get_size-at :
      (front back : List ℕ) (offset v : ℕ)
      → t.buffer ≡ front ++ (to_le_bytes 8 v ++ back)
      → length front ≡ offset
      → v < 2 ^ 64
      → get_size {E = E} offset t ≡ (ok v, t)
  unfolding get_size
  get_size-at front back offset v h ho hv =
      rw
        (
          range-at front (to_le_bytes 8 v) back offset 8 h ho (length-to_le_bytes 8 v),
          from_le_bytes-to_le_bytes 8 v hv,
        )
        refl
