-- ===== src/Http2/Hpack/Tables/Lookup.antt =====
-- `DynamicTable::get` is the lookup in the list of entries.
use proxy_rs.Prelude.{
  ℕ, zero, suc, ◌+◌, ◌-◌, ◌^◌, ◌≤◌, ◌<◌, ◌≡◌, ◌∙◌, refl, sym, ap, List, [], ◌∷◌, ◌++◌, length, leb,
  arith, length-append, append_assoc, append-nil, get_elem?, none, some, Bool-cases, inl, inr,
  leb→le, not-leb→lt,
}
use proxy_rs.Prelude.Bytes.{to_le_bytes, length-to_le_bytes}
use proxy_rs.Io.{ok, ◌>>=◌}
use proxy_rs.Http2.Hpack.Tables.{
  DynamicTable, get_size, entry_bytes, walk_back, read_entry, get_entry,
}
use proxy_rs.Http2.Hpack.Tables.Entries.{
  Entry, IsTable, size_of, total, table_bytes, length-entry_bytes, length-table_bytes, range-at,
  get_size-at,
}

-- An entry up to the size behind it.
abbrev entry_front : List ℕ → List ℕ → List ℕ
entry_front name value =
    to_le_bytes 8 (length name + length value + 32)
    ++ (to_le_bytes 8 (length name) ++ (to_le_bytes 8 (length value) ++ (name ++ value)))

length-entry_front :
    (name value : List ℕ) → length (entry_front name value) + 8 ≡ size_of (name, value)
length-entry_front name value =
    let last = to_le_bytes 8 (length name + length value + 32) in
    omega (
      arith,
      length-append (entry_front name value) last,
      length-to_le_bytes 8 (length name + length value + 32),
      ap length (whole name value),
      length-entry_bytes name value,
    )
  where
    whole :
        (name value : List ℕ)
        → entry_front name value ++ to_le_bytes 8 (length name + length value + 32)
          ≡ entry_bytes name value
    whole name value = simp append_assoc refl

abbrev word : ℕ → List ℕ
word v = to_le_bytes 8 v

module _ (name value : List ℕ) (older : List Entry) where
  -- Where the fields of the entry stand.
  offsets :
      (length (table_bytes older ++ word (size_of (name, value))) ≡ total older + 8)
      × ((length (table_bytes older ++ (word (size_of (name, value)) ++ word (length name)))
            ≡ total older + 16)
          × ((length (
                  table_bytes older
                  ++ (word (size_of (name, value)) ++ (word (length name) ++ word (length value))))
                ≡ total older + 24)
              × (length (
                    table_bytes older
                    ++ (word (size_of (name, value))
                        ++ (word (length name) ++ (word (length value) ++ name))))
                  ≡ total older + 24 + length name)))
  offsets =
      let a = word (size_of (name, value)) in
      let b = word (length name) in
      let c = word (length value) in
      let la = length-to_le_bytes 8 (size_of (name, value)) in
      let lb = length-to_le_bytes 8 (length name) in
      let lc = length-to_le_bytes 8 (length value) in
      let lt = length-table_bytes older in
      let ab = length-append a b in
      let bc = length-append b c in
      let abc = length-append a (b ++ c) in
      let cn = length-append c name in
      let bcn = length-append b (c ++ name) in
      let abcn = length-append a (b ++ (c ++ name)) in
      (
        omega (arith, length-append (table_bytes older) a),
        (
          omega (arith, length-append (table_bytes older) (a ++ b)),
          (
            omega (arith, length-append (table_bytes older) (a ++ (b ++ c))),
            omega (arith, length-append (table_bytes older) (a ++ (b ++ (c ++ name)))),
          ),
        ),
      )

module _ {E : Type 0} (t : DynamicTable) (name value : List ℕ) (older : List Entry) (rest : List ℕ)
    (h : t.buffer ≡ table_bytes ((name, value) ∷ older) ++ rest)
    (fits : total ((name, value) ∷ older) < 2 ^ 64) where
  size_behind :
      get_size {E = E} (total ((name, value) ∷ older) - 8) t ≡ (ok (size_of (name, value)), t)
  size_behind =
      get_size-at t (table_bytes older ++ entry_front name value) rest _ _
        (h ∙ simp append_assoc refl)
        (omega (
          arith,
          length-append (table_bytes older) (entry_front name value),
          length-entry_front name value,
          length-table_bytes older,
        ))
        (omega arith)

  read_entry-at :
      read_entry {E = E} (total ((name, value) ∷ older)) t ≡ (ok (some (name, value)), t)
  unfolding read_entry
  read_entry-at =
      let a = word (size_of (name, value)) in
      let b = word (length name) in
      let c = word (length value) in
      let start : total older + size_of (name, value) - size_of (name, value) ≡ total older =
        omega arith in
      let (at_name_size, (at_value_size, (at_name, at_value))) = offsets name value older in
      rw
        (
          size_behind,
          start,
          get_size-at {E = E} t (table_bytes older ++ a) (c ++ (name ++ (value ++ (a ++ rest)))) _
              (length name) (h ∙ simp append_assoc refl) at_name_size (omega arith),
          get_size-at {E = E} t (table_bytes older ++ (a ++ b)) (name ++ (value ++ (a ++ rest))) _
              (length value) (h ∙ simp append_assoc refl) at_value_size (omega arith),
          range-at {E = E} t (table_bytes older ++ (a ++ (b ++ c))) name (value ++ (a ++ rest)) _ _
              (h ∙ simp append_assoc refl) at_name refl,
          range-at {E = E} t (table_bytes older ++ (a ++ (b ++ (c ++ name)))) value (a ++ rest) _ _
              (h ∙ simp append_assoc refl) at_value refl,
        )
        refl

-- Walking back over the newer entries, and reading the one that is then in front.
walk_back-lookup :
    {E : Type 0} (t : DynamicTable) (es : List Entry) (index : ℕ) (rest : List ℕ)
    → t.buffer ≡ table_bytes es ++ rest
    → total es < 2 ^ 64
    → index < length es
    → (walk_back {E = E} index (total es) >>= read_entry) t ≡ (ok (get_elem? es index), t)
unfolding walk_back
walk_back-lookup t [] index rest h fits hi = absurd (omega arith)
walk_back-lookup t ((name, value) ∷ older) zero rest h fits hi =
    read_entry-at t name value older rest h fits
walk_back-lookup t ((name, value) ∷ older) (suc index) rest h fits hi =
    let start : total older + size_of (name, value) - size_of (name, value) ≡ total older =
      omega arith in
    rw (size_behind t name value older rest h fits, start)
      (walk_back-lookup t older index (entry_bytes name value ++ rest)
        (h ∙ append_assoc (table_bytes older) (entry_bytes name value) rest) (omega arith)
        (omega arith))

get_elem?-none : (es : List Entry) (index : ℕ) → length es ≤ index → get_elem? es index ≡ none
get_elem?-none [] index h = refl
get_elem?-none (e ∷ es) zero h = absurd (omega arith)
get_elem?-none (e ∷ es) (suc index) h = get_elem?-none es index (omega arith)

-- `get` on a table that holds these entries gives the entry of that index, the newest first, and
-- none past the last; it never panics.
pub get_entry-lookup :
    {E : Type 0} (t : DynamicTable) (es : List Entry) (index : ℕ)
    → IsTable t es
    → get_entry {E = E} index t ≡ (ok (get_elem? es index), t)
unfolding get_entry
get_entry-lookup t es index v = elim (Bool-cases (leb t.num_elements index)) [
  | inl past ↦
      let h = leb→le _ _ past in rw (past, get_elem?-none es index (omega (arith, v.count))) refl
  | inr inside ↦
      let h = not-leb→lt _ _ inside in
      let size : length t.buffer ≡ total es = ap length v.bytes ∙ length-table_bytes es in
      rw (inside, size)
        (walk_back-lookup t es index [] (v.bytes ∙ sym (append-nil (table_bytes es)))
          (omega (arith, v.bounded, v.agreed, v.word)) (omega (arith, v.count)))
]
