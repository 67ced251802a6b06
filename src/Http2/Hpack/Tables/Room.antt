-- ===== src/Http2/Hpack/Tables/Room.antt =====
-- Evicting the oldest entry, and the entries that are kept in a given room.
use proxy_rs.Prelude.{
  ℕ, ◌+◌, ◌-◌, ◌≤◌, ◌<◌, ◌≡◌, ◌∙◌, ◌⊎◌, refl, sym, ap, List, [], ◌∷◌, ◌++◌, length, drop, leb,
  arith, length-append, append_assoc, append-nil, if◌then◌else◌, Bool-cases, inl, inr, leb→le,
  le→leb, lt→not-leb, drop-append,
}
use proxy_rs.Prelude.Bytes.{to_le_bytes}
use proxy_rs.Io.{ok}
use proxy_rs.Http2.Hpack.Tables.{DynamicTable, entry_bytes, evict, drain}
use proxy_rs.Http2.Hpack.Tables.Entries.{
  Entry, IsTable, size_of, total, table_bytes, length-entry_bytes, range-at, get_size-at,
}

-- The newest entries, as many as fit.
abbrev pub keep : ℕ → List Entry → List Entry
keep room [] = []
keep room (e ∷ es) = if leb (size_of e) room then e ∷ keep (room - size_of e) es else []

pub keep-fits : (room : ℕ) (es : List Entry) → total es ≤ room → keep room es ≡ es
keep-fits room [] h = refl
keep-fits room (e ∷ es) h =
    rw (le→leb (size_of e) room (omega arith), keep-fits (room - size_of e) es (omega arith)) refl

pub total-keep : (room : ℕ) (es : List Entry) → total (keep room es) ≤ room
total-keep room [] = omega arith
total-keep room (e ∷ es) = elim (Bool-cases (leb (size_of e) room)) [
  | inl fits ↦ let k = leb→le _ _ fits in rw fits (omega (arith, total-keep (room - size_of e) es))
  | inr over ↦ rw over (omega arith)
]

pub total-snoc : (es : List Entry) (x : Entry) → total (es ++ (x ∷ [])) ≡ total es + size_of x
total-snoc [] x = refl
total-snoc (e ∷ es) x = omega (arith, total-snoc es x)

-- Where not all fits, the oldest entry is not kept.
pub keep-snoc :
    (room : ℕ) (es : List Entry) (x : Entry)
    → room < total (es ++ (x ∷ []))
    → keep room (es ++ (x ∷ [])) ≡ keep room es
keep-snoc room [] x h = rw (lt→not-leb (size_of x) room (omega arith)) refl
keep-snoc room (e ∷ es) x h = elim (Bool-cases (leb (size_of e) room)) [
  | inl fits ↦
      let k = leb→le _ _ fits in rw (fits, keep-snoc (room - size_of e) es x (omega arith)) refl
  | inr over ↦ rw over refl
]

table_bytes-snoc :
    (es : List Entry) (name value : List ℕ)
    → table_bytes (es ++ ((name, value) ∷ [])) ≡ entry_bytes name value ++ table_bytes es
table_bytes-snoc [] name value = sym (append-nil (entry_bytes name value))
table_bytes-snoc ((n, v) ∷ es) name value =
    ap (λ t. t ++ entry_bytes n v) (table_bytes-snoc es name value)
    ∙ append_assoc (entry_bytes name value) (table_bytes es) (entry_bytes n v)

pub length-total : (es : List Entry) → length es ≤ total es
length-total [] = omega arith
length-total (e ∷ es) = omega (arith, length-total es)

pub Snoc-cases :
    (es : List Entry)
    → (es ≡ []) ⊎ ((front : List Entry) × ((x : Entry) × (es ≡ front ++ (x ∷ []))))
Snoc-cases [] = inl refl
Snoc-cases (e ∷ es) = elim (Snoc-cases es) [
  | inl h ↦ inr ([], (e, ap (λ t. e ∷ t) h))
  | inr (front, (x, h)) ↦ inr (e ∷ front, (x, ap (λ t. e ∷ t) h))
]

-- An entry behind its first size.
abbrev entry_rest : List ℕ → List ℕ → List ℕ
entry_rest name value =
    to_le_bytes 8 (length name)
    ++ (to_le_bytes 8 (length value) ++ (name ++ (value ++ to_le_bytes 8 (size_of (name, value)))))

module _ (t : DynamicTable) (es : List Entry) (name value : List ℕ)
    (v : IsTable t (es ++ ((name, value) ∷ []))) where
  front_bytes : t.buffer ≡ entry_bytes name value ++ table_bytes es
  front_bytes = v.bytes ∙ table_bytes-snoc es name value

  -- `evict` takes the oldest entry off.
  pub evict-oldest : {E : Type 0} → evict {E = E} t ≡ (ok tt, drain (size_of (name, value)) t)
  unfolding evict
  evict-oldest {E} =
      let small = total-snoc es (name, value) in
      rw
        (
          get_size-at {E = E} t [] (entry_rest name value ++ table_bytes es) 0
              (size_of (name, value))
              (front_bytes
                ∙ append_assoc (to_le_bytes 8 (size_of (name, value))) (entry_rest name value)
                    (table_bytes es))
              refl (omega (arith, v.bounded, v.agreed, v.word)),
          range-at {E = E} t [] (entry_bytes name value) (table_bytes es) 0 _ front_bytes refl
              (length-entry_bytes name value),
        )
        refl

  pub drain-IsTable : IsTable (drain (size_of (name, value)) t) es
  drain-IsTable =
      let sum = total-snoc es (name, value) in
      let many = length-append es ((name, value) ∷ []) in
      let few = length-total es in
      record {
        bytes =
            ap (drop (size_of (name, value))) front_bytes
            ∙ drop-append _ (entry_bytes name value) (table_bytes es)
                (length-entry_bytes name value);
        count = omega (arith, v.count, v.bounded, v.agreed, v.word);
        bounded = omega (arith, v.bounded);
        agreed = v.agreed;
        word = v.word;
      }
