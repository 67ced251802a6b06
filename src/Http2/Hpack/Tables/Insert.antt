-- ===== src/Http2/Hpack/Tables/Insert.antt =====
-- `insert` on the list of entries.
use proxy_rs.Prelude.{
  ℕ, zero, suc, ◌+◌, ◌-◌, ◌≤◌, ◌<◌, ◌≡◌, ◌∙◌, refl, sym, ap, true, false, List, [], ◌∷◌, ◌++◌,
  length, leb, ltb, arith, length-append, if◌then◌else◌, Bool-cases, inl, inr, leb→le, ltb→lt,
  le→leb, not-ltb→le, lt→ltb, le→not-ltb, lt→not-leb, ne→==-false,
}
use proxy_rs.Io.{M, ok}
use proxy_rs.Http2.Hpack.Tables.{
  DynamicTable, drain, evict, make_room, entry_bytes, add_entry, insert,
}
use proxy_rs.Http2.Hpack.Tables.Entries.{Entry, IsTable, size_of, total, length-table_bytes}
use proxy_rs.Http2.Hpack.Tables.Room.{
  keep, keep-fits, keep-snoc, total-snoc, total-keep, length-total, Snoc-cases, evict-oldest,
  drain-IsTable,
}

-- A call returns `a` and leaves a table with the entries `es`, its limits as they were.
abbrev pub Leaves : {E A : Type 0} → DynamicTable → M DynamicTable E A → A → List Entry → Type 0
Leaves t m a es =
    (t' : DynamicTable) × ((m t ≡ (ok a, t'))
      × (IsTable t' es × ((t'.max_size ≡ t.max_size) × (t'.permitted_size ≡ t.permitted_size))))

abbrev pub kept : ℕ → ℕ → List Entry → List Entry
kept max size es = if leb size max then keep (max - size) es else []

kept-fits : (max size : ℕ) (es : List Entry) → total es + size ≤ max → kept max size es ≡ es
kept-fits max size es h =
    rw (le→leb size max (omega arith), keep-fits (max - size) es (omega arith)) refl

kept-snoc :
    (max size : ℕ) (es : List Entry) (x : Entry)
    → max < total (es ++ (x ∷ [])) + size
    → kept max size (es ++ (x ∷ [])) ≡ kept max size es
kept-snoc max size es x h = elim (Bool-cases (leb size max)) [
  | inl fits ↦ let k = leb→le _ _ fits in rw (fits, keep-snoc (max - size) es x (omega arith)) refl
  | inr over ↦ rw over refl
]

module _ {E : Type 0} (size : ℕ) where
  make_room-fits :
      (fuel : ℕ) (t : DynamicTable)
      → length t.buffer + size ≤ t.max_size
      → make_room {E = E} (suc fuel) size t ≡ (ok true, t)
  unfolding make_room
  make_room-fits fuel t h = rw (le→not-ltb t.max_size (length t.buffer + size) h) refl

  make_room-empty :
      (fuel : ℕ) (t : DynamicTable)
      → t.max_size < size
      → length t.buffer ≡ 0
      → make_room {E = E} (suc fuel) size t ≡ (ok false, t)
  unfolding make_room
  make_room-empty fuel t h e = rw (e, lt→ltb t.max_size (0 + size) (omega arith)) refl

  make_room-evicts :
      (fuel : ℕ) (t t' : DynamicTable)
      → t.max_size < length t.buffer + size
      → 0 < length t.buffer
      → evict {E = E} t ≡ (ok tt, t')
      → make_room {E = E} (suc fuel) size t ≡ make_room fuel size t'
  unfolding make_room
  make_room-evicts fuel t t' h e ev =
      rw
        (
          lt→ltb t.max_size (length t.buffer + size) h,
          ne→==-false (length t.buffer) 0 (λ z. omega arith),
          ev,
        )
        refl

  room_of_none :
      (fuel : ℕ) (t : DynamicTable) (es : List Entry)
      → IsTable t es
      → length t.buffer ≡ total es
      → t.max_size < total es + size
      → es ≡ []
      → Leaves {E = E} t (make_room (suc fuel) size) (leb size t.max_size) (kept t.max_size size es)
  room_of_none fuel t es v len over none =
      let empty : total es ≡ 0 = ap total none in
      let large = lt→not-leb size t.max_size (omega arith) in
      (
        t,
        (
          make_room-empty fuel t (omega arith) (omega arith) ∙ ap (λ b. (ok b, t)) (sym large),
          (rw (large) (rw none at v), (refl, refl)),
        ),
      )

  -- The loop ends, and keeps the newest entries that leave enough room.
  make_room-keeps :
      (fuel : ℕ) (t : DynamicTable) (es : List Entry)
      → IsTable t es
      → 0 < size
      → length es < fuel
      → Leaves {E = E} t (make_room fuel size) (leb size t.max_size) (kept t.max_size size es)
  make_room-keeps zero t es v pos h = absurd (omega arith)
  make_room-keeps (suc fuel) t es v pos h =
      let len : length t.buffer ≡ total es = ap length v.bytes ∙ length-table_bytes es in
      elim (Bool-cases (ltb t.max_size (total es + size))) [
        | inr fits ↦
            let k = not-ltb→le _ _ fits in
            (
              t,
              (
                make_room-fits fuel t (omega arith)
                    ∙ ap (λ b. (ok b, t)) (sym (le→leb size t.max_size (omega arith))),
                (rw (kept-fits t.max_size size es k) v, (refl, refl)),
              ),
            )
        | inl over ↦ elim (Snoc-cases es) [
          | inl none ↦ room_of_none fuel t es v len (ltb→lt _ _ over) none
          | inr (front, ((name, value), e)) ↦
              let k = ltb→lt _ _ over in
              let w : IsTable t (front ++ ((name, value) ∷ [])) = rw e at v in
              let sum : total es ≡ total front + size_of (name, value) =
                ap total e ∙ total-snoc front (name, value) in
              let many : length es ≡ length front + 1 =
                ap length e ∙ length-append front ((name, value) ∷ []) in
              let (t', (run, (v', (m, p)))) =
                make_room-keeps fuel (drain (size_of (name, value)) t) front
                  (drain-IsTable t front name value w) pos (omega arith) in
              (
                t',
                (
                  make_room-evicts fuel t (drain (size_of (name, value)) t) (omega arith)
                        (omega arith) (evict-oldest t front name value w)
                      ∙ run,
                  (
                    rw
                        (
                          e,
                          kept-snoc t.max_size size front (name, value)
                              (omega (arith, total-snoc front (name, value))),
                        )
                        v',
                    (m, p),
                  ),
                ),
              )
        ]
      ]

-- The table with an entry more, or with none where the entry alone is too large.
abbrev pub inserted : ℕ → Entry → List Entry → List Entry
inserted max e es = if leb (size_of e) max then e ∷ keep (max - size_of e) es else []

add_entry-IsTable :
    (t : DynamicTable) (es : List Entry) (name value : List ℕ)
    → IsTable t es
    → total es + size_of (name, value) ≤ t.max_size
    → IsTable (add_entry name value t) ((name, value) ∷ es)
add_entry-IsTable t es name value v h = record {
  bytes = ap (λ b. b ++ entry_bytes name value) v.bytes;
  count = omega (arith, v.count);
  bounded = h;
  agreed = v.agreed;
  word = v.word;
}

-- `insert` on a table that holds these entries returns, without a panic, and leaves the new entry in
-- front of the newest of the others that fit beside it, or an empty table where the entry alone is
-- larger than the table.
pub insert-inserted :
    {E : Type 0} (t : DynamicTable) (es : List Entry) (name value : List ℕ)
    → IsTable t es
    → Leaves {E = E} t (insert name value) tt (inserted t.max_size (name, value) es)
unfolding insert
insert-inserted {E} t es name value v =
    let size = size_of (name, value) in
    let len : length t.buffer ≡ total es = ap length v.bytes ∙ length-table_bytes es in
    let (t', (run, (v', (m, p)))) =
      make_room-keeps {E = E} size (length t.buffer + 1) t es v (omega arith)
        (omega (arith, length-total es)) in
    elim (Bool-cases (leb size t.max_size)) [
      | inl fits ↦
          let k = leb→le _ _ fits in
          (
            add_entry name value t',
            (
              rw (run, fits) refl,
              (
                rw fits (
                    add_entry-IsTable t' (keep (t.max_size - size) es) name value (rw fits at v')
                      (omega (arith, total-keep (t.max_size - size) es))),
                (m, p),
              ),
            ),
          )
      | inr over ↦ (t', (rw (run, over) refl, (rw over (rw over at v'), (m, p))))
    ]
