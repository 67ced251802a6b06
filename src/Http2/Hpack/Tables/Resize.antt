-- ===== src/Http2/Hpack/Tables/Resize.antt =====
-- `resize` on the list of entries.
use proxy_rs.Prelude.{
  ℕ, zero, suc, ◌+◌, ◌≤◌, ◌<◌, ◌≡◌, ◌∙◌, refl, ap, List, [], ◌∷◌, ◌++◌, length, ltb, arith,
  length-append, Bool-cases, inl, inr, ltb→lt, not-ltb→le, lt→ltb, le→not-ltb,
}
use proxy_rs.Io.{ok}
use proxy_rs.Http2.Hpack.Tables.{DynamicTable, drain, evict, evict_to, resize}
use proxy_rs.Http2.Hpack.Tables.Entries.{Entry, IsTable, size_of, total, length-table_bytes}
use proxy_rs.Http2.Hpack.Tables.Room.{
  keep, keep-fits, keep-snoc, total-snoc, total-keep, length-total, Snoc-cases, evict-oldest,
  drain-IsTable,
}
use proxy_rs.Http2.Hpack.Tables.Insert.{Leaves}

evict_to-done :
    {E : Type 0} (fuel new_size : ℕ) (t : DynamicTable)
    → length t.buffer ≤ new_size
    → evict_to {E = E} fuel new_size t ≡ (ok tt, t)
unfolding evict_to
evict_to-done zero new_size t h = refl
evict_to-done (suc fuel) new_size t h = rw (le→not-ltb new_size (length t.buffer) h) refl

evict_to-more :
    {E : Type 0} (fuel new_size : ℕ) (t t' : DynamicTable)
    → new_size < length t.buffer
    → evict {E = E} t ≡ (ok tt, t')
    → evict_to {E = E} (suc fuel) new_size t ≡ evict_to fuel new_size t'
unfolding evict_to
evict_to-more fuel new_size t t' h ev = rw (lt→ltb new_size (length t.buffer) h, ev) refl

evict_to-keeps :
    {E : Type 0} (fuel new_size : ℕ) (t : DynamicTable) (es : List Entry)
    → IsTable t es
    → length es ≤ fuel
    → Leaves {E = E} t (evict_to fuel new_size) tt (keep new_size es)
evict_to-keeps zero new_size t [] v h =
    (t, (evict_to-done zero new_size t (omega (arith, ap length v.bytes)), (v, (refl, refl))))
evict_to-keeps zero new_size t (e ∷ es) v h = absurd (omega arith)
evict_to-keeps {E} (suc fuel) new_size t es v h =
    let len : length t.buffer ≡ total es = ap length v.bytes ∙ length-table_bytes es in
    elim (Bool-cases (ltb new_size (total es))) [
      | inr fits ↦
          let k = not-ltb→le _ _ fits in
          (
            t,
            (
              evict_to-done (suc fuel) new_size t (omega arith),
              (rw (keep-fits new_size es k) v, (refl, refl)),
            ),
          )
      | inl over ↦ elim (Snoc-cases es) [
        | inl none ↦
            let k = ltb→lt _ _ over in
            let empty : total es ≡ 0 = ap total none in absurd (omega arith)
        | inr (front, ((name, value), e)) ↦
            let k = ltb→lt _ _ over in
            let w : IsTable t (front ++ ((name, value) ∷ [])) = rw e at v in
            let sum : total es ≡ total front + size_of (name, value) =
              ap total e ∙ total-snoc front (name, value) in
            let many : length es ≡ length front + 1 =
              ap length e ∙ length-append front ((name, value) ∷ []) in
            let (t', (run, (v', (m, p)))) =
              evict_to-keeps {E = E} fuel new_size (drain (size_of (name, value)) t) front
                (drain-IsTable t front name value w) (omega arith) in
            (
              t',
              (
                evict_to-more fuel new_size t (drain (size_of (name, value)) t) (omega arith)
                      (evict-oldest t front name value w)
                    ∙ run,
                (
                  rw
                      (
                        e,
                        keep-snoc new_size front (name, value)
                            (omega (arith, total-snoc front (name, value))),
                      )
                      v',
                  (m, p),
                ),
              ),
            )
      ]
    ]

-- `resize` keeps what is permitted as it was.
pub resize-entries :
    {E : Type 0} (t : DynamicTable) (es : List Entry) (new_size : ℕ)
    → IsTable t es
    → new_size ≤ t.permitted_size
    → (t' : DynamicTable) × ((resize {E = E} new_size t ≡ (ok tt, t'))
        × (IsTable t' (keep new_size es)
            × ((t'.max_size ≡ new_size) × (t'.permitted_size ≡ t.permitted_size))))
unfolding resize
resize-entries {E} t es new_size v h =
    let len : length t.buffer ≡ total es = ap length v.bytes ∙ length-table_bytes es in
    let (t', (run, (v', (m, p)))) =
      evict_to-keeps {E = E} (length t.buffer) new_size t es v (omega (arith, length-total es)) in
    (
      record t' { max_size = new_size },
      (
        rw (le→not-ltb t.permitted_size new_size h, run) refl,
        (
          record {
            bytes = v'.bytes;
            count = v'.count;
            bounded = total-keep new_size es;
            agreed = omega (arith, p);
            word = v'.word;
          },
          (refl, p),
        ),
      ),
    )

-- `resize` to a size that is permitted returns, without a panic, and leaves the newest entries that
-- fit in it, with that size as the limit.
pub resize-keep :
    {E : Type 0} (t : DynamicTable) (es : List Entry) (new_size : ℕ)
    → IsTable t es
    → new_size ≤ t.permitted_size
    → (t' : DynamicTable) × ((resize {E = E} new_size t ≡ (ok tt, t'))
        × (IsTable t' (keep new_size es) × (t'.max_size ≡ new_size)))
resize-keep {E} t es new_size v h =
    let (t', (run, (v', (m, p)))) = resize-entries {E = E} t es new_size v h in (t', (run, (v', m)))
