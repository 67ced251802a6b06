-- ===== src/Http2/Hpack/Tables/Copied.antt =====
-- `HeaderTable::get` copies the entry of an index behind what the caller's buffers hold.
use proxy_rs.Prelude.{
  ℕ, zero, suc, ◌+◌, ◌-◌, ◌^◌, ◌≤◌, ◌<◌, ◌≡◌, refl, Option, none, some, List, [], ◌∷◌, leb, ◌==◌,
  if◌then◌else◌, length, get_elem?, arith, Bool-cases, inl, inr, leb→le,
}
use proxy_rs.Buffer.{Buffer, IsValid, push_slice, extend}
use proxy_rs.Buffer.Contents.{IsAppended, push_slice-IsAppended}
use proxy_rs.Buffer.Extend.{extend-IsAppended}
use proxy_rs.Io.{ok}
use proxy_rs.Http2.Hpack.Tables.{DynamicTable}
use proxy_rs.Http2.Hpack.Tables.Static.{StaticEntry, static_table}
use proxy_rs.Http2.Hpack.Tables.Entries.{Entry, IsTable}
use proxy_rs.Http2.Hpack.Tables.Lookup.{get_entry-lookup}
use proxy_rs.Http2.Hpack.Tables.Header.{
  Copy, push_value, extend_value, copy_static, copy_entry, header_get,
}

-- An entry of either table; those of the static one may lack a value.
abbrev pub Found : Type 0
Found = Option (List ℕ × Option (List ℕ))

abbrev pub of_static : Option StaticEntry → Found
of_static none = none
of_static (some entry) = some (entry.name, entry.value)

abbrev pub of_entry : Option Entry → Found
of_entry none = none
of_entry (some (n, v)) = some (n, some v)

-- RFC 7541 counts the static entries from 1 and the dynamic ones behind them.
abbrev pub lookup : List Entry → ℕ → Found
lookup es index =
    if index == 0
    then none
    else if leb index 61
    then of_static (get_elem? static_table (index - 1))
    else of_entry (get_elem? es (index - 62))

-- The entry fits behind what the buffers hold.
abbrev pub ValueFits : Option Buffer → Option (List ℕ) → Type 0
ValueFits (some w) (some v) = IsValid w × (w.len + length v ≤ 2 ^ 63)
ValueFits (some w) none = Unit {0}
ValueFits none v = Unit {0}

abbrev pub Fits : Buffer → Option Buffer → Found → Type 0
Fits name value none = Unit {0}
Fits name value (some (n, v)) = (name.len + length n ≤ 2 ^ 63) × ValueFits value v

-- What the caller has in the end.
abbrev pub ValueCopied : Option Buffer → Option (List ℕ) → Option Buffer → Type 0
ValueCopied (some w) (some v) r = (b : Buffer) × ((r ≡ some b) × IsAppended w v b)
ValueCopied (some w) none r = r ≡ some w
ValueCopied none v r = r ≡ none

abbrev pub Copied : Buffer → Option Buffer → Found → Copy → Type 0
Copied name value none r = r ≡ none
Copied name value (some (n, v)) r =
    (b : Buffer) × ((w : Option Buffer) × ((r ≡ some (b, w))
        × (IsAppended name n b × ValueCopied value v w)))

pushed :
    (value : Option Buffer) (v : Option (List ℕ))
    → ValueFits value v
    → ValueCopied value v (push_value value v)
pushed (some w) (some v) (wv, h) = (push_slice w v, (refl, push_slice-IsAppended w wv v h))
pushed (some w) none h = refl
pushed none (some v) h = refl
pushed none none h = refl

extended :
    (value : Option Buffer) (v : List ℕ)
    → ValueFits value (some v)
    → ValueCopied value (some v) (extend_value value v)
extended (some w) v (wv, h) = (extend w v, (refl, extend-IsAppended v w wv h))
extended none v h = refl

module _ {E : Type 0} (t : DynamicTable) (name : Buffer) (value : Option Buffer)
    (nv : IsValid name) where
  copy_static-Copied :
      (o : Option StaticEntry)
      → Fits name value (of_static o)
      → (entry : StaticEntry) → o ≡ some entry
      → (r : Copy) × ((copy_static {E = E} o name value t ≡ (ok r, t))
          × Copied name value (of_static o) r)
  copy_static-Copied none h entry e = cc
  copy_static-Copied (some x) (hn, hv) entry e = (
    some (push_slice name x.name, push_value value x.value),
    (
      refl,
      (
        push_slice name x.name,
        (
          push_value value x.value,
          (refl, (push_slice-IsAppended name nv x.name hn, pushed value x.value hv)),
        ),
      ),
    ),
  )

  copy_entry-Copied :
      (o : Option Entry)
      → Fits name value (of_entry o)
      → (r : Copy) × ((copy_entry {E = E} name value o t ≡ (ok r, t))
          × Copied name value (of_entry o) r)
  copy_entry-Copied none h = (none, (refl, refl))
  copy_entry-Copied (some (n, v)) (hn, hv) = (
    some (extend name n, extend_value value v),
    (
      refl,
      (
        extend name n,
        (extend_value value v, (refl, (extend-IsAppended n name nv hn, extended value v hv))),
      ),
    ),
  )

get_elem?-some :
    (xs : List StaticEntry) (i : ℕ) → i < length xs → (x : StaticEntry) × (get_elem? xs i ≡ some x)
get_elem?-some [] i h = absurd (omega arith)
get_elem?-some (x ∷ xs) zero h = (x, refl)
get_elem?-some (x ∷ xs) (suc i) h = get_elem?-some xs i (omega arith)

static_size : length static_table ≡ 61
unfolding static_table
static_size = refl

-- `HeaderTable::get` on a table that holds these entries returns without a panic, and copies the
-- entry of the index, static or dynamic, behind what the valid buffers of the caller hold, where it
-- fits: the name, and the value if the caller wants it and the entry has one. There is no entry at
-- 0 or past the last.
pub header_get-Copied :
    {E : Type 0} (t : DynamicTable) (es : List Entry) (index : ℕ) (name : Buffer)
    (value : Option Buffer)
    → IsTable t es
    → IsValid name
    → Fits name value (lookup es index)
    → (r : Copy) × ((header_get {E = E} index name value t ≡ (ok r, t))
        × Copied name value (lookup es index) r)
unfolding header_get
header_get-Copied {E} t es index name value it nv h = elim (Bool-cases (index == 0)) [
  | inl e ↦ rw e (none, (refl, refl))
  | inr e ↦ elim (Bool-cases (leb index 61)) [
    | inl near ↦
        let k = leb→le _ _ near in
        let (x, here) = get_elem?-some static_table (index - 1) (omega (arith, static_size)) in
        rw (e, near)
          (copy_static-Copied {E = E} t name value nv (get_elem? static_table (index - 1))
            (rw (e, near) at h) x here)
    | inr far ↦
        rw (e, far, get_entry-lookup {E = E} t es (index - 62) it)
          (copy_entry-Copied {E = E} t name value nv (get_elem? es (index - 62)) (rw (e, far) at h))
  ]
]
