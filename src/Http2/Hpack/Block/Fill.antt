-- ===== src/Http2/Hpack/Block/Fill.antt =====
-- What the buffers of the caller hold after the parts of a field.
use proxy_rs.Prelude.{
  ℕ, zero, suc, ◌+◌, ◌-◌, ◌^◌, ◌≤◌, ◌≡◌, ◌∙◌, refl, sym, ap, Bool, true, false, none, some, List,
  [], ◌∷◌, ◌++◌, ◌&&◌, ◌==◌, leb, length, get_elem?, arith, append-nil, append_assoc, Bool-cases,
  inl, inr,
}
use proxy_rs.Buffer.{Buffer, IsValid, as_slice, clear, push}
use proxy_rs.Buffer.Contents.{
  IsAppended, push-IsAppended, push_slice-IsAppended, append-IsAppended, clear-IsValid,
  reserve_len-IsReserved,
}
use proxy_rs.Http2.Hpack.Tables.{DynamicTable}
use proxy_rs.Http2.Hpack.Tables.Static.{StaticEntry, static_table}
use proxy_rs.Http2.Hpack.Tables.Entries.{Entry, IsTable, total}
use proxy_rs.Http2.Hpack.Tables.Copied.{Found, lookup, of_static, of_entry}
use proxy_rs.Http2.Hpack.Block.{push_all, fill}

-- A buffer of the caller that holds these bytes.
pub record Holds (b : Buffer) (s : List ℕ) : Type 0 where
  pub valid : IsValid b
  pub contents : as_slice b ≡ s

pub clear-len : (b : Buffer) → (clear b).len ≡ 0
unfolding clear
clear-len b = refl

pub clear-Holds : (b : Buffer) → IsValid b → Holds (clear b) []
clear-Holds b v = let (cv, ce) = clear-IsValid b v in record { valid = cv; contents = ce }

-- What is appended to a buffer that was cleared is all that it holds.
pub appended-Holds :
    (b b' : Buffer) (s : List ℕ) → IsValid b → IsAppended (clear b) s b' → Holds b' s
appended-Holds b b' s v a = record {
  valid = a.valid;
  contents = a.contents ∙ ap (λ t. t ++ s) (clear-Holds b v).contents;
}

push_all-IsAppended :
    (xs : List ℕ) (b : Buffer)
    → IsValid b
    → b.len + length xs ≤ 2 ^ 63
    → IsAppended b xs (push_all b xs)
push_all-IsAppended [] b v h = record {
  valid = v;
  longer = omega arith;
  contents = sym (append-nil _);
}
push_all-IsAppended (x ∷ xs) b v h =
    let p = push-IsAppended b v x (omega arith) in
    let w = push_all-IsAppended xs (push b x) p.valid (omega (arith, p.longer)) in
    record {
      valid = w.valid;
      longer = omega (arith, p.longer, w.longer);
      contents = w.contents ∙ rw p.contents (append_assoc (as_slice b) (x ∷ []) xs);
    }

-- `parse_string` leaves its string in the buffer, whichever way it fills it.
pub fill-Holds :
    (huffman : Bool) (out : Buffer) (s : List ℕ)
    → IsValid out
    → length s ≤ 2 ^ 63
    → Holds (fill huffman out s) s
unfolding fill
fill-Holds true out s v h =
    appended-Holds out _ s v
      (push_all-IsAppended s (clear out) (clear-Holds out v).valid (omega (arith, clear-len out)))
fill-Holds false out s v h =
    let r = reserve_len-IsReserved (clear out) (clear-Holds out v).valid (length s) h in
    let p = push_slice-IsAppended _ r.valid s (omega (arith, r.same_len, clear-len out)) in
    appended-Holds out _ s v (append-IsAppended (clear out) _ _ s _ r p)

-- The length of the name and of the value that the tables have at an index.
abbrev pub found_len : Found → ℕ
found_len none = 0
found_len (some (n, none)) = length n
found_len (some (n, some v)) = length n + length v

short_static : List StaticEntry → Bool
short_static [] = true
short_static (e ∷ es) = leb (found_len (of_static (some e))) 100 && short_static es

static_short : short_static static_table ≡ true
unfolding short_static static_table
static_short = refl

static_len :
    (xs : List StaticEntry) (i : ℕ)
    → short_static xs ≡ true
    → found_len (of_static (get_elem? xs i)) ≤ 100
unfolding short_static
static_len [] i h = omega arith
static_len (x ∷ xs) zero h = ground arith
static_len (x ∷ xs) (suc i) h = static_len xs i (ground arith)

entry_len : (es : List Entry) (i : ℕ) → found_len (of_entry (get_elem? es i)) ≤ total es
entry_len [] i = omega arith
entry_len ((n, v) ∷ es) zero = omega arith
entry_len (e ∷ es) (suc i) = omega (arith, entry_len es i)

-- An entry of either table is no longer than the dynamic table may grow, or short.
pub lookup_len :
    (t : DynamicTable) (es : List Entry) (index : ℕ)
    → IsTable t es
    → t.permitted_size ≤ 2 ^ 63
    → found_len (lookup es index) ≤ 2 ^ 63
lookup_len t es index it h = elim (Bool-cases (index == 0)) [
  | inl e ↦ rw e (omega arith)
  | inr e ↦ elim (Bool-cases (leb index 61)) [
    | inl near ↦ rw (e, near) (omega (arith, static_len static_table (index - 1) static_short))
    | inr far ↦ rw (e, far) (omega (arith, entry_len es (index - 62), it.bounded, it.agreed))
  ]
]
