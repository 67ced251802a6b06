-- ===== src/Http2/StaticIndex/Correct/Names.antt =====
-- The names that the hash finds.
use proxy_rs.Prelude.{
  ℕ, zero, suc, ◌+◌, ◌≡◌, ◌∙◌, refl, sym, ap, Bool, true, false, not, ◌&&◌, ◌||◌, none, some, List,
  [], ◌∷◌, ◌++◌, length, get_elem?, take, drop, ltb, ◌==◌, ==_iff, bytes_eq, bytes_eq→eq,
  Bool-cases, inl, inr, arith, take-append-drop, ◌⊎◌,
}
use proxy_rs.Io.{ok, err, panic}
use proxy_rs.Http2.SipHash.{SipHash, init, add, digest}
use proxy_rs.Http2.Hpack.Tables.Static.{StaticEntry, static_table}
use proxy_rs.Http2.StaticIndex.{header_map, hash_of, Found, probe, at_entry}
use proxy_rs.Http2.StaticIndex.Correct.{best, absent, best-absent, right_rest, from_entry-best}

abbrev pub Place : Type 0
Place = List ℕ × ℕ

-- Whether the map has this name: every name of the static table but the four of a request, that is
-- `:authority`, `:method`, `:path` and `:scheme`.
abbrev pub in_map : List ℕ → List Place → Bool
in_map name [] = false
in_map name ((n, i) ∷ rest) = bytes_eq n name || in_map name rest

abbrev pub no_hash : SipHash
no_hash = record { v0 = 0; v1 = 0; v2 = 0; v3 = 0; dgst_len = 0; dgst_buf = [] }

abbrev pub is_place : ℕ → Found → Bool
is_place n (ok none) = false
is_place n (ok (some i)) = i == n
is_place n (err e) = false
is_place n panic = false

abbrev head_right : List ℕ → List StaticEntry → Bool
head_right name [] = false
head_right name (e ∷ rest) = bytes_eq e.name name && right_rest name rest e.value

-- The entries in front, and those from the index on.
abbrev pub table_right : List ℕ → ℕ → List StaticEntry → List StaticEntry → Bool
table_right name i front back = absent name front && (length front == i && head_right name back)

abbrev pub too_short_or_long : List ℕ → Bool
too_short_or_long name = length name == 0 || ltb 27 (length name)

abbrev pub entry_right : ℕ → Place → Bool
entry_right n (name, i) =
    not (too_short_or_long name)
    && (is_place n (probe 3 0 (hash_of no_hash name).0 name)
        && table_right name i (take i static_table) (drop i static_table))

abbrev all_right : ℕ → List Place → Bool
all_right n [] = true
all_right n (p ∷ rest) = entry_right n p && all_right (suc n) rest

-- Every name of the map is found where it stands, and its index is that of its first entry.
pub header_map-right : all_right 0 header_map ≡ true
unfolding hash_of probe init add digest static_table take drop bytes_eq
header_map-right = refl

pub and_split : (a b : Bool) → (a && b) ≡ true → (a ≡ true) × (b ≡ true)
and_split true b h = (refl, h)
and_split false b h = absurd cc

pub all_right-at :
    (k n : ℕ) (l : List Place) (p : Place)
    → all_right k l ≡ true
    → get_elem? l n ≡ some p
    → entry_right (k + n) p ≡ true
all_right-at k n [] p h e = absurd cc
all_right-at k zero (q ∷ l) p h e =
    let same : q ≡ p = cc in
    let (here, _) = and_split (entry_right k q) (all_right (suc k) l) h in
    ap (λ m. entry_right m p) (omega arith) ∙ ap (entry_right k) (sym same) ∙ here
all_right-at k (suc n) (q ∷ l) p h e =
    let (_, more) = and_split (entry_right k q) (all_right (suc k) l) h in
    ap (λ m. entry_right m p) (omega arith) ∙ all_right-at (suc k) n l p more e

pub in_map-at :
    (name : List ℕ) (l : List Place)
    → in_map name l ≡ true
    → (n : ℕ) × ((i : ℕ) × (get_elem? l n ≡ some (name, i)))
in_map-at name [] h = absurd cc
in_map-at name ((n, i) ∷ l) h = elim (Bool-cases (bytes_eq n name)) [
  | inl hit ↦ (0, (i, ap (λ t. some (t, i)) (bytes_eq→eq n name hit)))
  | inr miss ↦
      let more : in_map name l ≡ true = sym (ap (λ t. t || in_map name l) miss) ∙ h in
      let (k, (j, e)) = in_map-at name l more in (suc k, (j, e))
]

pub is_place-found : (n : ℕ) (r : Found) → is_place n r ≡ true → r ≡ ok (some n)
is_place-found n (ok none) h = absurd cc
is_place-found n (ok (some i)) h = ap (λ t. ok (some t)) ((==_iff i n).0 h)
is_place-found n (err e) h = absurd cc
is_place-found n panic h = absurd cc

pub not-false : (b : Bool) → not b ≡ true → b ≡ false
not-false true h = absurd cc
not-false false h = refl

get_elem?-drop :
    {A : Type 0} (i : ℕ) (t : List A) (e : A) (rest : List A)
    → drop i t ≡ e ∷ rest
    → get_elem? t i ≡ some e
unfolding drop
get_elem?-drop zero [] e rest h = absurd cc
get_elem?-drop (suc i) [] e rest h = absurd cc
get_elem?-drop zero (x ∷ t) e rest h = let same : x ≡ e = cc in ap some same
get_elem?-drop (suc i) (x ∷ t) e rest h = get_elem?-drop i t e rest h

List-cases : {A : Type 0} (t : List A) → (t ≡ []) ⊎ ((e : A) × ((rest : List A) × (t ≡ e ∷ rest)))
List-cases [] = inl refl
List-cases (e ∷ rest) = inr (e, (rest, refl))

-- The entry of a right index gives the best index.
pub at_entry-best :
    (name value : List ℕ) (i : ℕ)
    → table_right name i (take i static_table) (drop i static_table) ≡ true
    → at_entry name value i (get_elem? static_table i) ≡ ok (best name value 1 static_table)
at_entry-best name value i h =
    let front = take i static_table in
    let (gone, h') =
      and_split (absent name front) (length front == i && head_right name (drop i static_table))
        h in
    let (size, head) = and_split (length front == i) (head_right name (drop i static_table)) h' in
    elim (List-cases (drop i static_table)) [
      | inl nothing ↦ let no : false ≡ true = sym (ap (head_right name) nothing) ∙ head in absurd cc
      | inr (e, (rest, there)) ↦
          let (hit, right) =
            and_split (bytes_eq e.name name) (right_rest name rest e.value)
              (sym (ap (head_right name) there) ∙ head) in
          ap (at_entry name value i) (get_elem?-drop i static_table e rest there)
          ∙ from_entry-best name value i e.name e.value rest there hit right
          ∙ ap ok (
              ap (λ k. best name value k (e ∷ rest))
                (let k = (==_iff (length front) i).0 size in omega arith)
              ∙ sym (best-absent name value 1 front (e ∷ rest) gone)
              ∙ ap (λ t. best name value 1 (front ++ t)) (sym there)
              ∙ ap (best name value 1) (take-append-drop i static_table))
    ]
