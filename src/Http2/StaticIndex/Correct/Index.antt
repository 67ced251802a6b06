-- ===== src/Http2/StaticIndex/Correct/Index.antt =====
-- `get_static_header_index` against the static table.
use proxy_rs.Prelude.{
  ℕ, zero, suc, ◌+◌, ◌%◌, ◌<◌, ◌≡◌, ◌∙◌, refl, sym, ap, Bool, true, false, not, ◌&&◌, ◌||◌, none,
  some, List, [], ◌∷◌, length, get_elem?, take, drop, if◌then◌else◌, bytes_eq, Bool-cases, inl, inr,
  arith,
}
use proxy_rs.Io.{ok}
use proxy_rs.Http2.SipHash.{SipHash, init}
use proxy_rs.Http2.Hpack.Tables.Static.{static_table}
use proxy_rs.Http2.StaticIndex.{
  header_map, hash_of, same_start, Found, check_entry, probe, at_place, with_place,
  get_static_header_index,
}
use proxy_rs.Http2.StaticIndex.Correct.{best}
use proxy_rs.Http2.StaticIndex.Correct.Names.{
  Place, in_map, no_hash, is_place, too_short_or_long, table_right, entry_right, header_map-right,
  and_split, all_right-at, in_map-at, is_place-found, not-false, at_entry-best,
}

get_elem?-there : (n : ℕ) (l : List Place) → n < length l → (p : Place) × (get_elem? l n ≡ some p)
get_elem?-there n [] h = absurd (omega (arith, h))
get_elem?-there zero (p ∷ l) h = (p, refl)
get_elem?-there (suc n) (p ∷ l) h = get_elem?-there n l (omega (arith, h))

or_split : (a b : Bool) → (a || b) ≡ false → (a ≡ false) × (b ≡ false)
or_split true b h = absurd cc
or_split false b h = (refl, h)

other_name :
    (name : List ℕ) (n : ℕ) (l : List Place) (p : Place)
    → in_map name l ≡ false
    → get_elem? l n ≡ some p
    → bytes_eq p.0 name ≡ false
other_name name n [] p h e = absurd cc
other_name name zero (q ∷ l) p h e =
    let same : q ≡ p = cc in
    let (miss, _) = or_split (bytes_eq q.0 name) (in_map name l) h in
    ap (λ t. bytes_eq t.0 name) (sym same) ∙ miss
other_name name (suc n) (q ∷ l) p h e =
    let (_, more) = or_split (bytes_eq q.0 name) (in_map name l) h in other_name name n l p more e

check_entry-other :
    (next : Found) (name : List ℕ) (index : ℕ) (p : Place)
    → bytes_eq p.0 name ≡ false
    → next ≡ ok none
    → check_entry next name index (some p) ≡ ok none
check_entry-other next name index (n, i) h e = elim (Bool-cases (same_start 5 name n)) [
  | inl same ↦ rw (same, h) refl
  | inr other ↦ rw other e
]

probe-none :
    (more i start : ℕ) (name : List ℕ)
    → in_map name header_map ≡ false
    → probe more i start name ≡ ok none
unfolding probe
probe-none zero i start name h = refl
probe-none (suc more) i start name h =
    let index = (start + i) % 48 in
    let (p, e) = get_elem?-there index header_map (omega arith) in
    ap (check_entry (probe more (suc i) start name) name index) e
    ∙ check_entry-other (probe more (suc i) start name) name index p
        (other_name name index header_map p h e) (probe-none more (suc i) start name h)

-- The state before plays no part.
hash_any : (h : SipHash) (name : List ℕ) → hash_of h name ≡ hash_of no_hash name
unfolding hash_of init
hash_any h name = refl

abbrev searched : SipHash → List ℕ → List ℕ → Bool → Found
searched h name value t =
    if t then ok none else with_place name value (probe 3 0 (hash_of h name).0 name)

searched-is :
    (h : SipHash) (name value : List ℕ)
    → (get_static_header_index h name value).0 ≡ searched h name value (too_short_or_long name)
unfolding get_static_header_index
searched-is h name value = elim (Bool-cases (too_short_or_long name)) [
  | inl out ↦ rw out refl
  | inr within ↦ rw within refl
]

-- For every name of the header map, which are the names of the static table but the four of a request,
-- `get_static_header_index` gives the index, counted from 1, of the first entry of the static table with
-- this name and value, or that of the first with this name; for any other name it gives none. No index
-- is out of range. Neither the state of the hash nor a collision of names in it changes this.
pub static_index-best :
    (h : SipHash) (name value : List ℕ)
    → (get_static_header_index h name value).0
      ≡ ok (if in_map name header_map then best name value 1 static_table else none)
static_index-best h name value =
    searched-is h name value ∙ elim (Bool-cases (in_map name header_map)) [
      | inl there ↦
          let (n, (i, e)) = in_map-at name header_map there in
          let same : n ≡ 0 + n = omega arith in
          let right =
            ap (λ m. entry_right m (name, i)) same
            ∙ all_right-at 0 n header_map (name, i) header_map-right e in
          let found = is_place n (probe 3 0 (hash_of no_hash name).0 name) in
          let entries = table_right name i (take i static_table) (drop i static_table) in
          let (fits, right') = and_split (not (too_short_or_long name)) (found && entries) right in
          let (place, table) = and_split found entries right' in
          ap (searched h name value) (not-false (too_short_or_long name) fits)
          ∙ ap (λ s. with_place name value (probe 3 0 s.0 name)) (hash_any h name)
          ∙ ap (with_place name value) (is_place-found n _ place)
          ∙ ap (at_place name value) e
          ∙ at_entry-best name value i table
          ∙ ap (λ t. ok (if t then best name value 1 static_table else none)) (sym there)
      | inr nowhere ↦
          elim (Bool-cases (too_short_or_long name)) [
            | inl out ↦ ap (searched h name value) out
            | inr within ↦
                ap (searched h name value) within
                ∙ ap (with_place name value) (probe-none 3 0 (hash_of h name).0 name nowhere)
          ]
          ∙ ap (λ t. ok (if t then best name value 1 static_table else none)) (sym nowhere)
    ]
