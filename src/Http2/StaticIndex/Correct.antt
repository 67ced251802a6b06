-- ===== src/Http2/StaticIndex/Correct.antt =====
-- The index that the hash finds is that of the static table.
pub mod Names
pub mod Index
use proxy_rs.Prelude.{
  ℕ, zero, suc, ◌+◌, ◌≤◌, ◌<◌, ◌≡◌, ◌≢◌, ◌∙◌, refl, sym, ap, Bool, true, false, not, ◌&&◌, ◌||◌,
  Option, none, some, List, [], ◌∷◌, ◌++◌, length, get_elem?, take, drop, ltb, ◌==◌, if◌then◌else◌,
  bytes_eq, Bool-cases, inl, inr, arith, take-append-drop,
}
use proxy_rs.Io.{Outcome, ok, err, panic}
use proxy_rs.Http2.Hpack.Tables.Static.{StaticEntry, static_table}
use proxy_rs.Http2.StaticIndex.{has_value, scan, from_entry}

-- The first entry with this name and this value, and the first with this name.
abbrev pub exact : List ℕ → List ℕ → ℕ → List StaticEntry → Option ℕ
exact name value n [] = none
exact name value n (e ∷ rest) =
    let more = exact name value (suc n) rest in
    if bytes_eq e.name name then (if has_value e.value value then some n else more) else more

abbrev pub named : List ℕ → ℕ → List StaticEntry → Option ℕ
named name n [] = none
named name n (e ∷ rest) =
    let more = named name (suc n) rest in if bytes_eq e.name name then some n else more

abbrev pub or_else : Option ℕ → Option ℕ → Option ℕ
or_else none o = o
or_else (some n) o = some n

abbrev pub best : List ℕ → List ℕ → ℕ → List StaticEntry → Option ℕ
best name value n t = or_else (exact name value n t) (named name n t)

abbrev pub absent : List ℕ → List StaticEntry → Bool
absent name [] = true
absent name (e ∷ rest) = let more = absent name rest in if bytes_eq e.name name then false else more

-- Entries of the name, and then others, of which there is one or more.
abbrev pub grouped : List ℕ → List StaticEntry → Bool
grouped name [] = false
grouped name (e ∷ rest) =
    let more = grouped name rest in if bytes_eq e.name name then more else absent name rest

exact-absent :
    (name value : List ℕ) (n : ℕ) (t : List StaticEntry)
    → absent name t ≡ true
    → exact name value n t ≡ none
exact-absent name value n [] h = refl
exact-absent name value n (e ∷ rest) h = elim (Bool-cases (bytes_eq e.name name)) [
  | inl hit ↦
      let no : false ≡ true = sym (ap (λ t. if t then false else absent name rest) hit) ∙ h in
      absurd cc
  | inr miss ↦
      let more : absent name rest ≡ true =
        sym (ap (λ t. if t then false else absent name rest) miss) ∙ h in
      rw miss (exact-absent name value (suc n) rest more)
]

-- Entries in front of other names only count.
pub best-absent :
    (name value : List ℕ) (n : ℕ) (front back : List StaticEntry)
    → absent name front ≡ true
    → best name value n (front ++ back) ≡ best name value (n + length front) back
best-absent name value n [] back h = ap (λ k. best name value k back) (omega arith)
best-absent name value n (e ∷ front) back h = elim (Bool-cases (bytes_eq e.name name)) [
  | inl hit ↦
      let no : false ≡ true = sym (ap (λ t. if t then false else absent name front) hit) ∙ h in
      absurd cc
  | inr miss ↦
      let more : absent name front ≡ true =
        sym (ap (λ t. if t then false else absent name front) miss) ∙ h in
      rw miss (
        best-absent name value (suc n) front back more
        ∙ ap (λ k. best name value k back) (omega arith))
]

-- The loop is a search for the exact entry.
pub scan-grouped :
    (name value : List ℕ) (first test : ℕ) (t : List StaticEntry)
    → grouped name t ≡ true
    → scan name value first test t ≡ ok (or_else (exact name value (suc test) t) (some (suc first)))
scan-grouped name value first test [] h = absurd cc
scan-grouped name value first test (e ∷ rest) h = elim (Bool-cases (bytes_eq e.name name)) [
  | inl hit ↦
      let more : grouped name rest ≡ true =
        sym (ap (λ t. if t then grouped name rest else absent name rest) hit) ∙ h in
      elim (Bool-cases (has_value e.value value)) [
        | inl same ↦ rw (hit, same) refl
        | inr other ↦ rw (hit, other) (scan-grouped name value first (suc test) rest more)
      ]
  | inr miss ↦
      let more : absent name rest ≡ true =
        sym (ap (λ t. if t then grouped name rest else absent name rest) miss) ∙ h in
      rw (miss, exact-absent name value (suc (suc test)) rest more) refl
]

-- What the search needs of the entries behind the first of a name: one without a value is alone.
abbrev pub right_rest : List ℕ → List StaticEntry → Option (List ℕ) → Bool
right_rest name rest none = absent name rest
right_rest name rest (some v) = grouped name rest

pub from_entry-best :
    (name value : List ℕ) (index : ℕ) (n : List ℕ) (o : Option (List ℕ)) (rest : List StaticEntry)
    → drop index static_table ≡ record { name = n; value = o } ∷ rest
    → bytes_eq n name ≡ true
    → right_rest name rest o ≡ true
    → from_entry name value index o
      ≡ ok (best name value (suc index) (record { name = n; value = o } ∷ rest))
from_entry-best name value index n none rest e hit h =
    rw (hit, exact-absent name value (suc (suc index)) rest h) refl
from_entry-best name value index n (some v) rest e hit h =
    let all : List StaticEntry = record { name = n; value = some v } ∷ rest in
    let block : grouped name all ≡ true = rw hit h in
    ap (scan name value index index) e ∙ scan-grouped name value index index all block ∙ rw hit refl
