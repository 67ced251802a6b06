-- ===== src/Request/Lookup.antt =====
-- The headers of a request as the list of pairs that were added.
use proxy_rs.Prelude.{
  ℕ, zero, suc, ◌^◌, ◌≤◌, ◌≡◌, ◌∙◌, refl, sym, ap, true, false, Option, none, some, List, [], ◌∷◌,
  ◌++◌, length, get_elem?, if◌then◌else◌, bytes_eq, bytes_eq→eq, bytes_eq_refl, Bool-cases, inl,
  inr, append-nil, All,
}
use proxy_rs.Buffer.{Buffer, IsValid, as_slice, copy_slice}
use proxy_rs.Buffer.Contents.{copy_slice-contents}
use proxy_rs.Buffer.Lifetime.{IsValid-is_sane}
use proxy_rs.Foreign.{to}
use proxy_rs.Foreign.Bytes.{ConstBuffer, const_slice, const_is_sane}
use proxy_rs.Request.{
  HeaderMap, values_of, snoc, add_value, Request, count, copy_found, copy_value, http_get_header,
  http_get_header_count,
}

abbrev pub Pair : Type 0
Pair = List ℕ × List ℕ

-- The map after all pairs, the first one first.
abbrev pub add_all : HeaderMap → List Pair → HeaderMap
add_all m [] = m
add_all m ((n, v) ∷ rest) = add_all (add_value n v m) rest

-- The values of a name among pairs.
abbrev pub matching : List ℕ → List Pair → List (List ℕ)
matching name [] = []
matching name ((n, v) ∷ rest) =
    if bytes_eq n name then v ∷ matching name rest else matching name rest

-- What the map has for a name, with none for nothing.
abbrev pub kept : Option (List (List ℕ)) → List (List ℕ)
kept none = []
kept (some vs) = vs

snoc-append : {A : Type 0} (xs : List A) (x : A) (ys : List A) → snoc xs x ++ ys ≡ xs ++ (x ∷ ys)
snoc-append [] x ys = refl
snoc-append (y ∷ xs) x ys = ap (λ t. y ∷ t) (snoc-append xs x ys)

apart :
    (k n name : List ℕ) → bytes_eq k name ≡ true → bytes_eq k n ≡ false → bytes_eq n name ≡ false
apart k n name there other = elim (Bool-cases (bytes_eq n name)) [
  | inl hit ↦
      let e : bytes_eq k n ≡ true =
        rw (bytes_eq→eq k name there, bytes_eq→eq n name hit) (bytes_eq_refl name) in
      cc
  | inr miss ↦ miss
]

-- Whether a name is there, and what it has, after one more pair.
pub values_of-add :
    (name n v : List ℕ) (m : HeaderMap)
    → values_of name (add_value n v m)
      ≡ (if bytes_eq n name then some (snoc (kept (values_of name m)) v) else values_of name m)
unfolding values_of add_value
values_of-add name n v [] = refl
values_of-add name n v ((k, vs) ∷ m) = elim (Bool-cases (bytes_eq k n)) [
  | inl same ↦
      let e = bytes_eq→eq k n same in
      elim (Bool-cases (bytes_eq n name)) [
        | inl hit ↦ let w : bytes_eq k name ≡ true = rw e hit in rw (same, w, hit) refl
        | inr miss ↦ let w : bytes_eq k name ≡ false = rw e miss in rw (same, w, miss) refl
      ]
  | inr other ↦ elim (Bool-cases (bytes_eq k name)) [
    | inl there ↦ rw (other, there, apart k n name there other) refl
    | inr elsewhere ↦ rw (other, elsewhere) (values_of-add name n v m)
  ]
]

-- The entry for values that were added to these.
abbrev entry_of : List (List ℕ) → Option (List (List ℕ))
entry_of [] = none
entry_of (v ∷ vs) = some (v ∷ vs)

-- A map whose names all have values.
abbrev Agrees : Option (List (List ℕ)) → Type 0
Agrees o = o ≡ entry_of (kept o)

entry_of-snoc : (xs ys : List (List ℕ)) (v : List ℕ) → some (snoc xs v) ≡ entry_of (snoc xs v)
entry_of-snoc [] ys v = refl
entry_of-snoc (x ∷ xs) ys v = refl

pub values_of-add_all :
    (name : List ℕ) (pairs : List Pair) (m : HeaderMap)
    → Agrees (values_of name m)
    → values_of name (add_all m pairs) ≡ entry_of (kept (values_of name m) ++ matching name pairs)
values_of-add_all name [] m h = h ∙ ap entry_of (sym (append-nil _))
values_of-add_all name ((n, v) ∷ rest) m h =
    let step = values_of-add name n v m in
    elim (Bool-cases (bytes_eq n name)) [
      | inl hit ↦
          let now : values_of name (add_value n v m) ≡ some (snoc (kept (values_of name m)) v) =
            step ∙ rw hit refl in
          values_of-add_all name rest (add_value n v m)
            (rw now (entry_of-snoc (kept (values_of name m)) [] v))
          ∙ rw (now, hit)
              (ap entry_of (snoc-append (kept (values_of name m)) v (matching name rest)))
      | inr miss ↦
          let now : values_of name (add_value n v m) ≡ values_of name m = step ∙ rw miss refl in
          values_of-add_all name rest (add_value n v m) (rw now h) ∙ rw (now, miss) refl
    ]

-- The map of these pairs.
abbrev pub headers_of : List Pair → HeaderMap
headers_of pairs = add_all [] pairs

found :
    (name : List ℕ) (pairs : List Pair)
    → values_of name (headers_of pairs) ≡ entry_of (matching name pairs)
unfolding values_of
found name pairs = values_of-add_all name pairs [] refl

-- What `http_get_header` does with the values of a name.
abbrev pub Gets : ℕ × Buffer → Buffer → List (List ℕ) → Option (List ℕ) → Type 0
Gets r b [] o = r ≡ (1, b)
Gets r b (v ∷ vs) none = r ≡ (2, b)
Gets r b (v ∷ vs) (some w) = (b' : Buffer) × ((r ≡ (0, b')) × (IsValid b' × (as_slice b' ≡ w)))

abbrev IsShort : Option (List ℕ) → Type 0
IsShort none = Unit {0}
IsShort (some w) = length w ≤ 2 ^ 63

get_elem?-IsShort :
    (vs : List (List ℕ)) (index : ℕ)
    → All (λ v. length v ≤ 2 ^ 63) vs
    → IsShort (get_elem? vs index)
get_elem?-IsShort [] index h = tt
get_elem?-IsShort (v ∷ vs) zero h = h.0
get_elem?-IsShort (v ∷ vs) (suc index) h = get_elem?-IsShort vs index h.1

copied :
    (b : Buffer) (x : List ℕ) (xs : List (List ℕ)) (o : Option (List ℕ))
    → IsValid b
    → IsShort o
    → Gets (copy_value b o) b (x ∷ xs) o
copied b x xs none v h = refl
copied b x xs (some w) v h =
    let (cv, ce) = copy_slice-contents b w v h in (copy_slice b w, (refl, (cv, ce)))

gets :
    (b : Buffer) (vs : List (List ℕ)) (index : ℕ)
    → IsValid b
    → All (λ v. length v ≤ 2 ^ 63) vs
    → Gets (copy_found b index (entry_of vs)) b vs (get_elem? vs index)
gets b [] index v h = refl
gets b (x ∷ xs) index v h =
    copied b x xs (get_elem? (x ∷ xs) index) v (get_elem?-IsShort (x ∷ xs) index h)

count-entry_of : (vs : List (List ℕ)) → count (entry_of vs) ≡ length vs
count-entry_of [] = refl
count-entry_of (v ∷ vs) = refl

-- On a request whose headers were added pair by pair, `http_get_header_count` gives how many have
-- the name, and `http_get_header` the value of that index among them, in the order in which they
-- were added, in the valid buffer of the caller with the code 0; or it leaves the buffer and gives
-- 1 where no header has the name, and 2 where there are only fewer.
pub get_header-Gets :
    {R : Type 0} (r : Request R) (pairs : List Pair) (name : ConstBuffer) (index : ℕ) (b : Buffer)
    → const_is_sane name ≡ true
    → IsValid b
    → All (λ v. length v ≤ 2 ^ 63) (matching (const_slice name) pairs)
    → (http_get_header_count (to (record r { headers = headers_of pairs })) name
        ≡ some (length (matching (const_slice name) pairs)))
      × ((res : ℕ × Buffer) × ((http_get_header
                (to (record r { headers = headers_of pairs }))
                name
                index
                (to b)
              ≡ some res)
            × Gets res b
                (matching (const_slice name) pairs)
                (get_elem? (matching (const_slice name) pairs) index)))
unfolding http_get_header http_get_header_count
get_header-Gets r pairs name index b sane v h =
    let e = found (const_slice name) pairs in
    (
      rw (sane, e) (ap some (count-entry_of (matching (const_slice name) pairs))),
      (
        copy_found b index (entry_of (matching (const_slice name) pairs)),
        (
          rw (sane, IsValid-is_sane b v, e) refl,
          gets b (matching (const_slice name) pairs) index v h,
        ),
      ),
    )
