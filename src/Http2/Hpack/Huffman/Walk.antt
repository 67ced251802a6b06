-- ===== src/Http2/Hpack/Huffman/Walk.antt =====
-- Every byte's code leads from the root of the tree to the leaf of that byte.
use proxy_rs.Prelude.{
  ℕ, zero, suc, ◌<◌, ◌≡◌, refl, Bool, true, false, List, [], ◌∷◌, ◌==◌, ◌&&◌, if◌then◌else◌, arith,
  Bool-cases, inl, inr, ==_iff,
}
use proxy_rs.Http2.Hpack.Huffman.{code_of, code_len, node_at}
use proxy_rs.Http2.Hpack.Huffman.Tree.{tree_list}
use proxy_rs.Http2.Hpack.Huffman.Codes.{huffman_codes, huffman_code_len}
use proxy_rs.Http2.Hpack.Huffman.Bits.{bits_of}

abbrev pub code_bits : ℕ → List ℕ
code_bits v = bits_of (code_len v) (code_of v)

abbrev pub step_to : ℕ → ℕ → ℕ
step_to bit index = if bit == 1 then (node_at index).right else (node_at index).left

-- The bits lead to the leaf of `v`, and to no leaf before that.
unfoldable pub lands : ℕ → List ℕ → ℕ → Bool
lands index [] v = false
lands index (bit ∷ []) v =
    let next = node_at (step_to bit index) in (next.left == 0) && (next.right == v)
lands index (bit ∷ b ∷ bits) v =
    let to = step_to bit index in
    let more = lands to (b ∷ bits) v in if (node_at to).left == 0 then false else more

unfoldable all_land : ℕ → Bool
all_land zero = true
all_land (suc v) = lands 0 (code_bits v) v && all_land v

all_bytes_land : all_land 256 ≡ true
unfolding all_land lands code_of code_len node_at huffman_code_len huffman_codes tree_list
all_bytes_land = refl

pub and_left : (a b : Bool) → (a && b) ≡ true → a ≡ true
and_left true b h = refl
and_left false b h = h

pub and_right : (a b : Bool) → (a && b) ≡ true → b ≡ true
and_right true b h = h
and_right false b h = cc

land_below : (n v : ℕ) → all_land n ≡ true → v < n → lands 0 (code_bits v) v ≡ true
unfolding all_land
land_below zero v h hv = absurd (omega arith)
land_below (suc n) v h hv = elim (Bool-cases (v == n)) [
  | inl e ↦ rw ((==_iff v n).0 e) (and_left _ _ h)
  | inr ne ↦ land_below n v (and_right _ _ h) (ground (arith, ne))
]

pub byte-lands : (v : ℕ) → v < 256 → lands 0 (code_bits v) v ≡ true
byte-lands v hv = land_below 256 v all_bytes_land hv
