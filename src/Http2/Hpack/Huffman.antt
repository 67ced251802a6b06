-- ===== src/Http2/Hpack/Huffman.antt =====
-- `encode_bytes`, `get_size` and `decode_bytes` of http/src/http2/hpack/huffman.rs. `out` is the
-- contents of the buffer, on which `clear` and `push` act as on a list.
pub mod Codes
pub mod Tree
pub mod Bits
pub mod Walk
pub mod Encode
pub mod Decode
pub mod RoundTrip
pub mod Size
use proxy_rs.Prelude.{
  ℕ, zero, suc, ◌+◌, ◌-◌, ◌*◌, ◌/◌, ◌%◌, ◌^◌, Bool, true, false, Option, none, some, List, [], ◌∷◌,
  ◌++◌, not, bit_and, bit_or, ◌==◌, ◌&&◌, ltb, if◌then◌else◌, get_or,
}
use proxy_rs.Io.{Outcome, ok, err, panic}
use proxy_rs.Http2.Hpack.{DecodeError, found_eos, incomplete_data}
use proxy_rs.Http2.Hpack.Huffman.Codes.{huffman_codes, huffman_code_len}
use proxy_rs.Http2.Hpack.Huffman.Tree.{TreeNode, leaf, tree_list}

unfoldable pub code_of : ℕ → ℕ
code_of index = get_or huffman_codes index 0

unfoldable pub code_len : ℕ → ℕ
code_len index = get_or huffman_code_len index 0

-- `*out.last_mut().unwrap() |= bits`
abbrev pub or_last : List ℕ → ℕ → List ℕ
or_last [] bits = []
or_last (x ∷ []) bits = bit_or x bits ∷ []
or_last (x ∷ y ∷ ys) bits = x ∷ or_last (y ∷ ys) bits

-- One bit into the last byte, behind the bits that stand above `offset`.
unfoldable pub push_bit : ℕ → ℕ × List ℕ → ℕ × List ℕ
push_bit bit (offset, out) =
    let out = if offset == 7 then out ++ (0 ∷ []) else out in
    (bit_and ((offset + 255) % 256) 7, or_last out (bit * 2 ^ offset))

-- `for i in (0..len).rev()`
unfoldable pub push_code : ℕ → ℕ → ℕ × List ℕ → ℕ × List ℕ
push_code zero code state = state
push_code (suc i) code state = push_code i code (push_bit (bit_and (code / 2 ^ i) 0x1) state)

unfoldable pub push_bytes : List ℕ → ℕ × List ℕ → ℕ × List ℕ
push_bytes [] state = state
push_bytes (v ∷ rest) state = push_bytes rest (push_code (code_len v) (code_of v) state)

-- The bits that are left of the last byte are ones.
unfoldable pub pad_last : ℕ × List ℕ → List ℕ
pad_last (offset, out) = if offset == 7 then out else or_last out (2 ^ (offset + 1) - 1)

unfoldable pub encode_bytes : List ℕ → List ℕ
encode_bytes bytes = pad_last (push_bytes bytes (7, []))

unfoldable pub add_sizes : ℕ → List ℕ → ℕ
add_sizes size [] = size
add_sizes size (v ∷ rest) = add_sizes ((size + code_len v) % 2 ^ 32) rest

unfoldable pub get_size : List ℕ → ℕ
get_size bytes = let size = add_sizes 0 bytes in size / 8 + (if ltb 0 (size % 8) then 1 else 0)

-- `TREE_LIST[index]`
unfoldable pub node_at : ℕ → TreeNode
node_at index = get_or tree_list index (leaf 0)

-- The index of the node, whether all bits behind the last symbol are ones, and the output.
abbrev pub Decoding : Type 0
Decoding = ℕ × (Option Bool × List ℕ)

abbrev pub and_then :
    {A B : Type 0} → Outcome DecodeError A → (A → Outcome DecodeError B) → Outcome DecodeError B
and_then (ok a) f = f a
and_then (err e) f = err e
and_then panic f = panic

abbrev pub all_ones_after : ℕ → Option Bool → Option Bool
all_ones_after bit none = some (bit == 1)
all_ones_after bit (some ones) = some ((bit == 1) && ones)

unfoldable pub decode_bit : ℕ → Decoding → Outcome DecodeError Decoding
decode_bit bit (index, (all_ones, out)) =
    let node = node_at index in
    let index = if bit == 1 then node.right else node.left in
    let next = node_at index in
    if next.left == 0
    then (if next.right == 256
        then err found_eos
        else ok (0, (none, out ++ (next.right % 256 ∷ []))))
    else ok (index, (all_ones_after bit all_ones, out))

-- `for off in (0..8).rev()`
unfoldable pub decode_byte : ℕ → ℕ → Decoding → Outcome DecodeError Decoding
decode_byte zero v state = ok state
decode_byte (suc off) v state =
    and_then (decode_bit (bit_and (v / 2 ^ off) 0x1) state) (decode_byte off v)

unfoldable pub decode_all : List ℕ → Decoding → Outcome DecodeError Decoding
decode_all [] state = ok state
decode_all (v ∷ rest) state = and_then (decode_byte 8 v state) (decode_all rest)

abbrev pub finish : Decoding → Outcome DecodeError (List ℕ)
finish (index, (none, out)) = ok out
finish (index, (some ones, out)) = if ones then ok out else err incomplete_data

unfoldable pub decode_bytes : List ℕ → Outcome DecodeError (List ℕ)
decode_bytes bytes = and_then (decode_all bytes (0, (none, []))) finish
