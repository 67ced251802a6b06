-- ===== src/Http2/Hpack/Huffman/Size.antt =====
-- `get_size` is the number of bytes that `encode_bytes` writes.
use proxy_rs.Prelude.{
  ℕ, zero, suc, ◌+◌, ◌*◌, ◌%◌, ◌^◌, ◌≤◌, ◌<◌, ◌≡◌, ◌∙◌, refl, ap, Bool, true, List, [], ◌∷◌, length,
  replicate, ◌&&◌, ◌==◌, arith, All, length-append, length-replicate, leb, leb→le, Bool-cases, inl,
  inr, ==_iff,
}
use proxy_rs.Prelude.Bytes.{IsByte}
use proxy_rs.Http2.Hpack.Huffman.{code_of, code_len, add_sizes, get_size, encode_bytes}
use proxy_rs.Http2.Hpack.Huffman.Codes.{huffman_code_len}
use proxy_rs.Http2.Hpack.Huffman.Bits.{bits_of, bits_of_bytes}
use proxy_rs.Http2.Hpack.Huffman.Walk.{code_bits, and_left, and_right}
use proxy_rs.Http2.Hpack.Huffman.Decode.{bits_of_codes}
use proxy_rs.Http2.Hpack.Huffman.RoundTrip.{encode_bytes-IsPadded}

-- The longest code of a byte has 30 bits.
unfoldable all_short : ℕ → Bool
all_short zero = true
all_short (suc v) = leb (code_len v) 30 && all_short v

all_bytes_short : all_short 256 ≡ true
unfolding all_short code_len huffman_code_len
all_bytes_short = refl

short_below : (n v : ℕ) → all_short n ≡ true → v < n → code_len v ≤ 30
unfolding all_short
short_below zero v h hv = absurd (omega arith)
short_below (suc n) v h hv = elim (Bool-cases (v == n)) [
  | inl e ↦ rw ((==_iff v n).0 e) (leb→le _ _ (and_left _ _ h))
  | inr ne ↦ short_below n v (and_right _ _ h) (ground (arith, ne))
]

length-bits_of : (i v : ℕ) → length (bits_of i v) ≡ i
length-bits_of zero v = refl
length-bits_of (suc i) v = ap suc (length-bits_of i v)

length-bits_of_bytes : (xs : List ℕ) → length (bits_of_bytes xs) ≡ 8 * length xs
length-bits_of_bytes [] = omega arith
length-bits_of_bytes (x ∷ xs) = omega (
  arith,
  length-append (bits_of 8 x) (bits_of_bytes xs),
  length-bits_of 8 x,
  length-bits_of_bytes xs,
)

add_sizes-codes :
    (bytes : List ℕ) (size : ℕ)
    → All IsByte bytes
    → size + 30 * length bytes < 2 ^ 32
    → (add_sizes size bytes ≡ size + length (bits_of_codes bytes))
unfolding add_sizes
add_sizes-codes [] size h hl = omega arith
add_sizes-codes (v ∷ rest) size (h, hs) hl =
    let short = short_below 256 v all_bytes_short h in
    let sum : (size + code_len v) % 2 ^ 32 ≡ size + code_len v = omega arith in
    rw sum (
      add_sizes-codes rest (size + code_len v) hs (omega arith)
      ∙ omega (
        arith,
        length-append (code_bits v) (bits_of_codes rest),
        length-bits_of (code_len v) (code_of v),
      ))

-- `get_size` announces exactly as many bytes as `encode_bytes` writes, for up to 2 ^ 27 bytes.
pub get_size-length :
    (bytes : List ℕ)
    → All IsByte bytes
    → length bytes ≤ 2 ^ 27
    → get_size bytes ≡ length (encode_bytes bytes)
unfolding get_size
get_size-length bytes h hl =
    let (k, (hk, e)) = encode_bytes-IsPadded bytes in
    let whole : 8 * length (encode_bytes bytes) ≡ length (bits_of_codes bytes) + k = omega (
      arith,
      length-bits_of_bytes (encode_bytes bytes),
      ap length e,
      length-append (bits_of_codes bytes) (replicate k 1),
      length-replicate {0} {A = ℕ} k 1,
    ) in
    rw (add_sizes-codes bytes 0 h (omega arith)) (ground (arith, whole))
