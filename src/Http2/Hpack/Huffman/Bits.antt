-- ===== src/Http2/Hpack/Huffman/Bits.antt =====
-- Bytes as lists of bits, the highest first.
use native.Mathlib.Nat.{pow-suc, div-div-eq-div-mul}
use proxy_rs.Prelude.{
  ℕ, zero, suc, ◌+◌, ◌*◌, ◌/◌, ◌%◌, ◌^◌, ◌<◌, ◌≡◌, ◌∙◌, refl, sym, ap, List, [], ◌∷◌, ◌++◌, length,
  arith, append_assoc, All,
}

abbrev pub IsBit : ℕ → Type 0
IsBit b = b < 2

-- The `i` lowest bits of a number.
abbrev pub bits_of : ℕ → ℕ → List ℕ
bits_of zero v = []
bits_of (suc i) v = (v / 2 ^ i % 2) ∷ bits_of i v

abbrev pub bits_of_bytes : List ℕ → List ℕ
bits_of_bytes [] = []
bits_of_bytes (x ∷ xs) = bits_of 8 x ++ bits_of_bytes xs

-- The number whose lowest bits these are, behind the bits of `acc`.
abbrev pub number : ℕ → List ℕ → ℕ
number acc [] = acc
number acc (b ∷ bs) = number (acc * 2 + b) bs

pub number-snoc : (acc b : ℕ) (bs : List ℕ) → number acc (bs ++ (b ∷ [])) ≡ number acc bs * 2 + b
number-snoc acc b [] = refl
number-snoc acc b (x ∷ bs) = number-snoc (acc * 2 + x) b bs

number-high : (acc : ℕ) (bs : List ℕ) → All IsBit bs → number acc bs / 2 ^ length bs ≡ acc
number-high acc [] h = omega arith
number-high acc (b ∷ bs) (h, hs) = rw (pow-suc 2 (length bs)) (
    sym (div-div-eq-div-mul (number (acc * 2 + b) bs) (2 ^ length bs) 2)
    ∙ rw (number-high (acc * 2 + b) bs hs) (omega arith))

-- The bits of the number are the bits it was made of.
pub bits_of-number :
    (acc : ℕ) (bs : List ℕ) → All IsBit bs → bits_of (length bs) (number acc bs) ≡ bs
bits_of-number acc [] h = refl
bits_of-number acc (b ∷ bs) (h, hs) =
    let head : (acc * 2 + b) % 2 ≡ b = omega arith in
    rw (number-high (acc * 2 + b) bs hs, head, bits_of-number (acc * 2 + b) bs hs) refl

pub bits_of_bytes-append :
    (xs ys : List ℕ) → bits_of_bytes (xs ++ ys) ≡ bits_of_bytes xs ++ bits_of_bytes ys
bits_of_bytes-append [] ys = refl
bits_of_bytes-append (x ∷ xs) ys =
    ap (λ t. bits_of 8 x ++ t) (bits_of_bytes-append xs ys)
    ∙ sym (append_assoc (bits_of 8 x) (bits_of_bytes xs) (bits_of_bytes ys))
