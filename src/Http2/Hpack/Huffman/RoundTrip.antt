-- ===== src/Http2/Hpack/Huffman/RoundTrip.antt =====
-- `decode_bytes` takes back what `encode_bytes` writes, and `get_size` is its length.
use native.Mathlib.Nat.{pow-suc, one-le-pow, add-mul, mul_assoc}
use proxy_rs.Prelude.{
  ℕ, zero, suc, ◌+◌, ◌-◌, ◌*◌, ◌/◌, ◌%◌, ◌^◌, ◌<◌, ◌≡◌, ◌∙◌, refl, sym, ap, none, List, [], ◌∷◌,
  ◌++◌, length, replicate, arith, append_assoc, append-nil, All, All-append, length-append, bit_or,
  ne→==-false, length-replicate,
}
use proxy_rs.Prelude.Bits.{bit_and_mask, bit_or_fields}
use proxy_rs.Prelude.Bytes.{IsByte}
use proxy_rs.Io.{ok}
use proxy_rs.Http2.Hpack.Huffman.{
  code_of, code_len, push_bit, push_code, push_bytes, pad_last, encode_bytes, and_then, finish,
  decode_bytes,
}
use proxy_rs.Http2.Hpack.Huffman.Bits.{IsBit, bits_of, bits_of_bytes, number}
use proxy_rs.Http2.Hpack.Huffman.Walk.{code_bits}
use proxy_rs.Http2.Hpack.Huffman.Encode.{
  Written, last_byte, or_last-snoc, whole_byte, push_bit-Written,
}
use proxy_rs.Http2.Hpack.Huffman.Decode.{
  bits_of_codes, decode_bits, decode_all-bits, decode_bits-codes, decode_bits-padding,
}

push_code-step :
    (i code : ℕ) (s : ℕ × List ℕ)
    → push_code (suc i) code s ≡ push_code i code (push_bit (code / 2 ^ i % 2) s)
unfolding push_code
push_code-step i code s = ap (λ b. push_code i code (push_bit b s)) (bit_and_mask 1 (code / 2 ^ i))

push_none :
    (code : ℕ) (s : ℕ × List ℕ) (bits : List ℕ)
    → Written s.0 s.1 bits
    → Written (push_code zero code s).0 (push_code zero code s).1 (bits ++ [])
unfolding push_code
push_none code s bits w = rw (append-nil bits) w

push_code-Written :
    (i code : ℕ) (s : ℕ × List ℕ) (bits : List ℕ)
    → Written s.0 s.1 bits
    → Written (push_code i code s).0 (push_code i code s).1 (bits ++ bits_of i code)
push_code-Written zero code s bits w = push_none code s bits w
push_code-Written (suc i) code s bits w =
    let b = code / 2 ^ i % 2 in
    rw (push_code-step i code s, ← append_assoc bits (b ∷ []) (bits_of i code))
      (push_code-Written i code (push_bit b s) (bits ++ (b ∷ []))
        (push_bit-Written b s.0 s.1 bits (omega arith) w))

push_bytes-Written :
    (bytes : List ℕ) (s : ℕ × List ℕ) (bits : List ℕ)
    → Written s.0 s.1 bits
    → Written (push_bytes bytes s).0 (push_bytes bytes s).1 (bits ++ bits_of_codes bytes)
unfolding push_bytes
push_bytes-Written [] s bits w = rw (append-nil bits) w
push_bytes-Written (v ∷ rest) s bits w =
    rw (← append_assoc bits (code_bits v) (bits_of_codes rest)) (
      push_bytes-Written rest (push_code (code_len v) (code_of v) s) (bits ++ code_bits v)
        (push_code-Written (code_len v) (code_of v) s bits w))

number-append : (acc : ℕ) (xs ys : List ℕ) → number acc (xs ++ ys) ≡ number (number acc xs) ys
number-append acc [] ys = refl
number-append acc (x ∷ xs) ys = number-append (acc * 2 + x) xs ys

number-ones : (k acc : ℕ) → number acc (replicate k 1) ≡ acc * 2 ^ k + (2 ^ k - 1)
unfolding replicate
number-ones zero acc = omega arith
number-ones (suc k) acc =
    number-ones k (acc * 2 + 1)
    ∙ omega (
      arith,
      pow-suc 2 k,
      one-le-pow k 2 (omega arith),
      add-mul (acc * 2) 1 (2 ^ k),
      mul_assoc acc 2 (2 ^ k),
      ap (λ w. acc * w) (double k),
    )
  where
    double : (k : ℕ) → 2 ^ suc k ≡ 2 * 2 ^ k
    double k = omega (arith, pow-suc 2 k)

ones-IsBit : (k : ℕ) → All IsBit (replicate k 1)
unfolding replicate
ones-IsBit zero = tt
ones-IsBit (suc k) = (omega arith, ones-IsBit k)

-- What is left of the last byte is filled with fewer than eight ones.
abbrev pub IsPadded : List ℕ → List ℕ → Type 0
IsPadded out bits = (k : ℕ) × ((k < 8) × (bits_of_bytes out ≡ bits ++ replicate k 1))

pad_last-IsPadded :
    (offset : ℕ) (out bits : List ℕ)
    → Written offset out bits
    → IsPadded (pad_last (offset, out)) bits
unfolding pad_last replicate
pad_last-IsPadded offset out bits w =
    rw (w.bytes, w.split) (padded offset w.full w.part w.left w.each)
  where
    padded :
        (offset : ℕ) (full part : List ℕ)
        → offset + 1 + length part ≡ 8
        → All IsBit part
        → IsPadded (pad_last (offset, full ++ last_byte offset part)) (bits_of_bytes full ++ part)
    padded offset full [] hl he =
        let seven : offset ≡ 7 = omega arith in
        rw (seven, append-nil full) (0, (omega arith, sym (append-nil _ ∙ append-nil _)))
    padded offset full (x ∷ part) hl he =
        let ones = replicate (offset + 1) 1 in
        let h : 2 ^ (offset + 1) - 1 < 2 ^ (offset + 1) =
          omega (arith, one-le-pow (offset + 1) 2 (omega arith)) in
        let joined : bit_or (number 0 (x ∷ part) * 2 ^ (offset + 1)) (2 ^ (offset + 1) - 1)
            ≡ number 0 ((x ∷ part) ++ ones) =
          (bit_or_fields (offset + 1) (number 0 (x ∷ part)) (2 ^ (offset + 1) - 1) h).0
          ∙ sym (number-ones (offset + 1) (number 0 (x ∷ part)))
          ∙ sym (number-append 0 (x ∷ part) ones) in
        rw (ne→==-false offset 7 (λ e. omega arith), or_last-snoc full, joined)
          (
            offset + 1,
            (
              omega arith,
              sym (
                  whole_byte full ((x ∷ part) ++ ones)
                    (All-append IsBit (x ∷ part) ones he (ones-IsBit (offset + 1)))
                    (omega
                      (arith, length-append part ones, length-replicate {0} {A = ℕ} (offset + 1) 1))
                    (append_assoc (bits_of_bytes full) (x ∷ part) ones)
                  ∙ append-nil _),
            ),
          )

nothing-Written : Written 7 [] []
nothing-Written = record {
  full = [];
  part = [];
  split = refl;
  left = refl;
  bytes = refl;
  each = tt;
}

pub encode_bytes-IsPadded : (bytes : List ℕ) → IsPadded (encode_bytes bytes) (bits_of_codes bytes)
unfolding encode_bytes
encode_bytes-IsPadded bytes =
    let s = push_bytes bytes (7, []) in
    pad_last-IsPadded s.0 s.1 (bits_of_codes bytes)
      (push_bytes-Written bytes (7, []) [] nothing-Written)

-- `decode_bytes` takes back any bytes that `encode_bytes` wrote.
pub huffman_round_trip :
    (bytes : List ℕ) → All IsByte bytes → decode_bytes (encode_bytes bytes) ≡ ok bytes
unfolding decode_bytes
huffman_round_trip bytes h =
    let (k, (hk, e)) = encode_bytes-IsPadded bytes in
    ap (λ r. and_then r finish)
      (decode_all-bits (encode_bytes bytes) (0, (none, []))
        ∙ ap (λ b. decode_bits b (0, (none, []))) e
        ∙ decode_bits-codes bytes [] (replicate k 1) h)
    ∙ decode_bits-padding k bytes hk
