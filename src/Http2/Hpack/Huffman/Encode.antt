-- ===== src/Http2/Hpack/Huffman/Encode.antt =====
-- The bits that `encode_bytes` writes: the codes one after the other, and ones up to a whole byte.
use native.Mathlib.Nat.{pow-suc, one-le-pow, add-mul, mul_assoc}
use proxy_rs.Prelude.{
  ℕ, zero, suc, ◌+◌, ◌*◌, ◌%◌, ◌^◌, ◌<◌, ◌≡◌, ◌∙◌, refl, sym, ap, List, [], ◌∷◌, ◌++◌, length,
  arith, append_assoc, append-nil, All, All-append, length-append, bit_and, bit_or, ne→==-false,
}
use proxy_rs.Prelude.Bits.{bit_and_mask, bit_or_fields}
use proxy_rs.Http2.Hpack.Huffman.{or_last, push_bit}
use proxy_rs.Http2.Hpack.Huffman.Bits.{
  IsBit, bits_of, bits_of_bytes, number, number-snoc, bits_of-number, bits_of_bytes-append,
}

pub or_last-snoc :
    (xs : List ℕ) (x bits : ℕ) → or_last (xs ++ (x ∷ [])) bits ≡ xs ++ (bit_or x bits ∷ [])
or_last-snoc [] x bits = refl
or_last-snoc (a ∷ []) x bits = refl
or_last-snoc (a ∷ b ∷ xs) x bits = ap (λ t. a ∷ t) (or_last-snoc (b ∷ xs) x bits)

-- The last byte, which holds the bits of `part` above the `o + 1` lowest.
abbrev pub last_byte : ℕ → List ℕ → List ℕ
last_byte o [] = []
last_byte o (b ∷ bs) = (number 0 (b ∷ bs) * 2 ^ (o + 1)) ∷ []

-- The encoder has written these bits: whole bytes, and a part of the last one above `offset`.
pub record Written (offset : ℕ) (out bits : List ℕ) : Type 0 where
  pub full : List ℕ
  pub part : List ℕ
  pub split : bits ≡ bits_of_bytes full ++ part
  pub left : offset + 1 + length part ≡ 8
  pub bytes : out ≡ full ++ last_byte offset part
  pub each : All IsBit part

next_offset : (o : ℕ) → suc o < 8 → bit_and ((suc o + 255) % 256) 7 ≡ o
next_offset o h = rw (bit_and_mask 3 ((suc o + 255) % 256)) (omega arith)

last_byte-snoc :
    (o b : ℕ) (part : List ℕ)
    → last_byte o (part ++ (b ∷ [])) ≡ (number 0 part * 2 + b) * 2 ^ (o + 1) ∷ []
last_byte-snoc o b [] = refl
last_byte-snoc o b (x ∷ part) = ap (λ n. n * 2 ^ (o + 1) ∷ []) (number-snoc 0 b (x ∷ part))

-- Where one bit goes: into a new byte, below the others of the last byte, or to its end.
push_bit-new : (b : ℕ) (full : List ℕ) → push_bit b (7, full) ≡ (6, full ++ last_byte 6 (b ∷ []))
unfolding push_bit
push_bit-new b full =
    let new : bit_or 0 (b * 2 ^ 7) ≡ (0 * 2 + b) * 2 ^ 7 =
      omega (arith, (bit_or_fields 7 b 0 (omega arith)).1) in
    rw (or_last-snoc full 0 (b * 2 ^ 7), new) refl

bit_below : (o b q : ℕ) → b < 2 → bit_or (q * 2 ^ (o + 1)) (b * 2 ^ o) ≡ (q * 2 + b) * 2 ^ o
bit_below o b q h =
    let next : o + 1 ≡ suc o = omega arith in
    let double : 2 ^ (o + 1) ≡ 2 * 2 ^ o = rw next (omega (arith, pow-suc 2 o)) in
    (bit_or_fields (o + 1) q (b * 2 ^ o) (low o b h double)).0
    ∙ omega (arith, add-mul (q * 2) b (2 ^ o), mul_assoc q 2 (2 ^ o), ap (λ w. q * w) double)
  where
    low : (o b : ℕ) → b < 2 → 2 ^ (o + 1) ≡ 2 * 2 ^ o → b * 2 ^ o < 2 ^ (o + 1)
    low o zero h double = omega (arith, one-le-pow o 2 (omega arith))
    low o (suc zero) h double = omega (arith, one-le-pow o 2 (omega arith))
    low o (suc (suc b)) h double = absurd (omega arith)

push_bit-below :
    (o b x : ℕ) (full part : List ℕ)
    → o < 7
    → b < 2
    → push_bit b (o, full ++ last_byte o (x ∷ part))
      ≡ (bit_and ((o + 255) % 256) 7, full ++ ((number 0 (x ∷ part) * 2 + b) * 2 ^ o ∷ []))
unfolding push_bit
push_bit-below o b x full part h hb =
    rw
      (
        ne→==-false o 7 (λ e. omega arith),
        or_last-snoc full (number 0 (x ∷ part) * 2 ^ (o + 1)) (b * 2 ^ o),
        bit_below o b (number 0 (x ∷ part)) hb,
      )
      refl

-- Eight bits are those of the byte that they make.
pub whole_byte :
    (full part : List ℕ)
    → All IsBit part
    → length part ≡ 8
    → {bits : List ℕ} → bits ≡ bits_of_bytes full ++ part
    → bits ≡ bits_of_bytes (full ++ (number 0 part ∷ [])) ++ []
whole_byte full part he hl split =
    let eight : bits_of 8 (number 0 part) ≡ part =
      ap (λ n. bits_of n (number 0 part)) (sym hl) ∙ bits_of-number 0 part he in
    split
    ∙ ap (λ t. bits_of_bytes full ++ t) (sym (append-nil part) ∙ ap (λ t. t ++ []) (sym eight))
    ∙ sym (bits_of_bytes-append full (number 0 part ∷ []))
    ∙ sym (append-nil _)

-- A bit more is written behind the others.
pub push_bit-Written :
    (b offset : ℕ) (out bits : List ℕ)
    → IsBit b
    → Written offset out bits
    → Written (push_bit b (offset, out)).0 (push_bit b (offset, out)).1 (bits ++ (b ∷ []))
push_bit-Written b offset out bits hb w =
    rw (w.bytes, w.split) (placed offset w.full w.part w.left w.each)
  where
    moved :
        (o : ℕ) (full part : List ℕ) (x : ℕ)
        → full ++ ((number 0 (x ∷ part) * 2 + b) * 2 ^ suc o ∷ [])
          ≡ full ++ last_byte o (x ∷ (part ++ (b ∷ [])))
    moved o full part x =
        let same : suc o ≡ o + 1 = omega arith in
        rw same (ap (λ n. full ++ (n * 2 ^ (o + 1) ∷ [])) (sym (number-snoc 0 b (x ∷ part))))

    filled :
        (full part : List ℕ) (x : ℕ)
        → full ++ ((number 0 (x ∷ part) * 2 + b) * 2 ^ 0 ∷ [])
          ≡ (full ++ (number 0 (x ∷ (part ++ (b ∷ []))) ∷ [])) ++ []
    filled full part x =
        let one : (number 0 (x ∷ part) * 2 + b) * 2 ^ 0 ≡ number 0 (x ∷ part) * 2 + b =
          omega arith in
        ap (λ n. full ++ (n ∷ [])) (one ∙ sym (number-snoc 0 b (x ∷ part))) ∙ sym (append-nil _)

    placed :
        (offset : ℕ) (full part : List ℕ)
        → offset + 1 + length part ≡ 8
        → All IsBit part
        → Written
            (push_bit b (offset, full ++ last_byte offset part)).0
            (push_bit b (offset, full ++ last_byte offset part)).1
            ((bits_of_bytes full ++ part) ++ (b ∷ []))
    placed offset full [] hl he =
        let seven : offset ≡ 7 = omega arith in
        rw (seven, append-nil full, push_bit-new b full)
          (record {
            full = full;
            part = b ∷ [];
            split = append_assoc (bits_of_bytes full) [] (b ∷ []);
            left = refl;
            bytes = refl;
            each = (hb, tt);
          })
    placed zero full (x ∷ part) hl he =
        rw (push_bit-below 0 b x full part (omega arith) hb) (record {
          full = full ++ (number 0 (x ∷ (part ++ (b ∷ []))) ∷ []);
          part = [];
          split =
              whole_byte full (x ∷ (part ++ (b ∷ [])))
                (All-append IsBit (x ∷ part) (b ∷ []) he (hb, tt))
                (omega (arith, length-append part (b ∷ [])))
                (append_assoc (bits_of_bytes full) (x ∷ part) (b ∷ []));
          left = refl;
          bytes = filled full part x;
          each = tt;
        })
    placed (suc o) full (x ∷ part) hl he =
        rw (push_bit-below (suc o) b x full part (omega arith) hb, next_offset o (omega arith))
          (record {
            full = full;
            part = x ∷ (part ++ (b ∷ []));
            split = append_assoc (bits_of_bytes full) (x ∷ part) (b ∷ []);
            left = omega (arith, length-append part (b ∷ []));
            bytes = moved o full part x;
            each = All-append IsBit (x ∷ part) (b ∷ []) he (hb, tt);
          })
