-- ===== src/Http2/Hpack/Huffman/Decode.antt =====
-- Decoding the codes of the bytes, and the ones behind them.
use proxy_rs.Prelude.{
  ℕ, zero, suc, ◌/◌, ◌%◌, ◌^◌, ◌<◌, ◌≡◌, ◌∙◌, refl, sym, ap, Bool, true, false, Option, none, List,
  [], ◌∷◌, ◌++◌, ◌==◌, arith, Bool-cases, inl, inr, ==_iff, append_assoc, append-nil, All,
  replicate,
}
use proxy_rs.Prelude.Bytes.{IsByte}
use proxy_rs.Prelude.Bits.{bit_and_mask}
use proxy_rs.Io.{Outcome, ok, err, panic}
use proxy_rs.Http2.Hpack.{DecodeError}
use proxy_rs.Http2.Hpack.Huffman.{
  Decoding, and_then, node_at, decode_bit, decode_byte, decode_all, all_ones_after, finish,
}
use proxy_rs.Http2.Hpack.Huffman.Tree.{tree_list}
use proxy_rs.Http2.Hpack.Huffman.Bits.{bits_of, bits_of_bytes}
use proxy_rs.Http2.Hpack.Huffman.Walk.{code_bits, step_to, lands, byte-lands, and_left, and_right}

abbrev pub decode_bits : List ℕ → Decoding → Outcome DecodeError Decoding
decode_bits [] state = ok state
decode_bits (b ∷ bs) state = and_then (decode_bit b state) (decode_bits bs)

and_then_assoc :
    {A B C : Type 0} (r : Outcome DecodeError A) (f : A → Outcome DecodeError B)
    (g : B → Outcome DecodeError C)
    → and_then (and_then r f) g ≡ and_then r (λ a. and_then (f a) g)
and_then_assoc (ok a) f g = refl
and_then_assoc (err e) f g = refl
and_then_assoc panic f g = refl

and_then-cong :
    {A B : Type 0} (r : Outcome DecodeError A) (f g : A → Outcome DecodeError B)
    → ((a : A) → f a ≡ g a)
    → and_then r f ≡ and_then r g
and_then-cong (ok a) f g h = h a
and_then-cong (err e) f g h = refl
and_then-cong panic f g h = refl

pub decode_bits-append :
    (xs ys : List ℕ) (state : Decoding)
    → decode_bits (xs ++ ys) state ≡ and_then (decode_bits xs state) (decode_bits ys)
decode_bits-append [] ys state = refl
decode_bits-append (x ∷ xs) ys state =
    and_then-cong (decode_bit x state) (decode_bits (xs ++ ys))
      (λ s. and_then (decode_bits xs s) (decode_bits ys)) (decode_bits-append xs ys)
    ∙ sym (and_then_assoc (decode_bit x state) (decode_bits xs) (decode_bits ys))

decode_byte-bits :
    (off v : ℕ) (state : Decoding) → decode_byte off v state ≡ decode_bits (bits_of off v) state
unfolding decode_byte
decode_byte-bits zero v state = refl
decode_byte-bits (suc off) v state = rw (bit_and_mask 1 (v / 2 ^ off)) (
    and_then-cong (decode_bit (v / 2 ^ off % 2) state) (decode_byte off v)
      (decode_bits (bits_of off v)) (decode_byte-bits off v))

-- The loop over the bytes is a loop over their bits.
pub decode_all-bits :
    (bytes : List ℕ) (state : Decoding)
    → decode_all bytes state ≡ decode_bits (bits_of_bytes bytes) state
unfolding decode_all
decode_all-bits [] state = refl
decode_all-bits (v ∷ rest) state = rw (decode_byte-bits 8 v state) (
    and_then-cong (decode_bits (bits_of 8 v) state) (decode_all rest)
      (decode_bits (bits_of_bytes rest)) (decode_all-bits rest)
    ∙ sym (decode_bits-append (bits_of 8 v) (bits_of_bytes rest) state))

-- Bits that lead to the leaf of a byte put out that byte.
decode_bits-lands :
    (bits : List ℕ) (index v : ℕ) (ones : Option Bool) (out : List ℕ)
    → v < 256
    → lands index bits v ≡ true
    → decode_bits bits (index, (ones, out)) ≡ ok (0, (none, out ++ (v ∷ [])))
unfolding lands decode_bit
decode_bits-lands [] index v ones out hv h = cc
decode_bits-lands (bit ∷ []) index v ones out hv h =
    let next = node_at (step_to bit index) in
    let at_leaf : (next.left == 0) ≡ true = and_left _ _ h in
    let symbol : next.right ≡ v = (==_iff next.right v).0 (and_right _ _ h) in
    let small : (v == 256) ≡ false = ground arith in
    let same : v % 256 ≡ v = omega arith in rw (at_leaf, symbol, small, same) refl
decode_bits-lands (bit ∷ b ∷ bits) index v ones out hv h =
    elim (Bool-cases ((node_at (step_to bit index)).left == 0)) [
      | inl e ↦ let no : false ≡ true = rw e at h in cc
      | inr e ↦ rw e (
          decode_bits-lands (b ∷ bits) (step_to bit index) v (all_ones_after bit ones) out hv
            (rw e at h))
    ]

abbrev pub bits_of_codes : List ℕ → List ℕ
bits_of_codes [] = []
bits_of_codes (v ∷ rest) = code_bits v ++ bits_of_codes rest

-- The codes of some bytes put out those bytes.
pub decode_bits-codes :
    (bytes out tail : List ℕ)
    → All IsByte bytes
    → decode_bits (bits_of_codes bytes ++ tail) (0, (none, out))
      ≡ decode_bits tail (0, (none, out ++ bytes))
decode_bits-codes [] out tail h = rw (append-nil out) refl
decode_bits-codes (v ∷ rest) out tail (h, hs) =
    ap (λ t. decode_bits t (0, (none, out))) (append_assoc (code_bits v) (bits_of_codes rest) tail)
    ∙ decode_bits-append (code_bits v) (bits_of_codes rest ++ tail) (0, (none, out))
    ∙ rw (decode_bits-lands (code_bits v) 0 v none out h (byte-lands v h)) (
        decode_bits-codes rest (out ++ (v ∷ [])) tail hs ∙ rw (append_assoc out (v ∷ []) rest) refl)

-- Fewer than eight ones lead to no leaf, and are taken as padding.
pub decode_bits-padding :
    (k : ℕ) (out : List ℕ)
    → k < 8
    → and_then (decode_bits (replicate k 1) (0, (none, out))) finish ≡ ok out
unfolding decode_bit node_at tree_list replicate
decode_bits-padding zero out h = refl
decode_bits-padding (suc zero) out h = refl
decode_bits-padding (suc (suc zero)) out h = refl
decode_bits-padding (suc (suc (suc zero))) out h = refl
decode_bits-padding (suc (suc (suc (suc zero)))) out h = refl
decode_bits-padding (suc (suc (suc (suc (suc zero))))) out h = refl
decode_bits-padding (suc (suc (suc (suc (suc (suc zero)))))) out h = refl
decode_bits-padding (suc (suc (suc (suc (suc (suc (suc zero))))))) out h = refl
decode_bits-padding (suc (suc (suc (suc (suc (suc (suc (suc k)))))))) out h = absurd (omega arith)
