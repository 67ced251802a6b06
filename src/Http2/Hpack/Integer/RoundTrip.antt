-- ===== src/Http2/Hpack/Integer/RoundTrip.antt =====
-- The bytes of an integer, and that `parse_integer` takes back what `write_integer` writes.
use native.Mathlib.Nat.{
  pow-suc, one-le-pow, add-mul, mul_assoc, mul-add-mod_self_right, mod-eq_of_lt,
}
use proxy_rs.Prelude.{
  ℕ, zero, suc, ◌+◌, ◌-◌, ◌*◌, ◌/◌, ◌%◌, ◌^◌, ◌≤◌, ◌<◌, ◌≡◌, ◌∙◌, refl, ap, append_assoc, List, [],
  ◌∷◌, ◌++◌, length, bit_and, bit_or, ltb, leb, ◌==◌, if◌then◌else◌, Bool-cases, inl, inr, true,
  false, arith, lt→ltb, not-leb→lt, le→not-ltb, ltb→lt,
}
use proxy_rs.Prelude.Bits.{bit_and_fits, bit_and_mask, bit_and_flag, bit_or_fields}
use proxy_rs.Io.{Sink, ok, write_all, ◌>>◌, return}
use proxy_rs.Io.Laws.{write_all-write_all}
use proxy_rs.Http2.Frame.RoundTrip.{written_by, written_by-wire}
use proxy_rs.Http2.Hpack.Integer.{
  parse_continued, parse_integer, write_continued, write_integer, rounds,
}

-- The bytes behind the prefix, the low seven bits first.
abbrev pub digits : ℕ → ℕ → List ℕ
digits zero int = int % 128 ∷ []
digits (suc fuel) int =
    if leb 128 int then (128 + int % 128) ∷ digits fuel (int / 128) else (int % 128 ∷ [])

more_byte : (int : ℕ) → bit_or (bit_and int 0x7F) 0x80 ≡ 128 + int % 128
more_byte int = rw (bit_and_mask 7 int) (bit_or_fields 7 1 (int % 128) (omega arith)).1

counted :
    (front a more : List ℕ) (len : ℕ) (s : Sink)
    → (write_all ((front ++ a) ++ more) >> return (len + 1 + length more)) s
      ≡ (write_all (front ++ (a ++ more)) >> return (len + suc (length more))) s
counted front a more len s =
    let sum : len + 1 + length more ≡ len + suc (length more) = omega arith in
    rw (append_assoc, sum) refl

write_continued-digits :
    (fuel int len : ℕ) (front : List ℕ) (s : Sink)
    → (write_all front >> write_continued fuel int len) s
      ≡ (write_all (front ++ digits fuel int) >> return (len + length (digits fuel int))) s
unfolding write_continued
write_continued-digits zero int len front s =
    rw (bit_and_mask 7 int) (write_all-write_all front (int % 128 ∷ []) (return (len + 1)) s)
write_continued-digits (suc fuel) int len front s = elim (Bool-cases (leb 128 int)) [
  | inl e ↦
      let byte = 128 + int % 128 in
      let more = digits fuel (int / 128) in
      rw (e, more_byte int)
        (write_all-write_all front (byte ∷ []) (write_continued fuel (int / 128) (len + 1)) s
          ∙ write_continued-digits fuel (int / 128) (len + 1) (front ++ (byte ∷ [])) s
          ∙ counted front (byte ∷ []) more len s)
  | inr e ↦
      rw (e, bit_and_mask 7 int) (write_all-write_all front (int % 128 ∷ []) (return (len + 1)) s)
]

parse_last :
    (m output offset byte : ℕ) (rest : List ℕ)
    → m < 64
    → byte < 128
    → output + byte * 2 ^ m < 2 ^ 64
    → parse_continued m output offset (byte ∷ rest) ≡ ok (output + byte * 2 ^ m, offset + 1)
unfolding parse_continued
parse_last m output offset byte rest hm hb ho =
    let flag : (bit_and byte 0x80 == 0) ≡ true = ground (arith, bit_and_flag 7 byte) in
    let low : bit_and byte 0x7F ≡ byte = omega (arith, bit_and_mask 7 byte) in
    let a : byte * 2 ^ m % 2 ^ 64 ≡ byte * 2 ^ m = omega arith in
    let b : (output + byte * 2 ^ m) % 2 ^ 64 ≡ output + byte * 2 ^ m = omega arith in
    rw (lt→ltb m 64 hm, flag, low, a, b) refl

power_step : (m : ℕ) → 2 ^ (m + 7) ≡ 128 * 2 ^ m
power_step m =
    let seven : m + 7 ≡ suc (suc (suc (suc (suc (suc (suc m)))))) = omega arith in
    rw (seven, pow-suc, pow-suc, pow-suc, pow-suc, pow-suc, pow-suc, pow-suc) (omega arith)

shifted : (int m : ℕ) → int % 128 * 2 ^ m + int / 128 * 2 ^ (m + 7) ≡ int * 2 ^ m
shifted int m =
    let whole : int / 128 * 128 + int % 128 ≡ int = omega arith in
    rw (power_step m) (
      omega (
        arith,
        add-mul (int / 128 * 128) (int % 128) (2 ^ m),
        mul_assoc (int / 128) 128 (2 ^ m),
        ap (λ n. n * 2 ^ m) whole,
      ))

parse_more :
    (m output offset int : ℕ) (rest : List ℕ)
    → m < 64
    → output + int % 128 * 2 ^ m < 2 ^ 64
    → parse_continued m output offset ((128 + int % 128) ∷ rest)
      ≡ parse_continued (m + 7) (output + int % 128 * 2 ^ m) (offset + 1) rest
unfolding parse_continued
parse_more m output offset int rest hm ho =
    let flag : (bit_and (128 + int % 128) 0x80 == 0) ≡ false =
      ground (arith, bit_and_flag 7 (128 + int % 128)) in
    let low : bit_and (128 + int % 128) 0x7F ≡ int % 128 =
      omega (arith, bit_and_mask 7 (128 + int % 128)) in
    let a : int % 128 * 2 ^ m % 2 ^ 64 ≡ int % 128 * 2 ^ m = omega arith in
    let b : (output + int % 128 * 2 ^ m) % 2 ^ 64 ≡ output + int % 128 * 2 ^ m = omega arith in
    rw (lt→ltb m 64 hm, flag, low, a, b) refl

parse_continued-digits :
    (fuel m int output offset : ℕ) (rest : List ℕ)
    → m + 7 * fuel ≡ 63
    → output + int * 2 ^ m < 2 ^ 64
    → parse_continued m output offset (digits fuel int ++ rest)
      ≡ ok (output + int * 2 ^ m, offset + length (digits fuel int))
parse_continued-digits zero m int output offset rest hm ho =
    let m63 : m ≡ 63 = omega arith in
    let big : output + int * 2 ^ 63 < 2 ^ 64 = rw m63 at ho in
    let small : int % 128 ≡ int = omega arith in
    rw small (parse_last m output offset int rest (omega arith) (omega arith) ho)
parse_continued-digits (suc fuel) m int output offset rest hm ho = elim (Bool-cases (leb 128 int)) [
  | inr e ↦
      let h = not-leb→lt _ _ e in
      let small : int % 128 ≡ int = omega arith in
      rw (e, small) (parse_last m output offset int rest (omega arith) (omega arith) ho)
  | inl e ↦
      let sum = shifted int m in
      let value : output + int % 128 * 2 ^ m + int / 128 * 2 ^ (m + 7) ≡ output + int * 2 ^ m =
        omega (arith, sum) in
      rw e (
        parse_more m output offset int _ (omega arith) (omega arith)
        ∙ parse_continued-digits fuel (m + 7) (int / 128) (output + int % 128 * 2 ^ m) (offset + 1)
            rest (omega arith) (omega arith)
        ∙ ap (λ n. ok (n, offset + 1 + length (digits fuel (int / 128)))) value
        ∙ ap (λ n. ok (output + int * 2 ^ m, n)) (omega arith))
]

abbrev wire_more : ℕ → ℕ → ℕ → List ℕ
wire_more prefix bits int =
    (prefix * 2 ^ bits + (2 ^ bits - 1)) ∷ digits rounds (int - (2 ^ bits - 1))

-- The bytes of an integer behind a prefix of a byte's upper bits.
abbrev pub wire_integer : ℕ → ℕ → ℕ → List ℕ
wire_integer prefix bits int =
    if ltb int (2 ^ bits - 1) then (prefix * 2 ^ bits + int) ∷ [] else wire_more prefix bits int

module _ (prefix bits int : ℕ) (hb : bits < 8) (h : prefix * 2 ^ bits < 256) where
  distance : bits % 8 ≡ bits
  distance = omega arith

  front_byte :
      (x : ℕ) → x ≤ 2 ^ bits - 1 → bit_or (prefix * 2 ^ bits % 256) x ≡ prefix * 2 ^ bits + x
  front_byte x hx =
      let e : prefix * 2 ^ bits % 256 ≡ prefix * 2 ^ bits = omega arith in
      rw e (bit_or_fields bits prefix x (omega (arith, one-le-pow bits 2 (omega arith)))).0

  masked : (x : ℕ) → x ≤ 2 ^ bits - 1 → bit_and (prefix * 2 ^ bits + x) (2 ^ bits - 1) ≡ x
  masked x hx = rw (bit_and_mask bits (prefix * 2 ^ bits + x)) (
      mul-add-mod_self_right prefix (2 ^ bits) x
      ∙ mod-eq_of_lt (omega (arith, one-le-pow bits 2 (omega arith))))

  pub write_integer-wire :
      (s : Sink)
      → write_integer prefix bits int s
        ≡ (write_all (wire_integer prefix bits int)
              >> return (length (wire_integer prefix bits int)))
            s
  unfolding write_integer
  write_integer-wire s = elim (Bool-cases (ltb int (2 ^ bits - 1))) [
    | inl e ↦
        let k = ltb→lt _ _ e in
        rw (distance, e, bit_and_fits bits int (omega arith), front_byte int (omega arith)) refl
    | inr e ↦
        rw (distance, e, front_byte (2 ^ bits - 1) (omega arith))
          (write_continued-digits rounds (int - (2 ^ bits - 1)) 1
              ((prefix * 2 ^ bits + (2 ^ bits - 1)) ∷ []) s
            ∙ ap (λ n. (write_all (wire_more prefix bits int) >> return n) s) (omega arith))
  ]

  pub parse_integer-wire :
      (rest : List ℕ)
      → int < 2 ^ 64
      → parse_integer bits (wire_integer prefix bits int ++ rest)
        ≡ ok (int, length (wire_integer prefix bits int))
  unfolding parse_integer
  parse_integer-wire rest hi = elim (Bool-cases (ltb int (2 ^ bits - 1))) [
    | inl e ↦ let k = ltb→lt _ _ e in rw (e, distance, masked int (omega arith), e) refl
    | inr e ↦
        let mask = 2 ^ bits - 1 in
        let value : mask + (int - mask) * 2 ^ 0 ≡ int = ground arith in
        rw (e, distance, masked mask (omega arith), le→not-ltb mask mask (omega arith))
          (parse_continued-digits rounds 0 (int - mask) mask 1 rest (omega arith) (omega arith)
            ∙ rw value (ap (λ n. ok (int, n)) (omega arith)))
  ]

length-digits : (fuel int : ℕ) → length (digits fuel int) ≤ fuel + 1
length-digits zero int = omega arith
length-digits (suc fuel) int = elim (Bool-cases (leb 128 int)) [
  | inl e ↦ rw e (omega (arith, length-digits fuel (int / 128)))
  | inr e ↦ rw e (omega arith)
]

pub length-wire_integer : (prefix bits int : ℕ) → length (wire_integer prefix bits int) ≤ 11
length-wire_integer prefix bits int = elim (Bool-cases (ltb int (2 ^ bits - 1))) [
  | inl e ↦ rw e (omega arith)
  | inr e ↦ rw e (omega (arith, length-digits rounds (int - (2 ^ bits - 1))))
]

-- A `u64` that `write_integer` puts behind a prefix in the upper bits of a byte, with fewer than eight
-- bits of that byte for itself, into a writer with
-- room for eleven bytes, is read back by `parse_integer`, whatever follows it, with the number
-- of bytes that it takes.
pub integer_round_trip :
    (prefix bits int room : ℕ) (rest : List ℕ)
    → bits < 8
    → prefix * 2 ^ bits < 256
    → int < 2 ^ 64
    → 11 ≤ room
    → parse_integer bits (written_by room (write_integer prefix bits int) ++ rest)
      ≡ ok (int, length (written_by room (write_integer prefix bits int)))
integer_round_trip prefix bits int room rest hb h hi hr =
    rw
      (written_by-wire room (write_integer prefix bits int) (wire_integer prefix bits int) _
        (write_integer-wire prefix bits int hb h _)
        (omega (arith, length-wire_integer prefix bits int)))
      (parse_integer-wire prefix bits int hb h rest hi)
