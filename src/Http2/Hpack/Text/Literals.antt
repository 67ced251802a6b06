-- ===== src/Http2/Hpack/Text/Literals.antt =====
-- `parse_string` on the literals of RFC 7541: a flag, the length behind seven bits, and the bytes.
use proxy_rs.Prelude.{
  ℕ, ◌+◌, ◌*◌, ◌^◌, ◌<◌, ◌≡◌, ◌∙◌, refl, sym, ap, Bool, true, false, List, ◌++◌, bit_and, leb, ltb,
  ◌==◌, if◌then◌else◌, length, arith, append_assoc, length-append, take-append, drop-append, le→leb,
  All, get_or, Bool-cases, inl, inr, some, ltb→lt,
}
use proxy_rs.Prelude.Bits.{bit_and_flag}
use proxy_rs.Prelude.Bytes.{IsByte}
use proxy_rs.Io.{ok}
use proxy_rs.Http2.Hpack.Integer.RoundTrip.{wire_integer, parse_integer-wire}
use proxy_rs.Http2.Hpack.Huffman.{encode_bytes}
use proxy_rs.Http2.Hpack.Huffman.RoundTrip.{huffman_round_trip}
use proxy_rs.Http2.Hpack.Text.{parse_string, take_string, get_range}

-- A literal as RFC 7541 lays it out.
abbrev pub literal : Bool → List ℕ → List ℕ
literal huffman s =
    let body = if huffman then encode_bytes s else s in
    wire_integer (if huffman then 1 else 0) 7 (length body) ++ body

flag_read :
    (flag len : ℕ) (rest : List ℕ)
    → flag < 2
    → (bit_and (get_or (wire_integer flag 7 len ++ rest) 0 0) 0x80 == 0x80) ≡ (flag == 1)
flag_read flag len rest h = elim (Bool-cases (ltb len 127)) [
  | inl e ↦ let k = ltb→lt _ _ e in rw e (ground (arith, bit_and_flag 7 (flag * 2 ^ 7 + len)))
  | inr e ↦ rw e (ground (arith, bit_and_flag 7 (flag * 2 ^ 7 + 127)))
]

range_read :
    (front body rest : List ℕ)
    → get_range (length front) (length body) ((front ++ body) ++ rest) ≡ some body
range_read front body rest =
    let fits : leb (length front + length body) (length ((front ++ body) ++ rest)) ≡ true =
      le→leb _ _ (omega (arith, length-append (front ++ body) rest, length-append front body)) in
    rw
      (
        fits,
        append_assoc front body rest,
        drop-append (length front) front (body ++ rest) refl,
        take-append (length body) body rest refl,
      )
      refl

-- Any literal with a flag and a length in front is taken apart.
parse_string-literal :
    (flag : ℕ) (body rest : List ℕ)
    → flag < 2
    → length body < 2 ^ 64
    → parse_string ((wire_integer flag 7 (length body) ++ body) ++ rest)
      ≡ take_string
          (flag == 1)
          (length (wire_integer flag 7 (length body)) + length body)
          (some body)
unfolding parse_string
parse_string-literal flag body rest h hl =
    let front = wire_integer flag 7 (length body) in
    rw (append_assoc front body rest) (
      rw
        (
          parse_integer-wire flag 7 (length body) (omega arith) (omega arith) (body ++ rest) hl,
          flag_read flag (length body) (body ++ rest) h,
          ← append_assoc front body rest,
          range_read front body rest,
        )
        refl)

-- `parse_string` reads the string literals of RFC 7541, plain and Huffman coded, whatever follows
-- them: it gives the string and the length of the literal, for a body of less than 2 ^ 64 bytes.
pub literal_read :
    (huffman : Bool) (s rest : List ℕ)
    → All IsByte s
    → length (literal huffman s) < 2 ^ 64
    → parse_string (literal huffman s ++ rest) ≡ ok (length (literal huffman s), s)
literal_read true s rest h hl =
    let body = encode_bytes s in
    let sum = length-append (wire_integer 1 7 (length body)) body in
    parse_string-literal 1 body rest (omega arith) (omega arith)
    ∙ rw (huffman_round_trip s h) (ap (λ n. ok (n, s)) (sym sum))
literal_read false s rest h hl =
    let sum = length-append (wire_integer 0 7 (length s)) s in
    parse_string-literal 0 s rest (omega arith) (omega arith) ∙ ap (λ n. ok (n, s)) (sym sum)
