-- ===== src/Http2/Hpack/Text/Written.antt =====
-- What `parse_string` makes of a string that `write_string` wrote.
use proxy_rs.Prelude.{
  ℕ, zero, suc, ◌+◌, ◌-◌, ◌/◌, ◌^◌, ◌≤◌, ◌<◌, ◌≡◌, ◌∙◌, refl, ap, false, List, [], ◌∷◌, ◌++◌, ltb,
  leb, length, arith, append_assoc, length-append, le→leb, le→not-ltb, take, drop, Bool-cases, inl,
  inr, get_or,
}
use proxy_rs.Io.{Sink, ok, write_all, ◌>>◌, return}
use proxy_rs.Io.Laws.{bind_outcome_assoc, write_all-write_all}
use proxy_rs.Http2.Frame.RoundTrip.{written_by, written_by-wire}
use proxy_rs.Http2.Hpack.Integer.{parse_integer, rounds}
use proxy_rs.Http2.Hpack.Integer.RoundTrip.{
  digits, wire_integer, write_integer-wire, length-wire_integer,
}
use proxy_rs.Http2.Hpack.Huffman.{get_size}
use proxy_rs.Http2.Hpack.Text.{parse_string, write_string}

write_plain :
    (s : List ℕ) (t : Sink)
    → ltb (get_size s) (length s) ≡ false
    → write_string s t
      ≡ (write_all (wire_integer 0 1 (length s) ++ s)
            >> return (length (wire_integer 0 1 (length s)) + length s))
          t
unfolding write_string
write_plain s t plain =
    rw (plain, write_integer-wire 0 1 (length s) (omega arith) (omega arith))
      (bind_outcome_assoc (write_all (wire_integer 0 1 (length s)) t)
          (λ _. return (length (wire_integer 0 1 (length s))))
          (λ i. write_all s >> return (i + length s))
        ∙ write_all-write_all (wire_integer 0 1 (length s)) s
            (return (length (wire_integer 0 1 (length s)) + length s)) t)

-- The digits have a first byte.
first_digit : (fuel n : ℕ) → (more : List ℕ) × (digits fuel n ≡ get_or (digits fuel n) 0 0 ∷ more)
first_digit zero n = ([], refl)
first_digit (suc fuel) n = elim (Bool-cases (leb 128 n)) [
  | inl e ↦ rw e (digits fuel (n / 128), refl)
  | inr e ↦ rw e ([], refl)
]

-- A length of one and one byte.
parse_one : (x : ℕ) (tail : List ℕ) → parse_string (1 ∷ x ∷ tail) ≡ ok (2, x ∷ [])
unfolding parse_string parse_integer take drop
parse_one x tail = rw (le→leb 2 (suc (suc (length tail))) (omega arith)) refl

parse_written :
    (len : ℕ) (tail : List ℕ)
    → 0 < len
    → parse_string (wire_integer 0 1 len ++ tail)
      ≡ ok (2, get_or (digits rounds (len - 1)) 0 0 ∷ [])
parse_written len tail h =
    let (more, e) = first_digit rounds (len - 1) in
    rw (le→not-ltb len (2 ^ 1 - 1) (omega arith))
      (ap (λ d. parse_string (1 ∷ (d ++ tail))) e ∙ parse_one _ (more ++ tail))

-- A string that is not empty and that `write_string` leaves as it is, is not read back by
-- `parse_string`, which finds one byte in it, a digit of the length, and takes two bytes: the length
-- is written behind one bit of prefix and read behind seven.
pub write_string_misread :
    (s rest : List ℕ) (room : ℕ)
    → 0 < length s
    → ltb (get_size s) (length s) ≡ false
    → 11 + length s ≤ room
    → parse_string (written_by room (write_string s) ++ rest)
      ≡ ok (2, get_or (digits rounds (length s - 1)) 0 0 ∷ [])
write_string_misread s rest room h plain hr =
    let wire = wire_integer 0 1 (length s) in
    rw
      (
        written_by-wire room (write_string s) (wire ++ s) _ (write_plain s _ plain)
            (omega (arith, length-append wire s, length-wire_integer 0 1 (length s))),
        append_assoc wire s rest,
      )
      (parse_written (length s) (s ++ rest) h)
