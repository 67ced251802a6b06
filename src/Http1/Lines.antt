-- ===== src/Http1/Lines.antt =====
-- What http/src/http11.rs uses of the standard library to read lines, texts and numbers.
pub mod Laws
use proxy_rs.Prelude.{
  ℕ, zero, suc, ◌+◌, ◌-◌, ◌*◌, ◌^◌, ◌⊎◌, inl, inr, Bool, true, false, ◌&&◌, ◌||◌, Option, none,
  some, List, [], ◌∷◌, ◌++◌, ltb, leb, ◌==◌, if◌then◌else◌, codes, bytes_eq,
}
use proxy_rs.Io.{M, Outcome, ok, err, panic, IoError, other}

-- A `BufReader`: the bytes that it still delivers, and the error behind them or the end.
pub record Stream : Type 0 where
  pub pending : List ℕ
  pub failure : Option IoError

abbrev pub in_front : ℕ → Option (List ℕ × List ℕ) → Option (List ℕ × List ℕ)
in_front x none = none
in_front x (some (a, b)) = some (x ∷ a, b)

-- `split_once`, for one byte.
unfoldable pub split_once : ℕ → List ℕ → Option (List ℕ × List ℕ)
split_once c [] = none
split_once c (x ∷ xs) =
    let rest = split_once c xs in if x == c then some ([], xs) else in_front x rest

abbrev pub at_end : List ℕ → Option IoError → Outcome IoError (List ℕ)
at_end d none = ok d
at_end d (some e) = err e

abbrev pub until : Stream → Option (List ℕ × List ℕ) → Outcome IoError (List ℕ) × Stream
until s none = (at_end s.pending s.failure, record s { pending = [] })
until s (some (a, b)) = (ok (a ++ (10 ∷ [])), record s { pending = b })

-- `read_until(b'\n')`
unfoldable pub read_until : M Stream IoError (List ℕ)
unfolding split_once
read_until s = until s (split_once 10 s.pending)

-- How many bytes follow a first byte of UTF-8, and between what the next one is; one that starts
-- nothing has no next.
abbrev pub lead : ℕ → ℕ × (ℕ × ℕ)
lead b =
    if ltb b 0x80
    then (0, (0x80, 0xBF))
    else if ltb b 0xC2
    then (1, (1, 0))
    else if ltb b 0xE0
    then (1, (0x80, 0xBF))
    else if b == 0xE0
    then (2, (0xA0, 0xBF))
    else if b == 0xED
    then (2, (0x80, 0x9F))
    else if ltb b 0xF0
    then (2, (0x80, 0xBF))
    else if b == 0xF0
    then (3, (0x90, 0xBF))
    else if ltb b 0xF4
    then (3, (0x80, 0xBF))
    else if b == 0xF4
    then (3, (0x80, 0x8F))
    else (1, (1, 0))

abbrev pub utf8_from : ℕ → ℕ → ℕ → List ℕ → Bool
utf8_from zero low high [] = true
utf8_from (suc k) low high [] = false
utf8_from zero low high (b ∷ rest) = let (k, (low, high)) = lead b in utf8_from k low high rest
utf8_from (suc k) low high (b ∷ rest) = leb low b && (leb b high && utf8_from k 0x80 0xBF rest)

-- `from_utf8(...).is_ok()`
unfoldable pub is_utf8 : List ℕ → Bool
is_utf8 d = utf8_from 0 0x80 0xBF d

abbrev pub valid : Outcome IoError (List ℕ) → Outcome IoError (List ℕ)
valid (err e) = err e
valid panic = panic
valid (ok d) = if is_utf8 d then ok d else err (other (codes "stream did not contain valid UTF-8"))

-- `read_line`
unfoldable pub read_line : M Stream IoError (List ℕ)
unfolding read_until is_utf8
read_line s = let (r, s') = read_until s in (valid r, s')

-- Where a byte stands in the UTF-8 of a white space of Unicode.
pub data SpaceState : Type 0 where
  start c2 e1 e1_9a e2 e2_80 e2_81 e3 e3_80 : SpaceState

abbrev pub ascii_space : ℕ → Bool
ascii_space c = c == 32 || (leb 9 c && leb c 13)

abbrev pub only_if : Bool → Option SpaceState
only_if true = some start
only_if false = none

abbrev pub space_step : SpaceState → ℕ → Option SpaceState
space_step start c =
    if ascii_space c
    then some start
    else if c == 0xC2
    then some c2
    else if c == 0xE1
    then some e1
    else if c == 0xE2
    then some e2
    else if c == 0xE3
    then some e3
    else none
space_step c2 c = only_if (c == 0x85 || c == 0xA0)
space_step e1 c = if c == 0x9A then some e1_9a else none
space_step e1_9a c = only_if (c == 0x80)
space_step e2 c = if c == 0x80 then some e2_80 else if c == 0x81 then some e2_81 else none
space_step e2_80 c = only_if ((leb 0x80 c && leb c 0x8A) || (c == 0xA8 || (c == 0xA9 || c == 0xAF)))
space_step e2_81 c = only_if (c == 0x9F)
space_step e3 c = if c == 0x80 then some e3_80 else none
space_step e3_80 c = only_if (c == 0x80)

abbrev pub ends_char : SpaceState → Bool
ends_char start = true
ends_char s = false

abbrev pub follow : (SpaceState → Bool) → Option SpaceState → Bool
follow again none = false
follow again (some s) = again s

unfoldable pub blank : List ℕ → SpaceState → Bool
blank [] s = ends_char s
blank (c ∷ rest) s = follow (blank rest) (space_step s c)

-- `str::trim_end`
unfoldable pub trim_end : List ℕ → List ℕ
unfolding blank
trim_end [] = []
trim_end (c ∷ rest) = let more = trim_end rest in if blank (c ∷ rest) start then [] else c ∷ more

-- `strip_prefix`
unfoldable pub strip_prefix : List ℕ → List ℕ → Option (List ℕ)
strip_prefix [] d = some d
strip_prefix (p ∷ ps) [] = none
strip_prefix (p ∷ ps) (x ∷ xs) = let rest = strip_prefix ps xs in if x == p then rest else none

-- `char::to_digit`
abbrev pub to_digit : ℕ → ℕ → Option ℕ
to_digit radix c =
    let digit =
      if leb 48 c && leb c 57
      then c - 48
      else if leb 97 c && leb c 122
      then c - 87
      else if leb 65 c && leb c 90
      then c - 55
      else radix in
    if ltb digit radix then some digit else none

abbrev pub with_digit : (ℕ → List ℕ ⊎ ℕ) → ℕ → ℕ → Option ℕ → List ℕ ⊎ ℕ
with_digit again radix n none = inl (codes "invalid digit found in string")
with_digit again radix n (some d) =
    if ltb (n * radix + d) (2 ^ 64)
    then again (n * radix + d)
    else inl (codes "number too large to fit in target type")

abbrev pub parse_digits : ℕ → List ℕ → ℕ → List ℕ ⊎ ℕ
parse_digits radix [] n = inr n
parse_digits radix (c ∷ rest) n = with_digit (parse_digits radix rest) radix n (to_digit radix c)

abbrev pub behind_plus : ℕ → List ℕ → List ℕ ⊎ ℕ
behind_plus radix [] = inl (codes "invalid digit found in string")
behind_plus radix (c ∷ rest) = parse_digits radix (c ∷ rest) 0

-- `usize::from_str_radix`: an error as its text, or the number.
unfoldable pub from_str_radix : List ℕ → ℕ → List ℕ ⊎ ℕ
from_str_radix [] radix = inl (codes "cannot parse integer from empty string")
from_str_radix (c ∷ rest) radix =
    if c == b'+' then behind_plus radix rest else parse_digits radix (c ∷ rest) 0
