-- ===== src/Http2/Frame/Wire.antt =====
-- The big-endian integers that stand in front of a reader, and the bytes of a frame header.
use proxy_rs.Prelude.{
  ◌+◌, Bool, true, false, not, ◌==◌, if◌then◌else◌, bit_and, bit_or, ℕ, ◌^◌, ◌<◌, ◌≡◌, refl, ap,
  ◌∙◌, List, [], ◌∷◌, ◌++◌, reverse, drop, arith,
}
use proxy_rs.Prelude.Bits.{bit_or_fields, bit_or-zero, bit_and_mask, bit_and_fits, bit_and_flag}
use proxy_rs.Prelude.Bytes.{
  to_le_bytes, from_le_bytes, to_be_bytes, from_be_bytes, from_be_bytes-to_be_bytes,
  length-to_be_bytes,
}
use mathlib.Core.List.{reverse-append}
use proxy_rs.Io.{ok, Source, IoError, read_exact, ◌>>=◌, return}
use proxy_rs.Io.Laws.{read_exact-append}
use proxy_rs.Http2.Frame.{read_u8, read_u16, read_u24, read_u32, read_u64}

-- The nine bytes of a header, as RFC 9113 lays them out.
abbrev pub wire_header : ℕ → ℕ → ℕ → ℕ → List ℕ
wire_header len type flags id = to_be_bytes 3 len ++ (type ∷ flags ∷ to_be_bytes 4 id)

abbrev pub holding : List ℕ → IoError → Source
holding bytes e = record { pending = bytes; failure = e }

-- Dropping the top byte of a `u32` leaves the three bytes of a `u24`.
pub drop-to_be_bytes : (v : ℕ) → drop 1 (to_be_bytes 4 v) ≡ to_be_bytes 3 v
unfolding drop to_be_bytes to_le_bytes
drop-to_be_bytes v = refl

from_le_bytes-zero_top : (xs : List ℕ) → from_le_bytes (xs ++ (0 ∷ [])) ≡ from_le_bytes xs
unfolding from_le_bytes
from_le_bytes-zero_top [] = refl
from_le_bytes-zero_top (x ∷ xs) = omega (arith, from_le_bytes-zero_top xs)

pub from_be_bytes-zero : (xs : List ℕ) → from_be_bytes (0 ∷ xs) ≡ from_be_bytes xs
unfolding from_be_bytes
from_be_bytes-zero xs =
    ap from_le_bytes (reverse-append (0 ∷ []) xs) ∙ from_le_bytes-zero_top (reverse xs)

from_be_bytes-one : (v : ℕ) → from_be_bytes (v ∷ []) ≡ v
unfolding from_be_bytes
from_be_bytes-one v = omega arith

module _ (v : ℕ) (rest : List ℕ) (e : IoError) where
  read_be-wire :
      (k : ℕ)
      → v < 256 ^ k
      → (read_exact k >>= λ buf. return (from_be_bytes buf)) (holding (to_be_bytes k v ++ rest) e)
        ≡ (ok v, holding rest e)
  read_be-wire k h =
      rw
        (
          read_exact-append k (to_be_bytes k v) rest e (length-to_be_bytes k v),
          from_be_bytes-to_be_bytes k v h,
        )
        refl

  pub read_u16-wire :
      v < 2 ^ 16 → read_u16 (holding (to_be_bytes 2 v ++ rest) e) ≡ (ok v, holding rest e)
  unfolding read_u16
  read_u16-wire h = read_be-wire 2 h

  pub read_u32-wire :
      v < 2 ^ 32 → read_u32 (holding (to_be_bytes 4 v ++ rest) e) ≡ (ok v, holding rest e)
  unfolding read_u32
  read_u32-wire h = read_be-wire 4 h

  pub read_u64-wire :
      v < 2 ^ 64 → read_u64 (holding (to_be_bytes 8 v ++ rest) e) ≡ (ok v, holding rest e)
  unfolding read_u64
  read_u64-wire h = read_be-wire 8 h

  pub read_u24-wire :
      v < 2 ^ 24 → read_u24 (holding (to_be_bytes 3 v ++ rest) e) ≡ (ok v, holding rest e)
  unfolding read_u24
  read_u24-wire h =
      rw
        (
          read_exact-append 3 (to_be_bytes 3 v) rest e (length-to_be_bytes 3 v),
          from_be_bytes-zero,
          from_be_bytes-to_be_bytes 3 v h,
        )
        refl

  pub read_u8-wire : read_u8 (holding (v ∷ rest) e) ≡ (ok v, holding rest e)
  unfolding read_u8
  read_u8-wire = rw (read_exact-append 1 (v ∷ []) rest e refl, from_be_bytes-one) refl

-- The word that carries a 31-bit stream under a flag.
abbrev pub dep_word : Bool → ℕ → ℕ
dep_word exclusive dep = if exclusive then 0x80000000 + dep else dep

pub dep_word-or :
    (b : Bool) (dep : ℕ)
    → dep < 2 ^ 31
    → bit_or dep (if b then 0x80000000 else 0x0) ≡ dep_word b dep
dep_word-or true dep h = omega (arith, bit_or_fields 31 1 dep h)
dep_word-or false dep h = bit_or-zero dep

pub dep_word-id : (b : Bool) (dep : ℕ) → dep < 2 ^ 31 → bit_and (dep_word b dep) 0x7FFFFFFF ≡ dep
dep_word-id true dep h = omega (arith, bit_and_mask 31 (0x80000000 + dep))
dep_word-id false dep h = bit_and_fits 31 dep h

pub dep_word-exclusive :
    (b : Bool) (dep : ℕ) → dep < 2 ^ 31 → not (bit_and (dep_word b dep) 0x80000000 == 0) ≡ b
dep_word-exclusive true dep h = ground (arith, bit_and_flag 31 (0x80000000 + dep))
dep_word-exclusive false dep h = ground (arith, bit_and_flag 31 dep)

pub dep_word-lt : (b : Bool) (dep : ℕ) → dep < 2 ^ 31 → dep_word b dep < 2 ^ 32
dep_word-lt true dep h = omega arith
dep_word-lt false dep h = omega arith
