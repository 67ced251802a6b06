-- ===== src/Foreign/Bytes/Overlap.antt =====
-- The test of `is_nonoverlapping` against the two ranges of addresses.
use proxy_rs.Prelude.{ℕ, ◌+◌, ◌-◌, ◌^◌, ◌<◌, ◌≡◌, ◌≢◌, ◌↔◌, true, leb, arith, inl, inr, Bool-cases}
use proxy_rs.Foreign.Bytes.{is_nonoverlapping}

-- For two blocks of memory that are not empty and end below 2 ^ 64 the test passes exactly when no
-- byte of the one has the address of a byte of the other.
pub is_nonoverlapping_iff :
    (dst dst_len src src_len : ℕ)
    → 0 < dst_len
    → 0 < src_len
    → dst + dst_len < 2 ^ 64
    → src + src_len < 2 ^ 64
    → (is_nonoverlapping dst dst_len src src_len ≡ true)
      ↔ ((i j : ℕ) → i < dst_len → j < src_len → dst + i ≢ src + j)
unfolding is_nonoverlapping
is_nonoverlapping_iff dst dst_len src src_len hd hs bd bs = (
  λ h i j hi hj e. ground arith,
  λ apart. elim (Bool-cases (is_nonoverlapping dst dst_len src src_len)) [
    | inl passes ↦ passes
    | inr fails ↦ elim (Bool-cases (leb src dst)) [
      | inl above ↦ absurd (apart 0 (dst - src) hd (ground arith) (ground arith))
      | inr below ↦ absurd (apart (src - dst) 0 (ground arith) hs (ground arith))
    ]
  ],
)
