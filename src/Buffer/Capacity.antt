-- ===== src/Buffer/Capacity.antt =====
-- The growth loop of `reserve_len` ends with room for what was asked, and wastes less than half.
use proxy_rs.Prelude.{
  ℕ, zero, suc, ◌+◌, ◌*◌, ◌^◌, ◌≤◌, ◌<◌, ◌≡◌, ◌⊎◌, inl, ltb, if◌then◌else◌, arith, refl, ap,
}
use native.Mathlib.Nat.{pow-suc}
use proxy_rs.Buffer.{grow, grow_fuel}

grow-stays : (fuel cap len : ℕ) → len ≤ cap → grow fuel cap len ≡ cap
unfolding grow
grow-stays zero cap len h = refl
grow-stays (suc fuel) cap len h = ground arith

-- From a positive capacity `fuel` doublings are enough for `cap * 2 ^ fuel`.
grow_bounds_pos :
    (fuel cap len : ℕ)
    → 1 ≤ cap
    → len ≤ 2 ^ 63
    → len ≤ cap * 2 ^ fuel
    → (len ≤ grow fuel cap len)
      × (cap ≤ grow fuel cap len)
      × ((grow fuel cap len ≡ cap) ⊎ (grow fuel cap len < 2 * len))
unfolding grow
grow_bounds_pos zero cap len h k e = (omega arith, omega arith, inl refl)
grow_bounds_pos (suc fuel) cap len h k e = ground (
  arith,
  pow-suc 2 fuel,
  ap (λ (t : ℕ). cap * t) (pow-suc 2 fuel),
  grow_bounds_pos fuel (cap + cap) len,
)

grow-zero : (fuel len : ℕ) → grow (suc fuel) 0 len ≡ (if ltb 0 len then grow fuel 1 len else 0)
unfolding grow
grow-zero fuel len = refl

-- The doubling loop ends for every length up to 2 ^ 63, with at least that length and no less
-- than the old capacity; it leaves the capacity as it was or ends below twice the length.
pub grow_bounds :
    (cap len : ℕ)
    → len ≤ 2 ^ 63
    → (len ≤ grow grow_fuel cap len)
      × (cap ≤ grow grow_fuel cap len)
      × ((grow grow_fuel cap len ≡ cap) ⊎ (grow grow_fuel cap len < 2 * len))
grow_bounds zero len k = ground (arith, grow-zero 64 len, grow_bounds_pos 64 1 len)
grow_bounds (suc cap) len k = grow_bounds_pos grow_fuel (suc cap) len (omega arith) k (omega arith)
