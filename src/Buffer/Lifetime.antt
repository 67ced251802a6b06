-- ===== src/Buffer/Lifetime.antt =====
-- Buffers at their creation, and the check that guards the foreign functions.
use proxy_rs.Prelude.{
  ℕ, zero, suc, ◌^◌, ◌<◌, ◌≡◌, inl, inr, refl, true, List, [], length, take, ◌==◌, arith,
  Bool-cases, ==_iff, Option-cases, lt→ltb,
}
use proxy_rs.Buffer.{Buffer, IsValid, as_slice, new_buffer_with, is_sane}

-- The run-time check that guards the foreign functions passes on every valid buffer.
pub IsValid-is_sane : (b : Buffer) → IsValid b → is_sane b ≡ true
unfolding is_sane
IsValid-is_sane b v = elim (Option-cases b.memory) [
  | inl e ↦ let s : 0 ≡ b.cap = rw e at v.sized in let f = v.fits in rw e (ground arith)
  | inr (m, e) ↦ elim (Bool-cases (b.cap == 0)) [
    | inl z ↦ cc (v.null ((==_iff _ _).0 z))
    | inr pos ↦ let f = v.fits in rw e (ground arith)
  ]
]

-- A new buffer of a capacity below 2 ^ 64 is valid and empty, where the allocator answers with
-- as many bytes as asked for.
pub new_buffer_with-IsValid :
    (n : ℕ) (alloc : ℕ → List ℕ)
    → n < 2 ^ 64
    → ((k : ℕ) → length (alloc k) ≡ k)
    → IsValid (new_buffer_with n alloc) × (as_slice (new_buffer_with n alloc) ≡ [])
unfolding new_buffer_with take
new_buffer_with-IsValid zero alloc h a =
    (record { fits = omega arith; sized = refl; null = λ z. refl; bounded = h; answers = a }, refl)
new_buffer_with-IsValid (suc n) alloc h a = rw (lt→ltb 0 (suc n) (omega arith)) (
  record {
    fits = omega arith;
    sized = a (suc n);
    null = λ z. absurd (omega arith);
    bounded = h;
    answers = a;
  },
  refl,
)
