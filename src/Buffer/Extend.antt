-- ===== src/Buffer/Extend.antt =====
-- `Extend<u8> for Buffer`: the reservation by the size hint, and the bytes pushed one by one.
use proxy_rs.Prelude.{
  ℕ, ◌+◌, ◌^◌, ◌≤◌, inl, inr, ◌∙◌, sym, refl, List, [], ◌∷◌, length, ◌==◌, if◌then◌else◌, arith,
  Bool-cases, append_assoc, append-nil,
}
use proxy_rs.Buffer.{Buffer, IsValid, as_slice, reserve, extend}
use proxy_rs.Buffer.Contents.{
  IsReserved, IsAppended, append-IsAppended, reserve-IsReserved, push-IsAppended,
}

IsAppended-cons :
    (b m b' : Buffer) (x : ℕ) (xs : List ℕ)
    → IsAppended b (x ∷ []) m
    → IsAppended m xs b'
    → IsAppended b (x ∷ xs) b'
IsAppended-cons b m b' x xs v w = record {
  valid = w.valid;
  longer = omega (arith, v.longer, w.longer);
  contents = w.contents ∙ rw (v.contents) (append_assoc (as_slice b) (x ∷ []) xs);
}

-- The room that `extend` makes first changes nothing that can be seen.
extend_room-IsReserved :
    (b : Buffer) (n : ℕ)
    → IsValid b
    → b.len + (n + 1) ≤ 2 ^ 63
    → IsReserved b b.len (if b.len == b.cap then reserve b (n + 1) else b)
extend_room-IsReserved b n v h = elim (Bool-cases (b.len == b.cap)) [
  | inl full ↦
      let r = reserve-IsReserved b v (n + 1) h in
      rw full (record {
        valid = r.valid;
        roomy = omega (arith, r.roomy);
        same_len = r.same_len;
        same_slice = r.same_slice;
      })
  | inr room ↦ rw room (record { valid = v; roomy = v.fits; same_len = refl; same_slice = refl })
]

-- `extend` appends all that the iterator yields to a valid buffer, up to 2 ^ 63 bytes in all,
-- and leaves it valid.
pub extend-IsAppended :
    (xs : List ℕ) (b : Buffer)
    → IsValid b
    → b.len + length xs ≤ 2 ^ 63
    → IsAppended b xs (extend b xs)
unfolding extend
extend-IsAppended [] b v h = record {
  valid = v;
  longer = omega arith;
  contents = sym (append-nil _);
}
extend-IsAppended (x ∷ xs) b v h =
    let r = extend_room-IsReserved b (length xs) v (omega arith) in
    let p = push-IsAppended _ r.valid x (omega (arith, r.same_len)) in
    let one = append-IsAppended b _ _ (x ∷ []) _ r p in
    IsAppended-cons b _ _ x xs one
      (extend-IsAppended xs _ p.valid (omega (arith, p.longer, r.same_len)))
