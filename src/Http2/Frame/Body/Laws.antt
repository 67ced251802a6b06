-- ===== src/Http2/Frame/Body/Laws.antt =====
-- Reading into the buffer of a frame object: what it holds after a read that ends well, and that it
-- stays a valid buffer after one that does not.
use proxy_rs.Prelude.{
  ℕ, ◌+◌, ◌-◌, ◌≤◌, ◌^◌, ◌≡◌, refl, ap, ◌∙◌, List, ◌++◌, inl, inr, length, take, drop, leb, le→leb,
  not-leb→lt, Bool-cases, Option-cases, arith, length-append, length-take, length-take-le,
  length-drop, take-append, drop-append, take-append_add, eq_nil_of_length, take-zero,
}
use proxy_rs.Buffer.{Buffer, IsValid, as_slice, bytes_of, write_at, reserve_len}
use proxy_rs.Buffer.Contents.{reserve_len-IsReserved}
use proxy_rs.Io.{ok, Source, IoError}
use proxy_rs.Http2.Frame.Wire.{holding}
use proxy_rs.Http2.Frame.Body.{store, read_exact_into}

length-write_at :
    (i : ℕ) (xs m : List ℕ) → i + length xs ≤ length m → length (write_at i xs m) ≡ length m
length-write_at i xs m h = omega (
  arith,
  length-append (take i m) (xs ++ drop (i + length xs) m),
  length-append xs (drop (i + length xs) m),
  length-take i m (omega arith),
  length-drop (i + length xs) m,
)

-- A write inside the length keeps the buffer valid.
pub store-IsValid :
    (b : Buffer) (i : ℕ) (xs : List ℕ) → IsValid b → i + length xs ≤ b.len → IsValid (store b i xs)
store-IsValid b i xs v h = elim (Option-cases b.memory) [
  | inl e ↦ rw e (record {
    fits = v.fits;
    sized = rw e at v.sized;
    null = λ z. refl;
    bounded = v.bounded;
    answers = v.answers;
  })
  | inr (m, e) ↦
      let size : length m ≡ b.cap = rw e at v.sized in
      rw e (record {
        fits = v.fits;
        sized = length-write_at i xs m (omega (arith, v.fits)) ∙ size;
        null = λ z. cc (v.null z);
        bounded = v.bounded;
        answers = v.answers;
      })
]

-- A write that ends at the length leaves what stood in front of it, and the new bytes.
pub store-as_slice :
    (b : Buffer) (i : ℕ) (xs : List ℕ)
    → IsValid b
    → i + length xs ≡ b.len
    → as_slice (store b i xs) ≡ take i (bytes_of b.memory) ++ xs
store-as_slice b i xs v h = elim (Option-cases b.memory) [
  | inl e ↦
      let size : 0 ≡ b.cap = rw e at v.sized in
      let i0 : i ≡ 0 = omega (arith, v.fits) in
      let l0 : b.len ≡ 0 = omega (arith, v.fits) in
      rw (e, i0, l0, eq_nil_of_length xs (omega (arith, v.fits)), take-zero) refl
  | inr (m, e) ↦
      let size : length m ≡ b.cap = rw e at v.sized in
      rw e (
        take-append_add (take i m) b.len (length xs) _
          (omega (arith, length-take i m (omega (arith, v.fits)), v.fits))
        ∙ ap (λ t. take i m ++ t) (take-append (length xs) xs _ refl))
]

-- `reserve_len(n); len = n` on a valid buffer.
pub resized-IsValid :
    (b : Buffer) (n : ℕ) → IsValid b → n ≤ 2 ^ 63 → IsValid (record (reserve_len b n) { len = n })
resized-IsValid b n v h =
    let r = reserve_len-IsReserved b v n h in
    record {
      fits = r.roomy;
      sized = r.valid.sized;
      null = r.valid.null;
      bounded = r.valid.bounded;
      answers = r.valid.answers;
    }

-- A reader that holds enough fills the rest of the buffer.
pub read_exact_into-append :
    (b : Buffer) (i : ℕ) (xs rest : List ℕ) (e : IoError)
    → i + length xs ≡ b.len
    → read_exact_into i (b, holding (xs ++ rest) e) ≡ (ok tt, (store b i xs, holding rest e))
unfolding read_exact_into
read_exact_into-append b i xs rest e h =
    let size : length xs ≡ b.len - i = omega arith in
    rw
      (
        le→leb (b.len - i) (length (xs ++ rest)) (omega (arith, length-append xs rest)),
        take-append (b.len - i) xs rest size,
        drop-append (b.len - i) xs rest size,
      )
      refl

-- However the read ends, the buffer is valid and keeps its length.
pub read_exact_into-IsValid :
    (b : Buffer) (i : ℕ) (s : Source)
    → IsValid b
    → i ≤ b.len
    → IsValid (read_exact_into i (b, s)).1.0
unfolding read_exact_into
read_exact_into-IsValid b i s v h = elim (Bool-cases (leb (b.len - i) (length s.pending))) [
  | inl enough ↦
      rw enough (store-IsValid b i _ v (omega (arith, length-take-le (b.len - i) s.pending)))
  | inr short ↦
      let k = not-leb→lt _ _ short in rw short (store-IsValid b i s.pending v (omega arith))
]
