-- ===== src/Buffer/Contents.antt =====
-- What a buffer holds: every operation keeps the struct's invariant and changes the contents as on
-- a plain byte string.
use proxy_rs.Prelude.{
  ℕ, ◌+◌, ◌%◌, ◌^◌, ◌≤◌, ◌<◌, ◌≡◌, inl, inr, ◌∙◌, sym, refl, ap, List, [], ◌∷◌, ◌++◌, length, take,
  drop, ◌==◌, arith, Bool-cases, ==_iff, length-append, suc-==-zero, length-take, length-drop,
  take-append, append-nil, take-append_add,
}
use proxy_rs.Buffer.{
  Buffer, IsValid, as_slice, bytes_of, grow, grow_fuel, reserve_len, reserve, put, push_slice, push,
  clear, copy_slice, write_at,
}
use proxy_rs.Buffer.Capacity.{grow_bounds}

-- What `reserve_len` promises of its result.
pub record IsReserved (b : Buffer) (len : ℕ) (b' : Buffer) : Type 0 where
  pub valid : IsValid b'
  pub roomy : len ≤ b'.cap
  pub same_len : b'.len ≡ b.len
  pub same_slice : as_slice b' ≡ as_slice b

module _ (b : Buffer) (v : IsValid b) where
  pub length-as_slice : length (as_slice b) ≡ b.len
  length-as_slice = length-take b.len (bytes_of b.memory) (omega (arith, v.fits, v.sized))

  moved : (n : ℕ) → b.len ≤ n → length (as_slice b ++ drop b.len (b.alloc n)) ≡ n
  moved n h = omega (
    arith,
    length-append (as_slice b) (drop b.len (b.alloc n)),
    length-as_slice,
    length-drop b.len (b.alloc n),
    v.answers n,
  )

  -- `reserve_len` on a valid buffer makes room for up to 2 ^ 63 bytes and leaves the buffer valid, with
  -- the same length and contents.
  pub reserve_len-IsReserved : (len : ℕ) → len ≤ 2 ^ 63 → IsReserved b len (reserve_len b len)
  unfolding reserve_len
  reserve_len-IsReserved len h = elim (Bool-cases (grow grow_fuel b.cap len == b.cap)) [
    | inl same ↦
        let e = (==_iff _ _).0 same in
        rw same (record {
          valid = v;
          roomy = omega (arith, grow_bounds b.cap len h);
          same_len = refl;
          same_slice = refl;
        })
    | inr more ↦
        let size = grow_bounds b.cap len h in
        rw more (record {
          valid = record {
            fits = omega (arith, size, v.fits);
            sized = moved _ (omega (arith, size, v.fits));
            null = λ z. absurd (ground (arith, size));
            bounded = ground (arith, size, v.bounded);
            answers = v.answers;
          };
          roomy = size.0;
          same_len = refl;
          same_slice = take-append b.len _ _ length-as_slice;
        })
  ]

-- What the operations that write promise: the new bytes stand behind the old ones.
pub record IsAppended (b : Buffer) (slice : List ℕ) (b' : Buffer) : Type 0 where
  pub valid : IsValid b'
  pub longer : b'.len ≡ b.len + length slice
  pub contents : as_slice b' ≡ as_slice b ++ slice

module _ (b : Buffer) (v : IsValid b) (slice : List ℕ) where
  written : List ℕ
  written = write_at b.len slice (bytes_of b.memory)

  length-written : b.len + length slice ≤ b.cap → length written ≡ b.cap
  unfolding written
  length-written h =
      let rest = drop (b.len + length slice) (bytes_of b.memory) in
      omega (
        arith,
        length-append (as_slice b) (slice ++ rest),
        length-append slice rest,
        length-as_slice b v,
        length-drop (b.len + length slice) (bytes_of b.memory),
        v.sized,
      )

  pub put-IsAppended :
      0 < length slice → b.len + length slice ≤ b.cap → IsAppended b slice (put b slice)
  unfolding put written
  put-IsAppended pos h = record {
    valid = record {
      fits = h;
      sized = length-written h;
      null = λ z. absurd (omega arith);
      bounded = v.bounded;
      answers = v.answers;
    };
    longer = refl;
    contents =
        take-append_add (as_slice b) (b.len + length slice) (length slice) _
          (omega (arith, length-as_slice b v))
        ∙ ap (λ t. as_slice b ++ t) (take-append (length slice) slice _ refl);
  }

pub append-IsAppended :
    (b r : Buffer) (n : ℕ) (slice : List ℕ) (b' : Buffer)
    → IsReserved b n r
    → IsAppended r slice b'
    → IsAppended b slice b'
append-IsAppended b r n slice b' v w = record {
  valid = w.valid;
  longer = omega (arith, w.longer, v.same_len);
  contents = w.contents ∙ ap (λ t. t ++ slice) v.same_slice;
}

module _ (b : Buffer) (v : IsValid b) where
  pub reserve-IsReserved : (n : ℕ) → b.len + n ≤ 2 ^ 63 → IsReserved b (b.len + n) (reserve b n)
  unfolding reserve
  reserve-IsReserved n h =
      let e : (b.len + n) % 2 ^ 64 ≡ b.len + n = omega arith in
      rw e (reserve_len-IsReserved b v (b.len + n) h)

  -- `push_slice` appends the slice to a valid buffer, whether or not it has to move the bytes to
  -- a larger allocation, up to 2 ^ 63 bytes in all, and leaves it valid.
  pub push_slice-IsAppended :
      (slice : List ℕ) → b.len + length slice ≤ 2 ^ 63 → IsAppended b slice (push_slice b slice)
  unfolding push_slice
  push_slice-IsAppended [] h = record {
    valid = v;
    longer = omega arith;
    contents = sym (append-nil _);
  }
  push_slice-IsAppended (x ∷ xs) h =
      let r = reserve-IsReserved (length (x ∷ xs)) h in
      rw (suc-==-zero (length xs)) (
        append-IsAppended b _ _ (x ∷ xs) _ r
          (put-IsAppended _ r.valid (x ∷ xs) (omega arith) (omega (arith, r.roomy, r.same_len))))

  -- `push` appends one byte to a valid buffer, growing it when it is full, up to 2 ^ 63 bytes in
  -- all, and leaves it valid.
  pub push-IsAppended : (x : ℕ) → b.len + 1 ≤ 2 ^ 63 → IsAppended b (x ∷ []) (push b x)
  unfolding push
  push-IsAppended x h = elim (Bool-cases (b.len == b.cap)) [
    | inl full ↦
        let r = reserve-IsReserved 1 h in
        rw full (
          append-IsAppended b _ _ (x ∷ []) _ r
            (put-IsAppended _ r.valid (x ∷ []) (omega arith) (omega (arith, r.roomy, r.same_len))))
    | inr room ↦ rw room (put-IsAppended b v (x ∷ []) (omega arith) (ground (arith, v.fits)))
  ]

  -- `clear` leaves a valid buffer valid and empty.
  pub clear-IsValid : IsValid (clear b) × (as_slice (clear b) ≡ [])
  unfolding clear take
  clear-IsValid = (
    record {
      fits = omega arith;
      sized = v.sized;
      null = v.null;
      bounded = v.bounded;
      answers = v.answers;
    },
    refl,
  )

-- `copy_slice` leaves a valid buffer valid, and its contents are the slice, of up to 2 ^ 63 bytes.
pub copy_slice-contents :
    (b : Buffer) (slice : List ℕ)
    → IsValid b
    → length slice ≤ 2 ^ 63
    → IsValid (copy_slice b slice) × (as_slice (copy_slice b slice) ≡ slice)
unfolding copy_slice clear
copy_slice-contents b slice v h =
    let (cv, ce) = clear-IsValid b v in
    let w = push_slice-IsAppended (clear b) cv slice (omega arith) in
    (w.valid, w.contents ∙ ap (λ t. t ++ slice) ce)
