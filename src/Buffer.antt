-- ===== src/Buffer.antt =====
-- http/src/buffer.rs: the growable byte buffer. Sizes are `usize` of 64 bits, and sums wrap as in a
-- release build. A request to the allocator is answered by `alloc`, a function from the length to
-- the bytes found there, of which nothing is known but how many there are.
pub mod Capacity
pub mod Contents
pub mod Extend
pub mod Lifetime
use proxy_rs.Prelude.{
  ℕ, zero, suc, ◌+◌, ◌-◌, ◌%◌, ◌^◌, ◌≤◌, ◌<◌, ◌≡◌, max, Bool, true, false, not, ◌&&◌, ◌||◌, Option,
  none, some, List, [], ◌∷◌, ◌++◌, length, take, drop, ltb, leb, ◌==◌, if◌then◌else◌,
}

-- `memory` is `none` for the null pointer, and else the `cap` bytes behind it.
pub record Buffer : Type 0 where
  pub len : ℕ
  pub cap : ℕ
  pub memory : Option (List ℕ)
  pub alloc : ℕ → List ℕ

abbrev pub bytes_of : Option (List ℕ) → List ℕ
bytes_of none = []
bytes_of (some m) = m

-- `as_slice`
abbrev pub as_slice : Buffer → List ℕ
as_slice b = take b.len (bytes_of b.memory)

abbrev pub is_null : Option (List ℕ) → Bool
is_null none = true
is_null (some m) = false

unfoldable pub is_sane : Buffer → Bool
is_sane b =
    (not (is_null b.memory) && ltb 0 b.cap && leb b.len b.cap)
    || (is_null b.memory && b.len == 0 && b.cap == 0)

-- `while new_cap < len { new_cap += new_cap.max(1) }`, on fuel.
unfoldable pub grow : ℕ → ℕ → ℕ → ℕ
grow zero new_cap len = new_cap
grow (suc fuel) new_cap len =
    let rest = grow fuel ((new_cap + max new_cap 1) % 2 ^ 64) len in
    if ltb new_cap len then rest else new_cap

-- From 0 the loop reaches 2 ^ 63 in 64 rounds.
abbrev pub grow_fuel : ℕ
grow_fuel = 65

unfoldable pub reserve_len : Buffer → ℕ → Buffer
reserve_len b len =
    let new_cap = grow grow_fuel b.cap len in
    if new_cap == b.cap then b else record b {
      memory = some (take b.len (bytes_of b.memory) ++ drop b.len (b.alloc new_cap));
      cap = new_cap;
    }

unfoldable pub reserve : Buffer → ℕ → Buffer
reserve b additional = reserve_len b ((b.len + additional) % 2 ^ 64)

-- `ptr::copy_nonoverlapping(slice, buf.add(at), slice.len())`
abbrev pub write_at : ℕ → List ℕ → List ℕ → List ℕ
write_at i slice m = take i m ++ (slice ++ drop (i + length slice) m)

-- The write through the pointer, and the new length.
unfoldable pub put : Buffer → List ℕ → Buffer
put b slice = record b {
  memory = some (write_at b.len slice (bytes_of b.memory));
  len = b.len + length slice;
}

unfoldable pub push_slice : Buffer → List ℕ → Buffer
push_slice b slice = if length slice == 0 then b else put (reserve b (length slice)) slice

unfoldable pub push : Buffer → ℕ → Buffer
push b v = put (if b.len == b.cap then reserve b 1 else b) (v ∷ [])

unfoldable pub clear : Buffer → Buffer
clear b = record b { len = 0 }

unfoldable pub copy_slice : Buffer → List ℕ → Buffer
copy_slice b slice = push_slice (clear b) slice

-- `extend` with an iterator that knows how many elements are left.
unfoldable pub extend : Buffer → List ℕ → Buffer
extend b [] = b
extend b (v ∷ rest) =
    extend (push (if b.len == b.cap then reserve b (length rest + 1) else b) v) rest

-- `http_new_buffer_with`
unfoldable pub new_buffer_with : ℕ → (ℕ → List ℕ) → Buffer
new_buffer_with len alloc = record {
  len = 0;
  cap = len;
  memory = if ltb 0 len then some (alloc len) else none;
  alloc = alloc;
}

-- `http_clear_buffer`; `none` is the failed assertion.
unfoldable pub clear_buffer : Buffer → Option Buffer
clear_buffer b = if is_sane b then some (record b { len = 0; cap = 0; memory = none }) else none

-- The documented invariant of the struct, with what the allocator is asked to keep.
pub record IsValid (b : Buffer) : Type 0 where
  pub fits : b.len ≤ b.cap
  pub sized : length (bytes_of b.memory) ≡ b.cap
  pub null : b.cap ≡ 0 → b.memory ≡ none
  pub bounded : b.cap < 2 ^ 64
  pub answers : (n : ℕ) → length (b.alloc n) ≡ n
