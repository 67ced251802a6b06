-- ===== src/Foreign/Bytes.antt =====
-- `ConstBuffer` of http/src/buffer.rs and the exported functions that copy from it, with
-- `is_nonoverlapping` of http/src/lib.rs.
pub mod Overlap
pub mod Copy
use proxy_rs.Prelude.{
  ℕ, zero, suc, ◌+◌, ◌-◌, ◌^◌, Bool, true, false, not, ◌&&◌, ◌||◌, Option, none, some, List, min,
  leb, ◌==◌, take,
}
use proxy_rs.Buffer.{Buffer, is_null, bytes_of, is_sane, copy_slice, push_slice}
use proxy_rs.Foreign.{Pointer, with_pointer, require}

-- The bytes behind `buf`, or none for null, and the address itself.
pub record ConstBuffer : Type 0 where
  pub len : ℕ
  pub memory : Option (List ℕ)
  pub addr : ℕ

-- `ConstBuffer::as_slice`
abbrev pub const_slice : ConstBuffer → List ℕ
const_slice b = take b.len (bytes_of b.memory)

-- `ConstBuffer::is_sane`
unfoldable pub const_is_sane : ConstBuffer → Bool
const_is_sane b = not (is_null b.memory) || (is_null b.memory && b.len == 0)

-- `saturating_add` of `usize`
abbrev pub saturating_add : ℕ → ℕ → ℕ
saturating_add a b = min (a + b) (2 ^ 64 - 1)

unfoldable pub is_nonoverlapping : ℕ → ℕ → ℕ → ℕ → Bool
is_nonoverlapping dst dst_len src src_len =
    leb (saturating_add dst dst_len) src || leb (saturating_add src src_len) dst

-- What the two exported functions check; `dst_addr` is the address in `dst.buf`.
unfoldable pub checked : Pointer Buffer → ℕ → ConstBuffer → (Buffer → Buffer) → Option Buffer
checked dst dst_addr src f = with_pointer dst (λ d. require (const_is_sane src) (
    require (is_sane d) (require (is_nonoverlapping dst_addr d.cap src.addr src.len) (some (f d)))))

-- `http_copy_buffer`
unfoldable pub copy_buffer : Pointer Buffer → ℕ → ConstBuffer → Option Buffer
unfolding checked
copy_buffer dst dst_addr src = checked dst dst_addr src (λ d. copy_slice d (const_slice src))

-- `http_buffer_push_slice`
unfoldable pub buffer_push_slice : Pointer Buffer → ℕ → ConstBuffer → Option Buffer
unfolding checked
buffer_push_slice dst dst_addr src = checked dst dst_addr src (λ d. push_slice d (const_slice src))
