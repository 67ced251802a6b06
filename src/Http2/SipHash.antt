-- ===== src/Http2/SipHash.antt =====
-- `SipHash` of http/src/http2/context.rs, with its numbers of rounds. A `u64` wraps at 2 ^ 64.
use proxy_rs.Prelude.{
  ℕ, zero, suc, ◌+◌, ◌-◌, ◌*◌, ◌/◌, ◌%◌, ◌^◌, bit_or, List, ◌++◌, length, take, drop, replicate,
  ltb, leb, if◌then◌else◌,
}
use proxy_rs.Prelude.Bytes.{from_le_bytes}
use Prim.Native.Nat.{bit_xor}

pub record SipHash : Type 0 where
  pub v0 : ℕ
  pub v1 : ℕ
  pub v2 : ℕ
  pub v3 : ℕ
  pub dgst_len : ℕ
  pub dgst_buf : List ℕ

abbrev pub wrapping_add : ℕ → ℕ → ℕ
wrapping_add a b = (a + b) % 2 ^ 64

abbrev pub rotate_left : ℕ → ℕ → ℕ
rotate_left a n = (a * 2 ^ n) % 2 ^ 64 + a / 2 ^ (64 - n)

unfoldable pub init : SipHash → List ℕ → SipHash
unfolding from_le_bytes take drop replicate
init h key =
    let k0 = from_le_bytes (take 8 key) in
    let k1 = from_le_bytes (drop 8 key) in
    record {
      v0 = bit_xor 0x736f6d6570736575 k0;
      v1 = bit_xor 0x646f72616e646f6d k1;
      v2 = bit_xor 0x6c7967656e657261 k0;
      v3 = bit_xor 0x7465646279746573 k1;
      dgst_len = 0;
      dgst_buf = replicate 8 0;
    }

-- Each name is one more value of the register.
unfoldable pub sipround : SipHash → SipHash
sipround h =
    let v0 = wrapping_add h.v0 h.v1 in
    let v1 = bit_xor (rotate_left h.v1 13) v0 in
    let v0' = rotate_left v0 32 in
    let v2 = wrapping_add h.v2 h.v3 in
    let v3 = bit_xor (rotate_left h.v3 16) v2 in
    let v0'' = wrapping_add v0' v3 in
    let v3' = bit_xor (rotate_left v3 21) v0'' in
    let v2' = wrapping_add v2 v1 in
    let v1' = bit_xor (rotate_left v1 17) v2' in
    record h { v0 = v0''; v1 = v1'; v2 = rotate_left v2' 32; v3 = v3' }

unfoldable pub siprounds : ℕ → SipHash → SipHash
unfolding sipround
siprounds zero h = h
siprounds (suc n) h = siprounds n (sipround h)

module _ (c d : ℕ) where
  unfoldable pub compress : ℕ → SipHash → SipHash
  unfolding siprounds
  compress m h =
      let h' = siprounds c (record h { v3 = bit_xor h.v3 m }) in record h' { v0 = bit_xor h'.v0 m }

  -- What is left at the end goes into the buffer. Each round takes eight bytes.
  unfoldable pub add_blocks : ℕ → List ℕ → SipHash → SipHash
  unfolding compress from_le_bytes take drop replicate
  add_blocks zero bytes h = record h { dgst_buf = bytes ++ replicate (8 - length bytes) 0 }
  add_blocks (suc fuel) bytes h =
      let more = add_blocks fuel (drop 8 bytes) (compress (from_le_bytes (take 8 bytes)) h) in
      if leb 8 (length bytes)
      then more
      else record h { dgst_buf = bytes ++ replicate (8 - length bytes) 0 }

  unfoldable pub add : List ℕ → SipHash → SipHash
  unfolding add_blocks
  add bytes h =
      let buf_len = h.dgst_len % 8 in
      let buf_rem = 8 - buf_len in
      let longer = record h { dgst_len = (h.dgst_len + length bytes) % 2 ^ 64 } in
      if ltb (length bytes) buf_rem
      then record longer {
        dgst_buf = take buf_len h.dgst_buf ++ (bytes ++ drop (buf_len + length bytes) h.dgst_buf);
      }
      else add_blocks (length bytes / 8) (drop buf_rem bytes)
          (compress (from_le_bytes (take buf_len h.dgst_buf ++ take buf_rem bytes)) longer)

  unfoldable pub digest : SipHash → ℕ × SipHash
  unfolding compress
  digest h =
      let b = bit_or ((h.dgst_len * 2 ^ 56) % 2 ^ 64) (from_le_bytes h.dgst_buf) in
      let h' = compress b h in
      let h'' = siprounds d (record h' { v2 = bit_xor h'.v2 0xFF }) in
      (bit_xor (bit_xor (bit_xor h''.v0 h''.v1) h''.v2) h''.v3, h'')
