-- ===== src/Foreign/Bytes/Copy.antt =====
-- What `http_copy_buffer` and `http_buffer_push_slice` leave in a valid buffer.
use proxy_rs.Prelude.{
  ℕ, ◌+◌, ◌^◌, ◌≤◌, ◌≡◌, ◌⊎◌, inl, inr, refl, true, false, none, some, ◌++◌, Bool-cases, arith,
  length-take-le,
}
use proxy_rs.Buffer.{Buffer, IsValid, as_slice, bytes_of}
use proxy_rs.Buffer.Contents.{copy_slice-contents, push_slice-IsAppended}
use proxy_rs.Buffer.Lifetime.{IsValid-is_sane}
use proxy_rs.Foreign.{to}
use proxy_rs.Foreign.Bytes.{
  ConstBuffer, const_slice, const_is_sane, is_nonoverlapping, copy_buffer, buffer_push_slice,
}

module _ (d : Buffer) (dst_addr : ℕ) (src : ConstBuffer) where
  -- Where the blocks do not overlap by the test, `http_copy_buffer` makes the contents of a valid
  -- buffer those of the source, of up to 2 ^ 63 bytes, and `http_buffer_push_slice` appends them, up
  -- to 2 ^ 63 bytes in all; both leave the buffer valid. Where the test finds an overlap, both abort.
  pub copy_buffer-contents :
      IsValid d
      → const_is_sane src ≡ true
      → d.len + src.len ≤ 2 ^ 63
      → ((is_nonoverlapping dst_addr d.cap src.addr src.len ≡ true)
          × ((b : Buffer) × ((copy_buffer (to d) dst_addr src ≡ some b)
                × (IsValid b
                    × ((as_slice b ≡ const_slice src)
                        × ((c : Buffer) × ((buffer_push_slice (to d) dst_addr src ≡ some c)
                              × (IsValid c × (as_slice c ≡ as_slice d ++ const_slice src)))))))))
        ⊎ ((is_nonoverlapping dst_addr d.cap src.addr src.len ≡ false)
            × ((copy_buffer (to d) dst_addr src ≡ none)
                × (buffer_push_slice (to d) dst_addr src ≡ none)))
  unfolding copy_buffer buffer_push_slice
  copy_buffer-contents v sane h =
      let valid = IsValid-is_sane d v in
      let short = length-take-le src.len (bytes_of src.memory) in
      elim (Bool-cases (is_nonoverlapping dst_addr d.cap src.addr src.len)) [
        | inl e ↦
            let (cv, copied) = copy_slice-contents d (const_slice src) v (omega arith) in
            let p = push_slice-IsAppended d v (const_slice src) (omega arith) in
            rw (sane, valid, e)
              (inl (refl, (_, (refl, (cv, (copied, (_, (refl, (p.valid, p.contents)))))))))
        | inr e ↦ rw (sane, valid, e) (inr (refl, (refl, refl)))
      ]
