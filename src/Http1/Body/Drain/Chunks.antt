-- ===== src/Http1/Body/Drain/Chunks.antt =====
-- A body in chunks, and the two kinds of bodies that the headers of a request ask for.
use proxy_rs.Prelude.{
  ℕ, suc, ◌+◌, ◌<◌, ◌≡◌, ◌∙◌, refl, sym, ap, true, false, Option, List, [], ◌∷◌, ◌++◌, length,
  arith, inr, All, length-append, append_assoc, codes,
}
use proxy_rs.Io.{ok, IoError, bind_outcome}
use proxy_rs.Request.{HeaderMap, values_of}
use proxy_rs.Http1.Lines.{Stream, is_utf8, trim_end, from_str_radix}
use proxy_rs.Http1.Lines.Laws.{Lacks, read_line-line}
use proxy_rs.Http1.Body.{
  Body, non_zero, next_chunk, read_some, body_read, asks_chunks, length_text, get_body_reader,
}
use proxy_rs.Http1.Body.Drain.{
  body_at, onwards, drain, onwards-some, count_down-Delivers, drain-sized,
}

-- A line, without its end, that tells a length in hexadecimal.
pub record IsSize (line : List ℕ) (n : ℕ) : Type 0 where
  pub one_line : Lacks 10 line
  pub utf8 : is_utf8 (line ++ (10 ∷ [])) ≡ true
  pub number : from_str_radix (trim_end (line ++ (10 ∷ []))) 16 ≡ inr n

-- A chunk: the line with its length, and its bytes.
abbrev pub Chunk : Type 0
Chunk = List ℕ × List ℕ

abbrev pub IsChunk : Chunk → Type 0
IsChunk (line, d) = IsSize line (length d) × (0 < length d)

abbrev pub contents : List Chunk → List ℕ
contents [] = []
contents ((line, d) ∷ cs) = d ++ contents cs

-- What follows the bytes of a chunk; `last` is the line of the chunk of length 0.
abbrev pub rest_wire : List Chunk → List ℕ → List ℕ → List ℕ
rest_wire [] last tail = 13 ∷ 10 ∷ (last ++ (10 ∷ tail))
rest_wire ((line, d) ∷ cs) last tail = 13 ∷ 10 ∷ (line ++ (10 ∷ (d ++ rest_wire cs last tail)))

next_chunk-size :
    (f : Option IoError) (line rest : List ℕ) (n : ℕ)
    → IsSize line n
    → next_chunk (body_at f true (13 ∷ 10 ∷ (line ++ (10 ∷ rest))) 0)
      ≡ (ok (non_zero n), body_at f true rest 0)
unfolding next_chunk is_utf8
next_chunk-size f line rest n h =
    rw
      (
        read_line-line (13 ∷ []) (line ++ (10 ∷ rest))
            (record { pending = 13 ∷ 10 ∷ (line ++ (10 ∷ rest)); failure = f }) refl
            ((λ e. absurd (omega (arith, e))), tt) refl,
        read_line-line line rest (record { pending = line ++ (10 ∷ rest); failure = f }) refl
            h.one_line h.utf8,
        h.number,
      )
      refl

module _ (more : Stream → ℕ) where
  -- The rest of a chunk, and the chunks behind it.
  pub drain-chunks :
      (f : Option IoError) (last tail w : List ℕ) (cs : List Chunk) (sizes : List ℕ)
      → IsSize last 0
      → All IsChunk cs
      → length w + length (contents cs) < length sizes
      → drain more sizes (body_at f true (w ++ rest_wire cs last tail) (length w))
        ≡ (ok (w ++ contents cs), body_at f true tail 0)
  unfolding drain body_read
  drain-chunks f last tail w cs [] hl hc h = absurd (omega (arith, h))
  drain-chunks f last tail [] [] (n ∷ sizes) hl hc h = rw (next_chunk-size f last tail 0 hl) refl
  drain-chunks f last tail [] ((line, []) ∷ cs) (n ∷ sizes) hl ((hs, some_d), hc) h =
      absurd (omega (arith, some_d))
  drain-chunks f last tail [] ((line, y ∷ d) ∷ cs) (n ∷ sizes) hl ((hs, some_d), hc) h =
      let rest = rest_wire cs last tail in
      let got =
        count_down-Delivers more f (body_at f true ((y ∷ d) ++ rest) 0) n (y ∷ d) rest some_d in
      let sum = length-append got.got got.left in
      let whole = length-append (y ∷ d) (contents cs) in
      let size = ap length got.split in
      let again = drain-chunks f last tail got.left cs sizes hl hc (omega (arith, got.some_got)) in
      ap
        (λ r.
          bind_outcome (bind_outcome r (read_some more (suc n))) (onwards more (drain more sizes)))
        (next_chunk-size f line ((y ∷ d) ++ rest) (suc (length d)) hs)
      ∙ ap (λ r. bind_outcome r (onwards more (drain more sizes))) got.result
      ∙ onwards-some more (drain more sizes) got.got (got.left ++ contents cs) _ _ got.some_got
          again
      ∙ ap (λ t. (ok t, body_at f true tail 0))
          (sym (append_assoc got.got got.left (contents cs)) ∙ ap (λ t. t ++ contents cs) got.split)
  drain-chunks f last tail (x ∷ w) cs (n ∷ sizes) hl hc h =
      let rest = rest_wire cs last tail in
      let got =
        count_down-Delivers more f (body_at f true ((x ∷ w) ++ rest) (suc (length w))) n (x ∷ w)
          rest (omega arith) in
      let sum = length-append got.got got.left in
      let size = ap length got.split in
      let again = drain-chunks f last tail got.left cs sizes hl hc (omega (arith, got.some_got)) in
      ap (λ r. bind_outcome r (onwards more (drain more sizes))) got.result
      ∙ onwards-some more (drain more sizes) got.got (got.left ++ contents cs) _ _ got.some_got
          again
      ∙ ap (λ t. (ok t, body_at f true tail 0))
          (sym (append_assoc got.got got.left (contents cs)) ∙ ap (λ t. t ++ contents cs) got.split)

  -- Where the headers ask for chunks, the reader that `get_body_reader` makes delivers the bytes of all
  -- chunks in order, over any reads whose buffers have room for a byte or more, and then the end, behind
  -- the line of the last chunk. Each chunk has a byte or more, and a line with its length, which is of
  -- UTF-8. However much each read delivers, as many reads as there are bytes and one are enough.
  pub get_body_reader-chunked :
      (f : Option IoError) (headers : HeaderMap) (line d last tail : List ℕ) (cs : List Chunk)
      (sizes : List ℕ)
      → asks_chunks (values_of (codes "transfer-encoding") headers) ≡ true
      → IsSize last 0
      → All IsChunk ((line, d) ∷ cs)
      → length (contents ((line, d) ∷ cs)) < length sizes
      → (b : Body) × ((get_body_reader
              (record { pending = line ++ (10 ∷ (d ++ rest_wire cs last tail)); failure = f })
              headers
            ≡ ok b)
          × (drain more sizes b ≡ (ok (contents ((line, d) ∷ cs)), body_at f true tail 0)))
  unfolding get_body_reader
  get_body_reader-chunked f headers line [] last tail cs sizes asked hl ((hs, some_d), hc) h =
      absurd (omega (arith, some_d))
  get_body_reader-chunked f headers line (y ∷ d) last tail cs sizes asked hl ((hs, some_d), hc) h =
      let rest = (y ∷ d) ++ rest_wire cs last tail in
      let sum = length-append (y ∷ d) (contents cs) in
      (
        body_at f true rest (suc (length d)),
        (
          rw
              (
                asked,
                read_line-line line rest (record { pending = line ++ (10 ∷ rest); failure = f })
                    refl hs.one_line hs.utf8,
                hs.number,
              )
              refl,
          drain-chunks f last tail (y ∷ d) cs sizes hl hc (omega (arith, h)),
        ),
      )

  -- Where the headers do not ask for chunks, and the first content length is the number of `d` in decimal, which is 0 where
  -- there is none, the reader delivers `d`, over any such reads, and then the end, and leaves what is
  -- behind.
  pub get_body_reader-sized :
      (f : Option IoError) (headers : HeaderMap) (d tail sizes : List ℕ)
      → asks_chunks (values_of (codes "transfer-encoding") headers) ≡ false
      → from_str_radix (length_text (values_of (codes "content-length") headers)) 10
        ≡ inr (length d)
      → length d < length sizes
      → (b : Body) × ((get_body_reader (record { pending = d ++ tail; failure = f }) headers ≡ ok b)
          × (drain more sizes b ≡ (ok d, body_at f false tail 0)))
  unfolding get_body_reader
  get_body_reader-sized f headers d tail sizes asked size h = (
    body_at f false (d ++ tail) (length d),
    (rw (asked, size) refl, drain-sized more f d tail sizes h),
  )
