-- ===== src/Http1/Body/Drain.antt =====
-- A body that is read to its end, over any sequence of reads.
pub mod Chunks
use proxy_rs.Prelude.{
  ℕ, zero, suc, ◌+◌, ◌-◌, ◌≤◌, ◌<◌, ◌≡◌, ◌≢◌, ◌∙◌, refl, sym, ap, min, Bool, true, false, Option,
  none, some, List, [], ◌∷◌, ◌++◌, length, take, drop, arith, ◌==◌, if◌then◌else◌, suc-==-zero,
  take-append_short, drop-append, length-take, length-drop, take-append-drop, append_assoc, inl,
  inr, length-append, ne→==-false,
}
use proxy_rs.Io.{M, Outcome, ok, err, panic, IoError, bind_outcome}
use proxy_rs.Http1.Lines.{Stream}
use proxy_rs.Http1.Body.{Body, non_zero, stream_read, count_down, body_read}

-- A body in front of these bytes, with so many of them to read.
abbrev pub body_at : Option IoError → Bool → List ℕ → ℕ → Body
body_at f chunked d n = record {
  reader = record { pending = d; failure = f };
  content_length = non_zero n;
  chunked_encoding = chunked;
}

drop-append_short : (n : ℕ) (xs ys : List ℕ) → n ≤ length xs → drop n (xs ++ ys) ≡ drop n xs ++ ys
drop-append_short n xs ys h =
    ap (λ t. drop n t)
      (ap (λ t. t ++ ys) (sym (take-append-drop n xs)) ∙ append_assoc (take n xs) (drop n xs) ys)
    ∙ drop-append n (take n xs) (drop n xs ++ ys) (length-take n xs h)

module _ (more : Stream → ℕ) where
  abbrev pub onwards :
      (Body → Outcome IoError (List ℕ) × Body) → List ℕ → Body → Outcome IoError (List ℕ) × Body
  onwards again [] b = (ok [], b)
  onwards again (x ∷ d) b = bind_outcome (again b) (λ rest b'. (ok ((x ∷ d) ++ rest), b'))

  -- Reads into buffers of these lengths and one, until one delivers nothing.
  unfoldable pub drain : List ℕ → M Body IoError (List ℕ)
  unfolding body_read
  drain [] b = (ok [], b)
  drain (size ∷ sizes) b = bind_outcome (body_read more (suc size) b) (onwards (drain sizes))

  pub onwards-some :
      (again : Body → Outcome IoError (List ℕ) × Body) (d rest : List ℕ) (b b' : Body)
      → 0 < length d
      → again b ≡ (ok rest, b')
      → onwards again d b ≡ (ok (d ++ rest), b')
  onwards-some again [] rest b b' h e = absurd (omega (arith, h))
  onwards-some again (x ∷ d) rest b b' h e = rw e refl

  -- A read delivers some of the `w` that may be read, and leaves the others.
  pub record Delivers (r : Outcome IoError (List ℕ) × Body) (f : Option IoError) (chunked : Bool)
      (w rest : List ℕ) : Type 0 where
    pub got : List ℕ
    pub left : List ℕ
    pub split : got ++ left ≡ w
    pub some_got : 0 < length got
    pub result : r ≡ (ok got, body_at f chunked (left ++ rest) (length left))

  pub count_down-Delivers :
      (f : Option IoError) (b : Body) (n : ℕ) (w rest : List ℕ)
      → 0 < length w
      → Delivers
          (count_down more (length w) b (
            stream_read more
              (min (suc n) (length w))
              (record { pending = w ++ rest; failure = f })))
          f
          b.chunked_encoding
          w
          rest
  unfolding stream_read
  count_down-Delivers f b n w rest h =
      let k =
        min (min (suc n) (length w)) (suc (more (record { pending = w ++ rest; failure = f }))) in
      let le : k ≤ length w = omega arith in
      let sum = length-append w rest in
      let full = ne→==-false (length (w ++ rest)) 0 (omega arith) in
      let size = length-take k w le in
      record {
        got = take k w;
        left = drop k w;
        split = take-append-drop k w;
        some_got = omega (arith, size);
        result =
            rw
              (
                full,
                take-append_short k w rest le,
                drop-append_short k w rest le,
                size,
                length-drop k w,
              )
              refl;
      }

  -- A body of a known length.
  pub drain-sized :
      (f : Option IoError) (w rest sizes : List ℕ)
      → length w < length sizes
      → drain sizes (body_at f false (w ++ rest) (length w)) ≡ (ok w, body_at f false rest 0)
  unfolding drain
  drain-sized f w rest [] h = absurd (omega (arith, h))
  drain-sized f [] rest (n ∷ sizes) h = refl
  drain-sized f (x ∷ w) rest (n ∷ sizes) h =
      let d =
        count_down-Delivers f (body_at f false ((x ∷ w) ++ rest) (suc (length w))) n (x ∷ w) rest
          (omega arith) in
      let sum = length-append d.got d.left in
      let size = ap length d.split in
      let again = drain-sized f d.left rest sizes (omega (arith, d.some_got)) in
      ap (λ r. bind_outcome r (onwards (drain sizes))) d.result
      ∙ onwards-some (drain sizes) d.got d.left _ _ d.some_got again
      ∙ ap (λ t. (ok t, body_at f false rest 0)) d.split
