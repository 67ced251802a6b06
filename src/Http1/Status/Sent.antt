-- ===== src/Http1/Status/Sent.antt =====
-- What `http11_write_status` sends, where the writer takes what it is given.
use proxy_rs.Prelude.{
  ℕ, ◌+◌, ◌≡◌, ◌∙◌, refl, ap, List, [], ◌∷◌, ◌++◌, length, arith, length-append, codes, All,
}
use proxy_rs.Io.{ok}
use proxy_rs.Foreign.Reports.{joined}
use proxy_rs.Bio.{WritesTo}
use proxy_rs.Request.{HeaderMap}
use proxy_rs.Response.Reason.{get_reason_phrase}
use proxy_rs.Http1.BufWriter.{BufWriter, buf_write_all}
use proxy_rs.Http1.Status.{show_code, crlf, put_all, put_values, put_headers, write_head}

-- The head of a response: the status line, a line for each value, and an empty one.
abbrev pub value_lines : List ℕ → List (List ℕ) → List ℕ
value_lines k [] = []
value_lines k (v ∷ vs) = joined (k ∷ codes ": " ∷ v ∷ crlf ∷ []) ++ value_lines k vs

abbrev pub header_lines : HeaderMap → List ℕ
header_lines [] = []
header_lines ((k, vs) ∷ rest) = value_lines k vs ++ header_lines rest

abbrev pub status_line : ℕ → List ℕ
status_line code =
    joined (codes "HTTP/1.1 " ∷ show_code code ∷ codes " " ∷ get_reason_phrase code ∷ crlf ∷ [])

abbrev pub head : ℕ → HeaderMap → List ℕ
head code headers = status_line code ++ (header_lines headers ++ crlf)

-- The count that the code makes of it.
abbrev pub head_count : ℕ → HeaderMap → ℕ
head_count code headers = 13 + length (get_reason_phrase code) + length (header_lines headers) + 2

-- Names and values that are shown as they are, as UTF-8 is.
abbrev pub AreShown : (List ℕ → List ℕ) → HeaderMap → Type 0
AreShown shown headers = All (λ (k, vs). (shown k ≡ k) × All (λ v. shown v ≡ v) vs) headers

-- How writes through a `BufWriter` add up, as long as they fit.
pub record Carrier {W : Type 0} (write : WritesTo W) : Type 1 where
  pub Adds : BufWriter W → BufWriter W → List ℕ → Type 0
  pub Fits : BufWriter W → ℕ → Type 0
  pub one :
      (d : List ℕ) (b : BufWriter W)
      → Fits b (length d)
      → (b' : BufWriter W) × ((buf_write_all write d b ≡ (ok tt, b')) × Adds b b' d)
  pub nothing : (b : BufWriter W) → Adds b b []
  pub append :
      (b m b' : BufWriter W) (d d' : List ℕ) → Adds b m d → Adds m b' d' → Adds b b' (d ++ d')
  pub first : (b : BufWriter W) (d d' : List ℕ) → Fits b (length (d ++ d')) → Fits b (length d)
  pub then :
      (b m : BufWriter W) (d d' : List ℕ)
      → Adds b m d
      → Fits b (length (d ++ d'))
      → Fits m (length d')

module _ {W : Type 0} {write : WritesTo W} (c : Carrier write) where
  open c use {Adds, Fits, one, nothing, append, first, then}

  put_all-adds :
      (pieces : List (List ℕ)) (b : BufWriter W)
      → Fits b (length (joined pieces))
      → (b' : BufWriter W) × ((put_all write pieces b ≡ (ok tt, b')) × Adds b b' (joined pieces))
  unfolding put_all
  put_all-adds [] b h = (b, (refl, nothing b))
  put_all-adds (d ∷ rest) b h =
      let (m, (run, f)) = one d b (first b d (joined rest) h) in
      let (b', (run', g)) = put_all-adds rest m (then b m d (joined rest) f h) in
      (b', (rw run run', append b m b' d (joined rest) f g))

  module _ (shown : List ℕ → List ℕ) where
    put_values-adds :
        (k : List ℕ) (vs : List (List ℕ)) (n : ℕ) (b : BufWriter W)
        → shown k ≡ k
        → All (λ v. shown v ≡ v) vs
        → Fits b (length (value_lines k vs))
        → (b' : BufWriter W) × ((put_values shown write k vs n b
              ≡ (ok (n + length (value_lines k vs)), b'))
            × Adds b b' (value_lines k vs))
    unfolding put_values
    put_values-adds k [] n b hk hv h =
        let same : n ≡ n + 0 = omega arith in (b, (ap (λ x. (ok x, b)) same, nothing b))
    put_values-adds k (v ∷ vs) n b hk (hv, hvs) h =
        let line = joined (k ∷ codes ": " ∷ v ∷ crlf ∷ []) in
        let rest = value_lines k vs in
        let sum = length-append line rest in
        let size = line_len k v in
        let (m, (run, f)) = put_all-adds (k ∷ codes ": " ∷ v ∷ crlf ∷ []) b (first b line rest h) in
        let (b', (run', g)) =
          put_values-adds k vs (n + (length k + 2 + length v + 2)) m hk hvs
            (then b m line rest f h) in
        (
          b',
          (
            rw (hk, hv, run) (run' ∙ ap (λ x. (ok x, b')) (omega arith)),
            append b m b' line rest f g,
          ),
        )
      where
        line_len :
            (k v : List ℕ)
            → length (joined (k ∷ codes ": " ∷ v ∷ crlf ∷ [])) ≡ length k + 2 + length v + 2
        line_len k v = omega (
          arith,
          length-append k (58 ∷ 32 ∷ (v ++ (13 ∷ 10 ∷ []))),
          length-append v (13 ∷ 10 ∷ []),
        )

    put_headers-adds :
        (headers : HeaderMap) (n : ℕ) (b : BufWriter W)
        → AreShown shown headers
        → Fits b (length (header_lines headers))
        → (b' : BufWriter W) × ((put_headers shown write headers n b
              ≡ (ok (n + length (header_lines headers)), b'))
            × Adds b b' (header_lines headers))
    unfolding put_headers
    put_headers-adds [] n b hs h =
        let same : n ≡ n + 0 = omega arith in (b, (ap (λ x. (ok x, b)) same, nothing b))
    put_headers-adds ((k, vs) ∷ rest) n b ((hk, hv), hs) h =
        let lines = value_lines k vs in
        let more = header_lines rest in
        let sum = length-append lines more in
        let (m, (run, f)) = put_values-adds k vs n b hk hv (first b lines more h) in
        let (b', (run', g)) =
          put_headers-adds rest (n + length lines) m hs (then b m lines more f h) in
        (b', (rw run (run' ∙ ap (λ x. (ok x, b')) (omega arith)), append b m b' lines more f g))

    -- The head goes through, with this count.
    pub write_head-adds :
        (code : ℕ) (headers : HeaderMap) (b : BufWriter W)
        → AreShown shown headers
        → Fits b (length (head code headers))
        → (b' : BufWriter W) × ((write_head shown write code headers b
              ≡ (ok (head_count code headers), b'))
            × Adds b b' (head code headers))
    unfolding write_head
    write_head-adds code headers b hs h =
        let line = status_line code in
        let lines = header_lines headers in
        let (m, (run, f)) =
          put_all-adds
            (codes "HTTP/1.1 " ∷ show_code code ∷ codes " " ∷ get_reason_phrase code ∷ crlf ∷ []) b
            (first b line (lines ++ crlf) h) in
        let rest = then b m line (lines ++ crlf) f h in
        let (m', (run', g)) =
          put_headers-adds headers (13 + length (get_reason_phrase code)) m hs
            (first m lines crlf rest) in
        let (b', (run'', e)) = one crlf m' (then m m' lines crlf g rest) in
        (
          b',
          (
            rw (run, run', run'') refl,
            append b m b' line (lines ++ crlf) f (append m m' b' lines crlf g e),
          ),
        )
