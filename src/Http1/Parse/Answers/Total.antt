-- ===== src/Http1/Parse/Answers/Total.antt =====
-- The parser on any bytes: it answers.
use proxy_rs.Prelude.{
  ℕ, zero, suc, ◌<◌, ◌≡◌, refl, sym, subst, true, false, Option, none, some, List, [], ◌∷◌, length,
  arith, codes, bytes_eq, inl, inr, Bool-cases, Option-cases, ◌⊎◌, suc-==-zero,
}
use proxy_rs.Buffer.Lifetime.{IsValid-is_sane}
use proxy_rs.Io.{Outcome, ok, err, panic, IoError}
use proxy_rs.Foreign.{Pointer, to, HttpResult, set_err}
use proxy_rs.Foreign.Reports.{IsReady, Tells, set_ok-Tells}
use proxy_rs.Request.{HeaderMap, values_of, snoc, add_value, Request}
use proxy_rs.Request.Lookup.{kept, values_of-add}
use proxy_rs.Response.{lower_case}
use proxy_rs.Http1.Lines.{Stream, split_once, strip_prefix, read_line, trim_end, from_str_radix}
use proxy_rs.Http1.Body.{Body, first_chunk, chunked_body, sized_body, asks_chunks, get_body_reader}
use proxy_rs.Http1.Parse.{
  Parsed, Headed, and_parse, or_say, version_one, check_version, uri_and_version, method_and_rest,
  parse_line, strip_last, trim_ascii_start, add_line, take_line, read_next, read_headers, locate,
  created, assembled, after_line, answered, http_parse_http11_request,
}
use proxy_rs.Http1.Parse.Answers.{Ends, Takes, read_until-Takes, read_line-Ends}

-- The values of a name, one or more if it is there.
abbrev IsEntry : Option (List (List ℕ)) → Type 0
IsEntry none = Unit {0}
IsEntry (some []) = true ≡ false
IsEntry (some (v ∷ vs)) = Unit {0}

snoc-IsEntry : (vs : List (List ℕ)) (v : List ℕ) → IsEntry (some (snoc vs v))
snoc-IsEntry [] v = tt
snoc-IsEntry (x ∷ vs) v = tt

-- A host that is there has a value.
abbrev Valued : HeaderMap → Type 0
Valued m = IsEntry (values_of (codes "host") m)

add_value-Valued : (n v : List ℕ) (m : HeaderMap) → Valued m → Valued (add_value n v m)
add_value-Valued n v m h =
    let host = codes "host" in
    subst IsEntry (sym (values_of-add host n v m)) (elim (Bool-cases (bytes_eq n host)) [
      | inl hit ↦ rw hit (snoc-IsEntry (kept (values_of host m)) v)
      | inr miss ↦ rw miss h
    ])

abbrev Good : Headed → Type 0
Good (ok m, s) = Valued m
Good (err e, s) = Unit {0}
Good (panic, s) = true ≡ false

module _ (again : HeaderMap → Stream → Headed) (m : HeaderMap) (valued : Valued m) where
  add_line-Good :
      (s : Stream) (o : Option (List ℕ × List ℕ))
      → ((m' : HeaderMap) → Valued m' → Good (again m' s))
      → Good (add_line again m s o)
  add_line-Good s none h = tt
  add_line-Good s (some (name, value)) h =
      h _ (add_value-Valued (lower_case name) (trim_ascii_start value) m valued)

  take_line-Good :
      (s : Stream) (line : List ℕ)
      → ((m' : HeaderMap) → Valued m' → Good (again m' s))
      → Good (take_line again m s line)
  take_line-Good s [] h = valued
  take_line-Good s (c ∷ line) h = add_line-Good s (split_once 58 (c ∷ line)) h

  read_next-Good :
      (n : ℕ) (r : Outcome IoError (List ℕ) × Stream)
      → Takes n r
      → ((m' : HeaderMap) (s : Stream) → length s.pending < n → Valued m' → Good (again m' s))
      → Good (read_next again m r)
  read_next-Good n (err e, s) ht h = tt
  read_next-Good n (panic, s) ht h = ht
  read_next-Good n (ok [], s) ht h = valued
  read_next-Good n (ok (x ∷ line), s) ht h =
      take_line-Good s (strip_last 13 (strip_last 10 (x ∷ line)))
        (λ m' v. h m' s (omega (arith, ht)) v)

read_headers-Good :
    (fuel : ℕ) (m : HeaderMap) (d : List ℕ) (f : Option IoError)
    → length d < fuel
    → Valued m
    → Good (read_headers fuel m (record { pending = d; failure = f }))
unfolding read_headers
read_headers-Good zero m d f h v = absurd (omega (arith, h))
read_headers-Good (suc fuel) m d f h v =
    read_next-Good (read_headers fuel) m v (length d) _ (read_until-Takes d f)
      (λ m' s less v'. read_headers-Good fuel m' s.pending s.failure (omega (arith, h, less)) v')

and_parse-Ends :
    {A B : Type 0} (p : Parsed A) (k : A → Parsed B)
    → Ends p
    → ((a : A) → Ends (k a))
    → Ends (and_parse p k)
and_parse-Ends (ok a) k h hk = hk a
and_parse-Ends (err e) k h hk = tt
and_parse-Ends panic k h hk = h

parse_line-Ends : (line : List ℕ) → Ends (parse_line line)
unfolding parse_line
parse_line-Ends line = at (trim_end line) (split_once 32 (trim_end line))
  where
    versions : (v : List ℕ) → Ends (check_version v)
    versions v = elim (Option-cases (strip_prefix (codes "HTTP/") v)) [
      | inl e ↦ rw e tt
      | inr (parts, e) ↦ rw e (elim (Option-cases (split_once 46 parts)) [
        | inl e' ↦ rw e' tt
        | inr (p, e') ↦
            rw e'
              (elim (Bool-cases (version_one p)) [ inl one ↦ rw one tt | inr other ↦ rw other tt ])
      ])
    ]

    uris :
        (method : List ℕ) (o : Option (List ℕ × List ℕ))
        → Ends (and_parse (or_say (codes "No version found") o) (uri_and_version method))
    uris method none = tt
    uris method (some (uri, v)) = and_parse-Ends _ _ (versions v) (λ _. tt)

    at : (t : List ℕ) (o : Option (List ℕ × List ℕ)) → Ends (method_and_rest t o)
    at t none = tt
    at t (some ([], rest)) = tt
    at t (some (c ∷ method, rest)) =
        rw (suc-==-zero (length method)) (uris (c ∷ method) (split_once 32 rest))

get_body_reader-Ends : (s : Stream) (headers : HeaderMap) → Ends (get_body_reader s headers)
unfolding get_body_reader
get_body_reader-Ends s headers =
    elim (Bool-cases (asks_chunks (values_of (codes "transfer-encoding") headers))) [
      | inl chunks ↦ rw chunks (chunked (read_line s) (read_line-Ends s.pending s.failure))
      | inr plain ↦ rw plain (sized (from_str_radix _ 10))
    ]
  where
    firsts : (s : Stream) (n : List ℕ ⊎ ℕ) → Ends (first_chunk s n)
    firsts s (inl e) = tt
    firsts s (inr zero) = tt
    firsts s (inr (suc n)) = tt

    chunked : (r : Outcome IoError (List ℕ) × Stream) → Ends r.0 → Ends (chunked_body r)
    chunked (ok line, s) h = firsts s (from_str_radix (trim_end line) 16)
    chunked (err e, s) h = tt
    chunked (panic, s) h = h

    sized : (n : List ℕ ⊎ ℕ) → Ends (sized_body s n)
    sized (inl e) = tt
    sized (inr n) = tt

locate-Ends :
    (shown : List ℕ → List ℕ) (uri : List ℕ) (o : Option (List (List ℕ)))
    → IsEntry o
    → Ends (locate shown uri o)
locate-Ends shown uri none h = elim (Option-cases (strip_prefix (codes "https://") uri)) [
  | inl e ↦ rw e tt
  | inr (rest, e) ↦
      rw e (elim (Option-cases (split_once 47 rest)) [ inl e' ↦ rw e' tt | inr (p, e') ↦ rw e' tt ])
]
locate-Ends shown uri (some []) h = h
locate-Ends shown uri (some (v ∷ vs)) h = tt

created-Ends : (o : Outcome (List ℕ) Body) → Ends o → Ends (created o)
created-Ends (ok b) h = tt
created-Ends (err e) h = tt
created-Ends panic h = h

module _ (more : Stream → ℕ) (shown : List ℕ → List ℕ) where
  assembled-Ends :
      (method uri : List ℕ) (h : Headed) → Good h → Ends (assembled more shown (method, uri) h)
  assembled-Ends method uri (ok m, s) v =
      and_parse-Ends _ _ (created-Ends _ (get_body_reader-Ends s m)) (λ body.
        and_parse-Ends _ _ (locate-Ends shown uri (values_of (codes "host") m) v) (λ p. tt))
  assembled-Ends method uri (err e, s) v = tt
  assembled-Ends method uri (panic, s) v = v

  after_line-Ends :
      (r : Outcome IoError (List ℕ) × Stream) → Ends r.0 → Ends (after_line more shown r)
  unfolding values_of
  after_line-Ends (ok line, s) h = and_parse-Ends _ _ (parse_line-Ends line) (λ (method, uri).
      assembled-Ends method uri _
        (read_headers-Good (suc (length s.pending)) [] s.pending s.failure (omega arith) tt))
  after_line-Ends (err e, s) h = tt
  after_line-Ends (panic, s) h = h

-- A result of success, with a value, or of a failure, which leaves the value alone.
abbrev pub Told : {A : Type 0} → HttpResult A → A → Type 0
Told {A} r old = ((a : A) × Tells r a) ⊎ ((r.is_ok ≡ false) × (r.ok ≡ to old))

module _ (more : Stream → ℕ) (shown : List ℕ → List ℕ) where
  answered-Told :
      (r : HttpResult (Pointer (Request Body))) (old : Pointer (Request Body))
      (p : Parsed (Request Body))
      → IsReady r old
      → Ends p
      → (r' : HttpResult (Pointer (Request Body))) × ((answered more shown r p ≡ some r')
          × Told r' old)
  unfolding set_err
  answered-Told r old (ok a) ready h =
      let (r', (e, t)) = set_ok-Tells (to a) old r ready in (r', (e, inl (to a, t)))
  answered-Told r old (err e) ready h = (set_err e r, (refl, inr (refl, ready.place)))
  answered-Told r old panic ready h = absurd cc

  -- Whatever bytes come, and however the reader ends, `http_parse_http11_request` returns: it reads no
  -- more lines than there are bytes and one, and no check of its own aborts. It reports a request, with an
  -- empty message, or a failure, which leaves the caller's pointer alone.
  pub parse-Told :
      (s : Stream) (old : Pointer (Request Body)) (r : HttpResult (Pointer (Request Body)))
      → IsReady r old
      → (r' : HttpResult (Pointer (Request Body))) × ((http_parse_http11_request more shown
              (to s)
              (to r)
            ≡ some r')
          × Told r' old)
  unfolding http_parse_http11_request
  parse-Told s old r ready =
      let (r', (e, t)) =
        answered-Told r old (after_line more shown (read_line s)) ready
          (after_line-Ends more shown (read_line s) (read_line-Ends s.pending s.failure)) in
      (r', (rw (IsValid-is_sane r.err ready.buffer) e, t))
