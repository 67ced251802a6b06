-- ===== src/Http1/Parse/Printed.antt =====
-- A request that is written as RFC 9112 writes it, and what the parser makes of it.
use proxy_rs.Prelude.{
  ℕ, zero, suc, ◌≤◌, ◌<◌, ◌≡◌, ◌≢◌, ◌∙◌, refl, sym, ap, Option, some, List, [], ◌∷◌, ◌++◌, length,
  arith, All, All-append, length-append, append_assoc, codes, ==_iff,
}
use proxy_rs.Buffer.Lifetime.{IsValid-is_sane}
use proxy_rs.Io.{ok, IoError}
use proxy_rs.Foreign.{Pointer, to, HttpResult}
use proxy_rs.Foreign.Reports.{IsReady, Tells, set_ok-Tells}
use proxy_rs.Bio.{reader_from_read}
use proxy_rs.Request.{HeaderMap, values_of, add_value, Request}
use proxy_rs.Request.Lookup.{Pair, add_all, headers_of}
use proxy_rs.Response.{lower_case}
use proxy_rs.Http1.Lines.{Stream, split_once}
use proxy_rs.Http1.Lines.Laws.{Lacks, split_once-append, read_until-line, read_line-line}
use proxy_rs.Http1.Body.{Body, body_read, get_body_reader}
use proxy_rs.Http1.Parse.RequestLine.{
  request_line, IsRequestLine, request_line-Lacks, parse_line-printed,
}
use proxy_rs.Http1.Parse.{
  strip_last, trim_ascii_start, Headed, add_line, take_line, read_next, read_headers,
  http_parse_http11_request,
}

abbrev pub header_line : Pair → List ℕ
header_line (name, value) = name ++ (58 ∷ 32 ∷ (value ++ (13 ∷ [])))

-- The headers, the empty line, and what is behind.
abbrev pub headers_text : List Pair → List ℕ → List ℕ
headers_text [] rest = 13 ∷ 10 ∷ rest
headers_text (p ∷ pairs) rest = header_line p ++ (10 ∷ headers_text pairs rest)

-- A name without a colon, and a value that does not begin with white space, in one line.
abbrev pub IsHeader : Pair → Type 0
IsHeader (name, value) =
    (Lacks 58 name × Lacks 10 name) × (Lacks 10 value × (trim_ascii_start value ≡ value))

abbrev pub lowered : List Pair → List Pair
lowered [] = []
lowered ((name, value) ∷ pairs) = (lower_case name, value) ∷ lowered pairs

strip_last-append : (c : ℕ) (d : List ℕ) → strip_last c (d ++ (c ∷ [])) ≡ d
strip_last-append c [] = rw ((==_iff c c).1 refl) refl
strip_last-append c (x ∷ []) = ap (λ t. x ∷ t) (strip_last-append c [])
strip_last-append c (x ∷ y ∷ d) = ap (λ t. x ∷ t) (strip_last-append c (y ∷ d))

take_line-some :
    (again : HeaderMap → Stream → Headed) (m : HeaderMap) (s : Stream) (a b : List ℕ)
    → take_line again m s (a ++ (58 ∷ b)) ≡ add_line again m s (split_once 58 (a ++ (58 ∷ b)))
take_line-some again m s [] b = refl
take_line-some again m s (x ∷ a) b = refl

-- A header line is one more pair.
read_next-header :
    (again : HeaderMap → Stream → Headed) (m : HeaderMap) (s : Stream) (name value : List ℕ)
    → IsHeader (name, value)
    → read_next again m (ok (header_line (name, value) ++ (10 ∷ [])), s)
      ≡ again (add_value (lower_case name) value m) s
read_next-header again m s name value ((colon, _), (_, start)) =
    let bare = name ++ (58 ∷ 32 ∷ value) in
    ap (λ t. take_line again m s (strip_last 13 t))
      (strip_last-append 10 (header_line (name, value)))
    ∙ ap (λ t. take_line again m s (strip_last 13 t))
        (sym (append_assoc name (58 ∷ 32 ∷ value) (13 ∷ [])))
    ∙ ap (take_line again m s) (strip_last-append 13 bare)
    ∙ take_line-some again m s name (32 ∷ value)
    ∙ ap (add_line again m s) (split_once-append 58 name (32 ∷ value) colon)
    ∙ ap (λ v. again (add_value (lower_case name) v m) s) start

header_line-Lacks : (p : Pair) → IsHeader p → Lacks 10 (header_line p)
header_line-Lacks (name, value) ((_, hn), (hv, _)) =
    All-append (λ x. x ≢ 10) name _ hn
      (
        (λ e. absurd (omega (arith, e))),
        (
          (λ e. absurd (omega (arith, e))),
          All-append (λ x. x ≢ 10) value _ hv ((λ e. absurd (omega (arith, e))), tt),
        ),
      )

-- All headers, with a round for each and one more.
read_headers-printed :
    (f : Option IoError) (pairs : List Pair) (m : HeaderMap) (rest : List ℕ) (fuel : ℕ)
    → All IsHeader pairs
    → length pairs < fuel
    → read_headers fuel m (record { pending = headers_text pairs rest; failure = f })
      ≡ (ok (add_all m (lowered pairs)), record { pending = rest; failure = f })
unfolding read_headers
read_headers-printed f pairs m rest zero hs h = absurd (omega (arith, h))
read_headers-printed f [] m rest (suc fuel) hs h = ap (read_next (read_headers fuel) m) (
    read_until-line (13 ∷ []) rest (record { pending = 13 ∷ 10 ∷ rest; failure = f }) refl
      ((λ e. absurd (omega (arith, e))), tt))
read_headers-printed f ((name, value) ∷ pairs) m rest (suc fuel) (hp, hs) h =
    let more = headers_text pairs rest in
    ap (read_next (read_headers fuel) m) (
      read_until-line (header_line (name, value)) more
        (record { pending = header_line (name, value) ++ (10 ∷ more); failure = f }) refl
        (header_line-Lacks (name, value) hp))
    ∙ read_next-header (read_headers fuel) m (record { pending = more; failure = f }) name value hp
    ∙ read_headers-printed f pairs (add_value (lower_case name) value m) rest fuel hs
        (omega (arith, h))

headers_text-long :
    (pairs : List Pair) (rest : List ℕ) → length pairs ≤ length (headers_text pairs rest)
headers_text-long [] rest = omega arith
headers_text-long (p ∷ pairs) rest =
    let sum = length-append (header_line p) (10 ∷ headers_text pairs rest) in
    omega (arith, headers_text-long pairs rest)

-- A request that is printed, whose method and URI are words of UTF-8, and whose headers are in one line
-- each, a host among them, is read back: `http_parse_http11_request` succeeds with the method, the URI
-- as the path, the host as it is shown, and the map of all headers, with names in lower case; the body
-- is read by what `get_body_reader` makes of the headers and the bytes behind them.
pub parse-printed :
    (more : Stream → ℕ) (shown : List ℕ → List ℕ) (f : Option IoError)
    (method uri rest host : List ℕ) (hosts : List (List ℕ)) (pairs : List Pair) (body : Body)
    (old : Pointer (Request Body)) (r : HttpResult (Pointer (Request Body)))
    → IsReady r old
    → IsRequestLine method uri
    → All IsHeader pairs
    → values_of (codes "host") (headers_of (lowered pairs)) ≡ some (host ∷ hosts)
    → get_body_reader (record { pending = rest; failure = f }) (headers_of (lowered pairs))
      ≡ ok body
    → (r' : HttpResult (Pointer (Request Body))) × ((http_parse_http11_request more shown
            (to (record {
              pending = request_line method uri ++ (10 ∷ headers_text pairs rest);
              failure = f;
            }))
            (to r)
          ≡ some r')
        × Tells r' (
            to (record {
              method = method;
              path = uri;
              host = shown host;
              version = (1, 1);
              headers = headers_of (lowered pairs);
              body = reader_from_read (body_read more) body;
            })))
unfolding http_parse_http11_request
parse-printed more shown f method uri rest host hosts pairs body old r ready line hs hh hb =
    let text = headers_text pairs rest in
    let request : Request Body = record {
      method = method;
      path = uri;
      host = shown host;
      version = (1, 1);
      headers = headers_of (lowered pairs);
      body = reader_from_read (body_read more) body;
    } in
    let (r', (e, t)) = set_ok-Tells (to request) old r ready in
    (
      r',
      (
        rw
            (
              IsValid-is_sane r.err ready.buffer,
              read_line-line (request_line method uri) text
                  (record { pending = request_line method uri ++ (10 ∷ text); failure = f }) refl
                  (request_line-Lacks method uri line) line.utf8,
              parse_line-printed method uri line,
              read_headers-printed f pairs [] rest (suc (length text)) hs
                  (omega (arith, headers_text-long pairs rest)),
              hb,
              hh,
            )
            e,
        t,
      ),
    )
