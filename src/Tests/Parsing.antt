-- ===== src/Tests/Parsing.antt =====
-- Runs of the HTTP/1.1 parser, and of bodies.
use proxy_rs.Prelude.{
  ℕ, ◌≡◌, refl, true, false, none, some, List, [], ◌∷◌, ◌++◌, arith, codes, All, bytes_eq,
}
use proxy_rs.Io.{ok, other}
use proxy_rs.Foreign.{Pointer, null, to, HttpResult}
use proxy_rs.Foreign.Reports.{Tells}
use proxy_rs.Bio.{reader_from_read}
use proxy_rs.Request.{HeaderMap, Request, values_of, add_value}
use proxy_rs.Request.Lookup.{Pair, headers_of}
use proxy_rs.Http1.Lines.{Stream, split_once, is_utf8, trim_end, blank, from_str_radix}
use proxy_rs.Http1.Lines.Laws.{none-Lacks}
use proxy_rs.Http1.Body.{Body, body_read, get_body_reader}
use proxy_rs.Http1.Body.Drain.{body_at, drain}
use proxy_rs.Http1.Body.Drain.Chunks.{
  IsSize, contents, rest_wire, get_body_reader-chunked, get_body_reader-sized,
}
use proxy_rs.Http1.Parse.{http_parse_http11_request}
use proxy_rs.Http1.Parse.RequestLine.{request_line, IsRequestLine}
use proxy_rs.Http1.Parse.Printed.{headers_text, IsHeader, lowered, parse-printed}
use proxy_rs.Http1.Parse.Answers.Total.{Told, parse-Told}
use proxy_rs.Tests.Exported.{fresh, fresh-IsReady}

-- A reader that has one byte more at once, and one that has all.
abbrev two_at_once : Stream → ℕ
two_at_once s = 1

abbrev chunk_headers : HeaderMap
chunk_headers = (codes "transfer-encoding", codes "chunked" ∷ []) ∷ []

abbrev size_d : List ℕ
size_d = codes "d\r"

abbrev size_8 : List ℕ
size_8 = codes "8\r"

abbrev size_0 : List ℕ
size_0 = codes "0\r"

size_d-IsSize : IsSize size_d 13
unfolding is_utf8 from_str_radix trim_end blank split_once
size_d-IsSize = record { one_line = none-Lacks 10 size_d refl; utf8 = refl; number = refl }

size_8-IsSize : IsSize size_8 8
unfolding is_utf8 from_str_radix trim_end blank split_once
size_8-IsSize = record { one_line = none-Lacks 10 size_8 refl; utf8 = refl; number = refl }

size_0-IsSize : IsSize size_0 0
unfolding is_utf8 from_str_radix trim_end blank split_once
size_0-IsSize = record { one_line = none-Lacks 10 size_0 refl; utf8 = refl; number = refl }

abbrev hello : List ℕ
hello = codes "Hello World!\n"

abbrev how : List ℕ
how = codes "how are "

abbrev reads : List ℕ
reads =
    3 ∷ 0 ∷ 3 ∷ 3 ∷ 3 ∷ 3 ∷ 3 ∷ 3 ∷ 3 ∷ 3 ∷ 3 ∷ 3 ∷ 3 ∷ 3 ∷ 3 ∷ 3 ∷ 3 ∷ 3 ∷ 3 ∷ 3 ∷ 3 ∷ 3 ∷ 9 ∷ []

chunked_example :
    (b : Body) × ((get_body_reader
          (record {
            pending = size_d ++ (10 ∷ (hello ++ rest_wire ((size_8, how) ∷ []) size_0 []));
            failure = none;
          })
          chunk_headers
        ≡ ok b)
      × (drain two_at_once reads b
          ≡ (ok (contents ((size_d, hello) ∷ (size_8, how) ∷ [])), body_at none true [] 0)))
unfolding values_of bytes_eq
chunked_example =
    get_body_reader-chunked two_at_once none chunk_headers size_d hello size_0 []
      ((size_8, how) ∷ []) reads refl size_0-IsSize
      ((size_d-IsSize, omega arith), ((size_8-IsSize, omega arith), tt)) (omega arith)

abbrev pairs : List Pair
pairs = (codes "Host", codes "example.com") ∷ (codes "Content-Length", codes "13") ∷ []

sized_example :
    (b : Body) × ((get_body_reader
          (record { pending = hello ++ how; failure = none })
          (headers_of (lowered pairs))
        ≡ ok b)
      × (drain two_at_once reads b ≡ (ok hello, body_at none false how 0)))
unfolding values_of add_value bytes_eq is_utf8 from_str_radix
sized_example =
    get_body_reader-sized two_at_once none (headers_of (lowered pairs)) hello how reads refl refl
      (omega arith)

abbrev shown_same : List ℕ → List ℕ
shown_same t = t

get_root : IsRequestLine (codes "GET") (codes "/")
unfolding is_utf8 split_once
get_root = record {
  method_there = omega arith;
  method_word = (none-Lacks 32 (codes "GET") refl, none-Lacks 10 (codes "GET") refl);
  uri_word = (none-Lacks 32 (codes "/") refl, none-Lacks 10 (codes "/") refl);
  utf8 = refl;
}

pairs-IsHeader : All IsHeader pairs
unfolding split_once
pairs-IsHeader = (
  (
    (none-Lacks 58 (codes "Host") refl, none-Lacks 10 (codes "Host") refl),
    (none-Lacks 10 (codes "example.com") refl, refl),
  ),
  (
    (
      (none-Lacks 58 (codes "Content-Length") refl, none-Lacks 10 (codes "Content-Length") refl),
      (none-Lacks 10 (codes "13") refl, refl),
    ),
    tt,
  ),
)

abbrev no_request : Pointer (Request Body)
no_request = null

printed_example :
    (r' : HttpResult (Pointer (Request Body))) × ((http_parse_http11_request two_at_once shown_same
          (to (record {
            pending =
                request_line (codes "GET") (codes "/") ++ (10 ∷ headers_text pairs (hello ++ how));
            failure = none;
          }))
          (to (fresh no_request))
        ≡ some r')
      × Tells r' (
          to (record {
            method = codes "GET";
            path = codes "/";
            host = codes "example.com";
            version = (1, 1);
            headers = headers_of (lowered pairs);
            body = reader_from_read (body_read two_at_once) (body_at none false (hello ++ how) 13);
          })))
unfolding values_of add_value bytes_eq is_utf8 from_str_radix get_body_reader
printed_example =
    parse-printed two_at_once shown_same none (codes "GET") (codes "/") (hello ++ how)
      (codes "example.com") [] pairs (body_at none false (hello ++ how) 13) no_request
      (fresh no_request) (fresh-IsReady no_request) get_root pairs-IsHeader refl refl

told_example :
    (r' : HttpResult (Pointer (Request Body))) × ((http_parse_http11_request two_at_once shown_same
          (to (record { pending = codes "GET /\r\n"; failure = some (other hello) }))
          (to (fresh no_request))
        ≡ some r')
      × Told r' no_request)
told_example =
    parse-Told two_at_once shown_same
      (record { pending = codes "GET /\r\n"; failure = some (other hello) }) no_request
      (fresh no_request) (fresh-IsReady no_request)
