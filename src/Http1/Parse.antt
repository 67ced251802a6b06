-- ===== src/Http1/Parse.antt =====
-- `http_parse_http11_request` of http/src/http11.rs: the request line, the headers and the host.
pub mod RequestLine
pub mod Printed
pub mod Answers
use proxy_rs.Prelude.{
  ℕ, zero, suc, Bool, true, false, ◌&&◌, ◌||◌, Option, none, some, List, [], ◌∷◌, ◌++◌, length, leb,
  ◌==◌, if◌then◌else◌, codes, bytes_eq,
}
use proxy_rs.Buffer.{is_sane}
use proxy_rs.Io.{M, Outcome, ok, err, panic, IoError}
use proxy_rs.Foreign.{Pointer, to, with_pointer, require, HttpResult, set_ok, set_err, io_pieces}
use proxy_rs.Bio.{reader_from_read}
use proxy_rs.Request.{HeaderMap, values_of, add_value, Request}
use proxy_rs.Response.{lower_case}
use proxy_rs.Http1.Lines.{Stream, split_once, strip_prefix, read_until, read_line, trim_end}
use proxy_rs.Http1.Body.{Body, body_read, get_body_reader}

-- An error is the pieces of its message.
abbrev pub Parsed : Type 0 → Type 0
Parsed A = Outcome (List (List ℕ)) A

abbrev pub says : {A : Type 0} → List ℕ → Parsed A
says message = err (message ∷ [])

abbrev pub and_parse : {A B : Type 0} → Parsed A → (A → Parsed B) → Parsed B
and_parse (ok a) k = k a
and_parse (err e) k = err e
and_parse panic k = panic

abbrev pub or_say : {A : Type 0} → List ℕ → Option A → Parsed A
or_say message none = says message
or_say message (some a) = ok a

abbrev pub version_one : List ℕ × List ℕ → Bool
version_one (major, minor) = bytes_eq major (codes "1") && bytes_eq minor (codes "1")

-- What is behind the second space.
abbrev pub check_version : List ℕ → Parsed (Unit {0})
check_version version_string =
    and_parse (or_say (codes "No http prefix") (strip_prefix (codes "HTTP/") version_string)) (λ v.
      and_parse (or_say (codes "Version not split with \".\"") (split_once 46 v))
        (λ parts. if version_one parts then ok tt else says (codes "HTTP not version 1.1")))

abbrev pub uri_and_version : List ℕ → List ℕ × List ℕ → Parsed (List ℕ × List ℕ)
uri_and_version method (uri, version_string) =
    and_parse (check_version version_string) (λ _. ok (method, uri))

-- The parts of `splitn(3, " ")`.
abbrev pub method_and_rest : List ℕ → Option (List ℕ × List ℕ) → Parsed (List ℕ × List ℕ)
method_and_rest t none =
    says (if length t == 0 then codes "No method found" else codes "No URI found")
method_and_rest t (some (method, rest)) =
    if length method == 0
    then says (codes "No method found")
    else and_parse (or_say (codes "No version found") (split_once 32 rest)) (uri_and_version method)

-- The method and the URI of a line.
unfoldable pub parse_line : List ℕ → Parsed (List ℕ × List ℕ)
parse_line line = let t = trim_end line in method_and_rest t (split_once 32 t)

-- `strip_suffix` of one byte, or all where that is not there.
abbrev pub strip_last : ℕ → List ℕ → List ℕ
strip_last c [] = []
strip_last c (x ∷ []) = if x == c then [] else x ∷ []
strip_last c (x ∷ y ∷ rest) = x ∷ strip_last c (y ∷ rest)

abbrev pub ascii_whitespace : ℕ → Bool
ascii_whitespace c = c == 32 || ((leb 9 c && leb c 10) || (c == 12 || c == 13))

abbrev pub trim_ascii_start : List ℕ → List ℕ
trim_ascii_start [] = []
trim_ascii_start (c ∷ rest) =
    let more = trim_ascii_start rest in if ascii_whitespace c then more else c ∷ rest

abbrev pub Headed : Type 0
Headed = Parsed HeaderMap × Stream

abbrev pub add_line :
    (HeaderMap → Stream → Headed) → HeaderMap → Stream → Option (List ℕ × List ℕ) → Headed
add_line again headers s none = (says (codes "Failed to find \":\" in header"), s)
add_line again headers s (some (name, value)) =
    again (add_value (lower_case name) (trim_ascii_start value) headers) s

-- An empty line ends the headers.
abbrev pub take_line : (HeaderMap → Stream → Headed) → HeaderMap → Stream → List ℕ → Headed
take_line again headers s [] = (ok headers, s)
take_line again headers s (c ∷ line) = add_line again headers s (split_once 58 (c ∷ line))

abbrev pub read_next :
    (HeaderMap → Stream → Headed) → HeaderMap → Outcome IoError (List ℕ) × Stream → Headed
read_next again headers (ok line, s) =
    take_line again headers s (strip_last 13 (strip_last 10 line))
read_next again headers (err e, s) = (err (codes "Failed to read header line: " ∷ io_pieces e), s)
read_next again headers (panic, s) = (panic, s)

-- Each round takes a byte or more, or ends. Without fuel there is no answer.
unfoldable pub read_headers : ℕ → HeaderMap → Stream → Headed
read_headers zero headers s = (panic, s)
read_headers (suc fuel) headers s = read_next (read_headers fuel) headers (read_until s)

-- A path and a host; the text that is shown of bytes that may not be UTF-8 is a parameter.
abbrev pub locate : (List ℕ → List ℕ) → List ℕ → Option (List (List ℕ)) → Parsed (List ℕ × List ℕ)
locate shown uri none =
    and_parse (or_say (codes "Invalid URI scheme") (strip_prefix (codes "https://") uri)) (λ rest.
      and_parse (or_say (codes "Invalid URI path") (split_once 47 rest))
        (λ (host, path). ok (47 ∷ path, host)))
locate shown uri (some []) = panic
locate shown uri (some (host ∷ hosts)) = ok (uri, shown host)

abbrev pub created : Outcome (List ℕ) Body → Parsed Body
created (ok b) = ok b
created (err e) = err (codes "Failed to create body: " ∷ e ∷ [])
created panic = panic

module _ (more : Stream → ℕ) (shown : List ℕ → List ℕ) where
  abbrev pub assembled : List ℕ × List ℕ → Headed → Parsed (Request Body)
  assembled (method, uri) (headed, s) = and_parse headed (λ headers.
      and_parse (created (get_body_reader s headers)) (λ body.
        and_parse (locate shown uri (values_of (codes "host") headers)) (λ (path, host).
          ok (record {
            method = method;
            path = path;
            host = host;
            version = (1, 1);
            headers = headers;
            body = reader_from_read (body_read more) body;
          }))))

  abbrev pub after_line : Outcome IoError (List ℕ) × Stream → Parsed (Request Body)
  after_line (err e, s) = err (codes "Failed to read status line: " ∷ io_pieces e)
  after_line (panic, s) = panic
  after_line (ok line, s) =
      and_parse (parse_line line)
        (λ parts. assembled parts (read_headers (suc (length s.pending)) [] s))

  abbrev pub answered :
      HttpResult (Pointer (Request Body))
      → Parsed (Request Body)
      → Option (HttpResult (Pointer (Request Body)))
  answered res (ok r) = set_ok (to r) res
  answered res (err e) = some (set_err e res)
  answered res panic = none

  -- The reader is owned, and gone after an error.
  unfoldable pub http_parse_http11_request :
      Pointer Stream
      → Pointer (HttpResult (Pointer (Request Body)))
      → Option (HttpResult (Pointer (Request Body)))
  unfolding read_headers
  http_parse_http11_request reader res =
      with_pointer reader (λ s.
        with_pointer res (λ r. require (is_sane r.err) (answered r (after_line (read_line s)))))
