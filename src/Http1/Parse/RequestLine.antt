-- ===== src/Http1/Parse/RequestLine.antt =====
-- A request line that is written as RFC 9112 writes it.
use proxy_rs.Prelude.{
  ℕ, ◌<◌, ◌≡◌, ◌≢◌, ◌∙◌, refl, sym, ap, true, List, [], ◌∷◌, ◌++◌, length, arith, All-append,
  append_assoc, codes, ne→==-false, bytes_eq,
}
use proxy_rs.Io.{ok}
use proxy_rs.Http1.Lines.{split_once, strip_prefix, is_utf8, trim_end, blank}
use proxy_rs.Http1.Lines.Laws.{Lacks, split_once-append, trim_end-Solid, one-Solid, none-Lacks}
use proxy_rs.Http1.Parse.{parse_line, method_and_rest}

-- The request line without its line feed.
abbrev pub request_line : List ℕ → List ℕ → List ℕ
request_line method uri = method ++ (32 ∷ (uri ++ (32 ∷ codes "HTTP/1.1\r")))

pub record IsRequestLine (method uri : List ℕ) : Type 0 where
  pub method_there : 0 < length method
  pub method_word : Lacks 32 method × Lacks 10 method
  pub uri_word : Lacks 32 uri × Lacks 10 uri
  pub utf8 : is_utf8 (request_line method uri ++ (10 ∷ [])) ≡ true

version-Lacks : Lacks 10 (codes "HTTP/1.1\r")
unfolding split_once
version-Lacks = none-Lacks 10 (codes "HTTP/1.1\r") refl

pub request_line-Lacks :
    (method uri : List ℕ) → IsRequestLine method uri → Lacks 10 (request_line method uri)
request_line-Lacks method uri h =
    All-append (λ x. x ≢ 10) method _ h.method_word.1
      (
        (λ e. absurd (omega (arith, e))),
        All-append (λ x. x ≢ 10) uri _ h.uri_word.1
            ((λ e. absurd (omega (arith, e))), version-Lacks),
      )

line_assoc :
    (method uri a b : List ℕ)
    → (method ++ (32 ∷ (uri ++ (32 ∷ a)))) ++ b ≡ method ++ (32 ∷ (uri ++ (32 ∷ (a ++ b))))
line_assoc method uri a b =
    append_assoc method (32 ∷ (uri ++ (32 ∷ a))) b
    ∙ ap (λ t. method ++ (32 ∷ t)) (append_assoc uri (32 ∷ a) b)

crlf-blank : trim_end (13 ∷ 10 ∷ []) ≡ []
unfolding trim_end blank
crlf-blank = refl

trimmed :
    (method uri : List ℕ)
    → trim_end (request_line method uri ++ (10 ∷ []))
      ≡ method ++ (32 ∷ (uri ++ (32 ∷ codes "HTTP/1.1")))
trimmed method uri =
    let front = method ++ (32 ∷ (uri ++ (32 ∷ codes "HTTP/1."))) in
    ap trim_end (
      line_assoc method uri (codes "HTTP/1.1\r") (10 ∷ [])
      ∙ sym (line_assoc method uri (codes "HTTP/1.") (49 ∷ 13 ∷ 10 ∷ [])))
    ∙ trim_end-Solid 49 front (13 ∷ 10 ∷ []) one-Solid crlf-blank
    ∙ line_assoc method uri (codes "HTTP/1.") (49 ∷ [])

-- The request line comes back.
pub parse_line-printed :
    (method uri : List ℕ)
    → IsRequestLine method uri
    → parse_line (request_line method uri ++ (10 ∷ [])) ≡ ok (method, uri)
unfolding parse_line strip_prefix split_once bytes_eq
parse_line-printed method uri h =
    let rest = uri ++ (32 ∷ codes "HTTP/1.1") in
    let some_method = ne→==-false (length method) 0 (omega (arith, h.method_there)) in
    ap (λ t. method_and_rest t (split_once 32 t)) (trimmed method uri)
    ∙ ap (method_and_rest (method ++ (32 ∷ rest)))
        (split_once-append 32 method rest h.method_word.0)
    ∙ rw (some_method, split_once-append 32 uri (codes "HTTP/1.1") h.uri_word.0) refl
