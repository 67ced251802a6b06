-- ===== src/Http1/Parse/Answers.antt =====
-- Lines of any bytes.
pub mod Total
use proxy_rs.Prelude.{
  ℕ, zero, suc, ◌+◌, ◌≤◌, ◌<◌, ◌≡◌, ◌≢◌, ◌∙◌, refl, sym, ap, subst, Bool, true, false, Option, none,
  some, List, [], ◌∷◌, ◌++◌, length, arith, length-append, codes, ◌==◌, if◌then◌else◌, bytes_eq,
  inl, inr, Bool-cases, Option-cases, ◌⊎◌,
}
use proxy_rs.Buffer.Lifetime.{IsValid-is_sane}
use proxy_rs.Io.{M, Outcome, ok, err, panic, IoError}
use proxy_rs.Foreign.{Pointer, to, HttpResult, set_err}
use proxy_rs.Foreign.Reports.{IsReady, Tells, set_ok-Tells}
use proxy_rs.Request.{HeaderMap, values_of, snoc, add_value, Request}
use proxy_rs.Request.Lookup.{kept, values_of-add}
use proxy_rs.Response.{lower_case}
use proxy_rs.Http1.Lines.{
  Stream, in_front, split_once, strip_prefix, until, at_end, read_until, read_line, valid, is_utf8,
  trim_end, from_str_radix,
}
use proxy_rs.Http1.Body.{
  Body, first_chunk, chunked_body, sized_body, asks_chunks, length_text, get_body_reader,
}
use proxy_rs.Http1.Parse.{
  Parsed, Headed, and_parse, or_say, says, version_one, check_version, uri_and_version,
  method_and_rest, parse_line, strip_last, trim_ascii_start, add_line, take_line, read_next,
  read_headers, locate, created, assembled, after_line, answered, http_parse_http11_request,
}

-- A call that does not abort.
abbrev pub Ends : {E A : Type 0} → Outcome E A → Type 0
Ends (ok a) = Unit {0}
Ends (err e) = Unit {0}
Ends panic = true ≡ false

abbrev pub Takes : ℕ → Outcome IoError (List ℕ) × Stream → Type 0
Takes n (ok d, s) = length d + length s.pending ≡ n
Takes n (err e, s) = Unit {0}
Takes n (panic, s) = true ≡ false

abbrev Splits : ℕ → Option (List ℕ × List ℕ) → Type 0
Splits n none = Unit {0}
Splits n (some (a, b)) = length a + 1 + length b ≡ n

in_front-Splits :
    (n x : ℕ) (o : Option (List ℕ × List ℕ)) → Splits n o → Splits (suc n) (in_front x o)
in_front-Splits n x none h = tt
in_front-Splits n x (some (a, b)) h = omega (arith, h)

split_once-Splits : (c : ℕ) (d : List ℕ) → Splits (length d) (split_once c d)
unfolding split_once
split_once-Splits c [] = tt
split_once-Splits c (x ∷ d) = elim (Bool-cases (x == c)) [
  | inl hit ↦ rw hit (omega arith)
  | inr miss ↦ rw miss (in_front-Splits (length d) x (split_once c d) (split_once-Splits c d))
]

-- A line and what is left are what there was.
pub read_until-Takes :
    (d : List ℕ) (f : Option IoError)
    → Takes (length d) (read_until (record { pending = d; failure = f }))
unfolding read_until
read_until-Takes d f = at (split_once 10 d) (split_once-Splits 10 d)
  where
    at_rest :
        (f : Option IoError) (e : Option IoError)
        → Takes (length d) (at_end d e, record { pending = []; failure = f })
    at_rest f none = omega arith
    at_rest f (some e) = tt

    at :
        (o : Option (List ℕ × List ℕ))
        → Splits (length d) o
        → Takes (length d) (until (record { pending = d; failure = f }) o)
    at none h = at_rest f f
    at (some (a, b)) h = omega (arith, h, length-append a (10 ∷ []))

Takes-Ends : (n : ℕ) (r : Outcome IoError (List ℕ) × Stream) → Takes n r → Ends (valid r.0)
Takes-Ends n (err e, s) h = tt
Takes-Ends n (panic, s) h = h
Takes-Ends n (ok d, s) h = elim (Bool-cases (is_utf8 d)) [
  | inl right ↦ rw right tt
  | inr wrong ↦ rw wrong tt
]

pub read_line-Ends :
    (d : List ℕ) (f : Option IoError) → Ends (read_line (record { pending = d; failure = f })).0
unfolding read_line
read_line-Ends d f = Takes-Ends (length d) _ (read_until-Takes d f)
