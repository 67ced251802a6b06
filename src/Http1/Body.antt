-- ===== src/Http1/Body.antt =====
-- `Body` of http/src/http11.rs: the body of a request, of a known length or in chunks.
pub mod Drain
use proxy_rs.Prelude.{
  ℕ, zero, suc, ◌-◌, ◌⊎◌, inl, inr, min, Bool, true, false, ◌||◌, Option, none, some, List, [], ◌∷◌,
  ◌++◌, length, take, drop, ltb, ◌==◌, if◌then◌else◌, codes, bytes_eq,
}
use proxy_rs.Io.{M, Outcome, ok, err, panic, IoError, other, return, ◌>>=◌, bind_outcome}
use proxy_rs.Http2.Error.{show_io_error}
use proxy_rs.Request.{HeaderMap, values_of}
use proxy_rs.Http1.Lines.{Stream, read_line, trim_end, from_str_radix, is_utf8}

-- `content_length` is that of the chunk, where there are chunks.
pub record Body : Type 0 where
  pub reader : Stream
  pub content_length : Option ℕ
  pub chunked_encoding : Bool

-- `NonZeroUsize::new`
abbrev pub non_zero : ℕ → Option ℕ
non_zero zero = none
non_zero (suc n) = some (suc n)

abbrev pub lift_line : Body → Outcome IoError (List ℕ) × Stream → Outcome IoError (List ℕ) × Body
lift_line b (r, s) = (r, record b { reader = s })

abbrev pub body_line : M Body IoError (List ℕ)
body_line b = lift_line b (read_line b.reader)

-- The text of `io::Error::other` is that of the error inside.
abbrev pub as_length : List ℕ ⊎ ℕ → M Body IoError (Option ℕ)
as_length (inl e) b = (err (other e), b)
as_length (inr n) b = (ok (non_zero n), b)

-- The end of a chunk, and the line with the length of the next.
unfoldable pub next_chunk : M Body IoError (Option ℕ)
next_chunk = do _ ← body_line; line ← body_line; as_length (from_str_radix (trim_end line) 16)

-- How much may be read; none is the end.
abbrev pub readable : Option ℕ → Bool → M Body IoError (Option ℕ)
readable (some n) chunked b = (ok (some n), b)
readable none false b = (ok none, b)
readable none true b = next_chunk b

abbrev pub at_failure : Option IoError → Outcome IoError (List ℕ)
at_failure none = ok []
at_failure (some e) = err e

-- A read of a `BufReader` with room for `n` bytes: `more` is how many it has at once behind the first.
module _ (more : Stream → ℕ) where
  unfoldable pub stream_read : ℕ → M Stream IoError (List ℕ)
  stream_read n s = if length s.pending == 0 then (at_failure s.failure, s) else (
    ok (take (min n (suc (more s))) s.pending),
    record s { pending = drop (min n (suc (more s))) s.pending },
  )

  -- The length goes down by what was read, which is no more than it.
  abbrev pub count_down :
      ℕ → Body → Outcome IoError (List ℕ) × Stream → Outcome IoError (List ℕ) × Body
  count_down len b (ok d, s) =
      (ok d, record b { reader = s; content_length = non_zero (len - length d) })
  count_down len b (err e, s) = (err e, record b { reader = s })
  count_down len b (panic, s) = (panic, record b { reader = s })

  abbrev pub read_some : ℕ → Option ℕ → M Body IoError (List ℕ)
  read_some room none b = (ok [], b)
  read_some room (some len) b = count_down len b (stream_read (min room len) b.reader)

  -- `Read for Body`, into a buffer of this length.
  unfoldable pub body_read : ℕ → M Body IoError (List ℕ)
  unfolding next_chunk stream_read
  body_read room b = bind_outcome (readable b.content_length b.chunked_encoding b) (read_some room)

abbrev pub any_chunked : List (List ℕ) → Bool
any_chunked [] = false
any_chunked (v ∷ rest) = bytes_eq v (codes "chunked") || any_chunked rest

abbrev pub asks_chunks : Option (List (List ℕ)) → Bool
asks_chunks none = false
asks_chunks (some vs) = any_chunked vs

-- The first value of a name, or 0 where it is no UTF-8.
abbrev pub length_text : Option (List (List ℕ)) → List ℕ
length_text none = codes "0"
length_text (some []) = codes "0"
length_text (some (v ∷ rest)) = if is_utf8 v then v else codes "0"

abbrev pub first_chunk : Stream → List ℕ ⊎ ℕ → Outcome (List ℕ) Body
first_chunk s (inl e) = err (codes "Failed to get chunked encoding first length: " ++ e)
first_chunk s (inr zero) =
    ok (record { reader = s; content_length = none; chunked_encoding = false })
first_chunk s (inr (suc n)) =
    ok (record { reader = s; content_length = some (suc n); chunked_encoding = true })

abbrev pub chunked_body : Outcome IoError (List ℕ) × Stream → Outcome (List ℕ) Body
chunked_body (ok line, s) = first_chunk s (from_str_radix (trim_end line) 16)
chunked_body (err e, s) = err (codes "Failed to read chunked encoding line: " ++ show_io_error e)
chunked_body (panic, s) = panic

abbrev pub sized_body : Stream → List ℕ ⊎ ℕ → Outcome (List ℕ) Body
sized_body s (inl e) = err (codes "Failed to parse content length: " ++ e)
sized_body s (inr n) =
    ok (record { reader = s; content_length = non_zero n; chunked_encoding = false })

-- An error is its text.
unfoldable pub get_body_reader : Stream → HeaderMap → Outcome (List ℕ) Body
get_body_reader s headers =
    if asks_chunks (values_of (codes "transfer-encoding") headers)
    then chunked_body (read_line s)
    else sized_body s (from_str_radix (length_text (values_of (codes "content-length") headers)) 10)
