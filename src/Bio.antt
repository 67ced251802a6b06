-- ===== src/Bio.antt =====
-- http/src/bio.rs: readers and writers over callbacks of foreign code, and callbacks over the readers
-- and writers of Rust. The state behind `data` is a parameter, as is the text that `BStr` shows of
-- bytes that may not be UTF-8.
pub mod Laws
use proxy_rs.Prelude.{
  ℕ, Bool, true, false, Option, none, some, List, [], ◌∷◌, length, if◌then◌else◌, codes,
}
use proxy_rs.Buffer.{Buffer, as_slice, is_sane, new_buffer_with}
use proxy_rs.Io.{M, Outcome, ok, err, panic, IoError, other}
use proxy_rs.Foreign.{
  Pointer, null, misaligned, to, with_pointer, require, HttpResult, set_ok, set_err, io_pieces,
  report,
}

-- What a callback leaves: the bytes that it put into the caller's buffer, its result, and its state.
abbrev pub Callback : Type 0 → Type 0
Callback R = HttpResult ℕ → R → Option (List ℕ × (HttpResult ℕ × R))

-- `ReadFn`, for a buffer of this length, and `WriteFn`.
abbrev pub ReadFn : Type 0 → Type 0
ReadFn R = ℕ → Callback R

abbrev pub WriteFn : Type 0 → Type 0
WriteFn R = List ℕ → HttpResult ℕ → R → Option (HttpResult ℕ × R)

-- A read, and the bytes that it delivers.
abbrev pub ReadsFrom : Type 0 → Type 0
ReadsFrom R = ℕ → M R IoError (List ℕ)

-- A write of some of the bytes, and how many.
abbrev pub WritesTo : Type 0 → Type 0
WritesTo R = List ℕ → M R IoError ℕ

abbrev pub count_behind : Pointer ℕ → ℕ
count_behind null = 0
count_behind misaligned = 0
count_behind (to n) = n

module _ (alloc : ℕ → List ℕ) (shown : List ℕ → List ℕ) where
  -- The result that a call of the callback is given; `written` starts at 0.
  abbrev pub empty_result : HttpResult ℕ
  empty_result = record { is_ok = true; ok = to 0; err = new_buffer_with 0 alloc }

  -- The count, or the message as an error; the check is that of `http_clear_buffer` too.
  abbrev pub answer_of : HttpResult ℕ → Outcome IoError ℕ
  answer_of res =
      if is_sane res.err
      then (if res.is_ok then ok (count_behind res.ok) else err (other (shown (as_slice res.err))))
      else panic

  abbrev pub counted :
      {R : Type 0} → R → Option (List ℕ × (HttpResult ℕ × R)) → Outcome IoError ℕ × (List ℕ × R)
  counted s none = (panic, ([], s))
  counted s (some (bytes, (res, s'))) = (answer_of res, (bytes, s'))

  -- `Read for Reader`: the count, and what was put into the buffer.
  unfoldable pub reader_read : {R : Type 0} → ReadFn R → ℕ → R → Outcome IoError ℕ × (List ℕ × R)
  reader_read read len s = counted s (read len empty_result s)

  abbrev pub written_count : {R : Type 0} → R → Option (HttpResult ℕ × R) → Outcome IoError ℕ × R
  written_count s none = (panic, s)
  written_count s (some (res, s')) = (answer_of res, s')

  -- `Write for Writer`
  unfoldable pub writer_write : {R : Type 0} → WriteFn R → WritesTo R
  writer_write write bytes s = written_count s (write bytes empty_result s)

-- `http_null_read` and `http_null_write`
unfoldable pub http_null_read : {R : Type 0} → ReadFn R
http_null_read len res s =
    require (is_sane res.err) (some ([], (set_err (codes "Reading from empty reader" ∷ []) res, s)))

unfoldable pub http_null_write : {R : Type 0} → WriteFn R
http_null_write bytes res s =
    require (is_sane res.err) (some (set_err (codes "Writing to empty writer" ∷ []) res, s))

abbrev pub delivered :
    {R : Type 0} → List ℕ → R → Option (HttpResult ℕ) → Option (List ℕ × (HttpResult ℕ × R))
delivered bytes s none = none
delivered bytes s (some r) = some (bytes, (r, s))

abbrev pub told_read :
    {R : Type 0}
    → HttpResult ℕ
    → Outcome IoError (List ℕ) × R
    → Option (List ℕ × (HttpResult ℕ × R))
told_read res (ok bytes, s) = delivered bytes s (set_ok (length bytes) res)
told_read res (err e, s) = some ([], (set_err (io_pieces e) res, s))
told_read res (panic, s) = none

-- The callback of `reader_from_read`.
unfoldable pub callback_of_read : {R : Type 0} → ReadsFrom R → ReadFn R
callback_of_read read len res s = told_read res (read len s)

-- The callback of `writer_from_write`.
unfoldable pub callback_of_write : {R : Type 0} → WritesTo R → WriteFn R
callback_of_write write bytes res s = report io_pieces res (write bytes s)

pub record Reader (R : Type 0) : Type 0 where
  pub content : R
  pub read : ReadFn R
  pub clear : R → R

pub record Writer (R : Type 0) : Type 0 where
  pub content : R
  pub write : WriteFn R
  pub clear : R → R

-- `reader_from_read` and `writer_from_write`; dropping the box ends the life of what it holds.
abbrev pub reader_from_read : {R : Type 0} → ReadsFrom R → R → Reader R
reader_from_read read s = record { content = s; read = callback_of_read read; clear = λ s. s }

abbrev pub writer_from_write : {R : Type 0} → WritesTo R → R → Writer R
writer_from_write write s = record { content = s; write = callback_of_write write; clear = λ s. s }

-- `http_new_empty_reader`
abbrev pub http_new_empty_reader : {R : Type 0} → R → Reader R
http_new_empty_reader s = record { content = s; read = http_null_read; clear = λ s. s }

abbrev pub with_reader :
    {R : Type 0}
    → Reader R
    → Option (List ℕ × (HttpResult ℕ × R))
    → Option (List ℕ × (HttpResult ℕ × Reader R))
with_reader r none = none
with_reader r (some (bytes, (res, s))) = some (bytes, (res, record r { content = s }))

abbrev pub with_writer :
    {R : Type 0} → Writer R → Option (HttpResult ℕ × R) → Option (HttpResult ℕ × Writer R)
with_writer w none = none
with_writer w (some (res, s)) = some (res, record w { content = s })

-- `data` is checked, and then only its length matters to a read.
unfoldable pub http_bio_read :
    {R : Type 0}
    → Pointer (Reader R)
    → Pointer ℕ
    → Pointer (HttpResult ℕ)
    → Option (List ℕ × (HttpResult ℕ × Reader R))
http_bio_read reader room res = with_pointer reader (λ r.
    with_pointer room (λ len. with_pointer res (λ out. with_reader r (r.read len out r.content))))

unfoldable pub http_bio_write :
    {R : Type 0}
    → Pointer (Writer R)
    → Pointer (List ℕ)
    → Pointer (HttpResult ℕ)
    → Option (HttpResult ℕ × Writer R)
http_bio_write writer bytes res = with_pointer writer (λ w.
    with_pointer bytes (λ d. with_pointer res (λ out. with_writer w (w.write d out w.content))))

-- What the clearing function leaves of the state.
unfoldable pub http_destroy_reader : {R : Type 0} → Pointer (Reader R) → Option R
http_destroy_reader reader = with_pointer reader (λ r. some (r.clear r.content))

unfoldable pub http_destroy_writer : {R : Type 0} → Pointer (Writer R) → Option R
http_destroy_writer writer = with_pointer writer (λ w. some (w.clear w.content))
