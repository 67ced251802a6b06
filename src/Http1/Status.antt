-- ===== src/Http1/Status.antt =====
-- `http11_write_status` of http/src/http11.rs: the status line and the headers.
pub mod Sent
pub mod Head
use proxy_rs.Prelude.{
  ℕ, zero, suc, ◌+◌, ◌/◌, ◌%◌, Option, none, some, List, [], ◌∷◌, ◌++◌, length, ltb, if◌then◌else◌,
  codes,
}
use proxy_rs.Buffer.{is_sane}
use proxy_rs.Io.{M, Outcome, IoError, ◌>>=◌, ◌>>◌, return}
use proxy_rs.Foreign.{Pointer, with_pointer, require, HttpResult, report, io_pieces}
use proxy_rs.Bio.{WritesTo, Writer, writer_write}
use proxy_rs.Request.{HeaderMap}
use proxy_rs.Response.{ResponseWriter, Answer, StatusFn, http_custom_response_writer}
use proxy_rs.Response.Reason.{get_reason_phrase}
use proxy_rs.Http1.BufWriter.{BufWriter, buf_write_all, dropped}

-- A `u16` in decimal has at most five digits.
abbrev pub decimal : ℕ → ℕ → List ℕ
decimal zero n = (48 + n % 10) ∷ []
decimal (suc more) n =
    let front = decimal more (n / 10) in
    if ltb n 10 then (48 + n) ∷ [] else front ++ ((48 + n % 10) ∷ [])

abbrev pub show_code : ℕ → List ℕ
show_code code = decimal 4 code

abbrev pub crlf : List ℕ
crlf = 13 ∷ 10 ∷ []

-- `write!`, piece by piece.
unfoldable pub put_all :
    {W : Type 0} → WritesTo W → List (List ℕ) → M (BufWriter W) IoError (Unit {0})
put_all write [] = return tt
put_all write (d ∷ rest) = do buf_write_all write d; put_all write rest

-- The text that is shown of bytes that may not be UTF-8.
module _ (shown : List ℕ → List ℕ) where
  unfoldable pub put_values :
      {W : Type 0} → WritesTo W → List ℕ → List (List ℕ) → ℕ → M (BufWriter W) IoError ℕ
  unfolding put_all
  put_values write k [] written = return written
  put_values write k (val ∷ rest) written = do
    put_all write (shown k ∷ codes ": " ∷ shown val ∷ crlf ∷ [])
    put_values write k rest (written + (length k + 2 + length val + 2))

  unfoldable pub put_headers : {W : Type 0} → WritesTo W → HeaderMap → ℕ → M (BufWriter W) IoError ℕ
  unfolding put_values
  put_headers write [] written = return written
  put_headers write ((k, v) ∷ rest) written = do
    written ← put_values write k v written
    put_headers write rest written

  -- All that is written, and the count that the code makes of it.
  unfoldable pub write_head : {W : Type 0} → WritesTo W → ℕ → HeaderMap → M (BufWriter W) IoError ℕ
  unfolding put_all put_headers
  write_head write code headers = do
    let reason_phrase = get_reason_phrase code
    put_all write (codes "HTTP/1.1 " ∷ show_code code ∷ codes " " ∷ reason_phrase ∷ crlf ∷ [])
    written ← put_headers write headers (8 + 1 + 3 + 1 + length reason_phrase)
    buf_write_all write crlf
    return (written + 2)

  abbrev pub with_content :
      {R : Type 0} → ResponseWriter R → Outcome IoError ℕ × R → Outcome IoError ℕ × ResponseWriter R
  with_content w (r, content) = (r, record w { writer = record w.writer { content = content } })

  -- The `BufWriter` is dropped behind the report, and a panic of either aborts.
  unfoldable pub http11_write_status : {R : Type 0} → (ℕ → List ℕ) → StatusFn R
  unfolding write_head dropped
  http11_write_status alloc w code res =
      let write = writer_write alloc shown w.writer.write in
      require (is_sane res.err) (
        report io_pieces res (
          with_content w (
            dropped write (
              write_head write code w.headers
                (record { buffered = []; inner = w.writer.content })))))

-- `http_http11_response_writer`
unfoldable pub http_http11_response_writer :
    {R : Type 0} → Pointer (Writer R) → Option (ResponseWriter R)
http_http11_response_writer writer = http_custom_response_writer writer
