-- ===== src/Http1/BufWriter.antt =====
-- `std::io::BufWriter` of the standard library, over any writer.
pub mod Flow
use proxy_rs.Prelude.{
  ℕ, zero, suc, ◌+◌, ◌-◌, List, [], ◌∷◌, ◌++◌, length, drop, ltb, leb, ◌==◌, if◌then◌else◌, codes,
}
use proxy_rs.Io.{M, Outcome, ok, err, panic, IoError, other, write_zero, ◌>>=◌, ◌>>◌}
use proxy_rs.Bio.{WritesTo}

pub record BufWriter (W : Type 0) : Type 0 where
  pub buffered : List ℕ
  pub inner : W

-- The capacity of `BufWriter::new`.
abbrev pub capacity : ℕ
capacity = 8192

-- `io::Write::write_all`: writes until all is taken; `zero_error` is what a write of nothing becomes.
abbrev pub next_write :
    {W : Type 0}
    → IoError
    → List ℕ
    → (List ℕ → W → Outcome IoError (Unit {0}) × (List ℕ × W))
    → Outcome IoError ℕ × W
    → Outcome IoError (Unit {0}) × (List ℕ × W)
next_write zero_error d again (ok zero, w) = (err zero_error, (d, w))
next_write zero_error d again (ok (suc n), w) = again (drop (suc n) d) w
next_write zero_error d again (err e, w) = (err e, (d, w))
next_write zero_error d again (panic, w) = (panic, (d, w))

-- A write takes at least one byte, so there are no more rounds than bytes. What is left to write
-- after an error comes with it.
unfoldable pub write_loop :
    {W : Type 0} → WritesTo W → IoError → ℕ → List ℕ → W → Outcome IoError (Unit {0}) × (List ℕ × W)
write_loop write zero_error fuel [] w = (ok tt, ([], w))
write_loop write zero_error zero (x ∷ d) w = (err zero_error, (x ∷ d, w))
write_loop write zero_error (suc fuel) (x ∷ d) w =
    next_write zero_error (x ∷ d) (write_loop write zero_error fuel) (write (x ∷ d) w)

abbrev pub unsent :
    {W : Type 0}
    → Outcome IoError (Unit {0}) × (List ℕ × W)
    → Outcome IoError (Unit {0}) × BufWriter W
unsent (r, (d, w)) = (r, record { buffered = d; inner = w })

-- `flush_buf`
unfoldable pub flush_buf : {W : Type 0} → WritesTo W → M (BufWriter W) IoError (Unit {0})
unfolding write_loop
flush_buf write b = unsent (
    write_loop write (other (codes "failed to write the buffered data")) (length b.buffered)
      b.buffered b.inner)

-- A slice that is as long as the buffer or longer goes past it.
abbrev pub past_buffer :
    {W : Type 0}
    → List ℕ
    → Outcome IoError (Unit {0}) × (List ℕ × W)
    → Outcome IoError (Unit {0}) × BufWriter W
past_buffer buffered (r, (d, w)) = (r, record { buffered = buffered; inner = w })

unfoldable pub write_behind :
    {W : Type 0} → WritesTo W → List ℕ → M (BufWriter W) IoError (Unit {0})
unfolding write_loop
write_behind write d b =
    if leb capacity (length d)
    then past_buffer b.buffered (write_loop write write_zero (length d) d b.inner)
    else (ok tt, record b { buffered = b.buffered ++ d })

-- `write_all`: what does not fit behind the buffered bytes has them flushed first.
unfoldable pub buf_write_all :
    {W : Type 0} → WritesTo W → List ℕ → M (BufWriter W) IoError (Unit {0})
unfolding flush_buf write_behind
buf_write_all write d b =
    if ltb (length b.buffered + length d) capacity
    then (ok tt, record b { buffered = b.buffered ++ d })
    else if ltb capacity (length b.buffered + length d)
    then (flush_buf write >> write_behind write d) b
    else write_behind write d b

-- What is inside after a flush; an error of it is lost, and a panic is not.
abbrev pub after_flush :
    {W A : Type 0}
    → Outcome IoError A
    → Outcome IoError (Unit {0}) × BufWriter W
    → Outcome IoError A × W
after_flush r (ok u, b) = (r, b.inner)
after_flush r (err e, b) = (r, b.inner)
after_flush r (panic, b) = (panic, b.inner)

-- The drop behind a function that returns `r`.
unfoldable pub dropped :
    {W A : Type 0} → WritesTo W → Outcome IoError A × BufWriter W → Outcome IoError A × W
unfolding flush_buf
dropped write (r, b) = after_flush r (flush_buf write b)
