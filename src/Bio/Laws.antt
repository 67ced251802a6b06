-- ===== src/Bio/Laws.antt =====
-- Rust readers and writers behind callbacks, and callbacks behind Rust readers and writers.
use proxy_rs.Prelude.{ℕ, ◌^◌, ◌≤◌, ◌≡◌, refl, List, [], length, arith, append-nil}
use proxy_rs.Buffer.Lifetime.{IsValid-is_sane, new_buffer_with-IsValid}
use proxy_rs.Io.{Outcome, ok, err, panic, IoError, other}
use proxy_rs.Http2.Error.{show_io_error}
use proxy_rs.Foreign.{HttpResult, set_err, io_pieces, report}
use proxy_rs.Foreign.Reports.{IsReady, Tells, Fails, set_ok-Tells, set_err-Fails}
use proxy_rs.Bio.{
  answer_of, counted, told_read, written_count, ReadsFrom, WritesTo, empty_result, reader_read,
  writer_write, callback_of_read, callback_of_write,
}

-- What a read or a write becomes on its way through a callback: an error is its text.
abbrev pub through_read :
    {R : Type 0}
    → (List ℕ → List ℕ)
    → R
    → Outcome IoError (List ℕ) × R
    → Outcome IoError ℕ × (List ℕ × R)
through_read shown s (ok bytes, s') = (ok (length bytes), (bytes, s'))
through_read shown s (err e, s') = (err (other (shown (show_io_error e))), ([], s'))
through_read shown s (panic, s') = (panic, ([], s))

abbrev pub through_write :
    {R : Type 0} → (List ℕ → List ℕ) → R → Outcome IoError ℕ × R → Outcome IoError ℕ × R
through_write shown s (ok n, s') = (ok n, s')
through_write shown s (err e, s') = (err (other (shown (show_io_error e))), s')
through_write shown s (panic, s') = (panic, s)

-- The message of an error fits a buffer.
abbrev pub IsShort : {A : Type 0} → Outcome IoError A → Type 0
IsShort (ok a) = Unit {0}
IsShort (err e) = length (show_io_error e) ≤ 2 ^ 63
IsShort panic = Unit {0}

module _ (alloc : ℕ → List ℕ) (shown : List ℕ → List ℕ)
    (sized : (n : ℕ) → length (alloc n) ≡ n) where
  empty_result-IsReady : IsReady (empty_result alloc shown) 0
  empty_result-IsReady = record {
    place = refl;
    buffer = (new_buffer_with-IsValid 0 alloc (omega arith) sized).0;
  }

  answered : (r : HttpResult ℕ) (n : ℕ) → Tells r n → answer_of alloc shown r ≡ ok n
  answered r n t = rw (IsValid-is_sane r.err t.buffer, t.fine, t.value) refl

  refused :
      (r : HttpResult ℕ) (old : ℕ) (text : List ℕ)
      → Fails r old text
      → answer_of alloc shown r ≡ err (other (shown text))
  refused r old text f = rw (IsValid-is_sane r.err f.buffer, f.failed, f.text) refl

  io_failed :
      (e : IoError)
      → length (show_io_error e) ≤ 2 ^ 63
      → answer_of alloc shown (set_err (io_pieces e) (empty_result alloc shown))
        ≡ err (other (shown (show_io_error e)))
  io_failed e h =
      let one = append-nil (show_io_error e) in
      refused _ 0 (show_io_error e) (
        rw one at (
          set_err-Fails (io_pieces e) 0 (empty_result alloc shown) empty_result-IsReady (rw one h)))

  read_told :
      {R : Type 0} (s : R) (x : Outcome IoError (List ℕ) × R)
      → IsShort x.0
      → counted alloc shown s (told_read (empty_result alloc shown) x) ≡ through_read shown s x
  read_told s (ok bytes, s') h =
      let (r, (e, t)) =
        set_ok-Tells (length bytes) 0 (empty_result alloc shown) empty_result-IsReady in
      rw (e, answered r (length bytes) t) refl
  read_told s (err e, s') h = rw (io_failed e h) refl
  read_told s (panic, s') h = refl

  write_told :
      {R : Type 0} (s : R) (x : Outcome IoError ℕ × R)
      → IsShort x.0
      → written_count alloc shown s (report io_pieces (empty_result alloc shown) x)
        ≡ through_write shown s x
  write_told s (ok n, s') h =
      let (r, (e, t)) = set_ok-Tells n 0 (empty_result alloc shown) empty_result-IsReady in
      rw (e, answered r n t) refl
  write_told s (err e, s') h = rw (io_failed e h) refl
  write_told s (panic, s') h = refl

-- A Rust reader or writer that was made one of the foreign interface, and is used as one of Rust
-- again, delivers and takes the same bytes, with the same count, and leaves the same state; an error
-- comes back as its text, where that is of at most 2 ^ 63 bytes and the allocator answers with as
-- many bytes as asked for.
pub callbacks_through :
    (alloc : ℕ → List ℕ) (shown : List ℕ → List ℕ) {R : Type 0} (read : ReadsFrom R)
    (write : WritesTo R) (len : ℕ) (bytes : List ℕ) (s : R)
    → ((n : ℕ) → length (alloc n) ≡ n)
    → IsShort (read len s).0
    → IsShort (write bytes s).0
    → (reader_read alloc shown (callback_of_read read) len s ≡ through_read shown s (read len s))
      × (writer_write alloc shown (callback_of_write write) bytes s
          ≡ through_write shown s (write bytes s))
unfolding reader_read writer_write callback_of_read callback_of_write
callbacks_through alloc shown read write len bytes s sized hr hw = (
  read_told alloc shown sized s (read len s) hr,
  write_told alloc shown sized s (write bytes s) hw,
)
