-- ===== src/Io.antt =====
-- Readers and writers as the code sees them through `std::io::Read` and `std::io::Write`, the
-- error values of http/src/http2/error.rs, and the monad that threads them.
pub mod Laws
use proxy_rs.Prelude.{ℕ, ◌+◌, ◌-◌, Bool, List, [], ◌++◌, length, take, drop, leb, if◌then◌else◌}

-- The errors of `std::io` that the code can meet: a short read, a full slice, and any error of
-- the endpoint, kept by its message.
pub data IoError : Type 0 where
  unexpected_eof : IoError
  write_zero : IoError
  other : List ℕ → IoError

pub data ErrorCode : Type 0 where
  no_error protocol_error internal_error flow_control_error settings_timeout stream_closed :
      ErrorCode
  frame_size_error refused_stream cancel compression_error connect_error : ErrorCode
  enhance_your_calm inadequate_security http11_required : ErrorCode

pub data IoProtoError : Type 0 where
  io : IoError → IoProtoError
  protocol : ErrorCode → IoProtoError

-- What a call does: it returns a value, returns an error, or a failed assertion panics.
pub data Outcome {ℓ} (E : Type 0) (A : Type ℓ) : Type ℓ where
  ok : A → Outcome E A
  err : E → Outcome E A
  panic : Outcome E A

-- A computation on a mutable state that outlives a failure.
abbrev pub M : Type 0 → Type 0 → Type 0 → Type 0
M S E A = S → Outcome E A × S

abbrev pub bind_outcome {ℓ} :
    {S E A : Type 0} {B : Type ℓ} → Outcome E A × S → (A → S → Outcome E B × S) → Outcome E B × S
bind_outcome (ok a, s) f = f a s
bind_outcome (err e, s) f = (err e, s)
bind_outcome (panic, s) f = (panic, s)

infixl 5 ◌>>=◌ ◌>>◌
abbrev pub ◌>>=◌ : {S E A B : Type 0} → M S E A → (A → M S E B) → M S E B
◌>>=◌ m f s = bind_outcome (m s) f

abbrev pub ◌>>◌ : {S E B : Type 0} → M S E (Unit {0}) → M S E B → M S E B
◌>>◌ m k s = bind_outcome (m s) (λ _. k)

abbrev pub return : {S E A : Type 0} → A → M S E A
return a s = (ok a, s)

abbrev pub fail : {S E A : Type 0} → E → M S E A
fail e s = (err e, s)

-- `if test { Err(e)? }`
abbrev pub fail_if : {S E : Type 0} → Bool → E → M S E (Unit {0})
fail_if test e s = if test then (err e, s) else (ok tt, s)

-- `assert!(test)`
abbrev pub assert : {S E : Type 0} → Bool → M S E (Unit {0})
assert test s = if test then (ok tt, s) else (panic, s)

-- `?` on an `io::Result` where the function returns an `IOProtoResult`.
abbrev pub from_io_outcome {ℓ} : {A : Type ℓ} → Outcome IoError A → Outcome IoProtoError A
from_io_outcome (ok a) = ok a
from_io_outcome (err e) = err (io e)
from_io_outcome panic = panic

abbrev pub from_io : {S A : Type 0} → M S IoError A → M S IoProtoError A
from_io m s = let (r, s') = m s in (from_io_outcome r, s')

-- A reader: the bytes that it will still deliver, and the error of any read behind them.
pub record Source : Type 0 where
  pub pending : List ℕ
  pub failure : IoError

-- A writer: the bytes that it has taken, how many more it takes, and the error of a write past that.
pub record Sink : Type 0 where
  pub written : List ℕ
  pub room : ℕ
  pub failure : IoError

-- `read_exact` into a buffer of `n` bytes.
unfoldable pub read_exact : ℕ → M Source IoError (List ℕ)
read_exact n s =
    if leb n (length s.pending)
    then (ok (take n s.pending), record s { pending = drop n s.pending })
    else (err s.failure, record s { pending = [] })

-- `write_all`: a write that does not fit takes the bytes that do, and fails.
unfoldable pub write_all : List ℕ → M Sink IoError (Unit {0})
write_all d s =
    if leb (length d) s.room
    then (ok tt, record s { written = s.written ++ d; room = s.room - length d })
    else (err s.failure, record s { written = s.written ++ take s.room d; room = 0 })
