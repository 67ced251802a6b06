-- ===== src/Foreign.antt =====
-- http/src/lib.rs and http/src/result.rs: the pointers and results of the foreign interface, and the
-- form that its functions share. `none` is a failed assertion, which aborts, since a panic does not
-- leave an `extern "C"` function.
pub mod Frames
pub mod Bytes
pub mod Preface
pub mod Reports
pub mod Wire
use proxy_rs.Prelude.{ℕ, Bool, true, false, Option, none, some, List, [], ◌∷◌, if◌then◌else◌}
use proxy_rs.Buffer.{Buffer, is_sane, clear, push_slice}
use proxy_rs.Io.{
  M, Outcome, ok, err, panic, IoError, IoProtoError, io, protocol, ErrorCode, no_error, Source,
  Sink,
}
use proxy_rs.Http2.Error.{show_io_error, show_error_code, get_error_code}
use proxy_rs.Prelude.{codes}

-- A pointer to a value of this type, as `is_sane` tells them apart.
pub data Pointer (A : Type 0) : Type 0 where
  null : Pointer A
  misaligned : Pointer A
  to : A → Pointer A

-- `assert!(pointer.is_sane())`, and the reference behind the pointer.
abbrev pub with_pointer : {A B : Type 0} → Pointer A → (A → Option B) → Option B
with_pointer null k = none
with_pointer misaligned k = none
with_pointer (to a) k = k a

-- `assert!(test)`
abbrev pub require : {B : Type 0} → Bool → Option B → Option B
require test k = if test then k else none

-- `err` tells what went wrong if the call failed.
pub record HttpResult (A : Type 0) : Type 0 where
  pub is_ok : Bool
  pub ok : Pointer A
  pub err : Buffer

-- Where the value of a result goes.
abbrev pub store : {A : Type 0} → A → Pointer A → Option (Pointer A)
store v p = with_pointer p (λ _. some (to v))

abbrev pub with_value : {A : Type 0} → HttpResult A → Option (Pointer A) → Option (HttpResult A)
with_value r none = none
with_value r (some p) = some (record { is_ok = true; ok = p; err = clear r.err })

unfoldable pub set_ok : {A : Type 0} → A → HttpResult A → Option (HttpResult A)
set_ok v r = with_value r (store v r.ok)

-- `write_fmt` into a buffer, piece by piece.
abbrev pub write_pieces : Buffer → List (List ℕ) → Buffer
write_pieces b [] = b
write_pieces b (s ∷ rest) = write_pieces (push_slice b s) rest

unfoldable pub set_err : {A : Type 0} → List (List ℕ) → HttpResult A → HttpResult A
set_err pieces r = record {
  is_ok = false;
  ok = r.ok;
  err = write_pieces (record r.err { len = 0 }) pieces;
}

-- The pieces of `{e}`.
abbrev pub io_pieces : IoError → List (List ℕ)
io_pieces e = show_io_error e ∷ []

abbrev pub proto_pieces : IoProtoError → List (List ℕ)
proto_pieces (io e) = codes "Failed IO operation: " ∷ show_io_error e ∷ []
proto_pieces (protocol e) = codes "Protocol Error: " ∷ show_error_code e ∷ []

-- The result of a call, and the reader or the writer after it.
abbrev pub Called : Type 0 → Type 0 → Type 0
Called A S = Option (HttpResult A × S)

abbrev pub beside : {A S : Type 0} → S → Option A → Option (A × S)
beside s none = none
beside s (some a) = some (a, s)

abbrev pub report :
    {A S E : Type 0} → (E → List (List ℕ)) → HttpResult A → Outcome E A × S → Called A S
report pieces r (ok a, s) = beside s (set_ok a r)
report pieces r (err e, s) = some (set_err (pieces e) r, s)
report pieces r (panic, s) = none

-- What every `http_*_write_frame` does around its `write_frame`; `buffer_sane` is the check of the
-- buffer that is sent, where there is one.
unfoldable pub call_writer :
    {E : Type 0}
    → (E → List (List ℕ))
    → Pointer Sink
    → Bool
    → M Sink E ℕ
    → Pointer (HttpResult ℕ)
    → Called ℕ Sink
call_writer pieces writer buffer_sane m res = with_pointer writer (λ w.
    with_pointer res (λ r. require buffer_sane (require (is_sane r.err) (report pieces r (m w)))))

-- With the code that a reading function returns.
abbrev pub Coded : Type 0 → Type 0
Coded A = Option (ErrorCode × (HttpResult A × Source))

abbrev pub with_code : {A : Type 0} → ErrorCode → Called A Source → Coded A
with_code code none = none
with_code code (some r) = some (code, r)

abbrev pub code_of : {A : Type 0} → Outcome IoProtoError A → ErrorCode
code_of (ok a) = no_error
code_of (err e) = get_error_code e
code_of panic = no_error

-- What `http_*_read_frame` does around a `read_frame` that returns its frame.
unfoldable pub call_reader :
    {A : Type 0} → Pointer Source → M Source IoProtoError A → Pointer (HttpResult A) → Coded A
call_reader reader m res = with_pointer reader (λ s. with_pointer res (λ r.
    require (is_sane r.err) (let x = m s in with_code (code_of x.0) (report proto_pieces r x))))

abbrev pub report_frame :
    {F : Type 0} → HttpResult F → Outcome IoProtoError (Unit {0}) × (F × Source) → Coded F
report_frame r (ok u, (f, s)) = some (no_error, (record r { is_ok = true; ok = to f }, s))
report_frame r (err e, (f, s)) =
    some (get_error_code e, (set_err (proto_pieces e) (record r { ok = to f }), s))
report_frame r (panic, (f, s)) = none

-- The same around one that fills the frame of the caller; `frame_sane` is what is asked of that.
unfoldable pub call_filler :
    {F : Type 0}
    → Pointer Source
    → (F → Bool)
    → M (F × Source) IoProtoError (Unit {0})
    → Pointer (HttpResult F)
    → Coded F
call_filler reader frame_sane m res = with_pointer reader (λ s. with_pointer res (λ r.
    require (is_sane r.err)
      (with_pointer r.ok (λ f. require (frame_sane f) (report_frame r (m (f, s)))))))
