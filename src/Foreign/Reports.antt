-- ===== src/Foreign/Reports.antt =====
-- What the caller of an exported function finds in its result.
use proxy_rs.Prelude.{
  ℕ, ◌+◌, ◌^◌, ◌≤◌, ◌≡◌, ◌∙◌, refl, ap, true, false, Bool, none, some, List, [], ◌∷◌, ◌++◌, length,
  arith, append_assoc, append-nil, length-append, sym, codes,
}
use proxy_rs.Buffer.{Buffer, IsValid, as_slice, clear, push_slice}
use proxy_rs.Buffer.Contents.{clear-IsValid, push_slice-IsAppended}
use proxy_rs.Buffer.Lifetime.{IsValid-is_sane}
use proxy_rs.Io.{M, Outcome, ok, err, panic, Source, IoProtoError, io, protocol, no_error}
use proxy_rs.Http2.Error.{show_io_proto_error, get_error_code}
use proxy_rs.Foreign.{
  to, HttpResult, set_ok, set_err, write_pieces, report, report_frame, Coded, call_reader,
  call_filler, proto_pieces, with_code, code_of,
}

abbrev pub joined : List (List ℕ) → List ℕ
joined [] = []
joined (s ∷ rest) = s ++ joined rest

-- A result that a caller hands in: `ok` points to a value, and the buffer is valid.
pub record IsReady {A : Type 0} (r : HttpResult A) (old : A) : Type 0 where
  pub place : r.ok ≡ to old
  pub buffer : IsValid r.err

-- A result that tells of success and holds a value, with an empty message.
pub record Tells {A : Type 0} (r : HttpResult A) (v : A) : Type 0 where
  pub fine : r.is_ok ≡ true
  pub value : r.ok ≡ to v
  pub silent : as_slice r.err ≡ []
  pub buffer : IsValid r.err

-- A result that tells of a failure by a message, and leaves the value alone.
pub record Fails {A : Type 0} (r : HttpResult A) (old : A) (message : List ℕ) : Type 0 where
  pub failed : r.is_ok ≡ false
  pub value : r.ok ≡ to old
  pub text : as_slice r.err ≡ message
  pub buffer : IsValid r.err

write_pieces-joined :
    (pieces : List (List ℕ)) (b : Buffer)
    → IsValid b
    → b.len + length (joined pieces) ≤ 2 ^ 63
    → IsValid (write_pieces b pieces)
      × (as_slice (write_pieces b pieces) ≡ as_slice b ++ joined pieces)
write_pieces-joined [] b v h = (v, sym (append-nil _))
write_pieces-joined (s ∷ rest) b v h =
    let sum = length-append s (joined rest) in
    let p = push_slice-IsAppended b v s (omega arith) in
    let (w, e) = write_pieces-joined rest (push_slice b s) p.valid (omega (arith, p.longer)) in
    (w, e ∙ rw p.contents (append_assoc (as_slice b) s (joined rest)))

pub set_ok-Tells :
    {A : Type 0} (v old : A) (r : HttpResult A)
    → IsReady r old
    → (r' : HttpResult A) × ((set_ok v r ≡ some r') × Tells r' v)
unfolding set_ok
set_ok-Tells v old r h =
    let (cv, ce) = clear-IsValid r.err h.buffer in
    (
      record { is_ok = true; ok = to v; err = clear r.err },
      (rw h.place refl, record { fine = refl; value = refl; silent = ce; buffer = cv }),
    )

pub set_err-Fails :
    {A : Type 0} (pieces : List (List ℕ)) (old : A) (r : HttpResult A)
    → IsReady r old
    → length (joined pieces) ≤ 2 ^ 63
    → Fails (set_err pieces r) old (joined pieces)
unfolding set_err clear
set_err-Fails pieces old r h hl =
    let (cv, ce) = clear-IsValid r.err h.buffer in
    let (w, e) = write_pieces-joined pieces (clear r.err) cv (omega arith) in
    record {
      failed = refl;
      value = h.place;
      text = e ∙ ap (λ t. t ++ joined pieces) ce;
      buffer = w;
    }

pub joined-show : (e : IoProtoError) → joined (proto_pieces e) ≡ show_io_proto_error e
unfolding show_io_proto_error
joined-show (io e) = ap (λ t. codes "Failed IO operation: " ++ t) (append-nil _)
joined-show (protocol e) = ap (λ t. codes "Protocol Error: " ++ t) (append-nil _)

-- What a reading function answers, by what its `read_frame` does.
abbrev pub Answers : {A : Type 0} → Coded A → A → Outcome IoProtoError A × Source → Type 0
Answers {A} c old (ok a, s) = (r : HttpResult A) × ((c ≡ some (no_error, (r, s))) × Tells r a)
Answers {A} c old (err e, s) =
    (r : HttpResult A) × ((c ≡ some (get_error_code e, (r, s)))
      × Fails r old (show_io_proto_error e))
Answers c old (panic, s) = c ≡ none

-- The same where it fills the frame of the caller; the message of a success is the old one.
abbrev pub Fills :
    {F : Type 0} → Coded F → HttpResult F → Outcome IoProtoError (Unit {0}) × (F × Source) → Type 0
Fills {F} c old (ok u, (f, s)) =
    (r : HttpResult F) × ((c ≡ some (no_error, (r, s)))
      × ((r.is_ok ≡ true) × ((r.ok ≡ to f) × (r.err ≡ old.err))))
Fills {F} c old (err e, (f, s)) =
    (r : HttpResult F) × ((c ≡ some (get_error_code e, (r, s))) × Fails r f (show_io_proto_error e))
Fills c old (panic, (f, s)) = c ≡ none

-- The message of an error fits a buffer.
abbrev pub IsShort : {A : Type 0} → Outcome IoProtoError A → Type 0
IsShort (err e) = length (show_io_proto_error e) ≤ 2 ^ 63
IsShort (ok a) = Unit {0}
IsShort panic = Unit {0}

proto-Fails :
    {A : Type 0} (e : IoProtoError) (old : A) (r : HttpResult A)
    → IsReady r old
    → length (show_io_proto_error e) ≤ 2 ^ 63
    → Fails (set_err (proto_pieces e) r) old (show_io_proto_error e)
proto-Fails e old r h hl =
    rw (← joined-show e) (set_err-Fails (proto_pieces e) old r h (rw (joined-show e) hl))

report-Answers :
    {A : Type 0} (x : Outcome IoProtoError A × Source) (old : A) (r : HttpResult A)
    → IsReady r old
    → IsShort x.0
    → Answers (with_code (code_of x.0) (report proto_pieces r x)) old x
report-Answers (ok a, s) old r h hs =
    let (r', (e, t)) = set_ok-Tells a old r h in (r', (rw e refl, t))
report-Answers (err e, s) old r h hs = (_, (refl, proto-Fails e old r h hs))
report-Answers (panic, s) old r h hs = refl

pub call_reader-Answers :
    {A : Type 0} (m : M Source IoProtoError A) (s : Source) (old : A) (r : HttpResult A)
    → IsReady r old
    → IsShort (m s).0
    → Answers (call_reader (to s) m (to r)) old (m s)
unfolding call_reader
call_reader-Answers m s old r h hs =
    rw (IsValid-is_sane r.err h.buffer) (report-Answers (m s) old r h hs)

report_frame-Fills :
    {F : Type 0} (x : Outcome IoProtoError (Unit {0}) × (F × Source)) (old : F) (r : HttpResult F)
    → IsReady r old
    → IsShort x.0
    → Fills (report_frame r x) r x
report_frame-Fills (ok u, (f, s)) old r h hs = (_, (refl, (refl, (refl, refl))))
report_frame-Fills (err e, (f, s)) old r h hs = (
  _,
  (refl, proto-Fails e f (record r { ok = to f }) (record { place = refl; buffer = h.buffer }) hs),
)
report_frame-Fills (panic, (f, s)) old r h hs = refl

pub call_filler-Fills :
    {F : Type 0} (m : M (F × Source) IoProtoError (Unit {0})) (frame_sane : F → Bool) (s : Source)
    (old : F) (r : HttpResult F)
    → IsReady r old
    → frame_sane old ≡ true
    → IsShort (m (old, s)).0
    → Fills (call_filler (to s) frame_sane m (to r)) r (m (old, s))
unfolding call_filler
call_filler-Fills m frame_sane s old r h sane hs =
    rw (IsValid-is_sane r.err h.buffer, h.place, sane) (report_frame-Fills (m (old, s)) old r h hs)
