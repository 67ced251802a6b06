-- ===== src/Http2/Frame/RoundTrip.antt =====
-- Writing a frame with `write_frame`, and reading it back with `read_header` and `read_frame` of the
-- same file under http/src/http2/frame/.
pub mod Fixed
pub mod Sizes
pub mod Payload
use proxy_rs.Prelude.{
  ℕ, ◌+◌, ◌≤◌, ◌≡◌, ◌∙◌, refl, ap, List, [], ◌++◌, length, arith, length-append, le→leb,
}
use proxy_rs.Io.{
  M, Sink, Source, Outcome, IoError, IoProtoError, write_zero, ok, write_all, ◌>>◌, return, from_io,
}
use proxy_rs.Http2.Frame.Wire.{wire_header}
use proxy_rs.Http2.Frame.Header.{length-wire_header}

-- A writer that takes `room` bytes and has taken none.
abbrev pub empty_sink : ℕ → Sink
empty_sink room = record { written = []; room = room; failure = write_zero }

-- The bytes that a write leaves in such a writer.
abbrev pub written_by : {E A : Type 0} → ℕ → M Sink E A → List ℕ
written_by room m = (m (empty_sink room)).1.written

pub written_by-wire :
    {A : Type 0} (room : ℕ) (m : M Sink IoError A) (bytes : List ℕ) (a : A)
    → m (empty_sink room) ≡ (write_all bytes >> return a) (empty_sink room)
    → length bytes ≤ room
    → written_by room m ≡ bytes
unfolding write_all
written_by-wire room m bytes a h fits =
    ap (λ r. r.1.written) h ∙ rw (le→leb (length bytes) room fits) refl

-- The same where io errors are turned into those of the frame layer.
pub written_by-from_io :
    {A : Type 0} (room : ℕ) (m : M Sink IoProtoError A) (bytes : List ℕ) (a : A)
    → m (empty_sink room) ≡ from_io (write_all bytes >> return a) (empty_sink room)
    → length bytes ≤ room
    → written_by room m ≡ bytes
unfolding write_all
written_by-from_io room m bytes a h fits =
    ap (λ r. r.1.written) h ∙ rw (le→leb (length bytes) room fits) refl

pub length-frame :
    (len type flags id : ℕ) (body : List ℕ)
    → length (wire_header len type flags id ++ body) ≡ 9 + length body
length-frame len type flags id body =
    length-append (wire_header len type flags id) body
    ∙ ap (λ n. n + length body) (length-wire_header len type flags id)

-- A read into a frame object succeeded, left `s`, and the object is as `P` says.
abbrev pub Delivers :
    {F : Type 0} → Outcome IoProtoError (Unit {0}) × (F × Source) → Source → (F → Type 0) → Type 0
Delivers r s P = (r.0 ≡ ok tt) × ((r.1.1 ≡ s) × P r.1.0)

pub delivers :
    {F : Type 0} {r : Outcome IoProtoError (Unit {0}) × (F × Source)} {f : F} {s : Source}
    → (P : F → Type 0) → r ≡ (ok tt, (f, s))
    → P f
    → Delivers r s P
delivers P h p = rw h (refl, (refl, p))
