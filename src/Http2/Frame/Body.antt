-- ===== src/Http2/Frame/Body.antt =====
-- Frame bodies that are read into a buffer of the caller: the frame object is part of the state, so
-- that what a failed read leaves behind can be seen.
pub mod Laws
pub mod Keeps
use proxy_rs.Prelude.{
  ℕ, ◌-◌, List, [], ◌++◌, Option, none, some, length, take, drop, leb, if◌then◌else◌,
}
use mathlib.Core.Option
use proxy_rs.Buffer.{Buffer, write_at}
use proxy_rs.Io.{M, Outcome, ok, err, Source, IoError}

-- A read that does not touch the frame object.
abbrev pub on_source : {F E A : Type 0} → M Source E A → M (F × Source) E A
on_source m (f, s) = let (r, s') = m s in (r, (f, s'))

-- Assignments to fields of the frame object.
abbrev pub modify : {F E : Type 0} → (F → F) → M (F × Source) E (Unit {0})
modify g (f, s) = (ok tt, (g f, s))

-- Bytes stored at an offset of the memory; there is none behind the null pointer.
abbrev pub store : Buffer → ℕ → List ℕ → Buffer
store b i bytes = record b { memory = Option.map (write_at i bytes) b.memory }

-- `reader.read_exact(&mut buffer[start..])`. A short read leaves what arrived in the buffer.
unfoldable pub read_exact_into : ℕ → M (Buffer × Source) IoError (Unit {0})
read_exact_into start (b, s) =
    if leb (b.len - start) (length s.pending)
    then (
      ok tt,
      (
        store b start (take (b.len - start) s.pending),
        record s { pending = drop (b.len - start) s.pending },
      ),
    )
    else (err s.failure, (store b start s.pending, record s { pending = [] }))
