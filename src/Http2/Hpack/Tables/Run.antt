-- ===== src/Http2/Hpack/Tables/Run.antt =====
-- The table behind `reset_permissible_size`, over any calls.
use proxy_rs.Prelude.{ℕ, ◌≡◌, List, [], ◌∷◌, ltb, if◌then◌else◌}
use proxy_rs.Io.{M, ok, return, ◌>>◌}
use proxy_rs.Http2.Hpack.Tables.{DynamicTable, insert, resize}
use proxy_rs.Http2.Hpack.Tables.Entries.{Entry, IsTable}
use proxy_rs.Http2.Hpack.Tables.Room.{keep}
use proxy_rs.Http2.Hpack.Tables.Insert.{inserted}

-- The calls of a decoder on its table.
pub data Call : Type 0 where
  enter : Entry → Call
  limit_to : ℕ → Call

unfoldable pub call : {E : Type 0} → Call → M DynamicTable E (Unit {0})
unfolding insert resize
call (enter (name, value)) = insert name value
call (limit_to size) = resize size

unfoldable pub run : {E : Type 0} → List Call → M DynamicTable E (Unit {0})
unfolding call
run [] = return tt
run (c ∷ cs) = call c >> run cs

-- A table as its entries and its limit, of a size that is permitted.
abbrev pub View : Type 0
View = List Entry × ℕ

abbrev pub after : ℕ → Call → View → View
after permitted (enter e) (es, max) = (inserted max e es, max)
after permitted (limit_to size) (es, max) =
    if ltb permitted size then (es, max) else (keep size es, size)

abbrev pub after_all : ℕ → List Call → View → View
after_all permitted [] v = v
after_all permitted (c ∷ cs) v = after_all permitted cs (after permitted c v)

-- The table holds what the view has, and this is permitted.
pub record IsView (t : DynamicTable) (permitted : ℕ) (v : View) : Type 0 where
  pub table : IsTable t v.0
  pub limited : t.max_size ≡ v.1
  pub allowed : t.permitted_size ≡ permitted

-- A run returns, and leaves a table with this view.
abbrev pub Runs : {E : Type 0} → DynamicTable → M DynamicTable E (Unit {0}) → ℕ → View → Type 0
Runs t m permitted v = (t' : DynamicTable) × ((m t ≡ (ok tt, t')) × IsView t' permitted v)
