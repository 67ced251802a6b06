-- ===== src/Http2/Hpack/Tables/Header.antt =====
-- `HeaderTable` of http/src/http2/hpack/tables.rs: the static table in front of the dynamic one.
-- Its other methods are those of `DynamicTable`.
use proxy_rs.Prelude.{ℕ, ◌-◌, Option, none, some, List, leb, ◌==◌, if◌then◌else◌, get_elem?}
use proxy_rs.Buffer.{Buffer, push_slice, extend}
use proxy_rs.Io.{M, ok, panic, ◌>>=◌}
use proxy_rs.Http2.Hpack.Tables.{DynamicTable, get_entry}
use proxy_rs.Http2.Hpack.Tables.Static.{StaticEntry, static_table}

-- The buffers of the caller after a copy; `none` is `Err(())`.
abbrev pub Copy : Type 0
Copy = Option (Buffer × Option Buffer)

-- A value is copied where the caller wants it and the entry has it.
abbrev pub push_value : Option Buffer → Option (List ℕ) → Option Buffer
push_value (some w) (some e) = some (push_slice w e)
push_value (some w) none = some w
push_value none e = none

abbrev pub extend_value : Option Buffer → List ℕ → Option Buffer
extend_value (some w) v = some (extend w v)
extend_value none v = none

-- An index past the end of the static table panics.
abbrev pub copy_static :
    {E : Type 0} → Option StaticEntry → Buffer → Option Buffer → M DynamicTable E Copy
copy_static none name value t = (panic, t)
copy_static (some entry) name value t =
    (ok (some (push_slice name entry.name, push_value value entry.value)), t)

abbrev pub copy_entry :
    {E : Type 0} → Buffer → Option Buffer → Option (List ℕ × List ℕ) → M DynamicTable E Copy
copy_entry name value none t = (ok none, t)
copy_entry name value (some (n, v)) t = (ok (some (extend name n, extend_value value v)), t)

unfoldable pub header_get : {E : Type 0} → ℕ → Buffer → Option Buffer → M DynamicTable E Copy
header_get index name value t =
    let dynamic = (get_entry (index - 62) >>= copy_entry name value) t in
    if index == 0
    then (ok none, t)
    else if leb index 61
    then copy_static (get_elem? static_table (index - 1)) name value t
    else dynamic
