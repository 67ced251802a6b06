-- ===== src/Http2/Hpack/Tables.antt =====
-- `DynamicTable` and `HeaderTable` of http/src/http2/hpack/tables.rs. The deque of bytes is the list
-- of its bytes; a range past its end panics.
pub mod Static
pub mod Entries
pub mod Lookup
pub mod Room
pub mod Insert
pub mod Resize
pub mod Run
pub mod Header
pub mod Copied
use proxy_rs.Prelude.{
  ℕ, zero, suc, ◌+◌, ◌-◌, ◌%◌, ◌^◌, Bool, true, false, not, Option, none, some, List, [], ◌++◌, ltb,
  leb, ◌==◌, if◌then◌else◌, length, take, drop, get_elem?,
}
use proxy_rs.Prelude.Bytes.{to_le_bytes, from_le_bytes}
use proxy_rs.Buffer.{Buffer, push_slice, extend}
use proxy_rs.Io.{M, ErrorCode, no_error, compression_error, assert, ok, ◌>>=◌, ◌>>◌, return}
use proxy_rs.Http2.Hpack.Tables.Static.{StaticEntry, static_table}

pub record DynamicTable : Type 0 where
  pub buffer : List ℕ
  pub max_size : ℕ
  pub permitted_size : ℕ
  pub num_elements : ℕ

-- `DynamicTable::new`
abbrev pub new_table : ℕ → DynamicTable
new_table max_permitted_size = record {
  buffer = [];
  max_size = max_permitted_size;
  permitted_size = max_permitted_size;
  num_elements = 0;
}

-- `self.buffer.range(offset..offset + n)`
unfoldable pub range : {E : Type 0} → ℕ → ℕ → M DynamicTable E (List ℕ)
range offset n t =
    (assert (leb (offset + n) (length t.buffer)) >> return (take n (drop offset t.buffer))) t

unfoldable pub get_size : {E : Type 0} → ℕ → M DynamicTable E ℕ
get_size offset = do size ← range offset 8; return (from_le_bytes size)

-- `self.buffer.drain(0..size); self.num_elements -= 1`
abbrev pub drain : ℕ → DynamicTable → DynamicTable
drain size t = record t {
  buffer = drop size t.buffer;
  num_elements = (t.num_elements + (2 ^ 64 - 1)) % 2 ^ 64;
}

unfoldable pub evict : {E : Type 0} → M DynamicTable E (Unit {0})
evict = do size ← get_size 0; _ ← range 0 size; λ t. return tt (drain size t)

unfoldable pub reset_permissible_size : ℕ → DynamicTable → ErrorCode × DynamicTable
reset_permissible_size new_size t =
    if not (t.num_elements == 0)
    then (compression_error, t)
    else (no_error, record t { buffer = []; max_size = new_size; permitted_size = new_size })

-- `while self.buffer.len() > new_size { self.evict(); }`, on fuel.
unfoldable pub evict_to : {E : Type 0} → ℕ → ℕ → M DynamicTable E (Unit {0})
evict_to zero new_size t = (ok tt, t)
evict_to (suc fuel) new_size t =
    let more = (evict >> evict_to fuel new_size) t in
    if ltb new_size (length t.buffer) then more else (ok tt, t)

unfoldable pub resize : {E : Type 0} → ℕ → M DynamicTable E (Unit {0})
resize new_size t =
    if ltb t.permitted_size new_size
    then (ok tt, t)
    else ((evict_to (length t.buffer) new_size >> λ t. return tt (record t { max_size = new_size }))
        t)

-- The loop of `insert`, on fuel: whether the entry fits in the end.
unfoldable pub make_room : {E : Type 0} → ℕ → ℕ → M DynamicTable E Bool
make_room zero size t = (ok false, t)
make_room (suc fuel) size t =
    let more = (evict >> make_room fuel size) t in
    if ltb t.max_size (length t.buffer + size)
    then (if length t.buffer == 0 then (ok false, t) else more)
    else (ok true, t)

-- The bytes of an entry, its size on both sides.
abbrev pub entry_bytes : List ℕ → List ℕ → List ℕ
entry_bytes name value =
    let size = length name + length value + 32 in
    to_le_bytes 8 size
    ++ (to_le_bytes 8 (length name)
        ++ (to_le_bytes 8 (length value) ++ (name ++ (value ++ to_le_bytes 8 size))))

abbrev pub add_entry : List ℕ → List ℕ → DynamicTable → DynamicTable
add_entry name value t = record t {
  buffer = t.buffer ++ entry_bytes name value;
  num_elements = t.num_elements + 1;
}

unfoldable pub insert : {E : Type 0} → List ℕ → List ℕ → M DynamicTable E (Unit {0})
insert name value t =
    (make_room (length t.buffer + 1) (length name + length value + 32) >>= λ fits t.
    (ok tt, if fits then add_entry name value t else t))
      t

-- `for _ in 0..index { offset -= self.get_size(offset - 8) }`
unfoldable pub walk_back : {E : Type 0} → ℕ → ℕ → M DynamicTable E ℕ
walk_back zero offset = return offset
walk_back (suc index) offset = do size ← get_size (offset - 8); walk_back index (offset - size)

-- The name and the value of the entry that ends at `offset`.
unfoldable pub read_entry : {E : Type 0} → ℕ → M DynamicTable E (Option (List ℕ × List ℕ))
read_entry offset = do
  size ← get_size (offset - 8)
  name_size ← get_size (offset - size + 8)
  value_size ← get_size (offset - size + 16)
  name ← range (offset - size + 24) name_size
  value ← range (offset - size + 24 + name_size) value_size
  return (some (name, value))

-- `get`
unfoldable pub get_entry : {E : Type 0} → ℕ → M DynamicTable E (Option (List ℕ × List ℕ))
get_entry index t =
    if leb t.num_elements index
    then (ok none, t)
    else ((walk_back index (length t.buffer) >>= read_entry) t)
