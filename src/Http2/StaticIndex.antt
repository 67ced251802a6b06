-- ===== src/Http2/StaticIndex.antt =====
-- `get_static_header_index` of http/src/http2/context.rs: the index of a header in the static table, by
-- a hash of its name. An index that is out of range panics.
pub mod Correct
use proxy_rs.Prelude.{
  ℕ, zero, suc, ◌+◌, ◌%◌, Bool, true, false, ◌&&◌, ◌||◌, Option, none, some, List, [], ◌∷◌, length,
  get_elem?, drop, ltb, ◌==◌, if◌then◌else◌, codes, bytes_eq,
}
use proxy_rs.Io.{Outcome, ok, err, panic}
use proxy_rs.Http2.SipHash.{SipHash, init, add, digest}
use proxy_rs.Http2.Hpack.Tables.Static.{StaticEntry, static_table}

-- `HEADER_MAP`
abbrev pub header_map : List (List ℕ × ℕ)
header_map =
    (codes "allow", 21)
    ∷ (codes "content-range", 29)
    ∷ (codes "authorization", 22)
    ∷ (codes "cache-control", 23)
    ∷ (codes "etag", 33)
    ∷ (codes "date", 32)
    ∷ (codes "range", 49)
    ∷ (codes "www-authenticate", 60)
    ∷ (codes "host", 37)
    ∷ (codes "from", 36)
    ∷ (codes "accept-ranges", 17)
    ∷ (codes "proxy-authenticate", 47)
    ∷ (codes "content-language", 26)
    ∷ (codes "if-match", 38)
    ∷ (codes "if-none-match", 40)
    ∷ (codes "proxy-authorization", 48)
    ∷ (codes "cookie", 31)
    ∷ (codes "accept-language", 16)
    ∷ (codes "expires", 35)
    ∷ (codes "via", 59)
    ∷ (codes "content-length", 27)
    ∷ (codes "content-disposition", 24)
    ∷ (codes "if-unmodified-since", 42)
    ∷ (codes "server", 53)
    ∷ (codes "vary", 58)
    ∷ (codes "strict-transport-security", 55)
    ∷ (codes "accept-charset", 14)
    ∷ (codes "age", 20)
    ∷ (codes ":status", 7)
    ∷ (codes "link", 44)
    ∷ (codes "location", 45)
    ∷ (codes "user-agent", 57)
    ∷ (codes "referer", 50)
    ∷ (codes "if-modified-since", 39)
    ∷ (codes "refresh", 51)
    ∷ (codes "content-encoding", 25)
    ∷ (codes "retry-after", 52)
    ∷ (codes "content-location", 28)
    ∷ (codes "transfer-encoding", 56)
    ∷ (codes "accept-encoding", 15)
    ∷ (codes "access-control-allow-origin", 19)
    ∷ (codes "expect", 34)
    ∷ (codes "if-range", 41)
    ∷ (codes "last-modified", 43)
    ∷ (codes "content-type", 30)
    ∷ (codes "set-cookie", 54)
    ∷ (codes "accept", 18)
    ∷ (codes "max-forwards", 46)
    ∷ []

-- `HEADER_MAP_0x87 ∷ 0xf1 ∷ 0x5a ∷ 0x17 ∷ 0x7a ∷ 0x48 ∷ 0x42 ∷ 0x45 ∷ 0x51 ∷ 0x18 ∷ 0x8f ∷ 0x69 ∷ 0xdc ∷ 0xbf ∷ 0x9a ∷ 0x82`
abbrev pub header_map_key : List ℕ
header_map_key =
    0x87 ∷ 0xf1 ∷ 0x5a ∷ 0x17 ∷ 0x7a ∷ 0x48 ∷ 0x42 ∷ 0x45 ∷ 0x51 ∷ 0x18 ∷ 0x8f ∷ 0x69 ∷ 0xdc ∷ 0xbf
    ∷ 0x9a ∷ 0x82 ∷ []

-- The place where the search starts, and the hash state after it.
unfoldable pub hash_of : SipHash → List ℕ → ℕ × SipHash
unfolding init add digest
hash_of h header =
    let started = add 2 4 (length header % 256 ∷ []) (init h header_map_key) in
    let (hash, h') = digest 2 4 (add 2 4 header started) in (hash % 48, h')

-- The first bytes, as many as both have, and five at most.
abbrev pub same_start : ℕ → List ℕ → List ℕ → Bool
same_start zero xs ys = true
same_start (suc n) [] ys = true
same_start (suc n) (x ∷ xs) [] = true
same_start (suc n) (x ∷ xs) (y ∷ ys) = x == y && same_start n xs ys

abbrev pub Found : Type 0
Found = Outcome (Unit {0}) (Option ℕ)

abbrev pub check_entry : Found → List ℕ → ℕ → Option (List ℕ × ℕ) → Found
check_entry next header index none = panic
check_entry next header index (some (name, _)) =
    if same_start 5 header name
    then (if bytes_eq name header then ok (some index) else ok none)
    else next

-- `find_index` from where the hash says; `MAX_PROBE` is 3.
unfoldable pub probe : ℕ → ℕ → ℕ → List ℕ → Found
unfolding bytes_eq
probe zero i start header = ok none
probe (suc more) i start header =
    let index = (start + i) % 48 in
    check_entry (probe more (suc i) start header) header index (get_elem? header_map index)

abbrev pub has_value : Option (List ℕ) → List ℕ → Bool
has_value none value = false
has_value (some v) value = bytes_eq v value

-- The entries of this name, one after another.
abbrev pub scan : List ℕ → List ℕ → ℕ → ℕ → List StaticEntry → Found
scan name value first test [] = panic
scan name value first test (e ∷ rest) =
    let next = scan name value first (suc test) rest in
    if bytes_eq e.name name
    then (if has_value e.value value then ok (some (suc test)) else next)
    else ok (some (suc first))

abbrev pub from_entry : List ℕ → List ℕ → ℕ → Option (List ℕ) → Found
from_entry name value index none = ok (some (suc index))
from_entry name value index (some v) = scan name value index index (drop index static_table)

abbrev pub at_entry : List ℕ → List ℕ → ℕ → Option StaticEntry → Found
at_entry name value index none = panic
at_entry name value index (some e) = from_entry name value index e.value

abbrev pub at_place : List ℕ → List ℕ → Option (List ℕ × ℕ) → Found
at_place name value none = panic
at_place name value (some (_, index)) = at_entry name value index (get_elem? static_table index)

abbrev pub with_place : List ℕ → List ℕ → Found → Found
with_place name value (ok none) = ok none
with_place name value (ok (some place)) = at_place name value (get_elem? header_map place)
with_place name value (err e) = err e
with_place name value panic = panic

-- `MAX_HEADER_LENGTH` is 27. The hash state goes with the index, which counts from 1.
unfoldable pub get_static_header_index : SipHash → List ℕ → List ℕ → Found × SipHash
unfolding hash_of probe static_table drop
get_static_header_index h name value =
    if length name == 0 || ltb 27 (length name)
    then (ok none, h)
    else (let (start, h') = hash_of h name in (with_place name value (probe 3 0 start name), h'))
