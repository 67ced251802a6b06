-- ===== src/Http2/Hpack/Tables/Static.antt =====
-- `StaticEntry` and `STATIC_TABLE` of http/src/http2/hpack/tables.rs.
use proxy_rs.Prelude.{Option, none, some, List, [], ◌∷◌, ℕ, codes}

pub record StaticEntry : Type 0 where
  pub name : List ℕ
  pub value : Option (List ℕ)

-- `StaticEntry::new`
abbrev pub new_entry : List ℕ → Option (List ℕ) → StaticEntry
new_entry name value = record { name = name; value = value }

unfoldable pub static_table : List StaticEntry
static_table =
    new_entry (codes ":authority") none
    ∷ new_entry (codes ":method") (some (codes "GET"))
    ∷ new_entry (codes ":method") (some (codes "POST"))
    ∷ new_entry (codes ":path") (some (codes "/"))
    ∷ new_entry (codes ":path") (some (codes "/index.html"))
    ∷ new_entry (codes ":scheme") (some (codes "http"))
    ∷ new_entry (codes ":scheme") (some (codes "https"))
    ∷ new_entry (codes ":status") (some (codes "200"))
    ∷ new_entry (codes ":status") (some (codes "204"))
    ∷ new_entry (codes ":status") (some (codes "206"))
    ∷ new_entry (codes ":status") (some (codes "304"))
    ∷ new_entry (codes ":status") (some (codes "400"))
    ∷ new_entry (codes ":status") (some (codes "404"))
    ∷ new_entry (codes ":status") (some (codes "500"))
    ∷ new_entry (codes "accept-charset") none
    ∷ new_entry (codes "accept-encoding") (some (codes "gzip, deflate"))
    ∷ new_entry (codes "accept-language") none
    ∷ new_entry (codes "accept-ranges") none
    ∷ new_entry (codes "accept") none
    ∷ new_entry (codes "access-control-allow-origin") none
    ∷ new_entry (codes "age") none
    ∷ new_entry (codes "allow") none
    ∷ new_entry (codes "authorization") none
    ∷ new_entry (codes "cache-control") none
    ∷ new_entry (codes "content-disposition") none
    ∷ new_entry (codes "content-encoding") none
    ∷ new_entry (codes "content-language") none
    ∷ new_entry (codes "content-length") none
    ∷ new_entry (codes "content-location") none
    ∷ new_entry (codes "content-range") none
    ∷ new_entry (codes "content-type") none
    ∷ new_entry (codes "cookie") none
    ∷ new_entry (codes "date") none
    ∷ new_entry (codes "etag") none
    ∷ new_entry (codes "expect") none
    ∷ new_entry (codes "expires") none
    ∷ new_entry (codes "from") none
    ∷ new_entry (codes "host") none
    ∷ new_entry (codes "if-match") none
    ∷ new_entry (codes "if-modified-since") none
    ∷ new_entry (codes "if-none-match") none
    ∷ new_entry (codes "if-range") none
    ∷ new_entry (codes "if-unmodified-since") none
    ∷ new_entry (codes "last-modified") none
    ∷ new_entry (codes "link") none
    ∷ new_entry (codes "location") none
    ∷ new_entry (codes "max-forwards") none
    ∷ new_entry (codes "proxy-authenticate") none
    ∷ new_entry (codes "proxy-authorization") none
    ∷ new_entry (codes "range") none
    ∷ new_entry (codes "referer") none
    ∷ new_entry (codes "refresh") none
    ∷ new_entry (codes "retry-after") none
    ∷ new_entry (codes "server") none
    ∷ new_entry (codes "set-cookie") none
    ∷ new_entry (codes "strict-transport-security") none
    ∷ new_entry (codes "transfer-encoding") none
    ∷ new_entry (codes "user-agent") none
    ∷ new_entry (codes "vary") none
    ∷ new_entry (codes "via") none
    ∷ new_entry (codes "www-authenticate") none
    ∷ []
