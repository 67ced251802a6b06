-- ===== src/Tests/Index.antt =====
-- Runs of the hash and of the index of static headers.
use proxy_rs.Prelude.{◌≡◌, refl, some, List, [], ◌∷◌, ◌++◌, ℕ, codes, take, drop, bytes_eq}
use proxy_rs.Io.{ok}
use proxy_rs.Http2.SipHash.{init, add, digest}
use proxy_rs.Http2.Hpack.Tables.Static.{static_table}
use proxy_rs.Http2.StaticIndex.{get_static_header_index}
use proxy_rs.Http2.StaticIndex.Correct.Names.{no_hash}
use proxy_rs.Http2.StaticIndex.Correct.Index.{static_index-best}

abbrev counting : List ℕ
counting = 0 ∷ 1 ∷ 2 ∷ 3 ∷ 4 ∷ 5 ∷ 6 ∷ 7 ∷ 8 ∷ 9 ∷ 10 ∷ 11 ∷ 12 ∷ 13 ∷ 14 ∷ []

-- The example of the paper that defines SipHash-2-4, in one piece and in three.
sip_whole :
    (digest 2 4 (add 2 4 counting (init no_hash (counting ++ (15 ∷ []))))).0 ≡ 0xa129ca6149be45e5
unfolding init add digest
sip_whole = refl

sip_pieces :
    (digest 2 4 (
      add 2 4 (drop 12 counting) (
        add 2 4
          (take 9 (drop 3 counting))
          (add 2 4 (take 3 counting) (init no_hash (counting ++ (15 ∷ []))))))).0
    ≡ 0xa129ca6149be45e5
unfolding init add digest take drop
sip_pieces = refl

static_index_example :
    (get_static_header_index no_hash (codes ":status") (codes "404")).0 ≡ ok (some 13)
unfolding static_table bytes_eq
static_index_example = static_index-best no_hash (codes ":status") (codes "404")
