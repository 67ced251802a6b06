-- ===== src/Tests/Callbacks.antt =====
-- Runs of readers and writers behind callbacks, and of the headers of a request.
use proxy_rs.Prelude.{
  ℕ, ◌≡◌, refl, some, List, [], ◌∷◌, length, length-replicate, arith, get_elem?, codes, take,
  bytes_eq,
}
use proxy_rs.Buffer.{Buffer}
use proxy_rs.Io.{Source, Sink, unexpected_eof, write_zero, read_exact, ◌>>◌, return, write_all}
use proxy_rs.Http2.Error.{show_io_error}
use proxy_rs.Http2.Frame.Wire.{holding}
use proxy_rs.Foreign.{to}
use proxy_rs.Foreign.Bytes.{ConstBuffer, const_slice, const_is_sane}
use proxy_rs.Bio.{
  reader_read, writer_write, callback_of_read, callback_of_write, ReadsFrom, WritesTo,
  http_new_empty_reader,
}
use proxy_rs.Bio.Laws.{through_read, through_write, callbacks_through}
use proxy_rs.Request.{Request, http_get_header, http_get_header_count}
use proxy_rs.Request.Lookup.{Pair, headers_of, matching, Gets, get_header-Gets}
use proxy_rs.Tests.{behind, message, zeroed, small_buffer, small_buffer-IsValid}

abbrev write_whole : WritesTo Sink
write_whole bytes = write_all bytes >> return (length bytes)

abbrev ends : Source × Sink
ends = (holding behind unexpected_eof, record { written = []; room = 4; failure = write_zero })

-- A reader and a writer over the same state.
abbrev read_end : ReadsFrom (Source × Sink)
read_end n (s, w) = let (r, s') = read_exact n s in (r, (s', w))

abbrev write_end : WritesTo (Source × Sink)
write_end bytes (s, w) = let (r, w') = write_whole bytes w in (r, (s, w'))

callbacks_example :
    (reader_read zeroed (λ t. t) (callback_of_read read_end) 9 ends
      ≡ through_read (λ t. t) ends (read_end 9 ends))
    × (writer_write zeroed (λ t. t) (callback_of_write write_end) message ends
        ≡ through_write (λ t. t) ends (write_end message ends))
unfolding read_exact write_all show_io_error
callbacks_example =
    callbacks_through zeroed (λ t. t) read_end write_end 9 message ends
      (λ k. length-replicate {0} {A = ℕ} k 0) (omega arith) tt

abbrev pairs : List Pair
pairs = (codes "accept", message) ∷ (codes "host", behind) ∷ (codes "accept", behind) ∷ []

abbrev asked : Request Source
asked = record {
  method = codes "GET";
  path = codes "/";
  host = behind;
  version = (1, 1);
  headers = [];
  body = http_new_empty_reader (holding [] unexpected_eof);
}

abbrev accept : ConstBuffer
accept = record { len = 6; memory = some (codes "accept"); addr = 0 }

get_header_example :
    (http_get_header_count (to (record asked { headers = headers_of pairs })) accept
      ≡ some (length (matching (const_slice accept) pairs)))
    × ((res : ℕ × Buffer) × ((http_get_header
              (to (record asked { headers = headers_of pairs }))
              accept
              1
              (to small_buffer)
            ≡ some res)
          × Gets res small_buffer
              (matching (const_slice accept) pairs)
              (get_elem? (matching (const_slice accept) pairs) 1)))
unfolding const_is_sane take bytes_eq
get_header_example =
    get_header-Gets asked pairs accept 1 small_buffer refl small_buffer-IsValid (omega arith)
