-- ===== src/Tests/Responses.antt =====
-- Runs of responses: the calls of a program, and the head that HTTP/1.1 writes.
use proxy_rs.Prelude.{
  ℕ, ◌+◌, ◌-◌, ◌≤◌, ◌≡◌, ◌∙◌, refl, ap, true, false, some, List, [], ◌∷◌, ◌++◌, length,
  length-replicate, arith, codes, le→leb,
}
use proxy_rs.Buffer.{is_sane, new_buffer_with}
use proxy_rs.Io.{ok, Sink, write_zero, ◌>>◌, return, write_all}
use proxy_rs.Foreign.{HttpResult, with_pointer}
use proxy_rs.Foreign.Reports.{Tells}
use proxy_rs.Bio.{WritesTo, WriteFn, callback_of_write, writer_write, http_null_write}
use proxy_rs.Bio.Laws.{IsShort, through_write, callbacks_through}
use proxy_rs.Request.{HeaderMap}
use proxy_rs.Response.{ResponseWriter, StatusFn, BodyFn}
use proxy_rs.Response.Reason.{get_reason_phrase}
use proxy_rs.Response.Once.{Call, status, body, add, remove, call, run, Begun}
use proxy_rs.Response.Once.Started.{run-once}
use proxy_rs.Http1.BufWriter.Flow.{Taking}
use proxy_rs.Http1.Status.{show_code, http11_write_status}
use proxy_rs.Http1.Status.Sent.{AreShown, head}
use proxy_rs.Http1.Status.Head.{http11_write_status-head}
use proxy_rs.Tests.{behind, message, zeroed}
use proxy_rs.Tests.Exported.{fresh, fresh-IsReady}

-- A writer that takes what it has room for, and nothing of what is longer.
abbrev write_whole : WritesTo Sink
write_whole bytes = write_all bytes >> return (length bytes)

abbrev taken : Sink → List ℕ → Sink
taken w d = record { written = w.written ++ d; room = w.room - length d; failure = w.failure }

sink_takes :
    (d : List ℕ) (w : Sink) → length d ≤ w.room → write_whole d w ≡ (ok (length d), taken w d)
unfolding write_all
sink_takes d w h = rw (le→leb (length d) w.room h) refl

abbrev all_shown : List ℕ → List ℕ
all_shown t = t

sink_through :
    (d : List ℕ) (w : Sink)
    → length d ≤ w.room
    → writer_write zeroed all_shown (callback_of_write write_whole) d w ≡ (ok (length d), taken w d)
sink_through d w h =
    let short : IsShort (write_whole d w).0 = rw (sink_takes d w h) tt in
    let told =
      (callbacks_through zeroed all_shown (λ n s. (ok [], s)) write_whole 0 d w
        (λ k. length-replicate {0} {A = ℕ} k 0) tt short).1 in
    told ∙ ap (through_write all_shown w) (sink_takes d w h)

sink_Taking :
    Taking
      (writer_write zeroed all_shown (callback_of_write write_whole))
      (λ w. w.written)
      (λ w. w.room)
sink_Taking = record {
  next = λ w d. taken w d;
  takes = sink_through;
  took-next = λ d w h. refl;
  room-next = λ d w h. refl;
}

abbrev some_headers : HeaderMap
some_headers = (codes "server", message ∷ []) ∷ (codes "accept", message ∷ behind ∷ []) ∷ []

abbrev response_to : {R : Type 0} → R → WriteFn R → ResponseWriter R
response_to s write = record {
  writer = record { content = s; write = write; clear = λ s. s };
  headers = some_headers;
  written = false;
}

shown_headers : AreShown all_shown some_headers
shown_headers = ((refl, (refl, tt)), ((refl, (refl, (refl, tt))), tt))

abbrev pipe : ResponseWriter Sink
pipe =
    response_to (record { written = []; room = 200; failure = write_zero })
      (callback_of_write write_whole)

abbrev closed : ResponseWriter Sink
closed = response_to (record { written = []; room = 0; failure = write_zero }) http_null_write

head_example :
    (r' : HttpResult ℕ) × ((w' : ResponseWriter Sink) × ((n : ℕ) × ((http11_write_status all_shown
              zeroed pipe 200
              (fresh 0)
            ≡ some (r', w'))
          × (Tells r' n
              × ((w'.writer.content.written ≡ head 200 pipe.headers)
                  × (length (head 200 pipe.headers) + 3 ≡ n + 2 + length (show_code 200)))))))
unfolding get_reason_phrase
head_example =
    http11_write_status-head all_shown zeroed (λ w. w.written) (λ w. w.room) pipe 200 0 (fresh 0)
      sink_Taking (fresh-IsReady 0) shown_headers (omega arith)

-- A status function that drops the headers, and a body function that keeps the bytes.
abbrev told_status : StatusFn Sink
told_status w code res = some (res, record w { headers = [] })

abbrev kept_body : BodyFn Sink
kept_body inner bytes res = with_pointer inner (λ w.
    with_pointer bytes
      (λ d. with_pointer res (λ r. some (r, record w { content = taken w.content d }))))

abbrev later : List Call
later = add message behind ∷ (body behind ∷ (status 500 ∷ (remove message ∷ [])))

once_example :
    (run told_status kept_body later (fresh 0, record pipe { headers = []; written = true })
      ≡ run
          (http11_write_status all_shown zeroed)
          kept_body
          later
          (fresh 0, record pipe { headers = []; written = true }))
    × Begun
        (run told_status kept_body later (fresh 0, record pipe { headers = []; written = true }))
unfolding call is_sane new_buffer_with
once_example =
    run-once told_status kept_body (status 200) later (fresh 0) (fresh 0) pipe
      (record pipe { headers = []; written = true }) refl refl refl
      (http11_write_status all_shown zeroed)
