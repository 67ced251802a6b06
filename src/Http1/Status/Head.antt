-- ===== src/Http1/Status/Head.antt =====
-- `http11_write_status` with a writer that takes what it is given, and with any other.
use proxy_rs.Prelude.{
  ℕ, ◌+◌, ◌≤◌, ◌<◌, ◌≡◌, ◌∙◌, refl, sym, ap, none, List, [], ◌++◌, length, arith, append-nil,
  append_assoc, length-append, codes, some, lt→ltb,
}
use proxy_rs.Buffer.Lifetime.{IsValid-is_sane}
use proxy_rs.Io.{Outcome, ok, err, panic, IoError}
use proxy_rs.Foreign.{HttpResult}
use proxy_rs.Foreign.Reports.{IsReady, Tells, set_ok-Tells}
use proxy_rs.Bio.{WritesTo, writer_write}
use proxy_rs.Request.{HeaderMap}
use proxy_rs.Response.{ResponseWriter, Answer}
use proxy_rs.Response.Reason.{get_reason_phrase}
use proxy_rs.Http1.BufWriter.{BufWriter, capacity, buf_write_all, dropped}
use proxy_rs.Http1.BufWriter.Flow.{Taking, Flows, flown, buf_write_all-Flows, dropped-flown}
use proxy_rs.Http1.Status.{show_code, crlf, http11_write_status}
use proxy_rs.Http1.Status.Sent.{
  AreShown, head, header_lines, status_line, head_count, Carrier, write_head-adds,
}

head_len :
    (code : ℕ) (headers : HeaderMap)
    → length (head code headers) + 3 ≡ head_count code headers + 2 + length (show_code code)
head_len code headers =
    let phrase = get_reason_phrase code in
    omega (
      arith,
      length-append (status_line code) (header_lines headers ++ crlf),
      length-append (header_lines headers) crlf,
      length-append (codes "HTTP/1.1 ") (show_code code ++ (codes " " ++ (phrase ++ crlf))),
      length-append (show_code code) (codes " " ++ (phrase ++ crlf)),
      length-append (codes " ") (phrase ++ crlf),
      length-append phrase crlf,
    )

-- Whatever the writer does, what is shorter than the buffer only waits in it.
abbrev Waits : {W : Type 0} → BufWriter W → BufWriter W → List ℕ → Type 0
Waits b b' d = b' ≡ record b { buffered = b.buffered ++ d }

module _ {W : Type 0} {write : WritesTo W} where
  -- With a writer that takes what it has room for, everything goes out in order.
  flowing : {took : W → List ℕ} {room : W → ℕ} → Taking write took room → Carrier write
  flowing {took} {room} taking = record {
    Adds = Flows taking;
    Fits = λ b n. length b.buffered + n ≤ room b.inner;
    one = buf_write_all-Flows taking;
    nothing = λ b. record { out = sym (append-nil _); left = omega arith };
    append = λ b m b' d d' f g. record {
      out = g.out ∙ ap (λ t. t ++ d') f.out ∙ append_assoc (flown taking b) d d';
      left = omega (arith, f.left, g.left, length-append d d');
    };
    first = λ b d d' h. omega (arith, length-append d d');
    then = λ b m d d' f h. omega (arith, f.left, length-append d d');
  }

  waiting : Carrier write
  unfolding buf_write_all
  waiting = record {
    Adds = Waits;
    Fits = λ b n. length b.buffered + n < capacity;
    one = λ d b h. (
      record b { buffered = b.buffered ++ d },
      (rw (lt→ltb (length b.buffered + length d) capacity h) refl, refl),
    );
    nothing = λ b. ap (λ t. record b { buffered = t }) (sym (append-nil b.buffered));
    append = λ b m b' d d' f g.
        g ∙ rw f (ap (λ t. record b { buffered = t }) (append_assoc b.buffered d d'));
    first = λ b d d' h. omega (arith, length-append d d');
    then = λ b m d d' f h. rw f (omega (arith, length-append b.buffered d, length-append d d'));
  }

-- Where the writer takes whatever it has room for, and has room for the head, `http11_write_status`
-- succeeds, and the writer has taken the head of the response: the status line, the lines of the
-- headers, whose names and values are shown as they are, and an empty line. The count that it reports
-- takes the code for three digits and leaves out the end of the status line, so that the length of
-- the head and 3 is the count, 2 and the digits of the code.
pub http11_write_status-head :
    {R : Type 0} (shown : List ℕ → List ℕ) (alloc : ℕ → List ℕ) (took : R → List ℕ) (room : R → ℕ)
    (w : ResponseWriter R) (code old : ℕ) (r : HttpResult ℕ)
    → Taking (writer_write alloc shown w.writer.write) took room
    → IsReady r old
    → AreShown shown w.headers
    → length (head code w.headers) ≤ room w.writer.content
    → (r' : HttpResult ℕ) × ((w' : ResponseWriter R) × ((n : ℕ) × ((http11_write_status shown alloc
                w code r
              ≡ some (r', w'))
            × (Tells r' n
                × ((took w'.writer.content ≡ took w.writer.content ++ head code w.headers)
                    × (length (head code w.headers) + 3 ≡ n + 2 + length (show_code code)))))))
unfolding http11_write_status flowing
http11_write_status-head {R} shown alloc took room w code old r taking ready hs h =
    let write = writer_write alloc shown w.writer.write in
    let start : BufWriter R = record { buffered = []; inner = w.writer.content } in
    let count = head_count code w.headers in
    let (b, (run, f)) =
      write_head-adds (flowing taking) shown code w.headers start hs (omega arith) in
    let (content, (sent, out)) = dropped-flown taking (ok count) b (omega (arith, f.left)) in
    let (r', (e, t)) = set_ok-Tells count old r ready in
    (
      r',
      (
        record w { writer = record w.writer { content = content } },
        (
          count,
          (
            rw (IsValid-is_sane r.err ready.buffer, ap (dropped write) run ∙ sent, e) refl,
            (
              t,
              (
                out
                    ∙ f.out
                    ∙ ap (λ x. x ++ head code w.headers) (append-nil (took w.writer.content)),
                head_len code w.headers,
              ),
            ),
          ),
        ),
      ),
    )

-- What is reported for a flush that ends so: nothing where it aborts, and success otherwise, with the
-- writer as the flush leaves it.
abbrev pub Reported :
    {R : Type 0} → Answer (ResponseWriter R) → ℕ → Outcome IoError (Unit {0}) × BufWriter R → Type 0
Reported {R} a n (ok u, b) =
    (r : HttpResult ℕ) × ((w : ResponseWriter R) × ((a ≡ some (r, w))
        × (Tells r n × (w.writer.content ≡ b.inner))))
Reported {R} a n (err e, b) =
    (r : HttpResult ℕ) × ((w : ResponseWriter R) × ((a ≡ some (r, w))
        × (Tells r n × (w.writer.content ≡ b.inner))))
Reported a n (panic, b) = a ≡ none
