-- ===== src/Foreign/Preface/Handshake.antt =====
-- The handshake with a client that sends what it should, and with any other.
use proxy_rs.Prelude.{
  ℕ, ◌-◌, ◌≤◌, ◌≡◌, ◌∙◌, ◌⊎◌, inl, inr, refl, true, some, codes, [], ◌∷◌, List, ◌++◌, ◌==◌, length,
  take, leb, arith, Bool-cases, le→leb, bytes_eq, bytes_eq_refl, bytes_eq→eq, append_assoc,
}
use proxy_rs.Buffer.Lifetime.{IsValid-is_sane}
use proxy_rs.Io.{ok, Source, Sink, IoError, read_exact, write_all, ◌>>=◌}
use proxy_rs.Io.Laws.{read_exact-append, bind_outcome-ok}
use proxy_rs.Http2.Settings.{Settings}
use proxy_rs.Http2.Frame.{FrameHeader, read_header}
use proxy_rs.Http2.Frame.Wire.{holding}
use proxy_rs.Http2.Frame.RoundTrip.{empty_sink}
use proxy_rs.Http2.Frame.RoundTrip.Fixed.{length-settings}
use proxy_rs.Http2.Frame.SettingsFrame
use proxy_rs.Http2.Frame.SettingsFrame.{SettingsFrame, ack, settings, type_num}
use proxy_rs.Http2.Frame.SettingsFrame.Wire.{wire_frame, write_frame-wire}
use proxy_rs.Http2.Hpack.Tables.{new_table}
use proxy_rs.Foreign.{to, HttpResult, Called, set_err}
use proxy_rs.Foreign.Reports.{IsReady, Tells, Fails, set_ok-Tells, set_err-Fails}
use proxy_rs.Foreign.Preface.{
  client_preface, Context, as_settings, read_client, write_server, connect,
  http_http2_start_connection,
}

-- A frame that was read as one of settings has their number.
settings_type :
    (header : FrameHeader) (s s' : Source) (f : SettingsFrame)
    → SettingsFrame.read_frame header s ≡ (ok f, s')
    → (header.frame_type == type_num) ≡ true
unfolding SettingsFrame.read_frame
settings_type header s s' f h = elim (Bool-cases (header.frame_type == type_num)) [
  | inl e ↦ e
  | inr e ↦ cc (rw e at h)
]

-- What the client sends, read in its steps.
read_client-framed :
    (local : Settings) (f : SettingsFrame) (bytes rest : List ℕ) (e : IoError) (w : Sink)
    → (read_header local >>= SettingsFrame.read_frame) (holding bytes e) ≡ (ok f, holding rest e)
    → read_client local (holding (client_preface ++ bytes) e, w) ≡ as_settings f (holding rest e, w)
unfolding read_client
read_client-framed local f bytes rest e w h =
    let (header, (head, body)) =
      bind_outcome-ok (read_header local (holding bytes e)) SettingsFrame.read_frame f
        (holding rest e) h in
    rw
      (
        read_exact-append 24 client_preface bytes e refl,
        bytes_eq_refl client_preface,
        head,
        settings_type header _ _ f body,
        body,
      )
      refl

write_all-fits :
    (d : List ℕ) (w : Sink)
    → length d ≤ w.room
    → write_all d w ≡ (ok tt, record w { written = w.written ++ d; room = w.room - length d })
unfolding write_all
write_all-fits d w h = rw (le→leb (length d) w.room h) refl

write_frame-fits :
    (f : SettingsFrame) (w : Sink)
    → 45 ≤ w.room
    → (n : ℕ) × (SettingsFrame.write_frame f w ≡ (
      ok n,
      record w { written = w.written ++ wire_frame f; room = w.room - length (wire_frame f) },
    ))
write_frame-fits f w h = (
  length (wire_frame f),
  write_frame-wire f w ∙ rw (write_all-fits (wire_frame f) w (length-settings f w.room h)) refl,
)

abbrev answer : Settings → List ℕ
answer local = wire_frame ack ++ wire_frame (settings local)

write_server-answer :
    (local : Settings) (s : Source) (w : Sink)
    → 90 ≤ w.room
    → (n : ℕ) × ((w' : Sink) × ((write_server local (s, w) ≡ (ok n, (s, w')))
          × (w'.written ≡ w.written ++ answer local)))
unfolding write_server
write_server-answer local s w h =
    let (a, first) = write_frame-fits ack w (omega arith) in
    let w1 = record w {
      written = w.written ++ wire_frame ack;
      room = w.room - length (wire_frame ack);
    } in
    let (b, second) =
      write_frame-fits (settings local) w1 (omega (arith, length-settings ack 45 (omega arith))) in
    (
      b,
      (
        record w1 {
          written = w1.written ++ wire_frame (settings local);
          room = w1.room - length (wire_frame (settings local));
        },
        (
          rw (first, second) refl,
          append_assoc w.written (wire_frame ack) (wire_frame (settings local)),
        ),
      ),
    )

abbrev got_ack : List ℕ
got_ack = codes "Failed to read client settings: Got ACK"

-- How the start of a connection ends by the frame that the client sent: with its settings, a context and
-- an answer; with an acknowledgement, a message and no answer. Both leave what follows the frame.
abbrev pub Starts :
    Settings → ℕ → Source → Context → SettingsFrame → Called Context (Source × Sink) → Type 0
Starts local room behind old (settings client) a =
    (r : HttpResult Context) × ((w : Sink) × ((a ≡ some (r, (behind, w)))
        × (Tells r (record { settings = client; header_table = new_table local.table_size.value })
            × (w.written ≡ wire_frame ack ++ wire_frame (settings local)))))
Starts local room behind old ack a =
    (r : HttpResult Context) × ((a ≡ some (r, (behind, empty_sink room))) × Fails r old got_ack)

-- How `http_http2_start_connection` ends with a client that sends the preface and then bytes that `read_header`,
-- by the settings of the server, and `read_frame` take for a SETTINGS frame, and with a writer with room
-- for 90 bytes: if the frame holds settings, it succeeds: the context holds them and an empty header
-- table of the size that the server's settings give, and what was sent is an acknowledgement and then the
-- settings of the server. If the frame is an acknowledgement, it fails with a message that says so, and
-- nothing was sent. What follows the frame is left to be read.
pub start_connection-Starts :
    (local : Settings) (f : SettingsFrame) (bytes rest : List ℕ) (e : IoError) (room : ℕ)
    (old : Context) (r : HttpResult Context)
    → IsReady r old
    → (read_header local >>= SettingsFrame.read_frame) (holding bytes e) ≡ (ok f, holding rest e)
    → 90 ≤ room
    → Starts local room (holding rest e) old f (
        http_http2_start_connection
          (to (holding (client_preface ++ bytes) e))
          (to (empty_sink room))
          local
          (to r))
unfolding http_http2_start_connection connect
start_connection-Starts local (settings client) bytes rest e room old r ready h hr =
    let (n, (w, (sent, answered))) =
      write_server-answer local (holding rest e) (empty_sink room) hr in
    let (r', (told, t)) =
      set_ok-Tells (record { settings = client; header_table = new_table local.table_size.value })
        old r ready in
    (
      r',
      (
        w,
        (
          rw
              (
                IsValid-is_sane r.err ready.buffer,
                read_client-framed local (settings client) bytes rest e (empty_sink room) h,
                sent,
                told,
              )
              refl,
          (t, answered),
        ),
      ),
    )
start_connection-Starts local ack bytes rest e room old r ready h hr = (
  set_err (got_ack ∷ []) r,
  (
    rw
        (
          IsValid-is_sane r.err ready.buffer,
          read_client-framed local ack bytes rest e (empty_sink room) h,
        )
        refl,
    set_err-Fails (got_ack ∷ []) old r ready (omega arith),
  ),
)

-- The handshake sends nothing, whatever else happens, unless the first 24 bytes of the client are the
-- preface.
pub connect-silent :
    (local : Settings) (s : Source) (w : Sink)
    → ((connect local (s, w)).1.1 ≡ w) ⊎ (take 24 s.pending ≡ client_preface)
unfolding connect read_client read_exact
connect-silent local s w = elim (Bool-cases (leb 24 (length s.pending))) [
  | inr short ↦ inl (rw short refl)
  | inl long ↦ elim (Bool-cases (bytes_eq (take 24 s.pending) client_preface)) [
    | inr differs ↦ inl (rw (long, differs) refl)
    | inl same ↦ inr (bytes_eq→eq _ _ same)
  ]
]
