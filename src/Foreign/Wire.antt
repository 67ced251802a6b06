-- ===== src/Foreign/Wire.antt =====
-- The exported functions as a caller composes them: frames read with their outcome reported, and
-- frames written and read back.
use proxy_rs.Prelude.{ℕ, ◌-◌, ◌≤◌, ◌≡◌, refl, sym, subst, true, some, List, ◌++◌, length, le→leb}
use proxy_rs.Buffer.{IsValid, is_sane}
use proxy_rs.Buffer.Lifetime.{IsValid-is_sane}
use proxy_rs.Io.{
  M, ok, Source, Sink, IoError, IoProtoError, no_error, write_zero, write_all, ◌>>◌, return,
}
use proxy_rs.Io.Laws.{bind_outcome-ok}
use proxy_rs.Http2.Settings.{Settings}
use proxy_rs.Http2.Frame.{FrameHeader, read_header}
use proxy_rs.Http2.Frame.Wire.{holding}
use proxy_rs.Http2.Frame.RoundTrip.{empty_sink}
use proxy_rs.Http2.Frame.Data
use proxy_rs.Http2.Frame.Data.{DataFrame}
use proxy_rs.Http2.Frame.Continuation
use proxy_rs.Http2.Frame.Continuation.{ContinuationFrame}
use proxy_rs.Http2.Frame.SettingsFrame
use proxy_rs.Http2.Frame.SettingsFrame.{SettingsFrame}
use proxy_rs.Http2.Frame.SettingsFrame.Wire
use proxy_rs.Http2.Frame.SettingsFrame.RoundTrip
use proxy_rs.Http2.Frame.SettingsFrame.RoundTrip.{IsFramable}
use proxy_rs.Http2.Frame.RoundTrip.Fixed.{length-settings}
use proxy_rs.Foreign.{to, HttpResult, io_pieces, call_writer, call_reader}
use proxy_rs.Foreign.Reports.{
  IsReady, Tells, Answers, Fills, IsShort, set_ok-Tells, call_reader-Answers, call_filler-Fills,
}
use proxy_rs.Foreign.Frames.{
  http_frame_read_header, http_data_read_frame, http_continuation_read_frame,
  http_settings_read_frame, http_settings_write_frame,
}

-- The exported readers of SETTINGS, DATA and CONTINUATION frames answer as `read_frame` does, where
-- the pointers are sane, the buffers valid and a message of up to 2 ^ 63 bytes: on success they
-- return no error, and the result is ok and holds the frame; on an error they return its code, and
-- the result is not ok and its message is the text of the error. A panic of `read_frame` aborts.
pub readers-Answers :
    (s : Source) (header : FrameHeader) (old : SettingsFrame) (d : DataFrame)
    (c : ContinuationFrame) (rs : HttpResult SettingsFrame) (rd : HttpResult DataFrame)
    (rc : HttpResult ContinuationFrame)
    → IsReady rs old
    → IsReady rd d
    → IsReady rc c
    → IsValid c.payload
    → IsShort (SettingsFrame.read_frame header s).0
    → IsShort (Data.read_frame header (d, s)).0
    → IsShort (Continuation.read_frame header (c, s)).0
    → Answers
        (http_settings_read_frame (to s) header (to rs))
        old
        (SettingsFrame.read_frame header s)
      × (Fills (http_data_read_frame (to s) header (to rd)) rd (Data.read_frame header (d, s))
          × Fills
              (http_continuation_read_frame (to s) header (to rc))
              rc
              (Continuation.read_frame header (c, s)))
unfolding http_settings_read_frame http_data_read_frame http_continuation_read_frame
readers-Answers s header old d c rs rd rc hs hd hc v ms md mc = (
  call_reader-Answers (SettingsFrame.read_frame header) s old rs hs ms,
  (
    call_filler-Fills (Data.read_frame header) (λ f. true) s d rd hd refl md,
    call_filler-Fills (Continuation.read_frame header) (λ f. is_sane f.payload) s c rc hc
        (IsValid-is_sane c.payload v) mc,
  ),
)

module _ {A : Type 0} (r : HttpResult A) (old : A) (ready : IsReady r old) where
  reader-Tells :
      (m : M Source IoProtoError A) (s s' : Source) (a : A)
      → m s ≡ (ok a, s')
      → (r' : HttpResult A) × ((call_reader (to s) m (to r) ≡ some (no_error, (r', s')))
          × Tells r' a)
  unfolding call_reader
  reader-Tells m s s' a h =
      let (r', (e, t)) = set_ok-Tells a old r ready in
      (r', (rw (IsValid-is_sane r.err ready.buffer, h, e) refl, t))

writer-Tells :
    (r : HttpResult ℕ) (old : ℕ)
    → IsReady r old
    → (m : M Sink IoError ℕ) (room : ℕ) (bytes : List ℕ) (n : ℕ)
    → m (empty_sink room) ≡ (write_all bytes >> return n) (empty_sink room)
    → length bytes ≤ room
    → (r' : HttpResult ℕ) × ((w : Sink) × ((call_writer io_pieces
              (to (empty_sink room))
              true
              m
              (to r)
            ≡ some (r', w))
          × (Tells r' n × (w.written ≡ bytes))))
unfolding call_writer write_all
writer-Tells r old ready m room bytes n h fits =
    let (r', (e, t)) = set_ok-Tells n old r ready in
    (
      r',
      (
        record { written = bytes; room = room - length bytes; failure = write_zero },
        (
          rw (IsValid-is_sane r.err ready.buffer, h, le→leb (length bytes) room fits, e) refl,
          (t, refl),
        ),
      ),
    )

-- A SETTINGS frame that `http_settings_write_frame` puts into a writer with room for 45 bytes comes
-- back from `http_frame_read_header` and `http_settings_read_frame`, whatever follows it, with a
-- context whose settings take frames of 36 bytes: each call finds its pointers sane and returns no
-- error, each result is ok with an empty message, and holds the number of bytes written, the header and
-- the frame. The frame is an acknowledgement, or settings that `set_value` made from the defaults with
-- `u32` values and that have a push flag of 0 or 1, a window below 2 ^ 31 and a frame size from 2 ^ 14
-- to 2 ^ 24 - 1.
pub settings_exported_round_trip :
    (local : Settings) (f old : SettingsFrame) (h : FrameHeader) (n room : ℕ) (rest : List ℕ)
    (e : IoError) (out : HttpResult ℕ) (rh : HttpResult FrameHeader) (rf : HttpResult SettingsFrame)
    → IsReady out n
    → IsReady rh h
    → IsReady rf old
    → IsFramable f
    → 36 ≤ local.frame_size.value
    → 45 ≤ room
    → (w : Sink) × ((s : Source) × ((header : FrameHeader) × ((written : HttpResult ℕ)
            × ((headed : HttpResult FrameHeader) × ((framed : HttpResult SettingsFrame)
                  × ((http_settings_write_frame (to (empty_sink room)) f (to out)
                        ≡ some (written, w))
                      × (Tells written (length w.written)
                          × ((http_frame_read_header
                                  (to local)
                                  (to (holding (w.written ++ rest) e))
                                  (to rh)
                                ≡ some (no_error, (headed, s)))
                              × (Tells headed header
                                  × ((http_settings_read_frame (to s) header (to rf)
                                        ≡ some (no_error, (framed, holding rest e)))
                                      × Tells framed f))))))))))
unfolding http_settings_write_frame http_frame_read_header http_settings_read_frame
settings_exported_round_trip local f old h n room rest e out rh rf hw hh hf framable hs hr =
    let (written, (w, (wrote, (tw, bytes)))) =
      writer-Tells out n hw (SettingsFrame.write_frame f) room (SettingsFrame.Wire.wire_frame f) _
        (SettingsFrame.Wire.write_frame-wire f (empty_sink room)) (length-settings f room hr) in
    let count = subst (λ d. Tells written (length d)) (sym bytes) tw in
    let (header, (head, body)) =
      bind_outcome-ok (read_header local (holding (w.written ++ rest) e)) SettingsFrame.read_frame f
        (holding rest e)
        (rw bytes (SettingsFrame.RoundTrip.read_frame-wire local f rest e framable hs)) in
    let (headed, (eh, th)) = reader-Tells rh h hh (read_header local) _ _ header head in
    let (framed, (ef, tf)) =
      reader-Tells rf old hf (SettingsFrame.read_frame header) _ (holding rest e) f body in
    (w, (_, (header, (written, (headed, (framed, (wrote, (count, (eh, (th, (ef, tf)))))))))))
