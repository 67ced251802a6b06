-- ===== src/Foreign/Preface.antt =====
-- `http_http2_start_connection` of http/src/http2/mod.rs: the preface of a connection, over a reader
-- and a writer. An error is the pieces of its message. `Context` of http/src/http2/context.rs is
-- without its hash state, which only the index of static headers uses.
pub mod Handshake
use proxy_rs.Prelude.{
  ℕ, Bool, true, false, not, Option, none, some, List, [], ◌∷◌, ◌==◌, if◌then◌else◌, codes,
  bytes_eq,
}
use proxy_rs.Buffer.{is_sane}
use proxy_rs.Io.{
  M, Outcome, ok, err, panic, Source, Sink, IoError, IoProtoError, fail, fail_if, read_exact,
  return, ◌>>=◌, ◌>>◌,
}
use proxy_rs.Http2.Settings.{Settings}
use proxy_rs.Http2.Frame.{read_header}
use proxy_rs.Http2.Frame.SettingsFrame
use proxy_rs.Http2.Frame.SettingsFrame.{SettingsFrame, ack, settings}
use proxy_rs.Http2.Hpack.Tables.{DynamicTable, new_table}
use proxy_rs.Foreign.{
  Pointer, with_pointer, require, HttpResult, Called, report, io_pieces, proto_pieces,
}

-- `PREFACE`
abbrev pub client_preface : List ℕ
client_preface =
    0x50 ∷ 0x52 ∷ 0x49 ∷ 0x20 ∷ 0x2a ∷ 0x20 ∷ 0x48 ∷ 0x54 ∷ 0x54 ∷ 0x50 ∷ 0x2f ∷ 0x32 ∷ 0x2e ∷ 0x30
    ∷ 0x0d ∷ 0x0a ∷ 0x0d ∷ 0x0a ∷ 0x53 ∷ 0x4d ∷ 0x0d ∷ 0x0a ∷ 0x0d ∷ 0x0a ∷ []

pub record Context : Type 0 where
  pub settings : Settings
  pub header_table : DynamicTable

abbrev pub Message : Type 0
Message = List (List ℕ)

-- An error with a text in front.
abbrev pub told : {E A : Type 0} → (E → Message) → List ℕ → Outcome E A → Outcome Message A
told pieces text (ok a) = ok a
told pieces text (err e) = err (text ∷ pieces e)
told pieces text panic = panic

abbrev pub reading :
    {E A : Type 0} → (E → Message) → List ℕ → M Source E A → M (Source × Sink) Message A
reading pieces text m (s, w) = let (r, s') = m s in (told pieces text r, (s', w))

abbrev pub writing :
    {E A : Type 0} → (E → Message) → List ℕ → M Sink E A → M (Source × Sink) Message A
writing pieces text m (s, w) = let (r, w') = m w in (told pieces text r, (s, w'))

abbrev pub as_settings : SettingsFrame → M (Source × Sink) Message Settings
as_settings ack = fail (codes "Failed to read client settings: Got ACK" ∷ [])
as_settings (settings s) = return s

-- What the client sends: the preface and a SETTINGS frame.
unfoldable pub read_client : Settings → M (Source × Sink) Message Settings
read_client local = do
  preface ← reading io_pieces (codes "Failed to read preface: ") (read_exact 24)
  fail_if (not (bytes_eq preface client_preface)) (codes "Client preface is incorrect" ∷ [])
  header ←
      reading proto_pieces (codes "Failed to read client settings header: ") (read_header local)
  fail_if (not (header.frame_type == SettingsFrame.type_num))
      (codes "Client frame is not a settings frame" ∷ [])
  frame ←
      reading proto_pieces (codes "Failed to read client settings frame: ")
        (SettingsFrame.read_frame header)
  as_settings frame

-- What the server answers.
unfoldable pub write_server : Settings → M (Source × Sink) Message ℕ
write_server local = do
  _ ← writing io_pieces (codes "Failed to write ack: ") (SettingsFrame.write_frame ack)
  writing io_pieces (codes "Failed to write server settings: ")
      (SettingsFrame.write_frame (settings local))

unfoldable pub connect : Settings → M (Source × Sink) Message Context
connect local = do
  client_settings ← read_client local
  _ ← write_server local
  return (record { settings = client_settings; header_table = new_table local.table_size.value })

unfoldable pub http_http2_start_connection :
    Pointer Source
    → Pointer Sink
    → Settings
    → Pointer (HttpResult Context)
    → Called Context (Source × Sink)
http_http2_start_connection reader writer local res = with_pointer reader (λ s.
    with_pointer writer (λ w.
      with_pointer res (λ r. require (is_sane r.err) (report (λ m. m) r (connect local (s, w))))))
