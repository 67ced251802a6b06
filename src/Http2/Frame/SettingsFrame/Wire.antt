-- ===== src/Http2/Frame/SettingsFrame/Wire.antt =====
-- The bytes of a SETTINGS frame: each setting that differs from its default, in the order of the names.
use mathlib.Core.Path.{fun_ext}
use proxy_rs.Prelude.{
  ℕ, ◌+◌, ◌-◌, ◌*◌, ◌%◌, ◌^◌, ◌≤◌, ◌<◌, ◌≡◌, refl, sym, ap, ◌∙◌, List, [], ◌∷◌, ◌++◌, if◌then◌else◌,
  length, replicate, arith, append_assoc, append-nil, length-append, Bool-cases, inl, inr,
  take-append, le→leb,
}
use proxy_rs.Prelude.Bytes.{to_be_bytes, length-to_be_bytes}
use proxy_rs.Io.{
  Sink, IoError, ok, write_all, ◌>>=◌, ◌>>◌, return, bind_outcome, Outcome, err, panic, M,
}
use proxy_rs.Io.Laws.{write_all-write_all}
use proxy_rs.Http2.Settings.{Settings, SettingName, all_names, get, num}
use proxy_rs.Http2.Frame.{write_header, write_u16, write_u32, into_slice}
use proxy_rs.Http2.Frame.Wire.{wire_header}
use proxy_rs.Http2.Frame.Header.{write_header-then, write_header-wire, length-wire_header}
use proxy_rs.Http2.Frame.SettingsFrame.{
  SettingsFrame, settings, ack, type_num, flags_ack, is_changed, write_changed, changed_len,
  write_frame, settings_header,
}

abbrev pub entry : Settings → SettingName → List ℕ
entry s name = to_be_bytes 2 (num (get s name)) ++ to_be_bytes 4 (get s name).value

abbrev pub entries : List SettingName → Settings → List ℕ
entries [] s = []
entries (name ∷ names) s = (if is_changed s name then entry s name else []) ++ entries names s

abbrev pub wire_frame : SettingsFrame → List ℕ
wire_frame ack = wire_header 0 type_num flags_ack 0
wire_frame (settings s) =
    wire_header (length (entries all_names s)) type_num 0 0 ++ entries all_names s

length-entry : (s : Settings) (name : SettingName) → length (entry s name) ≡ 6
length-entry s name = omega (
  arith,
  length-append (to_be_bytes 2 (num (get s name))) (to_be_bytes 4 (get s name).value),
  length-to_be_bytes 2 (num (get s name)),
  length-to_be_bytes 4 (get s name).value,
)

pub length-entries :
    (names : List SettingName) (s : Settings)
    → (length (entries names s) ≡ changed_len names s)
      × (length (entries names s) ≤ 6 * length names)
unfolding changed_len
length-entries [] s = omega arith
length-entries (name ∷ names) s = elim (Bool-cases (is_changed s name)) [
  | inl e ↦ rw e (
      omega (
        arith,
        length-append (entry s name) (entries names s),
        length-entry s name,
        length-entries names s,
      ))
  | inr e ↦ rw e (omega (arith, length-entries names s))
]

bind_outcome-return :
    {S E : Type 0} (r : Outcome E (Unit {0}) × S) → bind_outcome r (λ _. return tt) ≡ r
bind_outcome-return (ok tt, s) = refl
bind_outcome-return (err e, s) = refl
bind_outcome-return (panic, s) = refl

-- The loop writes what `entries` lists.
write_changed-entries :
    (names : List SettingName) (s : Settings) (front : List ℕ) (t : Sink)
    → (write_all front >> write_changed names s) t ≡ write_all (front ++ entries names s) t
unfolding write_changed write_u16 write_u32
write_changed-entries [] s front t = rw (bind_outcome-return, append-nil front) refl
write_changed-entries (name ∷ names) s front t = elim (Bool-cases (is_changed s name)) [
  | inl e ↦
      let id = to_be_bytes 2 (num (get s name)) in
      let value = to_be_bytes 4 (get s name).value in
      rw e (
        write_all-write_all front id (write_all value >> write_changed names s) t
        ∙ write_all-write_all (front ++ id) value (write_changed names s) t
        ∙ write_changed-entries names s ((front ++ id) ++ value) t
        ∙ ap (λ d. write_all d t) (simp append_assoc refl))
  | inr e ↦ rw e (write_changed-entries names s front t)
]

write_nothing : (t : Sink) → write_all [] t ≡ (ok tt, t)
unfolding write_all
write_nothing t =
    let same : t.room - 0 ≡ t.room = omega arith in
    rw (le→leb 0 t.room (omega arith), append-nil t.written, same) refl

write_changed-all :
    (names : List SettingName) (s : Settings) (t : Sink)
    → write_changed names s t ≡ write_all (entries names s) t
unfolding write_changed write_u16 write_u32
write_changed-all [] s t = sym (write_nothing t)
write_changed-all (name ∷ names) s t = elim (Bool-cases (is_changed s name)) [
  | inl e ↦
      let id = to_be_bytes 2 (num (get s name)) in
      let value = to_be_bytes 4 (get s name).value in
      rw e (
        write_all-write_all id value (write_changed names s) t
        ∙ write_changed-entries names s (id ++ value) t)
  | inr e ↦ rw e (write_changed-all names s t)
]

-- A local array that is filled from the front, cut to what was written.
take-into_slice :
    {A : Type 0} (n : ℕ) (d : List ℕ) (k : List ℕ → M Sink IoError A) (s : Sink)
    → length d ≤ n
    → (into_slice n (write_all d) >>= k) s ≡ k (d ++ replicate (n - length d) 0) s
unfolding write_all
take-into_slice n d k s h = rw (le→leb (length d) n h) refl

header_then :
    (d : List ℕ) (s : Sink)
    → length d < 2 ^ 24
    → (write_header (settings_header (length d) 0) >>= λ written.
          write_all d >> return (written + length d))
        s
      ≡ (write_all (wire_header (length d) type_num 0 0 ++ d)
            >> return (length (wire_header (length d) type_num 0 0 ++ d)))
          s
header_then d s h =
    let fits : length d % 2 ^ 24 ≡ length d = omega arith in
    rw (write_header-then, fits)
      (write_all-write_all (wire_header (length d) type_num 0 0) d (return (9 + length d)) s
        ∙ ap (λ n. (write_all (wire_header (length d) type_num 0 0 ++ d) >> return n) s)
            (omega (
              arith,
              length-append (wire_header (length d) type_num 0 0) d,
              length-wire_header (length d) type_num 0 0,
            )))

pub write_frame-wire :
    (f : SettingsFrame) (s : Sink)
    → write_frame f s ≡ (write_all (wire_frame f) >> return (length (wire_frame f))) s
unfolding write_frame
write_frame-wire ack s = rw (write_header-wire, length-wire_header 0 type_num flags_ack 0) refl
write_frame-wire (settings x) s =
    rw
      (
        fun_ext (write_changed-all all_names x),
        take-into_slice 36 (entries all_names x) _ s (length-entries all_names x).1,
        ← (length-entries all_names x).0,
        take-append (length (entries all_names x)) (entries all_names x) _ refl,
      )
      (header_then (entries all_names x) s (omega (arith, (length-entries all_names x).1)))
