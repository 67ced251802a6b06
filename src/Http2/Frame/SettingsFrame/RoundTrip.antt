-- ===== src/Http2/Frame/SettingsFrame/RoundTrip.antt =====
-- Reading back the SETTINGS frames that `write_frame` writes.
use proxy_rs.Prelude.{
  ℕ, zero, suc, ◌+◌, ◌%◌, ◌^◌, ◌≤◌, ◌<◌, ◌≡◌, refl, ap, ◌∙◌, true, false, not, ◌&&◌, ◌⊎◌, inl, inr,
  some, List, [], ◌∷◌, ◌++◌, ◌==◌, length, arith, append_assoc, Bool-cases, lt→ltb, le→not-ltb,
  lt→not-leb,
}
use proxy_rs.Prelude.Bytes.{to_be_bytes}
use proxy_rs.Io.{IoError, Source, ok, ◌>>=◌}
use proxy_rs.Http2.Settings.{
  Setting, Settings, SettingName, all_names, header_table_size, enable_push, max_concurrent_streams,
  initial_window_size, max_frame_size, max_header_list_size, setting_name, default_settings, get,
  set, set_value, num,
}
use proxy_rs.Http2.Frame.{read_header, read_u16, read_u32}
use proxy_rs.Http2.Frame.Wire.{holding, wire_header, read_u16-wire, read_u32-wire}
use proxy_rs.Http2.Frame.Header.{read_header-fits}
use proxy_rs.Http2.Frame.SettingsFrame.{
  SettingsFrame, settings, ack, update, settings_loop, check_settings, read_settings, read_ack,
  read_frame, type_num, is_changed, changed_len,
}
use proxy_rs.Http2.Frame.SettingsFrame.Wire.{entries, wire_frame, length-entries}
use proxy_rs.Http2.Frame.SettingsFrame.Merge.{IsSetFrom, IsMadeFromDefault, merge, merge-default}

-- The values that RFC 9113 allows.
pub record IsAllowed (s : Settings) : Type 0 where
  pub push : (s.push.value ≡ 0) ⊎ (s.push.value ≡ 1)
  pub window : s.window_size.value < 2 ^ 31
  pub frame_min : 2 ^ 14 ≤ s.frame_size.value
  pub frame_max : s.frame_size.value < 2 ^ 24

abbrev IsNamed : SettingName → Setting → Type 0
IsNamed name x = (setting_name (num x) ≡ some name) × ((num x < 2 ^ 16) × (x.value < 2 ^ 32))

set_from-IsNamed :
    (name : SettingName) (x : Setting) → IsSetFrom (get default_settings name) x → IsNamed name x
unfolding setting_name num set_value
set_from-IsNamed header_table_size x (inl e) = rw e (refl, (omega arith, omega arith))
set_from-IsNamed header_table_size x (inr (v, (h, e))) = rw e (refl, (omega arith, h))
set_from-IsNamed enable_push x (inl e) = rw e (refl, (omega arith, omega arith))
set_from-IsNamed enable_push x (inr (v, (h, e))) = rw e (refl, (omega arith, h))
set_from-IsNamed max_concurrent_streams x (inl e) = rw e (refl, (omega arith, omega arith))
set_from-IsNamed max_concurrent_streams x (inr (v, (h, e))) = rw e (refl, (omega arith, h))
set_from-IsNamed initial_window_size x (inl e) = rw e (refl, (omega arith, omega arith))
set_from-IsNamed initial_window_size x (inr (v, (h, e))) = rw e (refl, (omega arith, h))
set_from-IsNamed max_frame_size x (inl e) = rw e (refl, (omega arith, omega arith))
set_from-IsNamed max_frame_size x (inr (v, (h, e))) = rw e (refl, (omega arith, h))
set_from-IsNamed max_header_list_size x (inl e) = rw e (refl, (omega arith, omega arith))
set_from-IsNamed max_header_list_size x (inr (v, (h, e))) = rw e (refl, (omega arith, h))

settings_loop-done :
    (fuel read : ℕ) (acc : Settings) (t : Source) → settings_loop fuel read read acc t ≡ (ok acc, t)
unfolding settings_loop
settings_loop-done zero read acc t = refl
settings_loop-done (suc fuel) read acc t = rw (le→not-ltb read read (omega arith)) refl

settings_loop-more :
    (fuel read len : ℕ) (acc : Settings) (t : Source)
    → read < len
    → settings_loop (suc fuel) read len acc t
      ≡ (do
        setting ← read_u16
        value ← read_u32
        settings_loop fuel (read + 6) len (update acc (setting_name setting) value))
          t
unfolding settings_loop
settings_loop-more fuel read len acc t h = rw (lt→ltb read len h) refl

settings_loop-entry :
    (fuel read len n v : ℕ) (name : SettingName) (acc : Settings) (rest : List ℕ) (e : IoError)
    → read < len
    → n < 2 ^ 16
    → v < 2 ^ 32
    → setting_name n ≡ some name
    → settings_loop
        (suc fuel)
        read
        len
        acc
        (holding (to_be_bytes 2 n ++ (to_be_bytes 4 v ++ rest)) e)
      ≡ settings_loop fuel (read + 6) len (set acc name v) (holding rest e)
settings_loop-entry fuel read len n v name acc rest e h hn hv named =
    settings_loop-more fuel read len acc _ h
    ∙ rw (read_u16-wire n (to_be_bytes 4 v ++ rest) e hn, read_u32-wire v rest e hv, named) refl

counted_changed :
    (name : SettingName) (names : List SettingName) (s : Settings)
    → is_changed s name ≡ true
    → changed_len (name ∷ names) s ≡ 6 + changed_len names s
unfolding changed_len
counted_changed name names s c = rw c refl

counted_same :
    (name : SettingName) (names : List SettingName) (s : Settings)
    → is_changed s name ≡ false
    → changed_len (name ∷ names) s ≡ changed_len names s
unfolding changed_len
counted_same name names s c = rw c (omega arith)

-- The loop over the entries that were written sets those that are changed.
settings_loop-entries :
    (names : List SettingName) (s acc : Settings) (fuel read len : ℕ) (rest : List ℕ) (e : IoError)
    → IsMadeFromDefault s
    → changed_len names s ≤ fuel
    → len ≡ read + changed_len names s
    → settings_loop fuel read len acc (holding (entries names s ++ rest) e)
      ≡ (ok (merge names s acc), holding rest e)
unfolding changed_len
settings_loop-entries [] s acc fuel read len rest e h hf hl =
    let same : len ≡ read = omega arith in
    rw same (settings_loop-done fuel read acc (holding rest e))
settings_loop-entries (name ∷ names) s acc zero read len rest e h hf hl =
    elim (Bool-cases (is_changed s name)) [
      | inl c ↦ absurd (omega (arith, counted_changed name names s c))
      | inr c ↦ rw c (
          settings_loop-entries names s acc zero read len rest e h
            (omega (arith, counted_same name names s c))
            (omega (arith, counted_same name names s c)))
    ]
settings_loop-entries (name ∷ names) s acc (suc fuel) read len rest e h hf hl =
    elim (Bool-cases (is_changed s name)) [
      | inl c ↦
          let n = num (get s name) in
          let v = (get s name).value in
          let (named, (hn, hv)) = set_from-IsNamed name (get s name) (h name) in
          let count = counted_changed name names s c in
          rw (c, append_assoc, append_assoc)
            (settings_loop-entry fuel read len n v name acc (entries names s ++ rest) e
                (omega arith) hn hv named
              ∙ settings_loop-entries names s (set acc name v) fuel (read + 6) len rest e h
                  (omega arith) (omega arith))
      | inr c ↦ rw c (
          settings_loop-entries names s acc (suc fuel) read len rest e h
            (omega (arith, counted_same name names s c))
            (omega (arith, counted_same name names s c)))
    ]

-- What passes the checks.
check_settings-allowed :
    (s : Settings) (t : Source) → IsAllowed s → check_settings s t ≡ (ok (settings s), t)
unfolding check_settings
check_settings-allowed s t a =
    let push : (not (s.push.value == 0) && not (s.push.value == 1)) ≡ false =
      ground (arith, a.push) in
    let w = a.window in
    let lo = a.frame_min in
    let hi = a.frame_max in
    rw
      (
        push,
        lt→not-leb 0x80000000 s.window_size.value (omega arith),
        le→not-ltb s.frame_size.value (2 ^ 14) lo,
        lt→not-leb (2 ^ 24) s.frame_size.value hi,
      )
      refl

changed_len-sixes : (names : List SettingName) (s : Settings) → changed_len names s % 6 ≡ 0
unfolding changed_len
changed_len-sixes [] s = refl
changed_len-sixes (name ∷ names) s = elim (Bool-cases (is_changed s name)) [
  | inl c ↦ rw c (omega (arith, changed_len-sixes names s))
  | inr c ↦ rw c (omega (arith, changed_len-sixes names s))
]

read_settings-loop :
    (local s : Settings) (d rest : List ℕ) (e : IoError)
    → IsAllowed s
    → length d ≤ 36
    → 36 ≤ local.frame_size.value
    → length d % 6 ≡ 0
    → settings_loop (length d) 0 (length d) default_settings (holding (d ++ rest) e)
      ≡ (ok s, holding rest e)
    → (read_header local >>= read_frame)
        (holding ((wire_header (length d) type_num 0 0 ++ d) ++ rest) e)
      ≡ (ok (settings s), holding rest e)
unfolding read_frame read_settings
read_settings-loop local s d rest e a hd hl h6 loop = simp append_assoc (
    rw
      (read_header-fits local (length d) 4 0 0 (d ++ rest) e (omega arith) (omega arith)
        (omega arith))
      (rw (h6, loop) (check_settings-allowed s (holding rest e) a)))

abbrev pub IsFramable : SettingsFrame → Type 0
IsFramable ack = Unit {0}
IsFramable (settings s) = IsMadeFromDefault s × IsAllowed s

pub read_frame-wire :
    (local : Settings) (f : SettingsFrame) (rest : List ℕ) (e : IoError)
    → IsFramable f
    → 36 ≤ local.frame_size.value
    → (read_header local >>= read_frame) (holding (wire_frame f ++ rest) e) ≡ (ok f, holding rest e)
unfolding read_frame read_ack read_settings
read_frame-wire local ack rest e h hl =
    simp append_assoc
      (rw (read_header-fits local 0 4 1 0 rest e (omega arith) (omega arith) (omega arith)) refl)
read_frame-wire local (settings s) rest e (made, allowed) hl =
    let d = entries all_names s in
    let (same, bound) = length-entries all_names s in
    read_settings-loop local s d rest e allowed bound hl (rw same (changed_len-sixes all_names s)) (
      settings_loop-entries all_names s default_settings (length d) 0 (length d) rest e made
        (omega (arith, same)) (omega (arith, same))
      ∙ ap (λ x. (ok x, holding rest e)) (merge-default s made))
