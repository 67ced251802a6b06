-- ===== src/Http2/Frame/SettingsFrame/Merge.antt =====
-- Settings as the default with some of them set, which is how `read_frame` builds them up.
use proxy_rs.Prelude.{
  ℕ, ◌^◌, ◌<◌, ◌≡◌, refl, sym, ap, ◌∙◌, Bool, true, false, ◌⊎◌, inl, inr, List, [], ◌∷◌,
  if◌then◌else◌, arith, Bool-cases,
}
use proxy_rs.Http2.Settings.{
  Setting, Settings, SettingName, all_names, header_table_size, enable_push, max_concurrent_streams,
  initial_window_size, max_frame_size, max_header_list_size, default_settings, get, set, set_value,
  setting_ne,
}
use proxy_rs.Http2.Frame.SettingsFrame.{is_changed}

-- A setting that stands at its default or was set to a `u32`.
abbrev pub IsSetFrom : Setting → Setting → Type 0
IsSetFrom d s = (s ≡ d) ⊎ ((v : ℕ) × ((v < 2 ^ 32) × (s ≡ set_value d v)))

-- Settings that were made from the default by setting some of them.
abbrev pub IsMadeFromDefault : Settings → Type 0
IsMadeFromDefault s = (name : SettingName) → IsSetFrom (get default_settings name) (get s name)

abbrev pub merge_one : Settings → SettingName → Settings → Settings
merge_one s name acc = if is_changed s name then set acc name (get s name).value else acc

abbrev pub merge : List SettingName → Settings → Settings → Settings
merge [] s acc = acc
merge (name ∷ names) s acc = merge names s (merge_one s name acc)

-- Settings that do not differ are equal.
same-settings : (a b : Setting) → setting_ne a b ≡ false → a ≡ b
unfolding setting_ne
same-settings a b h =
    let p : a.num_flags ≡ b.num_flags = ground arith in
    let q : a.value ≡ b.value = ground arith in
    ap (λ n. record { num_flags = n; value = a.value }) p
    ∙ ap (λ v. record { num_flags = b.num_flags; value = v }) q

setting_ne_self : (a : Setting) → setting_ne a a ≡ false
unfolding setting_ne
setting_ne_self a = ground arith

set_to : (d x : Setting) (v : ℕ) → x ≡ set_value d v → x ≡ set_value d x.value
unfolding set_value
set_to d x v e = rw e refl

merged : (d x : Setting) → IsSetFrom d x → (if setting_ne x d then set_value d x.value else d) ≡ x
merged d x (inl e) = rw (e, setting_ne_self d) refl
merged d x (inr (v, (h, e))) = elim (Bool-cases (setting_ne x d)) [
  | inr c ↦ rw c (sym (same-settings x d c))
  | inl c ↦ rw c (sym (set_to d x v e))
]

if-ap :
    {A B : Type 0} (c : Bool) (f : A → B) (a b : A)
    → (if c then f a else f b) ≡ f (if c then a else b)
if-ap true f a b = refl
if-ap false f a b = refl

-- Where a field stands at its default, merging it in gives that of `s`.
module _ (s acc : Settings) (h : IsMadeFromDefault s) where
  merge_one-table_size :
      merge_one s header_table_size (record acc { table_size = default_settings.table_size })
      ≡ record acc { table_size = s.table_size }
  unfolding set
  merge_one-table_size =
      if-ap (is_changed s header_table_size) (λ x. record acc { table_size = x }) _ _
      ∙ ap (λ x. record acc { table_size = x })
          (merged default_settings.table_size s.table_size (h header_table_size))

  merge_one-push :
      merge_one s enable_push (record acc { push = default_settings.push })
      ≡ record acc { push = s.push }
  unfolding set
  merge_one-push =
      if-ap (is_changed s enable_push) (λ x. record acc { push = x }) _ _
      ∙ ap (λ x. record acc { push = x }) (merged default_settings.push s.push (h enable_push))

  merge_one-max_streams :
      merge_one s max_concurrent_streams (record acc { max_streams = default_settings.max_streams })
      ≡ record acc { max_streams = s.max_streams }
  unfolding set
  merge_one-max_streams =
      if-ap (is_changed s max_concurrent_streams) (λ x. record acc { max_streams = x }) _ _
      ∙ ap (λ x. record acc { max_streams = x })
          (merged default_settings.max_streams s.max_streams (h max_concurrent_streams))

  merge_one-window_size :
      merge_one s initial_window_size (record acc { window_size = default_settings.window_size })
      ≡ record acc { window_size = s.window_size }
  unfolding set
  merge_one-window_size =
      if-ap (is_changed s initial_window_size) (λ x. record acc { window_size = x }) _ _
      ∙ ap (λ x. record acc { window_size = x })
          (merged default_settings.window_size s.window_size (h initial_window_size))

  merge_one-frame_size :
      merge_one s max_frame_size (record acc { frame_size = default_settings.frame_size })
      ≡ record acc { frame_size = s.frame_size }
  unfolding set
  merge_one-frame_size =
      if-ap (is_changed s max_frame_size) (λ x. record acc { frame_size = x }) _ _
      ∙ ap (λ x. record acc { frame_size = x })
          (merged default_settings.frame_size s.frame_size (h max_frame_size))

  merge_one-list_size :
      merge_one s max_header_list_size (record acc { list_size = default_settings.list_size })
      ≡ record acc { list_size = s.list_size }
  unfolding set
  merge_one-list_size =
      if-ap (is_changed s max_header_list_size) (λ x. record acc { list_size = x }) _ _
      ∙ ap (λ x. record acc { list_size = x })
          (merged default_settings.list_size s.list_size (h max_header_list_size))

-- Merging every name into the default gives the settings back.
pub merge-default : (s : Settings) → IsMadeFromDefault s → merge all_names s default_settings ≡ s
merge-default s h =
    let s1 = record default_settings { table_size = s.table_size } in
    let s2 = record s1 { push = s.push } in
    let s3 = record s2 { max_streams = s.max_streams } in
    let s4 = record s3 { window_size = s.window_size } in
    let s5 = record s4 { frame_size = s.frame_size } in
    let n5 = max_header_list_size ∷ [] in
    let n4 = max_frame_size ∷ n5 in
    let n3 = initial_window_size ∷ n4 in
    let n2 = max_concurrent_streams ∷ n3 in
    let n1 = enable_push ∷ n2 in
    ap (merge n1 s) (merge_one-table_size s default_settings h)
    ∙ ap (merge n2 s) (merge_one-push s s1 h)
    ∙ ap (merge n3 s) (merge_one-max_streams s s2 h)
    ∙ ap (merge n4 s) (merge_one-window_size s s3 h)
    ∙ ap (merge n5 s) (merge_one-frame_size s s4 h)
    ∙ merge_one-list_size s s5 h
