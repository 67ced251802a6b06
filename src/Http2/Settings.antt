-- ===== src/Http2/Settings.antt =====
-- `Setting`, `Settings` and `SettingName` of http/src/http2/context.rs.
-- The array of six settings is a record with one field for each name.
use proxy_rs.Prelude.{
  ℕ, ◌-◌, ◌*◌, ◌/◌, ◌%◌, ◌^◌, Bool, not, ◌&&◌, Option, none, some, List, [], ◌∷◌, bit_and, bit_or,
  leb, ◌==◌, if◌then◌else◌,
}

pub record Setting : Type 0 where
  pub num_flags : ℕ
  pub value : ℕ

abbrev pub optional_flag : ℕ
optional_flag = 0x1

abbrev pub exists_flag : ℕ
exists_flag = 0x2

-- `Setting::new`
abbrev pub new_setting : ℕ → ℕ → Setting
new_setting num value = record { num_flags = bit_or (num * 2 ^ 16) exists_flag; value = value }

-- `Setting::new_optional`
abbrev pub new_optional : ℕ → Option ℕ → Setting
new_optional num none = record { num_flags = bit_or (num * 2 ^ 16) optional_flag; value = 0 }
new_optional num (some v) = record {
  num_flags = bit_or (num * 2 ^ 16) (bit_or optional_flag exists_flag);
  value = v;
}

unfoldable pub num : Setting → ℕ
num s = s.num_flags / 2 ^ 16 % 2 ^ 16

unfoldable pub set_value : Setting → ℕ → Setting
set_value s v = record { num_flags = bit_or s.num_flags exists_flag; value = v }

unfoldable pub is_optional : Setting → Bool
is_optional s = not (bit_and s.num_flags optional_flag == 0)

unfoldable pub exists : Setting → Bool
exists s = not (bit_and s.num_flags exists_flag == 0)

-- `!=` that the derived `PartialEq` gives.
unfoldable pub setting_ne : Setting → Setting → Bool
setting_ne a b = not ((a.num_flags == b.num_flags) && (a.value == b.value))

pub data SettingName : Type 0 where
  header_table_size enable_push max_concurrent_streams : SettingName
  initial_window_size max_frame_size max_header_list_size : SettingName

-- `SettingName::ALL`
abbrev pub all_names : List SettingName
all_names =
    header_table_size ∷ enable_push ∷ max_concurrent_streams ∷ initial_window_size ∷ max_frame_size
    ∷ max_header_list_size ∷ []

-- `SettingName::is_valid`
unfoldable pub is_valid_name : ℕ → Bool
is_valid_name n = leb 1 n && leb n 6

-- `SettingName::try_from`; `none` is `Err(())`.
unfoldable pub setting_name : ℕ → Option SettingName
setting_name n =
    if n == 1
    then some header_table_size
    else if n == 2
    then some enable_push
    else if n == 3
    then some max_concurrent_streams
    else if n == 4
    then some initial_window_size
    else if n == 5
    then some max_frame_size
    else if n == 6
    then some max_header_list_size
    else none

pub record Settings : Type 0 where
  pub table_size : Setting
  pub push : Setting
  pub max_streams : Setting
  pub window_size : Setting
  pub frame_size : Setting
  pub list_size : Setting

-- `Settings::default`
abbrev pub default_settings : Settings
default_settings = record {
  table_size = new_setting 1 4096;
  push = new_setting 2 1;
  max_streams = new_optional 3 none;
  window_size = new_setting 4 (2 ^ 16 - 1);
  frame_size = new_setting 5 (2 ^ 14);
  list_size = new_optional 6 none;
}

abbrev pub get : Settings → SettingName → Setting
get s header_table_size = s.table_size
get s enable_push = s.push
get s max_concurrent_streams = s.max_streams
get s initial_window_size = s.window_size
get s max_frame_size = s.frame_size
get s max_header_list_size = s.list_size

-- `settings.get_mut(name).set_value(v)`
unfoldable pub set : Settings → SettingName → ℕ → Settings
unfolding set_value
set s header_table_size v = record s { table_size = set_value s.table_size v }
set s enable_push v = record s { push = set_value s.push v }
set s max_concurrent_streams v = record s { max_streams = set_value s.max_streams v }
set s initial_window_size v = record s { window_size = set_value s.window_size v }
set s max_frame_size v = record s { frame_size = set_value s.frame_size v }
set s max_header_list_size v = record s { list_size = set_value s.list_size v }
