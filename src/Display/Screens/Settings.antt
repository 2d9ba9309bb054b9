-- ===== src/Display/Screens/Settings.antt =====
-- cmd/rfmp-display/ui_settings.go: the keys of the settings, and what they save.
use rfmpd.Base.{
  Bytes, List, Option, [], false, get_elem?, if◌then◌else◌, leb, length, ltb, none, some, suc, take,
  true, zero, ℕ, ◌&&◌, ◌++◌, ◌-◌, ◌==◌, ◌>>=◌, ◌||◌, ◌∷◌,
}
use rfmpd.Base.Int.{pos}
use rfmpd.Text.{text, atoi_value, text_eq}
use rfmpd.Display.{
  key_enter, key_back, key_backspace, KeyEvent, ConfigData, save_config, shutdown, Replies, App,
  SettingField, SettingsScreen, channel_list, settings, Next, stays, enters, panics, log_call,
  outcome, move,
}

-- One round of the loop of `save`, which drops the errors of `Atoi`.
unfoldable pub save_field : SettingField → ConfigData → ConfigData
unfolding text_eq
save_field f c =
    if text_eq f.label (text "Callsign")
    then record c { callsign = f.value }
    else if text_eq f.label (text "SSID")
    then record c { ssid = atoi_value f.value }
    else if text_eq f.label (text "Direwolf Host")
    then record c { direwolf_host = f.value }
    else if text_eq f.label (text "Direwolf Port")
    then record c { direwolf_port = atoi_value f.value }
    else if text_eq f.label (text "Sync Interval")
    then record c { sync_interval = atoi_value f.value }
    else if text_eq f.label (text "Log Level")
    then record c { level = f.value }
    else c

unfoldable pub save_fields : List SettingField → ConfigData → ConfigData
unfolding save_field
save_fields [] c = c
save_fields (f ∷ fs) c = save_fields fs (save_field f c)

abbrev pub empty_config : ConfigData
empty_config = record {
  callsign = [];
  ssid = pos 0;
  direwolf_host = [];
  direwolf_port = pos 0;
  offline_mode = false;
  sync_interval = pos 0;
  level = [];
}

-- `save`
unfoldable pub save : Replies → List SettingField → App → App
save r [] app = app
save r (f ∷ fs) app =
    log_call (save_config (save_fields (f ∷ fs) empty_config))
      (record app { err = outcome (text "save: ") (text "saved, restarting...") r.save_error })

-- `shutdown`
abbrev pub shut_down : Replies → App → App
shut_down r app =
    log_call shutdown
      (record app { err = outcome (text "shutdown: ") (text "shutting down...") r.shutdown_error })

-- the keys `s` and `p` of the settings
unfoldable pub settings_letter : Replies → ℕ → SettingsScreen → App → Next
unfolding save
settings_letter r key s app =
    if key == b's' || key == b'S'
    then stays (settings s) (save r s.fields app)
    else if key == b'p' || key == b'P'
    then stays (settings s) (shut_down r app)
    else stays (settings s) app

abbrev pub start_editing : Option SettingField → SettingsScreen → SettingsScreen
start_editing none s = s
start_editing (some f) s = record s { editing = true; edit_buf = f.value }

-- The value of one field; `none` when there is no such field.
unfoldable pub set_value : Bytes → List SettingField → ℕ → Option (List SettingField)
set_value v [] i = none
set_value v (f ∷ fs) zero = some (record f { value = v } ∷ fs)
set_value v (f ∷ fs) (suc i) = set_value v fs i >>= λ gs. some (f ∷ gs)

abbrev pub store_value : Option (List SettingField) → SettingsScreen → App → Next
store_value none s app = panics
store_value (some fs) s app = stays (settings (record s { fields = fs; editing = false })) app

abbrev pub type_value : ℕ → SettingsScreen → App → Next
type_value key s app =
    if leb 32 key && ltb key 127
    then stays (settings (record s { edit_buf = s.edit_buf ++ key ∷ [] })) app
    else stays (settings s) app

-- `handleEditKey`
unfoldable pub edit_key : KeyEvent → SettingsScreen → App → Next
edit_key ev s app = elim ev.code [
  | key_enter ↦ store_value (set_value s.edit_buf s.fields s.selected) s app
  | key_back ↦ stays (settings (record s { editing = false })) app
  | key_backspace ↦
      stays (settings (record s { edit_buf = take (length s.edit_buf - 1) s.edit_buf })) app
  | _ ↦ type_value ev.key s app
]

-- a key while no field is edited
unfoldable pub select_key : Replies → KeyEvent → SettingsScreen → App → Next
select_key r ev s app = elim ev.code [
  | key_back ↦ enters (channel_list 0 0) app
  | key_enter ↦ settings_letter r ev.key (start_editing (get_elem? s.fields s.selected) s) app
  | _ ↦
      settings_letter r ev.key (record s { selected = move ev.code (length s.fields) s.selected })
        app
]

-- `SettingsScreen.HandleKey`
unfoldable pub settings_key : Replies → KeyEvent → SettingsScreen → App → Next
settings_key r ev s app = if s.editing then edit_key ev s app else select_key r ev s app
