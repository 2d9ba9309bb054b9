-- ===== src/Tests/Pager.antt =====
-- The pager, from its keys to the API.
use rfmpd.Base.{
  Bytes, List, Option, [], arith, false, inl, inr, length, none, refl, some, true, ℕ, ◌*◌, ◌∷◌, ◌≡◌,
}
use rfmpd.Base.Int.{pos}
use rfmpd.Text.{text, atoi_value}
use rfmpd.Config.{Config, default_config}
use rfmpd.Api.{answer, channel_created}
use rfmpd.Api.Requests.{is_callsign_name, all_bytes}
use rfmpd.Api.Messages.{handle_create}
use rfmpd.Api.Settings.{merge_config}
use rfmpd.Display.{
  Code, key_enter, no_code, ConfigData, Replies, App, Screen, channel_list, setting_fields,
  on_enter,
}
use rfmpd.Display.Screens.{
  draw_rows, Event, pressed, drawn, run, step, save_fields, empty_config, handle_key,
  channel_list_key, list_key, create_key, insert_at, rendered,
}
use rfmpd.Display.Selecting.{IsUi}
use rfmpd.Display.Running.{IsInView, run-IsUi}
use rfmpd.Display.Creating.{run-handle_create}
use rfmpd.Display.Saving.{Carries, merge_config-save_fields}
use rfmpd.Display.Framebuffer.{rect, string, draw_all, new_framebuffer}
use rfmpd.Display.Drawing.{draw_all_total}
use rfmpd.Tests.Web.{server, config}

-- ASCII texts only
abbrev ascii : List ℕ → Bytes
ascii cs = cs

abbrev replies : Replies
replies = record {
  channels = inr (record { name = text "a"; message_count = pos 0 } ∷ []);
  messages = inl (text "down");
  config = inl (text "down");
  create_error = none;
  delete_error = none;
  save_error = none;
  shutdown_error = none;
}

abbrev app : App
app = record {
  channels = [];
  messages = [];
  channel = [];
  author = text "N0CALL";
  err = [];
  calls = [];
  blinks = 0;
}

abbrev press : ℕ → Code → Event
press key code = pressed (record { key = key; code = code }) replies

-- a new channel whose name is typed as `X!y`
abbrev keys : List Event
keys =
    press b'n' no_code
    ∷ press b'X' no_code
    ∷ press b'!' no_code
    ∷ press b'y' no_code
    ∷ drawn
    ∷ press 0 key_enter
    ∷ []

run-IsUi_example :
    (v : Screen × App) × (run ascii keys (channel_list 0 0, app) ≡ some v)
    × IsUi v.0 v.1
    × IsInView (rendered v.0)
run-IsUi_example = run-IsUi ascii keys (channel_list 0 0) app (omega arith)

abbrev typed : Option (Screen × App)
typed = run ascii keys (channel_list 0 0, app)

abbrev after_typing : Screen × App
after_typing = elim typed [ none ↦ (channel_list 0 0, app) | some v ↦ v ]

run-handle_create_example :
    (handle_create 5 (some (text "xy")) server).1 ≡ answer 201 (channel_created (text "xy"))
unfolding run step handle_key channel_list_key list_key on_enter create_key insert_at rendered
    draw_rows
run-handle_create_example =
    run-handle_create ascii keys app after_typing 0 5 (text "xy") server (λ cs h. refl) refl refl
      refl (omega arith)

abbrev shown : ConfigData
shown = record {
  callsign = text "N0CALL";
  ssid = pos 0;
  direwolf_host = text "127.0.0.1";
  direwolf_port = pos 8001;
  offline_mode = true;
  sync_interval = pos 60;
  level = text "INFO";
}

-- a node that is offline
abbrev offline : Config ℕ
offline = record config { network = record (config.network) { offline_mode = true } }

abbrev request : Config ℕ
request = config

offline-Carries : Carries offline shown
unfolding default_config
offline-Carries = record {
  callsign_is = refl;
  ssid_is = refl;
  host_is = refl;
  port_is = refl;
  offline_is = refl;
  interval_is = refl;
  level_is = refl;
}

request-Carries : Carries request (save_fields (setting_fields shown) empty_config)
unfolding default_config save_fields setting_fields atoi_value
request-Carries = record {
  callsign_is = refl;
  ssid_is = refl;
  host_is = refl;
  port_is = refl;
  offline_is = refl;
  interval_is = refl;
  level_is = refl;
}

merge_config-save_fields_example :
    merge_config request offline
    ≡ record offline { network = record (offline.network) { offline_mode = false } }
unfolding default_config is_callsign_name all_bytes
merge_config-save_fields_example =
    merge_config-save_fields offline request shown refl (0, omega arith, refl)
      (8001, omega arith, refl) (60, omega arith, refl) offline-Carries request-Carries

abbrev font : ℕ → ℕ → ℕ
font ch row = ch

draw_all_total_example :
    (ps : List ℕ) × (draw_all 20 20 font
        (rect (pos 15) (pos 15) 9 9 7 ∷ string (pos 0) (pos 8) (text "abc") 1 2 ∷ [])
        (new_framebuffer 20 20)
      ≡ some ps)
    × (length ps ≡ 20 * 20)
draw_all_total_example =
    draw_all_total 20 20 font
      (rect (pos 15) (pos 15) 9 9 7 ∷ string (pos 0) (pos 8) (text "abc") 1 2 ∷ [])
