-- ===== src/Display.antt =====
-- cmd/rfmp-display: the screens of the pager. What the HTTP client gives back during one event is
-- an argument, and so is the UTF-8 encoding; `Framebuffer` draws what `Layout` lists.
pub mod Framebuffer
pub mod Screens
pub mod Filling
pub mod Drawing
pub mod Selecting
pub mod Editing
pub mod Adjusting
pub mod Running
pub mod Naming
pub mod Typing
pub mod Creating
pub mod Saving
pub mod Layout
pub mod Lists
pub mod Timeline
pub mod Frame
pub mod Placing
pub mod Rows
pub mod Headers
pub mod Showing
pub mod Lines
use rfmpd.Base.{
  Bool, Bytes, List, Option, [], false, if◌then◌else◌, inl, inr, leb, length, ltb, none, not, some,
  suc, ℕ, ◌&&◌, ◌++◌, ◌-◌, ◌==◌, ◌||◌, ◌∷◌, ◌⊎◌,
}
use rfmpd.Base.Int.{ℤ, pos}
use rfmpd.Text.{text, text_eq, itoa, atoi}

-- the codes of backend.go; `no_code` is any other one
pub data Code : Type 0 where
  key_enter key_back key_backspace key_up key_down key_left key_right key_sym no_code : Code

-- a rune of 0 is no character
pub record KeyEvent : Type 0 where
  pub key : ℕ
  pub code : Code

pub record Channel : Type 0 where
  pub name : Bytes
  pub message_count : ℤ

pub record Message : Type 0 where
  pub id : Bytes
  pub from_node : Bytes
  pub author : Option Bytes
  pub timestamp : Bytes
  pub channel : Bytes
  pub reply_to : Option Bytes
  pub body : Bytes

-- the fields of `ConfigData` that the screens read or write
pub record ConfigData : Type 0 where
  pub callsign : Bytes
  pub ssid : ℤ
  pub direwolf_host : Bytes
  pub direwolf_port : ℤ
  pub offline_mode : Bool
  pub sync_interval : ℤ
  pub level : Bytes

-- What the client sends to the daemon.
pub data Call : Type 0 where
  send_message : Bytes → Bytes → Option Bytes → Call
  create_channel : Bytes → Call
  delete_channel : Bytes → Call
  save_config : ConfigData → Call
  shutdown : Call

-- What the calls of one event give back; an error is its text.
pub record Replies : Type 0 where
  pub channels : Bytes ⊎ List Channel
  pub messages : Bytes ⊎ List Message
  pub config : Bytes ⊎ ConfigData
  pub create_error : Option Bytes
  pub delete_error : Option Bytes
  pub save_error : Option Bytes
  pub shutdown_error : Option Bytes

-- `App`, with the calls so far, the last one first, and the number of blinks
pub record App : Type 0 where
  pub channels : List Channel
  pub messages : List Message
  pub channel : Bytes
  pub author : Bytes
  pub err : Bytes
  pub calls : List Call
  pub blinks : ℕ

pub record SettingField : Type 0 where
  pub label : Bytes
  pub value : Bytes

-- `fields` is nil when it is empty.
pub record SettingsScreen : Type 0 where
  pub fields : List SettingField
  pub selected : ℕ
  pub scroll : ℕ
  pub editing : Bool
  pub edit_buf : Bytes

pub data Screen : Type 0 where
  channel_list : ℕ → ℕ → Screen
  timeline : ℕ → Screen
  compose : List ℕ → ℕ → Screen
  create : List ℕ → ℕ → Screen
  settings : SettingsScreen → Screen

-- What a handler of a key ends with: its own screen, another one, or an index out of range.
pub data Next : Type 0 where
  stays enters : Screen → App → Next
  panics : Next

abbrev pub log_call : Call → App → App
log_call c app = record app { calls = c ∷ app.calls }

abbrev pub new_settings : SettingsScreen
new_settings = record { fields = []; selected = 0; scroll = 0; editing = false; edit_buf = [] }

-- `NewComposeScreen`
unfoldable pub new_compose : ℕ → Screen
new_compose initial = if initial == 0 then compose [] 0 else compose (initial ∷ []) 1

-- the scan of `onNewMessage` for a message that is there
unfoldable pub has_message : Bytes → List Message → Bool
has_message id [] = false
has_message id (m ∷ ms) = text_eq m.id id || has_message id ms

-- `onNewMessage`
unfoldable pub on_new_message : Message → App → App
on_new_message msg app =
    if text_eq msg.channel app.channel && not (has_message msg.id app.messages)
    then record app { messages = msg ∷ app.messages; blinks = suc app.blinks }
    else app

abbrev pub setting : Bytes → Bytes → SettingField
setting label value = record { label = label; value = value }

-- the fields that `SettingsScreen.OnEnter` makes
unfoldable pub setting_fields : ConfigData → List SettingField
unfolding itoa
setting_fields c =
    setting (text "Callsign") c.callsign
    ∷ setting (text "SSID") (itoa c.ssid)
    ∷ setting (text "Direwolf Host") c.direwolf_host
    ∷ setting (text "Direwolf Port") (itoa c.direwolf_port)
    ∷ setting (text "Sync Interval") (itoa c.sync_interval)
    ∷ setting (text "Log Level") c.level
    ∷ []

abbrev pub enter_list : Bytes ⊎ List Channel → ℕ → ℕ → App → Screen × App
enter_list (inl e) selected scroll app = (
  channel_list (if leb (length app.channels) selected then 0 else selected) scroll,
  record app { channel = []; err = e },
)
enter_list (inr cs) selected scroll app = (
  channel_list (if leb (length cs) selected then 0 else selected) scroll,
  record app { channel = []; channels = cs; err = [] },
)

abbrev pub enter_timeline : Bytes ⊎ List Message → App → Screen × App
enter_timeline (inl e) app = (timeline 0, app)
enter_timeline (inr ms) app = (timeline 0, record app { messages = ms })

abbrev pub enter_settings : Bytes ⊎ ConfigData → SettingsScreen → App → Screen × App
enter_settings (inl e) s app = (settings (record s { fields = [] }), record app { err = e })
enter_settings (inr c) s app =
    (settings (record s { fields = setting_fields c }), record app { err = [] })

-- `OnEnter` of each screen
unfoldable pub on_enter : Replies → Screen → App → Screen × App
on_enter r (channel_list selected scroll) app = enter_list r.channels selected scroll app
on_enter r (timeline scroll) app = enter_timeline r.messages app
on_enter r (compose buf cursor) app = (compose buf cursor, app)
on_enter r (create buf cursor) app = (create buf cursor, app)
on_enter r (settings s) app = enter_settings r.config s app

-- the text of an error behind a word, and the text of a success
abbrev pub outcome : Bytes → Bytes → Option Bytes → Bytes
outcome word done none = done
outcome word done (some e) = word ++ e

-- down and up through a list of `n` items
unfoldable pub move : Code → ℕ → ℕ → ℕ
move key_down n i = if ltb (suc i) n then suc i else i
move key_up n i = i - 1
move _ n i = i
