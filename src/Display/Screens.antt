-- ===== src/Display/Screens.antt =====
-- `HandleKey` of each screen, the scrolling that `Render` does, and the main loop over events.
use rfmpd.Base.{
  Bool, Bytes, List, Option, [], drop, false, get_elem?, if◌then◌else◌, is_empty, leb, length, ltb,
  none, not, some, suc, take, true, zero, ℕ, ◌&&◌, ◌*◌, ◌++◌, ◌+◌, ◌-◌, ◌==◌, ◌>>=◌, ◌||◌, ◌∷◌,
}
use rfmpd.Base.Int.{ℤ, pos, negsuc}
use rfmpd.Text.{text, atoi, text_eq}
pub mod Settings
unfoldable pub use Settings.*
use rfmpd.Display.{
  outcome, move, Code, key_enter, key_back, key_backspace, key_up, key_down, key_left, key_right,
  KeyEvent, Channel, Message, ConfigData, send_message, create_channel, delete_channel, save_config,
  shutdown, Replies, App, SettingField, SettingsScreen, Screen, channel_list, timeline, compose,
  create, settings, Next, stays, enters, panics, log_call, new_settings, new_compose,
  on_new_message, on_enter,
}

-- `append(buf[:cursor-1], buf[cursor:]...)`, and the insertion of one rune
unfoldable pub delete_before : List ℕ → ℕ → Option (List ℕ)
delete_before buf cursor =
    if leb cursor (length buf) then some (take (cursor - 1) buf ++ drop cursor buf) else none

unfoldable pub insert_at : ℕ → List ℕ → ℕ → Option (List ℕ)
insert_at key buf cursor =
    if leb cursor (length buf) then some (take cursor buf ++ key ∷ drop cursor buf) else none

abbrev pub edited : (List ℕ → ℕ → Screen) → Option (List ℕ) → ℕ → App → Next
edited screen none cursor app = panics
edited screen (some buf) cursor app = stays (screen buf cursor) app

abbrev pub backspace : (List ℕ → ℕ → Screen) → List ℕ → ℕ → App → Next
backspace screen buf zero app = stays (screen buf zero) app
backspace screen buf (suc i) app = edited screen (delete_before buf (suc i)) i app

abbrev pub with_channel : Option Channel → (Channel → Next) → Next
with_channel none f = panics
with_channel (some c) f = f c

abbrev pub stay_in : Screen × App → Next
stay_in (s, app) = stays s app

abbrev pub is_zero : ℤ → Bool
is_zero (pos zero) = true
is_zero (pos (suc n)) = false
is_zero (negsuc n) = false

-- `d` in the list of channels
unfoldable pub delete_selected : Replies → ℕ → ℕ → App → Channel → Next
delete_selected r selected scroll app c =
    if is_zero c.message_count
    then stay_in (
        on_enter r (channel_list selected scroll) (
          log_call (delete_channel c.name)
            (record app { err = outcome (text "delete: ") [] r.delete_error })))
    else stays (channel_list selected scroll)
        (record app { err = text "can't delete: has messages" })

unfoldable pub list_key : Replies → ℕ → ℕ → ℕ → App → Next
unfolding delete_selected
list_key r key selected scroll app =
    if key == b's'
    then enters (settings new_settings) app
    else if key == b'n'
    then enters (create [] 0) app
    else if key == b'd' && ltb 0 (length app.channels)
    then with_channel (get_elem? app.channels selected) (delete_selected r selected scroll app)
    else stays (channel_list selected scroll) app

-- `ChannelListScreen.HandleKey`
unfoldable pub channel_list_key : Replies → KeyEvent → ℕ → ℕ → App → Next
channel_list_key r ev selected scroll app = elim ev.code [
  | key_enter ↦
      if ltb 0 (length app.channels)
      then with_channel (get_elem? app.channels selected)
          (λ c. enters (timeline 0) (record app { channel = c.name }))
      else list_key r ev.key selected scroll app
  | _ ↦ list_key r ev.key (move ev.code (length app.channels) selected) scroll app
]

-- `TimelineScreen.HandleKey`
unfoldable pub timeline_key : KeyEvent → ℕ → App → Next
timeline_key ev scroll app = elim ev.code [
  | key_back ↦ enters (channel_list 0 0) app
  | _ ↦
      if ev.key == 0
      then stays (timeline (move ev.code (length app.messages) scroll)) app
      else enters (new_compose ev.key) app
]

abbrev pub author_of : App → Option Bytes
author_of app = if is_empty app.author then none else some app.author

abbrev pub type_rune : ℕ → List ℕ → ℕ → App → Next
type_rune key buf cursor app =
    if key == 0
    then stays (compose buf cursor) app
    else edited compose (insert_at key buf cursor) (suc cursor) app

-- `ComposeScreen.HandleKey`; `utf8` encodes runes.
unfoldable pub compose_key : (List ℕ → Bytes) → KeyEvent → List ℕ → ℕ → App → Next
compose_key utf8 ev buf cursor app = elim ev.code [
  | key_enter ↦ enters (timeline 0) (
      if is_empty buf
      then app
      else log_call (send_message app.channel (utf8 buf) (author_of app)) app)
  | key_back ↦ enters (timeline 0) app
  | key_backspace ↦ backspace compose buf cursor app
  | key_left ↦ stays (compose buf (cursor - 1)) app
  | key_right ↦ stays (compose buf (if ltb cursor (length buf) then suc cursor else cursor)) app
  | _ ↦ type_rune ev.key buf cursor app
]

abbrev pub lower_rune : ℕ → ℕ
lower_rune r = if leb b'A' r && leb r b'Z' then r + 32 else r

abbrev pub is_name_rune : ℕ → Bool
is_name_rune r = (leb b'a' r && leb r b'z') || (leb b'0' r && leb r b'9') || r == b'-' || r == b'_'

abbrev pub type_name : ℕ → List ℕ → ℕ → App → Next
type_name key buf cursor app =
    if not (key == 0) && not (key == b' ') && is_name_rune (lower_rune key)
    then edited create (insert_at (lower_rune key) buf cursor) (suc cursor) app
    else stays (create buf cursor) app

-- `CreateChannelScreen.HandleKey`
unfoldable pub create_key : (List ℕ → Bytes) → Replies → KeyEvent → List ℕ → ℕ → App → Next
create_key utf8 r ev buf cursor app = elim ev.code [
  | key_enter ↦ enters (channel_list 0 0) (
      if is_empty buf
      then app
      else log_call (create_channel (utf8 buf))
          (record app { err = outcome (text "create: ") [] r.create_error }))
  | key_back ↦ enters (channel_list 0 0) app
  | key_backspace ↦ backspace create buf cursor app
  | _ ↦ type_name ev.key buf cursor app
]

module _ (utf8 : List ℕ → Bytes) where
  unfoldable pub handle_key : Replies → KeyEvent → Screen → App → Next
  handle_key r ev (channel_list selected scroll) app = channel_list_key r ev selected scroll app
  handle_key r ev (timeline scroll) app = timeline_key ev scroll app
  handle_key r ev (compose buf cursor) app = compose_key utf8 ev buf cursor app
  handle_key r ev (create buf cursor) app = create_key utf8 r ev buf cursor app
  handle_key r ev (settings s) app = settings_key r ev s app

-- How `Render` keeps the selected one of the items in sight.
unfoldable pub scroll_to : ℕ → ℕ → ℕ → ℕ
scroll_to visible selected scroll =
    let s = if ltb selected scroll then selected else scroll in
    if leb (s + visible) selected then selected - visible + 1 else s

-- the room for channels and for settings on a screen of 240 lines
unfoldable pub rendered : Screen → Screen
unfolding scroll_to
rendered (channel_list selected scroll) = channel_list selected (scroll_to 12 selected scroll)
rendered (settings s) =
    if is_empty s.fields
    then settings s
    else settings (record s { scroll = scroll_to 10 s.selected s.scroll })
rendered (timeline scroll) = timeline scroll
rendered (compose buf cursor) = compose buf cursor
rendered (create buf cursor) = create buf cursor

-- the elements that a loop of `Render` indexes from `i` on, at most `rows` of them
unfoldable pub read_rows : {A : Type 0} → ℕ → ℕ → List A → Option (List A)
read_rows zero i xs = some []
read_rows (suc rows) i xs =
    let rest = read_rows rows (suc i) xs in
    if ltb i (length xs) then (get_elem? xs i >>= λ x. rest >>= λ ys. some (x ∷ ys)) else some []

-- What `Render` indexes on the screen, once it has scrolled: 12 channels and 10 settings fit, and at
-- most 14 messages, of 17 lines or more. The other screens slice their text at a cursor that they
-- have compared with its length.
unfoldable pub draw_rows : Screen × App → Option (Screen × App)
draw_rows (channel_list selected scroll, app) =
    read_rows 12 scroll app.channels >>= λ rows. some (channel_list selected scroll, app)
draw_rows (timeline scroll, app) =
    read_rows 14 scroll app.messages >>= λ rows. some (timeline scroll, app)
draw_rows (settings s, app) = read_rows 10 s.scroll s.fields >>= λ rows. some (settings s, app)
draw_rows (compose buf cursor, app) = some (compose buf cursor, app)
draw_rows (create buf cursor, app) = some (create buf cursor, app)

-- what the main loop reacts to
pub data Event : Type 0 where
  pressed : KeyEvent → Replies → Event
  arrived : Message → Event
  drawn : Event

abbrev pub enter_next : Replies → Next → Option (Screen × App)
enter_next r (stays s app) = some (s, app)
enter_next r (enters s app) = some (on_enter r s app)
enter_next r panics = none

module _ (utf8 : List ℕ → Bytes) where
  unfoldable pub step : Event → Screen × App → Option (Screen × App)
  step (pressed ev r) (s, app) = enter_next r (handle_key utf8 r ev s app)
  step (arrived m) (s, app) = some (s, on_new_message m app)
  step drawn (s, app) = draw_rows (rendered s, app)

  -- The main loop; `none` when an index is out of range.
  unfoldable pub run : List Event → Screen × App → Option (Screen × App)
  run [] u = some u
  run (e ∷ es) u = step e u >>= λ v. run es v
