-- ===== src/Display/Showing.antt =====
-- What the current screen has in sight: the selected item of a list, and the first message.
use rfmpd.Base.{
  Bytes, List, Option, get_elem?, if◌then◌else◌, is_empty, none, some, take, ℕ, ◌+◌, ◌>>=◌, ◌≤◌,
}
use rfmpd.Display.{
  Channel, Message, App, SettingField, SettingsScreen, Screen, channel_list, timeline, compose,
  create, settings,
}
use rfmpd.Display.Framebuffer.{Draw}
use rfmpd.Display.Rows.{field_label}
use rfmpd.Display.Placing.{Draws, least}
use rfmpd.Display.Layout.{black, white, blue, dark_gray, Surroundings}
use rfmpd.Display.Lists.{channel_label}
use rfmpd.Display.Timeline.{shown_author}
use rfmpd.Display.Headers.{time_column}

-- What a screen shows first of all: the text, its colour and the one behind it, the ordinate that
-- its last line may reach, the ordinate from which on other parts of the screen may be drawn
-- over it, and the column from which on they may.
pub record Subject : Type 0 where
  pub label : Bytes
  pub colour : ℕ
  pub behind : ℕ
  pub low : ℕ
  pub clear : ℕ
  pub right : ℕ

-- where the error begins, or the help if there is no error
abbrev pub footer : Bytes → ℕ
footer err = if is_empty err then 224 else 208

abbrev pub channel_subject : Surroundings → App → Channel → Subject
channel_subject env app c = record {
  label = take 40 (channel_label env c);
  colour = white;
  behind = dark_gray;
  low = 240;
  clear = footer app.err;
  right = 320;
}

abbrev pub field_subject : Surroundings → SettingsScreen → SettingField → Subject
field_subject env s f = record {
  label = take 40 (field_label env s f).0;
  colour = (field_label env s f).1;
  behind = dark_gray;
  low = 208;
  clear = 208;
  right = 320;
}

abbrev pub message_subject : Surroundings → Message → Subject
message_subject env m = record {
  label = take 32 (shown_author m);
  colour = blue;
  behind = black;
  low = 33;
  clear = 33;
  right = time_column env m;
}

abbrev pub subject : Surroundings → Screen → App → Option Subject
subject env (channel_list selected scroll) app =
    get_elem? app.channels selected >>= λ c. some (channel_subject env app c)
subject env (timeline scroll) app =
    get_elem? app.messages scroll >>= λ m. some (message_subject env m)
subject env (settings s) app = get_elem? s.fields s.selected >>= λ f. some (field_subject env s f)
subject env (compose buf cursor) app = none
subject env (create buf cursor) app = none

-- The subject below the status bar, and not drawn over in its lines and columns.
abbrev pub InSight : Subject → List Draw → Type 0
InSight t ds =
    (y : ℕ) × (17 ≤ y)
    × (y + 16 ≤ t.low)
    × Draws y (least (y + 16) t.clear) t.right t.label t.colour t.behind ds
