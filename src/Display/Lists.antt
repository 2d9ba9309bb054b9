-- ===== src/Display/Lists.antt =====
-- cmd/rfmp-display/ui_channels.go, ui_settings.go: what the lists of channels and of settings draw.
use rfmpd.Base.{
  Bool, Bytes, List, [], drop, false, if◌then◌else◌, is_empty, leb, suc, take, true, ℕ, ◌&&◌, ◌++◌,
  ◌+◌, ◌==◌, ◌∷◌,
}
use rfmpd.Base.Int.{pos}
use rfmpd.Text.{text, itoa}
use rfmpd.Display.{Channel, App, SettingField, SettingsScreen}
use rfmpd.Display.Framebuffer.{Draw, rect, string, wrapped}
use rfmpd.Display.Layout.{
  black, white, dark_gray, light_gray, green, red, Surroundings, pad_right, pad_left, heading,
}

-- a row of a list: the bar behind the selected one, and the text
abbrev pub row : Bool → ℕ → Bytes → ℕ → List Draw
row true y label fg =
    rect (pos 0) (pos y) 320 16 dark_gray ∷ string (pos 4) (pos y) (take 40 label) fg dark_gray ∷ []
row false y label fg = string (pos 4) (pos y) (take 40 label) fg black ∷ []

-- an error over two lines, if there is one
abbrev pub error_lines : ℕ → Bytes → List Draw
error_lines y [] = []
error_lines y (c ∷ cs) = wrapped (pos 4) (pos y) 312 (c ∷ cs) red black ∷ []

unfoldable pub channel_label : Surroundings → Channel → Bytes
unfolding itoa
channel_label env c =
    text "# "
    ++ (pad_right 20 (env.runes c.name) c.name ++ (b' ' ∷ pad_left 3 (itoa c.message_count)))

-- the loop over the channels from the scroll position on
unfoldable pub channel_rows : Surroundings → ℕ → ℕ → ℕ → List Channel → List Draw
channel_rows env selected i y [] = []
channel_rows env selected i y (c ∷ cs) =
    let rest = channel_rows env selected (suc i) (y + 16) cs in
    if leb (y + 16) 240 then row (i == selected) y (channel_label env c) white ++ rest else []

-- `ChannelListScreen.Render`, once it has scrolled
unfoldable pub render_channels : Surroundings → ℕ → ℕ → App → List Draw
unfolding channel_rows
render_channels env selected scroll app =
    heading (text "Channels") 40
    ++ (channel_rows env selected scroll 42 (drop scroll app.channels)
        ++ ((if is_empty app.channels
              then string (pos 4) (pos 42) (text "No channels found") light_gray black ∷ []
              else [])
            ++ (error_lines 208 app.err
                ++ string (pos 4) (pos 224) (text "n:new d:del s:settings") light_gray black ∷ [])))

-- a field, the selected one with what is typed while it is edited
abbrev pub field_value : Bool → Bytes → SettingField → Bytes × ℕ
field_value true buf f = (buf ++ (b'_' ∷ []), green)
field_value false buf f = (f.value, white)

unfoldable pub field_row : Surroundings → SettingsScreen → ℕ → ℕ → SettingField → List Draw
field_row env s i y f =
    let v = field_value (i == s.selected && s.editing) s.edit_buf f in
    row (i == s.selected) y (pad_right 15 (env.runes f.label) f.label ++ (b' ' ∷ v.0)) v.1

unfoldable pub field_rows : Surroundings → SettingsScreen → ℕ → ℕ → List SettingField → List Draw
unfolding field_row
field_rows env s i y [] = []
field_rows env s i y (f ∷ fs) =
    let rest = field_rows env s (suc i) (y + 16) fs in
    if leb (y + 16) 208 then field_row env s i y f ++ rest else []

-- `SettingsScreen.Render`, once it has scrolled
unfoldable pub render_settings : Surroundings → SettingsScreen → App → List Draw
unfolding field_rows
render_settings env s app =
    heading (text "Settings") 40
    ++ (if is_empty s.fields
        then string (pos 4) (pos 42) (text "Loading...") light_gray black ∷ error_lines 62 app.err
        else field_rows env s s.scroll 42 (drop s.scroll s.fields)
          ++ (error_lines 208 app.err
              ++ string (pos 4) (pos 224)
                  (if s.editing
                    then text "Enter:done Bk:cancel"
                    else text "Enter:edit Bk:back S:save P:shutdown")
                  light_gray black
                ∷ []))
