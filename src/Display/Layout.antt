-- ===== src/Display/Layout.antt =====
-- cmd/rfmp-display/ui.go, colors.go: the parts that the screens share, and the two screens that
-- only show what is typed. A drawing is the list of its calls. What the screens ask of the
-- packages time and utf8 is an argument.
use rfmpd.Base.{
  Bool, Bytes, List, Option, [], drop, if◌then◌else◌, is_empty, leb, length, ltb, replicate, take,
  ℕ, ◌*◌, ◌++◌, ◌+◌, ◌-◌, ◌∷◌,
}
use rfmpd.Base.Int.{ℤ, pos, negsuc}
use rfmpd.Text.{text, itoa}
use rfmpd.Message.Timestamp.{Civil}
use rfmpd.Display.{App}
use rfmpd.Display.Framebuffer.{Draw, rect, line, string, wrapped}

-- the colours of colors.go
abbrev pub black : ℕ
black = 0x0000

abbrev pub white : ℕ
white = 0xFFFF

abbrev pub blue : ℕ
blue = 0x1E9F

abbrev pub dark_gray : ℕ
dark_gray = 0x2104

abbrev pub light_gray : ℕ
light_gray = 0xC618

abbrev pub green : ℕ
green = 0x07E0

abbrev pub red : ℕ
red = 0xF800

-- What the screens ask of the packages time and utf8; a time has the fields of its own zone.
pub record Surroundings : Type 0 where
  pub runes : Bytes → ℕ
  pub utf8 : List ℕ → Bytes
  pub parse_rfc3339 : Bytes → Option Civil
  pub today : Civil

-- the integer `a - b`
abbrev pub minus : ℕ → ℕ → ℤ
minus a b = if leb b a then pos (a - b) else negsuc (b - a - 1)

-- `%-*s` and `%*d`
abbrev pub pad_right : ℕ → ℕ → Bytes → Bytes
pad_right width n s = s ++ replicate (width - n) b' '

abbrev pub pad_left : ℕ → Bytes → Bytes
pad_left width s = replicate (width - length s) b' ' ++ s

-- `renderStatusBar`; the label is cut at 38 bytes.
unfoldable pub render_status_bar : Bool → App → List Draw
render_status_bar connected app =
    rect (pos 0) (pos 0) 320 16 dark_gray
    ∷ string (pos 4) (pos 0)
        (take 38 (if is_empty app.channel then text "RFMP" else text "# " ++ app.channel)) white
        dark_gray
    ∷ rect (pos 308) (pos 4) 8 8 (if connected then green else red)
    ∷ []

-- the title of a screen and the line under it, `gap` pixels below
abbrev pub heading : Bytes → ℕ → List Draw
heading title y = string (pos 4) (pos 20) title blue black ∷ line (pos 0) (pos y) 320 dark_gray ∷ []

-- `ComposeScreen.Render`
unfoldable pub render_compose : Surroundings → List ℕ → ℕ → List Draw
unfolding itoa
render_compose env buf cursor =
    let shown =
      if ltb cursor (length buf)
      then env.utf8 (take cursor buf) ++ (b'_' ∷ env.utf8 (drop cursor buf))
      else env.utf8 buf ++ (b'_' ∷ []) in
    let counter = itoa (pos (length buf)) in
    heading (text "Compose") 40
    ++ wrapped (pos 4) (pos 44) 312 shown white black
      ∷ string (minus 320 ((length counter + 1) * 8)) (pos 224) counter light_gray black
      ∷ string (pos 4) (pos 224) (text "Enter:send Esc:cancel") light_gray black
      ∷ []

-- `CreateChannelScreen.Render`
unfoldable pub render_create : Surroundings → List ℕ → List Draw
render_create env buf =
    heading (text "New Channel") 40
    ++ string (pos 4) (pos 48) (text "Name:") light_gray black
      ∷ string (pos 4) (pos 68) (env.utf8 buf ++ (b'_' ∷ [])) white black
      ∷ string (pos 4) (pos 224) (text "Enter:create Esc:cancel") light_gray black
      ∷ []
