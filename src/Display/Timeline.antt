-- ===== src/Display/Timeline.antt =====
-- cmd/rfmp-display/ui_timeline.go: what the timeline draws.
use rfmpd.Base.{
  Bool, Bytes, List, Option, [], drop, false, if◌then◌else◌, is_empty, leb, length, ltb, none, some,
  suc, take, true, ℕ, ◌&&◌, ◌*◌, ◌++◌, ◌+◌, ◌-◌, ◌==◌, ◌∷◌,
}
use rfmpd.Base.Int.{pos}
use rfmpd.Text.{text, itoa}
use rfmpd.Message.Timestamp.{Time, Civil, civil, parse_timestamp, pad2}
use rfmpd.Display.{Message, App}
use rfmpd.Display.Framebuffer.{Draw, line, string, wrapped, next_place}
use rfmpd.Display.Layout.{black, white, blue, dark_gray, light_gray, Surroundings}

abbrev pub same_day : Civil → Civil → Bool
same_day a b = a.year == b.year && a.month == b.month && a.day == b.day

abbrev pub clock_text : Civil → Civil → Bytes
clock_text today c =
    let time = pad2 c.hour (b':' ∷ pad2 c.minute []) in
    if same_day c today
    then time
    else itoa (pos (c.month + 1)) ++ (b'/' ∷ (itoa (pos (c.day + 1)) ++ (b' ' ∷ time)))

abbrev pub or_layout : Option Civil → Option Time → Option Civil
or_layout (some c) o = some c
or_layout none none = none
or_layout none (some t) = some (civil t)

abbrev pub time_text : Civil → Bytes → Option Civil → Bytes
time_text today s none = s
time_text today s (some c) = clock_text today c

-- `formatTimestamp`
unfoldable pub format_time : Surroundings → Bytes → Bytes
unfolding itoa civil
format_time env s = time_text env.today s (or_layout (env.parse_rfc3339 s) (parse_timestamp s))

-- how many lines `DrawStringWrap` says that it has drawn from the ordinate `y` on
unfoldable pub line_count : ℕ → ℕ × ℕ → Bytes → ℕ
line_count y place [] = suc place.1
line_count y place (ch ∷ cs) =
    let p = next_place ch 39 place in
    elim (ch == b'\n') [
      | true ↦ line_count y p cs
      | false ↦ elim (ltb 240 (y + (16 * p.1 + 16))) [
        | true ↦ suc p.1
        | false ↦ line_count y (suc p.0, p.1) cs
      ]
    ]

abbrev pub shown_author : Message → Bytes
shown_author m = elim m.author [
  | none ↦ m.from_node
  | some a ↦ if is_empty a then m.from_node else a
]

-- the line of a message with its author and its time
unfoldable pub message_header : Surroundings → ℕ → Message → List Draw
unfolding format_time
message_header env y m =
    let time = format_time env m.timestamp in
    let x = 320 - (length time + 1) * 8 in
    string (pos 4) (pos y) (take 32 (shown_author m)) blue black
    ∷ (if ltb 0 x then string (pos x) (pos y) time light_gray black ∷ [] else [])

-- `renderMessage`, with the ordinate behind the message
unfoldable pub render_message : Surroundings → ℕ → Message → List Draw × ℕ
unfolding message_header line_count
render_message env y m =
    if leb 240 y
    then ([], y)
    else (let top = line (pos 0) (pos y) 320 dark_gray ∷ message_header env (y + 1) m in
        if leb 240 (y + 17) then (top, y + 17) else (
          top ++ wrapped (pos 4) (pos (y + 17)) 312 m.body white black ∷ [],
          y + 17 + line_count (y + 17) (0, 0) m.body * 16 + 2,
        ))

unfoldable pub message_rows : Surroundings → ℕ → List Message → List Draw
unfolding render_message
message_rows env y [] = []
message_rows env y (m ∷ ms) =
    let r = render_message env y m in
    let rest = message_rows env r.1 ms in if ltb y 240 then r.0 ++ rest else []

-- `TimelineScreen.Render`
unfoldable pub render_timeline : Surroundings → ℕ → App → List Draw
unfolding message_rows
render_timeline env scroll app =
    if is_empty app.messages
    then string (pos 4) (pos 32) (text "No messages yet") light_gray black
      ∷ string (pos 4) (pos 48) (text "Press any key to compose") light_gray black
      ∷ []
    else message_rows env 16 (drop scroll app.messages)
