-- ===== src/Display/Headers.antt =====
-- The first message of a timeline: its header, and what is drawn below and beside it.
use rfmpd.Base.{
  All, All-append, All-mono, Bool, Bool-cases, List, [], arith, false, get_elem?, if◌then◌else◌,
  inl, inr, leb, length, ltb, refl, some, subst, take, true, ℕ, ◌*◌, ◌++◌, ◌+◌, ◌-◌, ◌∷◌, ◌≡◌, ◌≤◌,
}
use rfmpd.Base.Int.{pos}
use rfmpd.Display.{Message}
use rfmpd.Display.Framebuffer.{Draw, string, wrapped, line}
use rfmpd.Display.Placing.{From, Leaves, Draws}
use rfmpd.Display.Layout.{black, white, blue, dark_gray, light_gray, Surroundings}
use rfmpd.Display.Timeline.{
  format_time, line_count, shown_author, message_header, render_message, message_rows,
}

-- the column of the time of a message, 0 if it has no room
abbrev pub time_column : Surroundings → Message → ℕ
time_column env m = 320 - (length (format_time env m.timestamp) + 1) * 8

pub if-All : (Q : Draw → Type 0) (b : Bool) (d : Draw) → Q d → All Q (if b then d ∷ [] else [])
if-All Q true d h = (h, tt)
if-All Q false d h = tt

message_header-From :
    (env : Surroundings) (to y : ℕ) (m : Message) → to ≤ y → All (From to) (message_header env y m)
unfolding message_header
message_header-From env to y m h =
    let time = format_time env m.timestamp in
    let x = time_column env m in
    (h, if-All (From to) (ltb 0 x) (string (pos x) (pos y) time light_gray black) h)

render_message-From :
    (env : Surroundings) (to y : ℕ) (m : Message)
    → to ≤ y
    → All (From to) (render_message env y m).0 × (y ≤ (render_message env y m).1)
unfolding render_message
render_message-From env to y m h =
    let top : All (From to) (line (pos 0) (pos y) 320 dark_gray ∷ message_header env (y + 1) m) =
      (h, message_header-From env to (y + 1) m (omega (arith, h))) in
    elim (Bool-cases (leb 240 y)) [
      | inl e ↦ rw e (tt, omega arith)
      | inr e ↦ elim (Bool-cases (leb 240 (y + 17))) [
        | inl f ↦ rw (e, f) (top, omega arith)
        | inr f ↦
            let body : All (From to) (wrapped (pos 4) (pos (y + 17)) 312 m.body white black ∷ []) =
              (omega (arith, h), tt) in
            rw (e, f)
              (
                All-append (From to)
                    (line (pos 0) (pos y) 320 dark_gray ∷ message_header env (y + 1) m)
                    (wrapped (pos 4) (pos (y + 17)) 312 m.body white black ∷ []) top body,
                omega arith,
              )
      ]
    ]

message_rows-From :
    (env : Surroundings) (to y : ℕ) (ms : List Message)
    → to ≤ y
    → All (From to) (message_rows env y ms)
unfolding message_rows
message_rows-From env to y [] h = tt
message_rows-From env to y (m ∷ ms) h =
    let r = render_message-From env to y m h in
    let rest = message_rows-From env to (render_message env y m).1 ms (omega (arith, h, r.1)) in
    elim (Bool-cases (ltb y 240)) [
      | inl e ↦ rw e (
          All-append (From to) (render_message env y m).0
            (message_rows env (render_message env y m).1 ms) r.0 rest)
      | inr e ↦ rw e tt
    ]

message_rows-first :
    (env : Surroundings) (m : Message) (ms : List Message)
    → Draws 17 33
        (time_column env m)
        (take 32 (shown_author m))
        blue
        black
        (message_rows env 16 (m ∷ ms))
unfolding message_rows render_message message_header
message_rows-first env m ms =
    let Q = Leaves 17 33 (time_column env m) in
    let x = time_column env m in
    let time = string (pos x) (pos 17) (format_time env m.timestamp) light_gray black in
    let body = wrapped (pos 4) (pos 33) 312 m.body white black in
    let rest = message_rows env (33 + line_count 33 (0, 0) m.body * 16 + 2) ms in
    let below : All Q rest =
      All-mono rest (λ d k. inl k)
        (message_rows-From env 33 (33 + line_count 33 (0, 0) m.body * 16 + 2) ms (omega arith)) in
    let time_row = if ltb 0 x then time ∷ [] else [] in
    let beside : All Q time_row = if-All Q (ltb 0 x) time (inr (inl (omega arith))) in
    inr (
      inl (
        refl,
        All-append Q (time_row ++ body ∷ []) rest
            (All-append Q time_row (body ∷ []) beside (inl (omega arith), tt)) below,
      ))

pub message_rows-head :
    (env : Surroundings) (ms : List Message) (m : Message)
    → get_elem? ms 0 ≡ some m
    → Draws 17 33 (time_column env m) (take 32 (shown_author m)) blue black (message_rows env 16 ms)
message_rows-head env [] m e = absurd (cc)
message_rows-head env (q ∷ ms) m e =
    let p : m ≡ q = cc in
    subst
      (λ z.
        Draws 17 33 (time_column env m) (take 32 (shown_author m)) blue black
          (message_rows env 16 (z ∷ ms)))
      p (message_rows-first env m ms)
