-- ===== src/Display/Running.antt =====
-- The main loop of the pager over any run of events.
use rfmpd.Base.{
  Bool, Bool-cases, Bytes, List, Option, [], arith, false, if◌then◌else◌, inl, inr, is_empty,
  length, ltb, ltb→lt, none, refl, some, suc, true, zero, ℕ, ◌+◌, ◌-◌, ◌<◌, ◌>>=◌, ◌∷◌, ◌≡◌, ◌≤◌,
}
use rfmpd.Display.{
  KeyEvent, Message, Replies, App, Screen, channel_list, timeline, compose, create, settings, Next,
  stays, enters, panics, on_new_message,
}
use rfmpd.Display.Screens.{
  read_rows, draw_rows, handle_key, rendered, Event, pressed, arrived, drawn, enter_next, step, run,
  scroll_to,
}
use rfmpd.Display.Selecting.{get_elem_some, IsUi, IsNext, on_enter-IsUi, channel_list_key-IsNext}
use rfmpd.Display.Adjusting.{settings_key-IsNext}
use rfmpd.Display.Editing.{timeline_key-IsNext, compose_key-IsNext, create_key-IsNext}

-- a result that is there, and a screen as it should be
abbrev IsStep : Option (Screen × App) → Type 0
IsStep none = ⊥
IsStep (some u) = IsUi u.0 u.1

on_new_message-length :
    (m : Message) (app : App) → length app.messages - 1 ≤ length (on_new_message m app).messages - 1
unfolding on_new_message
on_new_message-length m app = ground arith

on_new_message-channels : (m : Message) (app : App) → (on_new_message m app).channels ≡ app.channels
unfolding on_new_message
on_new_message-channels m app = ground arith

-- How far down the list the selected item is, once `Render` has scrolled.
pub scroll_to-bounds :
    (visible selected scroll : ℕ)
    → 0 < visible
    → (scroll_to visible selected scroll ≤ selected)
      × (selected < scroll_to visible selected scroll + visible)
unfolding scroll_to
scroll_to-bounds visible selected scroll h = ground arith

-- The selected one of a list is among the rows from the scroll position on that fit.
abbrev pub IsInView : Screen → Type 0
IsInView (channel_list selected scroll) = (scroll ≤ selected) × (selected < scroll + 12)
IsInView (settings s) =
    is_empty s.fields ≡ false → (s.scroll ≤ s.selected) × (s.selected < s.scroll + 10)
IsInView (timeline scroll) = Unit
IsInView (compose buf cursor) = Unit
IsInView (create buf cursor) = Unit

rendered-IsInView : (s : Screen) → IsInView (rendered s)
unfolding rendered
rendered-IsInView (channel_list selected scroll) = scroll_to-bounds 12 selected scroll (omega arith)
rendered-IsInView (timeline scroll) = tt
rendered-IsInView (compose buf cursor) = tt
rendered-IsInView (create buf cursor) = tt
rendered-IsInView (settings s) = elim (Bool-cases (is_empty s.fields)) [
  | inl e ↦ rw e (λ f. absurd (cc))
  | inr e ↦ rw e (λ f. scroll_to-bounds 10 s.selected s.scroll (omega arith))
]

read_rows-some :
    {A : Type 0} (rows i : ℕ) (xs : List A) → (ys : List A) × (read_rows rows i xs ≡ some ys)
unfolding read_rows
read_rows-some zero i xs = ([], refl)
read_rows-some (suc rows) i xs = elim (Bool-cases (ltb i (length xs))) [
  | inl e ↦
      let (x, p) = get_elem_some xs i (ltb→lt i (length xs) e) in
      let (ys, q) = read_rows-some rows (suc i) xs in (x ∷ ys, rw (e, p, q) refl)
  | inr e ↦ ([], rw e refl)
]

-- No loop of `Render` indexes out of range, wherever it starts.
pub draw_rows-some : (s : Screen) (app : App) → draw_rows (s, app) ≡ some (s, app)
unfolding draw_rows
draw_rows-some (channel_list selected scroll) app =
    rw (read_rows-some 12 scroll app.channels).1 refl
draw_rows-some (timeline scroll) app = rw (read_rows-some 14 scroll app.messages).1 refl
draw_rows-some (settings s) app = rw (read_rows-some 10 s.scroll s.fields).1 refl
draw_rows-some (compose buf cursor) app = refl
draw_rows-some (create buf cursor) app = refl

arrived-IsUi : (m : Message) (s : Screen) (app : App) → IsUi s app → IsUi s (on_new_message m app)
arrived-IsUi m (channel_list selected scroll) app h = rw (on_new_message-channels m app) h
arrived-IsUi m (timeline scroll) app h = omega (arith, on_new_message-length m app, h)
arrived-IsUi m (compose buf cursor) app h = h
arrived-IsUi m (create buf cursor) app h = h
arrived-IsUi m (settings s) app h = h

rendered-IsUi : (s : Screen) (app : App) → IsUi s app → IsUi (rendered s) app
unfolding rendered
rendered-IsUi (channel_list selected scroll) app h = h
rendered-IsUi (timeline scroll) app h = h
rendered-IsUi (compose buf cursor) app h = h
rendered-IsUi (create buf cursor) app h = h
rendered-IsUi (settings s) app h = split (is_empty s.fields)
  where
    split :
        (b : Bool)
        → IsUi
            (if b
              then settings s
              else settings (record s { scroll = scroll_to 10 s.selected s.scroll }))
            app
    split true = h
    split false = h

enter_next-IsStep : (r : Replies) (n : Next) → IsNext n → IsStep (enter_next r n)
enter_next-IsStep r (stays s app) h = h
enter_next-IsStep r (enters s app) h = on_enter-IsUi r s app h
enter_next-IsStep r panics h = h

module _ (utf8 : List ℕ → Bytes) where
  handle_key-IsNext :
      (r : Replies) (ev : KeyEvent) (s : Screen) (app : App)
      → IsUi s app
      → IsNext (handle_key utf8 r ev s app)
  unfolding handle_key
  handle_key-IsNext r ev (channel_list selected scroll) app h =
      channel_list_key-IsNext r ev selected scroll app h
  handle_key-IsNext r ev (timeline scroll) app h = timeline_key-IsNext ev.key ev.code scroll app h
  handle_key-IsNext r ev (compose buf cursor) app h =
      compose_key-IsNext utf8 ev.key ev.code buf cursor app h
  handle_key-IsNext r ev (create buf cursor) app h =
      create_key-IsNext utf8 r ev.key ev.code buf cursor app h
  handle_key-IsNext r ev (settings s) app h = settings_key-IsNext r ev s app h

  step-IsStep : (e : Event) (u : Screen × App) → IsUi u.0 u.1 → IsStep (step utf8 e u)
  unfolding step
  step-IsStep (pressed ev r) (s, app) h =
      enter_next-IsStep r (handle_key utf8 r ev s app) (handle_key-IsNext r ev s app h)
  step-IsStep (arrived m) (s, app) h = arrived-IsUi m s app h
  step-IsStep drawn (s, app) h = rw (draw_rows-some (rendered s) app) (rendered-IsUi s app h)

  -- From a screen whose selection, or the first message of the timeline, and cursor are in range, no
  -- run of keys, messages and redraws indexes a list or a text out of its range, whatever the
  -- daemon answers. At its end they are in range again, and the next redraw scrolls a list of
  -- channels or of settings so that the selected one is among the rows that fit, however the
  -- list has changed.
  pub run-IsUi :
      (es : List Event) (s : Screen) (app : App)
      → IsUi s app
      → (v : Screen × App) × (run utf8 es (s, app) ≡ some v)
        × IsUi v.0 v.1
        × IsInView (rendered v.0)
  unfolding run
  run-IsUi [] s app h = ((s, app), refl, h, rendered-IsInView s)
  run-IsUi (e ∷ es) s app h = go (step utf8 e (s, app)) (step-IsStep e (s, app) h) (run-IsUi es)
    where
      go :
          (o : Option (Screen × App))
          → IsStep o
          → ((t : Screen) (a : App)
              → IsUi t a
              → (v : Screen × App) × (run utf8 es (t, a) ≡ some v)
                × IsUi v.0 v.1
                × IsInView (rendered v.0))
          → (v : Screen × App) × ((o >>= λ u. run utf8 es u) ≡ some v)
            × IsUi v.0 v.1
            × IsInView (rendered v.0)
      go none k rec = absurd k
      go (some (t, a)) k rec = rec t a k
