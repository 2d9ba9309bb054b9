-- ===== src/Display/Selecting.antt =====
-- What is selected on the screens, and in the list of channels.
use rfmpd.Base.{
  Bool, Bytes, List, [], arith, false, get_elem?, if◌then◌else◌, inl, inr, length, ltb, refl, some,
  suc, true, zero, ℕ, ◌&&◌, ◌-◌, ◌<◌, ◌==◌, ◌∷◌, ◌≡◌, ◌≤◌, ◌⊎◌,
}
use rfmpd.Text.{text}
use rfmpd.Display.{
  enter_list, enter_timeline, enter_settings, ConfigData, log_call, delete_channel, Code, key_enter,
  key_back, key_backspace, key_up, key_down, key_left, key_right, key_sym, no_code, KeyEvent,
  Channel, Message, Replies, App, SettingsScreen, Screen, channel_list, timeline, compose, create,
  settings, Next, stays, enters, panics, new_settings, on_enter, outcome, move,
}
use rfmpd.Display.Screens.{
  is_zero, stay_in, with_channel, delete_selected, list_key, channel_list_key,
}

-- What is selected exists, if anything does; a cursor is inside its text; a field that is edited
-- exists.
abbrev pub IsSettings : SettingsScreen → Type 0
IsSettings s =
    (s.selected ≤ length s.fields - 1) × (s.editing ≡ true → s.selected < length s.fields)

abbrev pub IsUi : Screen → App → Type 0
IsUi (channel_list selected scroll) app = selected ≤ length app.channels - 1
IsUi (timeline scroll) app = scroll ≤ length app.messages - 1
IsUi (compose buf cursor) app = cursor ≤ length buf
IsUi (create buf cursor) app = cursor ≤ length buf
IsUi (settings s) app = IsSettings s

-- a screen that is about to be entered
abbrev pub IsNew : Screen → Type 0
IsNew (channel_list selected scroll) = Unit
IsNew (timeline scroll) = Unit
IsNew (compose buf cursor) = cursor ≤ length buf
IsNew (create buf cursor) = cursor ≤ length buf
IsNew (settings s) = (s.selected ≡ 0) × (s.editing ≡ false)

abbrev pub IsNext : Next → Type 0
IsNext (stays s app) = IsUi s app
IsNext (enters s app) = IsNew s
IsNext panics = ⊥

enter_list-IsUi :
    (c : Bytes ⊎ List Channel) (selected scroll : ℕ) (app : App)
    → IsUi (enter_list c selected scroll app).0 (enter_list c selected scroll app).1
enter_list-IsUi (inl e) selected scroll app = ground arith
enter_list-IsUi (inr cs) selected scroll app = ground arith

enter_timeline-IsUi :
    (c : Bytes ⊎ List Message) (app : App) → IsUi (enter_timeline c app).0 (enter_timeline c app).1
enter_timeline-IsUi (inl e) app = omega arith
enter_timeline-IsUi (inr cs) app = omega arith

enter_settings-IsUi :
    (c : Bytes ⊎ ConfigData) (s : SettingsScreen) (app : App)
    → s.selected ≡ 0
    → s.editing ≡ false
    → IsUi (enter_settings c s app).0 (enter_settings c s app).1
enter_settings-IsUi (inl e) s app h k = (omega (arith, h), λ q. absurd (cc))
enter_settings-IsUi (inr c) s app h k = (omega (arith, h), λ q. absurd (cc))

pub on_enter-IsUi :
    (r : Replies) (s : Screen) (app : App)
    → IsNew s
    → IsUi (on_enter r s app).0 (on_enter r s app).1
unfolding on_enter
on_enter-IsUi r (channel_list selected scroll) app h =
    enter_list-IsUi r.channels selected scroll app
on_enter-IsUi r (timeline scroll) app h = enter_timeline-IsUi r.messages app
on_enter-IsUi r (compose buf cursor) app h = h
on_enter-IsUi r (create buf cursor) app h = h
on_enter-IsUi r (settings s) app h = enter_settings-IsUi r.config s app h.0 h.1

pub move-le : (c : Code) (n i : ℕ) → i ≤ n - 1 → move c n i ≤ n - 1
unfolding move
move-le key_down n i h = ground arith
move-le key_up n i h = ground arith
move-le key_enter n i h = h
move-le key_back n i h = h
move-le key_backspace n i h = h
move-le key_left n i h = h
move-le key_right n i h = h
move-le key_sym n i h = h
move-le no_code n i h = h

pub get_elem_some {ℓ} :
    {A : Type ℓ} (xs : List A) (i : ℕ) → i < length xs → (a : A) × (get_elem? xs i ≡ some a)
get_elem_some [] i h = absurd (omega arith)
get_elem_some (x ∷ xs) zero h = (x, refl)
get_elem_some (x ∷ xs) (suc i) h = get_elem_some xs i (omega arith)

with_channel-IsNext :
    (cs : List Channel) (i : ℕ) (f : Channel → Next)
    → i ≤ length cs - 1
    → ltb 0 (length cs) ≡ true
    → ((c : Channel) → IsNext (f c))
    → IsNext (with_channel (get_elem? cs i) f)
with_channel-IsNext cs i f h k g = let (c, e) = get_elem_some cs i (ground arith) in rw e (g c)

delete_selected-IsNext :
    (r : Replies) (selected scroll : ℕ) (app : App) (c : Channel)
    → selected ≤ length app.channels - 1
    → IsNext (delete_selected r selected scroll app c)
unfolding delete_selected
delete_selected-IsNext r selected scroll app c h = split (is_zero c.message_count)
  where
    split :
        (t : Bool)
        → IsNext (
            if t
            then stay_in (
                on_enter r (channel_list selected scroll) (
                  log_call
                    (delete_channel c.name)
                    (record app { err = outcome (text "delete: ") [] r.delete_error })))
            else stays
                (channel_list selected scroll)
                (record app { err = text "can't delete: has messages" }))
    split true = unfold on_enter in enter_list-IsUi r.channels selected scroll _
    split false = h

list_key-IsNext :
    (r : Replies) (key selected scroll : ℕ) (app : App)
    → selected ≤ length app.channels - 1
    → IsNext (list_key r key selected scroll app)
unfolding list_key
list_key-IsNext r key selected scroll app h =
    split (key == b's') (key == b'n') (key == b'd') (ltb 0 (length app.channels)) refl
  where
    split :
        (a b c d : Bool)
        → ltb 0 (length app.channels) ≡ d
        → IsNext (
            if a
            then enters (settings new_settings) app
            else if b
            then enters (create [] 0) app
            else if c && d
            then with_channel
                (get_elem? app.channels selected)
                (delete_selected r selected scroll app)
            else stays (channel_list selected scroll) app)
    split true b c d e = (refl, refl)
    split false true c d e = omega arith
    split false false true true e =
        with_channel-IsNext app.channels selected (delete_selected r selected scroll app) h e
          (λ c. delete_selected-IsNext r selected scroll app c h)
    split false false true false e = h
    split false false false d e = h

pub channel_list_key-IsNext :
    (r : Replies) (ev : KeyEvent) (selected scroll : ℕ) (app : App)
    → selected ≤ length app.channels - 1
    → IsNext (channel_list_key r ev selected scroll app)
unfolding channel_list_key
channel_list_key-IsNext r ev selected scroll app h = split ev.code
  where
    moved :
        (c : Code) → IsNext (list_key r ev.key (move c (length app.channels) selected) scroll app)
    moved c =
        list_key-IsNext r ev.key (move c (length app.channels) selected) scroll app
          (move-le c (length app.channels) selected h)

    open_channel :
        (d : Bool)
        → ltb 0 (length app.channels) ≡ d
        → IsNext (
            if d
            then with_channel
                (get_elem? app.channels selected)
                (λ c. enters (timeline 0) (record app { channel = c.name }))
            else list_key r ev.key selected scroll app)
    open_channel true e =
        with_channel-IsNext app.channels selected
          (λ c. enters (timeline 0) (record app { channel = c.name })) h e (λ c. tt)
    open_channel false e = list_key-IsNext r ev.key selected scroll app h

    split : (c : Code) → IsNext (channel_list_key r (record ev { code = c }) selected scroll app)
    split key_enter = unfold channel_list_key in open_channel _ refl
    split key_back = unfold channel_list_key in moved key_back
    split key_backspace = unfold channel_list_key in moved key_backspace
    split key_up = unfold channel_list_key in moved key_up
    split key_down = unfold channel_list_key in moved key_down
    split key_left = unfold channel_list_key in moved key_left
    split key_right = unfold channel_list_key in moved key_right
    split key_sym = unfold channel_list_key in moved key_sym
    split no_code = unfold channel_list_key in moved no_code
