-- ===== src/Display/Adjusting.antt =====
-- The settings: the field that is edited is there.
use rfmpd.Base.{
  Bool, Bytes, List, Option, [], ap, arith, false, get_elem?, if◌then◌else◌, leb, length, ltb, none,
  refl, some, suc, true, zero, ℕ, ◌&&◌, ◌++◌, ◌<◌, ◌==◌, ◌||◌, ◌∷◌, ◌≡◌,
}
use rfmpd.Display.{
  Code, key_enter, key_back, key_backspace, key_up, key_down, key_left, key_right, key_sym, no_code,
  KeyEvent, Replies, App, SettingField, SettingsScreen, settings, stays, move,
}
use rfmpd.Display.Screens.{
  settings_letter, start_editing, type_value, shut_down, select_key, set_value, store_value,
  edit_key, settings_key, save,
}
use rfmpd.Display.Selecting.{IsSettings, IsNext, move-le}
use rfmpd.Display.Editing.{if-IsNext}

get_elem_lt {ℓ} :
    {A : Type ℓ} (xs : List A) (i : ℕ) (a : A) → get_elem? xs i ≡ some a → i < length xs
get_elem_lt [] i a h = absurd (cc)
get_elem_lt (x ∷ xs) zero a h = omega arith
get_elem_lt (x ∷ xs) (suc i) a h = omega (arith, get_elem_lt xs i a h)

set_value-length :
    (v : Bytes) (fs : List SettingField) (i : ℕ)
    → i < length fs
    → (gs : List SettingField) × (set_value v fs i ≡ some gs) × (length gs ≡ length fs)
unfolding set_value
set_value-length v [] i h = absurd (omega arith)
set_value-length v (f ∷ fs) zero h = (_, refl, refl)
set_value-length v (f ∷ fs) (suc i) h =
    let (gs, e, n) = set_value-length v fs i (omega arith) in (f ∷ gs, rw e, ap suc n)

store_value-IsNext :
    (s : SettingsScreen) (app : App)
    → s.selected < length s.fields
    → IsNext (store_value (set_value s.edit_buf s.fields s.selected) s app)
store_value-IsNext s app h =
    let (gs, e, n) = set_value-length s.edit_buf s.fields s.selected h in
    rw e (omega (arith, n), λ q. omega (arith, n))

type_value-IsNext :
    (key : ℕ) (s : SettingsScreen) (app : App)
    → s.selected < length s.fields
    → IsNext (type_value key s app)
type_value-IsNext key s app h =
    if-IsNext (leb 32 key && ltb key 127)
      (stays (settings (record s { edit_buf = s.edit_buf ++ key ∷ [] })) app)
      (stays (settings s) app) (omega arith, λ q. h) (omega arith, λ q. h)

edit_key-IsNext :
    (key : ℕ) (c : Code) (s : SettingsScreen) (app : App)
    → s.selected < length s.fields
    → IsNext (edit_key (record { key = key; code = c }) s app)
unfolding edit_key
edit_key-IsNext key key_enter s app h = store_value-IsNext s app h
edit_key-IsNext key key_back s app h = (omega arith, λ q. h)
edit_key-IsNext key key_backspace s app h = (omega arith, λ q. h)
edit_key-IsNext key key_left s app h = type_value-IsNext key s app h
edit_key-IsNext key key_right s app h = type_value-IsNext key s app h
edit_key-IsNext key key_up s app h = type_value-IsNext key s app h
edit_key-IsNext key key_down s app h = type_value-IsNext key s app h
edit_key-IsNext key key_sym s app h = type_value-IsNext key s app h
edit_key-IsNext key no_code s app h = type_value-IsNext key s app h

settings_letter-IsNext :
    (r : Replies) (key : ℕ) (s : SettingsScreen) (app : App)
    → IsSettings s
    → IsNext (settings_letter r key s app)
unfolding settings_letter
settings_letter-IsNext r key s app h =
    if-IsNext (key == b's' || key == b'S') (stays (settings s) (save r s.fields app))
      (if key == b'p' || key == b'P'
        then stays (settings s) (shut_down r app)
        else stays (settings s) app)
      h
      (if-IsNext (key == b'p' || key == b'P') (stays (settings s) (shut_down r app))
        (stays (settings s) app) h h)

start_editing-IsSettings :
    (s : SettingsScreen) (f : Option SettingField)
    → get_elem? s.fields s.selected ≡ f
    → IsSettings s
    → IsSettings (start_editing f s)
start_editing-IsSettings s none e h = h
start_editing-IsSettings s (some f) e h = (h.0, λ q. get_elem_lt s.fields s.selected f e)

moved-IsNext :
    (r : Replies) (key : ℕ) (c : Code) (s : SettingsScreen) (app : App)
    → s.editing ≡ false
    → IsSettings s
    → IsNext
        (settings_letter r key (record s { selected = move c (length s.fields) s.selected }) app)
moved-IsNext r key c s app e h =
    settings_letter-IsNext r key (record s { selected = move c (length s.fields) s.selected }) app
      (move-le c (length s.fields) s.selected h.0, λ q. absurd (cc))

select_key-IsNext :
    (r : Replies) (key : ℕ) (c : Code) (s : SettingsScreen) (app : App)
    → s.editing ≡ false
    → IsSettings s
    → IsNext (select_key r (record { key = key; code = c }) s app)
unfolding select_key
select_key-IsNext r key key_back s app e h = tt
select_key-IsNext r key key_enter s app e h =
    settings_letter-IsNext r key (start_editing (get_elem? s.fields s.selected) s) app
      (start_editing-IsSettings s (get_elem? s.fields s.selected) refl h)
select_key-IsNext r key key_backspace s app e h = moved-IsNext r key key_backspace s app e h
select_key-IsNext r key key_left s app e h = moved-IsNext r key key_left s app e h
select_key-IsNext r key key_right s app e h = moved-IsNext r key key_right s app e h
select_key-IsNext r key key_up s app e h = moved-IsNext r key key_up s app e h
select_key-IsNext r key key_down s app e h = moved-IsNext r key key_down s app e h
select_key-IsNext r key key_sym s app e h = moved-IsNext r key key_sym s app e h
select_key-IsNext r key no_code s app e h = moved-IsNext r key no_code s app e h

pub settings_key-IsNext :
    (r : Replies) (ev : KeyEvent) (s : SettingsScreen) (app : App)
    → IsSettings s
    → IsNext (settings_key r ev s app)
unfolding settings_key
settings_key-IsNext r ev s app h = split s.editing refl
  where
    split :
        (b : Bool) → s.editing ≡ b → IsNext (if b then edit_key ev s app else select_key r ev s app)
    split true e = edit_key-IsNext ev.key ev.code s app (h.1 e)
    split false e = select_key-IsNext r ev.key ev.code s app e h
