-- ===== src/Display/Editing.antt =====
-- The texts that are typed: the cursor, and the field that is edited.
use rfmpd.Base.{
  Bool, Bytes, List, arith, drop, false, if◌then◌else◌, leb, length, length-append, length-drop,
  length-take, not, some, suc, take, true, zero, ℕ, ◌&&◌, ◌++◌, ◌-◌, ◌==◌, ◌∷◌, ◌≡◌, ◌≤◌,
}
use rfmpd.Display.{
  Code, key_enter, key_back, key_backspace, key_up, key_down, key_left, key_right, key_sym, no_code,
  Replies, App, Screen, timeline, compose, create, Next, stays, enters, new_compose, move,
}
use rfmpd.Display.Screens.{
  delete_before, insert_at, edited, backspace, timeline_key, compose_key, create_key, type_rune,
  type_name, is_name_rune, lower_rune,
}
use rfmpd.Display.Selecting.{IsUi, IsNew, IsNext, move-le}

pub if-IsNext : (b : Bool) (x y : Next) → IsNext x → IsNext y → IsNext (if b then x else y)
if-IsNext true x y h k = h
if-IsNext false x y h k = k

new_compose-IsNew : (key : ℕ) → IsNew (new_compose key)
unfolding new_compose
new_compose-IsNew key = ground arith

pub timeline_key-IsNext :
    (key : ℕ) (c : Code) (scroll : ℕ) (app : App)
    → scroll ≤ length app.messages - 1
    → IsNext (timeline_key (record { key = key; code = c }) scroll app)
unfolding timeline_key
timeline_key-IsNext key key_back scroll app h = tt
timeline_key-IsNext key key_enter scroll app h =
    if-IsNext (key == 0) (stays (timeline (move key_enter (length app.messages) scroll)) app)
      (enters (new_compose key) app) (move-le key_enter (length app.messages) scroll h)
      (new_compose-IsNew key)
timeline_key-IsNext key key_backspace scroll app h =
    if-IsNext (key == 0) (stays (timeline (move key_backspace (length app.messages) scroll)) app)
      (enters (new_compose key) app) (move-le key_backspace (length app.messages) scroll h)
      (new_compose-IsNew key)
timeline_key-IsNext key key_up scroll app h =
    if-IsNext (key == 0) (stays (timeline (move key_up (length app.messages) scroll)) app)
      (enters (new_compose key) app) (move-le key_up (length app.messages) scroll h)
      (new_compose-IsNew key)
timeline_key-IsNext key key_down scroll app h =
    if-IsNext (key == 0) (stays (timeline (move key_down (length app.messages) scroll)) app)
      (enters (new_compose key) app) (move-le key_down (length app.messages) scroll h)
      (new_compose-IsNew key)
timeline_key-IsNext key key_left scroll app h =
    if-IsNext (key == 0) (stays (timeline (move key_left (length app.messages) scroll)) app)
      (enters (new_compose key) app) (move-le key_left (length app.messages) scroll h)
      (new_compose-IsNew key)
timeline_key-IsNext key key_right scroll app h =
    if-IsNext (key == 0) (stays (timeline (move key_right (length app.messages) scroll)) app)
      (enters (new_compose key) app) (move-le key_right (length app.messages) scroll h)
      (new_compose-IsNew key)
timeline_key-IsNext key key_sym scroll app h =
    if-IsNext (key == 0) (stays (timeline (move key_sym (length app.messages) scroll)) app)
      (enters (new_compose key) app) (move-le key_sym (length app.messages) scroll h)
      (new_compose-IsNew key)
timeline_key-IsNext key no_code scroll app h =
    if-IsNext (key == 0) (stays (timeline (move no_code (length app.messages) scroll)) app)
      (enters (new_compose key) app) (move-le no_code (length app.messages) scroll h)
      (new_compose-IsNew key)

length-delete_before :
    (buf : List ℕ) (i : ℕ)
    → suc i ≤ length buf
    → (b : List ℕ) × (delete_before buf (suc i) ≡ some b) × (i ≤ length b)
unfolding delete_before
length-delete_before buf i h =
    let e : leb (suc i) (length buf) ≡ true = ground arith in
    let n = length-append (take (suc i - 1) buf) (drop (suc i) buf) in
    (
      take (suc i - 1) buf ++ drop (suc i) buf,
      rw e,
      omega (arith, n, length-take (suc i - 1) buf, length-drop (suc i) buf),
    )

length-insert_at :
    (key : ℕ) (buf : List ℕ) (i : ℕ)
    → i ≤ length buf
    → (b : List ℕ) × (insert_at key buf i ≡ some b) × (suc i ≤ length b)
unfolding insert_at
length-insert_at key buf i h =
    let e : leb i (length buf) ≡ true = ground arith in
    let n = length-append (take i buf) (key ∷ drop i buf) in
    (take i buf ++ key ∷ drop i buf, rw e, omega (arith, n, length-take i buf, length-drop i buf))

-- the two screens with a cursor
abbrev HasCursor : (List ℕ → ℕ → Screen) → Type 0
HasCursor screen =
    (buf : List ℕ) (cursor : ℕ) (app : App) → cursor ≤ length buf → IsUi (screen buf cursor) app

backspace-IsNext :
    (screen : List ℕ → ℕ → Screen) (buf : List ℕ) (cursor : ℕ) (app : App)
    → HasCursor screen
    → cursor ≤ length buf
    → IsNext (backspace screen buf cursor app)
backspace-IsNext screen buf zero app k h = k buf zero app h
backspace-IsNext screen buf (suc i) app k h =
    let (b, e, n) = length-delete_before buf i h in rw e (k b i app n)

inserted-IsNext :
    (screen : List ℕ → ℕ → Screen) (key : ℕ) (buf : List ℕ) (cursor : ℕ) (app : App)
    → HasCursor screen
    → cursor ≤ length buf
    → IsNext (edited screen (insert_at key buf cursor) (suc cursor) app)
inserted-IsNext screen key buf cursor app k h =
    let (b, e, n) = length-insert_at key buf cursor h in rw e (k b (suc cursor) app n)

type_rune-IsNext :
    (key : ℕ) (buf : List ℕ) (cursor : ℕ) (app : App)
    → cursor ≤ length buf
    → IsNext (type_rune key buf cursor app)
type_rune-IsNext key buf cursor app h =
    if-IsNext (key == 0) (stays (compose buf cursor) app)
      (edited compose (insert_at key buf cursor) (suc cursor) app) h
      (inserted-IsNext compose key buf cursor app (λ b i a k. k) h)

type_name-IsNext :
    (key : ℕ) (buf : List ℕ) (cursor : ℕ) (app : App)
    → cursor ≤ length buf
    → IsNext (type_name key buf cursor app)
type_name-IsNext key buf cursor app h =
    if-IsNext (not (key == 0) && not (key == b' ') && is_name_rune (lower_rune key))
      (edited create (insert_at (lower_rune key) buf cursor) (suc cursor) app)
      (stays (create buf cursor) app)
      (inserted-IsNext create (lower_rune key) buf cursor app (λ b i a k. k) h) h

module _ (utf8 : List ℕ → Bytes) where
  pub compose_key-IsNext :
      (key : ℕ) (c : Code) (buf : List ℕ) (cursor : ℕ) (app : App)
      → cursor ≤ length buf
      → IsNext (compose_key utf8 (record { key = key; code = c }) buf cursor app)
  unfolding compose_key
  compose_key-IsNext key key_enter buf cursor app h = tt
  compose_key-IsNext key key_back buf cursor app h = tt
  compose_key-IsNext key key_backspace buf cursor app h =
      backspace-IsNext compose buf cursor app (λ b i a k. k) h
  compose_key-IsNext key key_left buf cursor app h = omega arith
  compose_key-IsNext key key_right buf cursor app h = ground arith
  compose_key-IsNext key key_up buf cursor app h = type_rune-IsNext key buf cursor app h
  compose_key-IsNext key key_down buf cursor app h = type_rune-IsNext key buf cursor app h
  compose_key-IsNext key key_sym buf cursor app h = type_rune-IsNext key buf cursor app h
  compose_key-IsNext key no_code buf cursor app h = type_rune-IsNext key buf cursor app h

  pub create_key-IsNext :
      (r : Replies) (key : ℕ) (c : Code) (buf : List ℕ) (cursor : ℕ) (app : App)
      → cursor ≤ length buf
      → IsNext (create_key utf8 r (record { key = key; code = c }) buf cursor app)
  unfolding create_key
  create_key-IsNext r key key_enter buf cursor app h = tt
  create_key-IsNext r key key_back buf cursor app h = tt
  create_key-IsNext r key key_backspace buf cursor app h =
      backspace-IsNext create buf cursor app (λ b i a k. k) h
  create_key-IsNext r key key_left buf cursor app h = type_name-IsNext key buf cursor app h
  create_key-IsNext r key key_right buf cursor app h = type_name-IsNext key buf cursor app h
  create_key-IsNext r key key_up buf cursor app h = type_name-IsNext key buf cursor app h
  create_key-IsNext r key key_down buf cursor app h = type_name-IsNext key buf cursor app h
  create_key-IsNext r key key_sym buf cursor app h = type_name-IsNext key buf cursor app h
  create_key-IsNext r key no_code buf cursor app h = type_name-IsNext key buf cursor app h
