-- ===== src/Display/Creating.antt =====
-- The names that the pager gives to new channels, from the keys to the answer of the daemon.
use rfmpd.Text.{trim_space, to_lower, lower_byte}
use rfmpd.Text.Trim.{IsVisible, trim_space_visible, to_lower_lower}
use rfmpd.Api.{Server, answer, channel_created}
use rfmpd.Api.Requests.{all_bytes, is_channel_byte, is_channel_name}
use rfmpd.Api.Messages.{handle_create, create_named}
use rfmpd.Display.Naming.{
  IsNameRune, IsNamedCall, IsNamedScreen, IsNamed, IsNamedNext, on_enter-IsNamed,
  channel_list_key-IsNamedNext, timeline_key-IsNamedNext,
}
use rfmpd.Display.Typing.{compose_key-IsNamedNext, create_key-IsNamedNext, settings_key-IsNamedNext}
use rfmpd.Base.{
  All, All-mono, Bool, Bytes, List, Option, [], arith, false, get_elem?, if◌then◌else◌, is_empty,
  leb, length, le→leb, none, refl, some, subst, suc, true, zero, ℕ, ◌<◌, ◌>>=◌, ◌∙◌, ◌∷◌, ◌≡◌, ◌≤◌,
}
use rfmpd.Display.{
  KeyEvent, Message, create_channel, Replies, App, Screen, channel_list, timeline, compose, create,
  settings, Next, stays, enters, panics, on_new_message,
}
use rfmpd.Display.Running.{draw_rows-some}
use rfmpd.Display.Screens.{
  handle_key, rendered, Event, pressed, arrived, drawn, enter_next, step, run, scroll_to,
}

module _ (utf8 : List ℕ → Bytes) where
  handle_key-IsNamedNext :
      (r : Replies) (ev : KeyEvent) (s : Screen) (app : App)
      → IsNamed utf8 s app
      → IsNamedNext utf8 (handle_key utf8 r ev s app)
  unfolding handle_key
  handle_key-IsNamedNext r ev (channel_list selected scroll) app h =
      channel_list_key-IsNamedNext utf8 r app h.1 ev.key ev.code selected scroll
  handle_key-IsNamedNext r ev (timeline scroll) app h =
      timeline_key-IsNamedNext utf8 r app h.1 ev.key ev.code scroll
  handle_key-IsNamedNext r ev (compose buf cursor) app h =
      compose_key-IsNamedNext utf8 r app h.1 ev.key ev.code buf cursor
  handle_key-IsNamedNext r ev (create buf cursor) app h =
      create_key-IsNamedNext utf8 r app h.1 ev.key ev.code buf cursor h.0
  handle_key-IsNamedNext r ev (settings s) app h = settings_key-IsNamedNext utf8 r app h.1 ev s

  -- a result of a step, if there is one
  abbrev IsNamedStep : Option (Screen × App) → Type 0
  IsNamedStep none = Unit
  IsNamedStep (some u) = IsNamed utf8 u.0 u.1

  enter_next-IsNamed : (r : Replies) (n : Next) → IsNamedNext utf8 n → IsNamedStep (enter_next r n)
  enter_next-IsNamed r (stays s app) h = h
  enter_next-IsNamed r (enters s app) h = on_enter-IsNamed utf8 r s app h
  enter_next-IsNamed r panics h = tt

  on_new_message-calls : (m : Message) (app : App) → (on_new_message m app).calls ≡ app.calls
  unfolding on_new_message
  on_new_message-calls m app = ground arith

  rendered-IsNamed : (s : Screen) → IsNamedScreen utf8 s → IsNamedScreen utf8 (rendered s)
  unfolding rendered
  rendered-IsNamed (channel_list selected scroll) h = h
  rendered-IsNamed (timeline scroll) h = h
  rendered-IsNamed (compose buf cursor) h = h
  rendered-IsNamed (create buf cursor) h = h
  rendered-IsNamed (settings s) h = split (is_empty s.fields)
    where
      split :
          (b : Bool)
          → IsNamedScreen utf8 (
              if b
              then settings s
              else settings (record s { scroll = scroll_to 10 s.selected s.scroll }))
      split true = tt
      split false = tt

  step-IsNamed : (e : Event) (u : Screen × App) → IsNamed utf8 u.0 u.1 → IsNamedStep (step utf8 e u)
  unfolding step
  step-IsNamed (pressed ev r) (s, app) h =
      enter_next-IsNamed r (handle_key utf8 r ev s app) (handle_key-IsNamedNext r ev s app h)
  step-IsNamed (arrived m) (s, app) h = (h.0, rw (on_new_message-calls m app) h.1)
  step-IsNamed drawn (s, app) h = rw (draw_rows-some (rendered s) app) (rendered-IsNamed s h.0, h.1)

  run-IsNamed :
      (es : List Event) (u : Screen × App) → IsNamed utf8 u.0 u.1 → IsNamedStep (run utf8 es u)
  unfolding run
  run-IsNamed [] u h = h
  run-IsNamed (e ∷ es) u h = go (step utf8 e u) (step-IsNamed e u h) (run-IsNamed es)
    where
      go :
          (o : Option (Screen × App))
          → IsNamedStep o
          → ((v : Screen × App) → IsNamed utf8 v.0 v.1 → IsNamedStep (run utf8 es v))
          → IsNamedStep (o >>= λ v. run utf8 es v)
      go none k rec = tt
      go (some v) k rec = rec v k

All-get_elem {ℓ κ} :
    {A : Type ℓ} (P : A → Type κ) (xs : List A) (i : ℕ) (a : A)
    → All P xs
    → get_elem? xs i ≡ some a
    → P a
All-get_elem P [] i a h e = absurd (cc)
All-get_elem P (x ∷ xs) zero a h e = let q : x ≡ a = cc in subst P q h.0
All-get_elem P (x ∷ xs) (suc i) a h e = All-get_elem P xs i a h.1 e

-- The runes of a name are bytes that the API accepts as they are.
name_rune : (r : ℕ) → IsNameRune r → (r < 128) × IsVisible r × (lower_byte r ≡ r)
name_rune r h = (ground arith, ground arith, ground arith)

name_bytes : (cs : List ℕ) → All IsNameRune cs → all_bytes is_channel_byte cs ≡ true
unfolding all_bytes
name_bytes [] h = refl
name_bytes (c ∷ cs) h = let k = h.0 in ground (arith, k, name_bytes cs h.1)

module _ {Float : Type 0} where
  created :
      (now : ℕ) (name : Bytes) (s : Server Float)
      → All IsNameRune name
      → is_empty name ≡ false
      → length name ≤ 20
      → (handle_create now (some name) s).1 ≡ answer 201 (channel_created name)
  unfolding handle_create create_named is_channel_name
  created now name s h n l =
      let t : trim_space name ≡ name =
        trim_space_visible name (All-mono name (λ r k. (name_rune r k).1) h) in
      let u : to_lower name ≡ name =
        to_lower_lower name (All-mono name (λ r k. (name_rune r k).2) h) in
      let lo : leb 1 (length name) ≡ true = positive name n in
      let hi : leb (length name) 20 ≡ true = le→leb (length name) 20 l in
      rw (t, u, lo, hi, name_bytes name h)
    where
      positive : (cs : Bytes) → is_empty cs ≡ false → leb 1 (length cs) ≡ true
      positive [] k = absurd (cc)
      positive (c ∷ cs) k = ground arith

  -- Whatever is pressed and whatever the daemon answers, each name that the pager sends to
  -- `POST /channels` is accepted with 201, as it was sent, if it has at most 20 characters. UTF-8
  -- leaves ASCII text as it is.
  pub run-handle_create :
      (utf8 : List ℕ → Bytes) (es : List Event) (app : App) (v : Screen × App) (i now : ℕ)
      (name : Bytes) (s : Server Float)
      → ((cs : List ℕ) → All (λ c. c < 128) cs → utf8 cs ≡ cs)
      → app.calls ≡ []
      → run utf8 es (channel_list 0 0, app) ≡ some v
      → get_elem? v.1.calls i ≡ some (create_channel name)
      → length name ≤ 20
      → (handle_create now (some name) s).1 ≡ answer 201 (channel_created name)
  run-handle_create utf8 es app v i now name s ascii none_yet e g l =
      let start : IsNamed utf8 (channel_list 0 0) app = (tt, rw none_yet tt) in
      let end : IsNamed utf8 v.0 v.1 =
        rw e at (run-IsNamed utf8 es (channel_list 0 0, app) start) in
      let (buf, p, q, h) =
        All-get_elem (IsNamedCall utf8) v.1.calls i (create_channel name) end.1 g in
      let same : name ≡ buf = p ∙ ascii buf (All-mono buf (λ r k. (name_rune r k).0) h) in
      created now name s (rw same h) (rw same q) l
