-- ===== src/Display/Naming.antt =====
-- Which requests for a channel the pager makes: the screens that make none.
use rfmpd.Base.{
  All, Bool, Bytes, List, Option, [], false, get_elem?, if◌then◌else◌, inl, inr, is_empty, length,
  ltb, none, some, true, ℕ, ◌&&◌, ◌==◌, ◌∷◌, ◌≡◌, ◌⊎◌,
}
use rfmpd.Text.{text}
use rfmpd.Display.{
  Code, key_enter, key_back, key_backspace, key_up, key_down, key_left, key_right, key_sym, no_code,
  Channel, ConfigData, Message, Call, send_message, create_channel, delete_channel, save_config,
  shutdown, Replies, App, Screen, channel_list, timeline, compose, create, settings, Next, stays,
  enters, panics, new_settings, log_call, new_compose, on_enter, enter_list, enter_timeline,
  enter_settings, outcome, move,
}
use rfmpd.Display.Screens.{
  is_zero, stay_in, with_channel, delete_selected, list_key, channel_list_key, timeline_key,
  is_name_rune,
}

abbrev pub IsNameRune : ℕ → Type 0
IsNameRune r = is_name_rune r ≡ true

module _ (utf8 : List ℕ → Bytes) where
  -- a request to create a channel has a name that was typed
  abbrev pub IsNamedCall : Call → Type 0
  IsNamedCall (create_channel name) =
      (buf : List ℕ) × (name ≡ utf8 buf) × (is_empty buf ≡ false) × All IsNameRune buf
  IsNamedCall (send_message channel body author) = Unit
  IsNamedCall (delete_channel name) = Unit
  IsNamedCall (save_config c) = Unit
  IsNamedCall shutdown = Unit

  abbrev pub IsNamedScreen : Screen → Type 0
  IsNamedScreen (create buf cursor) = All IsNameRune buf
  IsNamedScreen (channel_list selected scroll) = Unit
  IsNamedScreen (timeline scroll) = Unit
  IsNamedScreen (compose buf cursor) = Unit
  IsNamedScreen (settings s) = Unit

  abbrev pub IsNamed : Screen → App → Type 0
  IsNamed s app = IsNamedScreen s × All IsNamedCall app.calls

  abbrev pub IsNamedNext : Next → Type 0
  IsNamedNext (stays s app) = IsNamed s app
  IsNamedNext (enters s app) = IsNamed s app
  IsNamedNext panics = Unit

  pub on_enter-IsNamed :
      (r : Replies) (s : Screen) (app : App)
      → IsNamed s app
      → IsNamed (on_enter r s app).0 (on_enter r s app).1
  unfolding on_enter
  on_enter-IsNamed r (channel_list selected scroll) app h = split r.channels
    where
      split :
          (c : Bytes ⊎ List Channel)
          → IsNamed (enter_list c selected scroll app).0 (enter_list c selected scroll app).1
      split (inl e) = (tt, h.1)
      split (inr cs) = (tt, h.1)
  on_enter-IsNamed r (timeline scroll) app h = split r.messages
    where
      split : (c : Bytes ⊎ List Message) → IsNamed (enter_timeline c app).0 (enter_timeline c app).1
      split (inl e) = (tt, h.1)
      split (inr cs) = (tt, h.1)
  on_enter-IsNamed r (compose buf cursor) app h = h
  on_enter-IsNamed r (create buf cursor) app h = h
  on_enter-IsNamed r (settings s) app h = split r.config
    where
      split :
          (c : Bytes ⊎ ConfigData) → IsNamed (enter_settings c s app).0 (enter_settings c s app).1
      split (inl e) = (tt, h.1)
      split (inr cs) = (tt, h.1)

  pub if-IsNamedNext :
      (b : Bool) (x y : Next) → IsNamedNext x → IsNamedNext y → IsNamedNext (if b then x else y)
  if-IsNamedNext true x y h k = h
  if-IsNamedNext false x y h k = k

  with_channel-IsNamedNext :
      (o : Option Channel) (f : Channel → Next)
      → ((c : Channel) → IsNamedNext (f c))
      → IsNamedNext (with_channel o f)
  with_channel-IsNamedNext none f h = tt
  with_channel-IsNamedNext (some c) f h = h c

  stay_in-IsNamedNext : (u : Screen × App) → IsNamed u.0 u.1 → IsNamedNext (stay_in u)
  stay_in-IsNamedNext (s, app) h = h

  module _ (r : Replies) (app : App) (named : All IsNamedCall app.calls) where
    delete_selected-IsNamedNext :
        (selected scroll : ℕ) (c : Channel) → IsNamedNext (delete_selected r selected scroll app c)
    unfolding delete_selected
    delete_selected-IsNamedNext selected scroll c =
        let deleting =
          log_call (delete_channel c.name)
            (record app { err = outcome (text "delete: ") [] r.delete_error }) in
        if-IsNamedNext (is_zero c.message_count)
          (stay_in (on_enter r (channel_list selected scroll) deleting))
          (stays (channel_list selected scroll)
            (record app { err = text "can't delete: has messages" }))
          (stay_in-IsNamedNext (on_enter r (channel_list selected scroll) deleting)
            (on_enter-IsNamed r (channel_list selected scroll) deleting (tt, (tt, named))))
          (tt, named)

    list_key-IsNamedNext :
        (key selected scroll : ℕ) → IsNamedNext (list_key r key selected scroll app)
    unfolding list_key
    list_key-IsNamedNext key selected scroll =
        let f = delete_selected r selected scroll app in
        let stay : Next = stays (channel_list selected scroll) app in
        let item = with_channel (get_elem? app.channels selected) f in
        let delete_or_stay = if key == b'd' && ltb 0 (length app.channels) then item else stay in
        if-IsNamedNext (key == b's') (enters (settings new_settings) app) _ (tt, named)
          (if-IsNamedNext (key == b'n') (enters (create [] 0) app) delete_or_stay (tt, named)
            (if-IsNamedNext (key == b'd' && ltb 0 (length app.channels)) item stay
              (with_channel-IsNamedNext (get_elem? app.channels selected) f
                (delete_selected-IsNamedNext selected scroll))
              (tt, named)))

    pub channel_list_key-IsNamedNext :
        (key : ℕ) (c : Code) (selected scroll : ℕ)
        → IsNamedNext (channel_list_key r (record { key = key; code = c }) selected scroll app)
    unfolding channel_list_key
    channel_list_key-IsNamedNext key key_enter selected scroll =
        let f : Channel → Next = λ c. enters (timeline 0) (record app { channel = c.name }) in
        if-IsNamedNext (ltb 0 (length app.channels))
          (with_channel (get_elem? app.channels selected) f) (list_key r key selected scroll app)
          (with_channel-IsNamedNext (get_elem? app.channels selected) f (λ c. (tt, named)))
          (list_key-IsNamedNext key selected scroll)
    channel_list_key-IsNamedNext key key_back selected scroll =
        list_key-IsNamedNext key (move key_back (length app.channels) selected) scroll
    channel_list_key-IsNamedNext key key_backspace selected scroll =
        list_key-IsNamedNext key (move key_backspace (length app.channels) selected) scroll
    channel_list_key-IsNamedNext key key_up selected scroll =
        list_key-IsNamedNext key (move key_up (length app.channels) selected) scroll
    channel_list_key-IsNamedNext key key_down selected scroll =
        list_key-IsNamedNext key (move key_down (length app.channels) selected) scroll
    channel_list_key-IsNamedNext key key_left selected scroll =
        list_key-IsNamedNext key (move key_left (length app.channels) selected) scroll
    channel_list_key-IsNamedNext key key_right selected scroll =
        list_key-IsNamedNext key (move key_right (length app.channels) selected) scroll
    channel_list_key-IsNamedNext key key_sym selected scroll =
        list_key-IsNamedNext key (move key_sym (length app.channels) selected) scroll
    channel_list_key-IsNamedNext key no_code selected scroll =
        list_key-IsNamedNext key (move no_code (length app.channels) selected) scroll

    typed_rune-IsNamedNext :
        (key scroll : ℕ)
        → IsNamedNext
            (if key == 0 then stays (timeline scroll) app else enters (new_compose key) app)
    typed_rune-IsNamedNext key scroll =
        if-IsNamedNext (key == 0) (stays (timeline scroll) app) (enters (new_compose key) app)
          (tt, named) (unfold new_compose in composing (key == 0), named)
      where
        composing : (t : Bool) → IsNamedScreen (if t then compose [] 0 else compose (key ∷ []) 1)
        composing true = tt
        composing false = tt

    pub timeline_key-IsNamedNext :
        (key : ℕ) (c : Code) (scroll : ℕ)
        → IsNamedNext (timeline_key (record { key = key; code = c }) scroll app)
    unfolding timeline_key
    timeline_key-IsNamedNext key key_back scroll = (tt, named)
    timeline_key-IsNamedNext key key_enter scroll =
        typed_rune-IsNamedNext key (move key_enter (length app.messages) scroll)
    timeline_key-IsNamedNext key key_backspace scroll =
        typed_rune-IsNamedNext key (move key_backspace (length app.messages) scroll)
    timeline_key-IsNamedNext key key_up scroll =
        typed_rune-IsNamedNext key (move key_up (length app.messages) scroll)
    timeline_key-IsNamedNext key key_down scroll =
        typed_rune-IsNamedNext key (move key_down (length app.messages) scroll)
    timeline_key-IsNamedNext key key_left scroll =
        typed_rune-IsNamedNext key (move key_left (length app.messages) scroll)
    timeline_key-IsNamedNext key key_right scroll =
        typed_rune-IsNamedNext key (move key_right (length app.messages) scroll)
    timeline_key-IsNamedNext key key_sym scroll =
        typed_rune-IsNamedNext key (move key_sym (length app.messages) scroll)
    timeline_key-IsNamedNext key no_code scroll =
        typed_rune-IsNamedNext key (move no_code (length app.messages) scroll)
