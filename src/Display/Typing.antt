-- ===== src/Display/Typing.antt =====
-- The texts that are typed, and the requests that they end in.
use rfmpd.Base.{
  All, All-append, All-drop, All-take, Bool, Bytes, List, Option, [], drop, false, get_elem?,
  if◌then◌else◌, leb, length, ltb, none, not, refl, some, subst, suc, take, true, zero, ℕ, ◌&&◌,
  ◌++◌, ◌-◌, ◌==◌, ◌||◌, ◌∷◌, ◌≡◌,
}
use rfmpd.Display.{
  Code, key_enter, key_back, key_backspace, key_up, key_down, key_left, key_right, key_sym, no_code,
  KeyEvent, Replies, App, SettingField, SettingsScreen, compose, create, settings, stays, move,
}
use rfmpd.Display.Screens.{
  delete_before, insert_at, edited, backspace, type_rune, compose_key, type_name, create_key,
  shut_down, settings_letter, start_editing, store_value, type_value, set_value, edit_key,
  select_key, settings_key, save, is_name_rune, lower_rune,
}
use rfmpd.Display.Naming.{IsNameRune, IsNamedCall, IsNamedNext, if-IsNamedNext}

guarded {ℓ} : {A : Type ℓ} (t : Bool) (x y : A) → (if t then some x else none) ≡ some y → x ≡ y
guarded true x y e = cc
guarded false x y e = absurd (cc)

delete_before-named :
    (buf : List ℕ) (i : ℕ)
    → All IsNameRune buf
    → (b : List ℕ) → delete_before buf i ≡ some b
    → All IsNameRune b
unfolding delete_before
delete_before-named buf i h b e =
    let k =
      All-append IsNameRune (take (i - 1) buf) (drop i buf) (All-take IsNameRune (i - 1) buf h)
        (All-drop IsNameRune i buf h) in
    subst (All IsNameRune) (guarded (leb i (length buf)) (take (i - 1) buf ++ drop i buf) b e) k

insert_at-named :
    (key : ℕ) (buf : List ℕ) (i : ℕ)
    → IsNameRune key
    → All IsNameRune buf
    → (b : List ℕ) → insert_at key buf i ≡ some b
    → All IsNameRune b
unfolding insert_at
insert_at-named key buf i n h b e =
    let k =
      All-append IsNameRune (take i buf) (key ∷ drop i buf) (All-take IsNameRune i buf h)
        (n, All-drop IsNameRune i buf h) in
    subst (All IsNameRune) (guarded (leb i (length buf)) (take i buf ++ key ∷ drop i buf) b e) k

module _ (utf8 : List ℕ → Bytes) where
  module _ (r : Replies) (app : App) (named : All (IsNamedCall utf8) app.calls) where
    edited-IsNamedNext :
        (o : Option (List ℕ)) (cursor : ℕ) → IsNamedNext utf8 (edited compose o cursor app)
    edited-IsNamedNext none cursor = tt
    edited-IsNamedNext (some b) cursor = (tt, named)

    backspace-IsNamedNext :
        (buf : List ℕ) (cursor : ℕ) → IsNamedNext utf8 (backspace compose buf cursor app)
    backspace-IsNamedNext buf zero = (tt, named)
    backspace-IsNamedNext buf (suc i) = edited-IsNamedNext (delete_before buf (suc i)) i

    type_rune-IsNamedNext :
        (key : ℕ) (buf : List ℕ) (cursor : ℕ) → IsNamedNext utf8 (type_rune key buf cursor app)
    type_rune-IsNamedNext key buf cursor =
        if-IsNamedNext utf8 (key == 0) (stays (compose buf cursor) app)
          (edited compose (insert_at key buf cursor) (suc cursor) app) (tt, named)
          (edited-IsNamedNext (insert_at key buf cursor) (suc cursor))

    pub compose_key-IsNamedNext :
        (key : ℕ) (c : Code) (buf : List ℕ) (cursor : ℕ)
        → IsNamedNext utf8 (compose_key utf8 (record { key = key; code = c }) buf cursor app)
    unfolding compose_key
    compose_key-IsNamedNext key key_enter [] cursor = (tt, named)
    compose_key-IsNamedNext key key_enter (b ∷ bs) cursor = (tt, (tt, named))
    compose_key-IsNamedNext key key_back buf cursor = (tt, named)
    compose_key-IsNamedNext key key_backspace buf cursor = backspace-IsNamedNext buf cursor
    compose_key-IsNamedNext key key_left buf cursor = (tt, named)
    compose_key-IsNamedNext key key_right buf cursor = (tt, named)
    compose_key-IsNamedNext key key_up buf cursor = type_rune-IsNamedNext key buf cursor
    compose_key-IsNamedNext key key_down buf cursor = type_rune-IsNamedNext key buf cursor
    compose_key-IsNamedNext key key_sym buf cursor = type_rune-IsNamedNext key buf cursor
    compose_key-IsNamedNext key no_code buf cursor = type_rune-IsNamedNext key buf cursor

    named_edited :
        (o : Option (List ℕ)) (cursor : ℕ)
        → ((b : List ℕ) → o ≡ some b → All IsNameRune b)
        → IsNamedNext utf8 (edited create o cursor app)
    named_edited none cursor h = tt
    named_edited (some b) cursor h = (h b refl, named)

    named_backspace :
        (buf : List ℕ) (cursor : ℕ)
        → All IsNameRune buf
        → IsNamedNext utf8 (backspace create buf cursor app)
    named_backspace buf zero h = (h, named)
    named_backspace buf (suc i) h =
        named_edited (delete_before buf (suc i)) i (delete_before-named buf (suc i) h)

    type_name-IsNamedNext :
        (key : ℕ) (buf : List ℕ) (cursor : ℕ)
        → All IsNameRune buf
        → IsNamedNext utf8 (type_name key buf cursor app)
    type_name-IsNamedNext key buf cursor h =
        split (not (key == 0) && not (key == b' ')) (is_name_rune (lower_rune key)) refl
      where
        split :
            (a b : Bool)
            → is_name_rune (lower_rune key) ≡ b
            → IsNamedNext utf8 (
                if a && b
                then edited create (insert_at (lower_rune key) buf cursor) (suc cursor) app
                else stays (create buf cursor) app)
        split true true e =
            named_edited (insert_at (lower_rune key) buf cursor) (suc cursor)
              (insert_at-named (lower_rune key) buf cursor e h)
        split true false e = (h, named)
        split false b e = (h, named)

    pub create_key-IsNamedNext :
        (key : ℕ) (c : Code) (buf : List ℕ) (cursor : ℕ)
        → All IsNameRune buf
        → IsNamedNext utf8 (create_key utf8 r (record { key = key; code = c }) buf cursor app)
    unfolding create_key
    create_key-IsNamedNext key key_enter [] cursor h = (tt, named)
    create_key-IsNamedNext key key_enter (b ∷ bs) cursor h = (tt, ((b ∷ bs, refl, refl, h), named))
    create_key-IsNamedNext key key_back buf cursor h = (tt, named)
    create_key-IsNamedNext key key_backspace buf cursor h = named_backspace buf cursor h
    create_key-IsNamedNext key key_left buf cursor h = type_name-IsNamedNext key buf cursor h
    create_key-IsNamedNext key key_right buf cursor h = type_name-IsNamedNext key buf cursor h
    create_key-IsNamedNext key key_up buf cursor h = type_name-IsNamedNext key buf cursor h
    create_key-IsNamedNext key key_down buf cursor h = type_name-IsNamedNext key buf cursor h
    create_key-IsNamedNext key key_sym buf cursor h = type_name-IsNamedNext key buf cursor h
    create_key-IsNamedNext key no_code buf cursor h = type_name-IsNamedNext key buf cursor h

    store_value-IsNamedNext :
        (o : Option (List SettingField)) (s : SettingsScreen)
        → IsNamedNext utf8 (store_value o s app)
    store_value-IsNamedNext none s = tt
    store_value-IsNamedNext (some fs) s = (tt, named)

    type_value-IsNamedNext :
        (key : ℕ) (s : SettingsScreen) → IsNamedNext utf8 (type_value key s app)
    type_value-IsNamedNext key s =
        if-IsNamedNext utf8 (leb 32 key && ltb key 127)
          (stays (settings (record s { edit_buf = s.edit_buf ++ key ∷ [] })) app)
          (stays (settings s) app) (tt, named) (tt, named)

    edit_key-IsNamedNext :
        (key : ℕ) (c : Code) (s : SettingsScreen)
        → IsNamedNext utf8 (edit_key (record { key = key; code = c }) s app)
    unfolding edit_key
    edit_key-IsNamedNext key key_enter s =
        store_value-IsNamedNext (set_value s.edit_buf s.fields s.selected) s
    edit_key-IsNamedNext key key_back s = (tt, named)
    edit_key-IsNamedNext key key_backspace s = (tt, named)
    edit_key-IsNamedNext key key_left s = type_value-IsNamedNext key s
    edit_key-IsNamedNext key key_right s = type_value-IsNamedNext key s
    edit_key-IsNamedNext key key_up s = type_value-IsNamedNext key s
    edit_key-IsNamedNext key key_down s = type_value-IsNamedNext key s
    edit_key-IsNamedNext key key_sym s = type_value-IsNamedNext key s
    edit_key-IsNamedNext key no_code s = type_value-IsNamedNext key s

    save-IsNamed : (fs : List SettingField) → All (IsNamedCall utf8) (save r fs app).calls
    unfolding save
    save-IsNamed [] = named
    save-IsNamed (f ∷ fs) = (tt, named)

    settings_letter-IsNamedNext :
        (key : ℕ) (s : SettingsScreen) → IsNamedNext utf8 (settings_letter r key s app)
    unfolding settings_letter
    settings_letter-IsNamedNext key s =
        let saving = stays (settings s) (save r s.fields app) in
        let halting = stays (settings s) (shut_down r app) in
        let stay = stays (settings s) app in
        if-IsNamedNext utf8 (key == b's' || key == b'S') saving
          (if key == b'p' || key == b'P' then halting else stay) (tt, save-IsNamed s.fields)
          (if-IsNamedNext utf8 (key == b'p' || key == b'P') halting stay (tt, (tt, named))
            (tt, named))

    select_key-IsNamedNext :
        (key : ℕ) (c : Code) (s : SettingsScreen)
        → IsNamedNext utf8 (select_key r (record { key = key; code = c }) s app)
    unfolding select_key
    select_key-IsNamedNext key key_back s = (tt, named)
    select_key-IsNamedNext key key_enter s =
        settings_letter-IsNamedNext key (start_editing (get_elem? s.fields s.selected) s)
    select_key-IsNamedNext key key_backspace s =
        settings_letter-IsNamedNext key
          (record s { selected = move key_backspace (length s.fields) s.selected })
    select_key-IsNamedNext key key_left s =
        settings_letter-IsNamedNext key
          (record s { selected = move key_left (length s.fields) s.selected })
    select_key-IsNamedNext key key_right s =
        settings_letter-IsNamedNext key
          (record s { selected = move key_right (length s.fields) s.selected })
    select_key-IsNamedNext key key_up s =
        settings_letter-IsNamedNext key
          (record s { selected = move key_up (length s.fields) s.selected })
    select_key-IsNamedNext key key_down s =
        settings_letter-IsNamedNext key
          (record s { selected = move key_down (length s.fields) s.selected })
    select_key-IsNamedNext key key_sym s =
        settings_letter-IsNamedNext key
          (record s { selected = move key_sym (length s.fields) s.selected })
    select_key-IsNamedNext key no_code s =
        settings_letter-IsNamedNext key
          (record s { selected = move no_code (length s.fields) s.selected })

    pub settings_key-IsNamedNext :
        (ev : KeyEvent) (s : SettingsScreen) → IsNamedNext utf8 (settings_key r ev s app)
    unfolding settings_key
    settings_key-IsNamedNext ev s =
        if-IsNamedNext utf8 s.editing (edit_key ev s app) (select_key r ev s app)
          (edit_key-IsNamedNext ev.key ev.code s) (select_key-IsNamedNext ev.key ev.code s)
