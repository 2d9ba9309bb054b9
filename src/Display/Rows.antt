-- ===== src/Display/Rows.antt =====
-- The rows of the lists: the selected one, and that nothing behind it in a list is drawn over it.
use rfmpd.Base.{
  All, All-append, Bool, Bool-cases, Bytes, List, [], arith, drop, false, get_elem?, inl, inr,
  is_empty, leb, le→leb, refl, some, suc, sym, take, true, zero, ℕ, ◌&&◌, ◌*◌, ◌++◌, ◌+◌, ◌==◌, ◌∷◌,
  ◌≡◌, ◌≤◌,
}
use rfmpd.Base.Int.{pos}
use rfmpd.Display.{Channel, SettingField, SettingsScreen}
use rfmpd.Display.Framebuffer.{Draw, string}
use rfmpd.Display.Layout.{white, dark_gray, Surroundings, pad_right}
use rfmpd.Display.Lists.{row, channel_label, channel_rows, field_value, field_row, field_rows}
use rfmpd.Display.Placing.{Then-append_right, From, Leads}

pub get_elem?-drop :
    {A : Type 0} (n k : ℕ) (xs : List A) → get_elem? (drop n xs) k ≡ get_elem? xs (n + k)
get_elem?-drop zero k xs = ground arith
get_elem?-drop (suc n) k [] = refl
get_elem?-drop (suc n) k (x ∷ xs) =
    let e : suc n + k ≡ suc (n + k) = omega arith in rw e (get_elem?-drop n k xs)

row-From :
    (to y : ℕ) (b : Bool) (label : Bytes) (fg : ℕ) → to ≤ y → All (From to) (row b y label fg)
row-From to y true label fg h = (h, (h, tt))
row-From to y false label fg h = (h, tt)

-- the row of the selected item
Leads-row :
    (to y : ℕ) (b : Bool) (label : Bytes) (fg : ℕ) (rest : List Draw)
    → b ≡ true
    → All (From to) rest
    → Leads y to (take 40 label) fg dark_gray (row b y label fg ++ rest)
Leads-row to y true label fg rest e h = inr (inl (refl, h))
Leads-row to y false label fg rest e h = absurd (cc)

pub not_empty :
    {A : Type 0} (xs : List A) (n : ℕ) (a : A) → get_elem? xs n ≡ some a → is_empty xs ≡ false
not_empty [] n a h = absurd (cc)
not_empty (x ∷ xs) n a h = refl

pub channel_rows-From :
    (env : Surroundings) (to selected i y : ℕ) (cs : List Channel)
    → to ≤ y
    → All (From to) (channel_rows env selected i y cs)
unfolding channel_rows
channel_rows-From env to selected i y [] h = tt
channel_rows-From env to selected i y (c ∷ cs) h =
    let rest = channel_rows-From env to selected (suc i) (y + 16) cs (omega (arith, h)) in
    elim (Bool-cases (leb (y + 16) 240)) [
      | inl e ↦ rw e (
          All-append (From to) (row (i == selected) y (channel_label env c) white)
            (channel_rows env selected (suc i) (y + 16) cs)
            (row-From to y (i == selected) (channel_label env c) white h) rest)
      | inr e ↦ rw e tt
    ]

pub channel_rows-selected :
    (env : Surroundings) (to selected i k y : ℕ) (cs : List Channel) (c : Channel)
    → get_elem? cs k ≡ some c
    → selected ≡ i + k
    → y + 16 * k + 16 ≤ 240
    → to ≤ y + 16 * k + 16
    → Leads
        (y + 16 * k)
        to
        (take 40 (channel_label env c))
        white
        dark_gray
        (channel_rows env selected i y cs)
unfolding channel_rows
channel_rows-selected env to selected i k y [] c e s h j = absurd (cc)
channel_rows-selected env to selected i zero y (q ∷ cs) c e s h j =
    let t : leb (y + 16) 240 ≡ true = le→leb (y + 16) 240 (omega (arith, h)) in
    let u : (i == selected) ≡ true = ground (arith, s) in
    let p : q ≡ c = cc in
    let z : y + 16 * 0 ≡ y = omega arith in
    let rest = channel_rows-From env to selected (suc i) (y + 16) cs (omega (arith, j)) in
    rw (t, z, sym p)
      (Leads-row to y (i == selected) (channel_label env q) white
        (channel_rows env selected (suc i) (y + 16) cs) u rest)
channel_rows-selected env to selected i (suc k) y (q ∷ cs) c e s h j =
    let t : leb (y + 16) 240 ≡ true = le→leb (y + 16) 240 (omega (arith, h)) in
    let z : y + 16 * suc k ≡ y + 16 + 16 * k = omega arith in
    rw (t, z)
      (Then-append_right
        (λ d.
          d
          ≡ string (pos 4) (pos (y + 16 + 16 * k)) (take 40 (channel_label env c)) white dark_gray)
        (From to) (row (i == selected) y (channel_label env q) white)
        (channel_rows env selected (suc i) (y + 16) cs)
        (channel_rows-selected env to selected (suc i) k (y + 16) cs c e (omega (arith, s))
          (omega (arith, h)) (omega (arith, j))))

-- the text of a field, and its colour, where it is the selected one
abbrev pub field_label : Surroundings → SettingsScreen → SettingField → Bytes × ℕ
field_label env s f =
    let v = field_value s.editing s.edit_buf f in
    (pad_right 15 (env.runes f.label) f.label ++ (b' ' ∷ v.0), v.1)

field_rows-From :
    (env : Surroundings) (to : ℕ) (s : SettingsScreen) (i y : ℕ) (fs : List SettingField)
    → to ≤ y
    → All (From to) (field_rows env s i y fs)
unfolding field_rows field_row
field_rows-From env to s i y [] h = tt
field_rows-From env to s i y (f ∷ fs) h =
    let rest = field_rows-From env to s (suc i) (y + 16) fs (omega (arith, h)) in
    let v = field_value (i == s.selected && s.editing) s.edit_buf f in
    elim (Bool-cases (leb (y + 16) 208)) [
      | inl e ↦ rw e (
          All-append (From to) (field_row env s i y f) (field_rows env s (suc i) (y + 16) fs)
            (row-From to y (i == s.selected)
              (pad_right 15 (env.runes f.label) f.label ++ (b' ' ∷ v.0)) v.1 h)
            rest)
      | inr e ↦ rw e tt
    ]

Leads-field_row :
    (env : Surroundings) (to : ℕ) (s : SettingsScreen) (i y : ℕ) (f : SettingField)
    (rest : List Draw)
    → (i == s.selected) ≡ true
    → All (From to) rest
    → Leads y to
        (take 40 (field_label env s f).0)
        (field_label env s f).1
        dark_gray
        (field_row env s i y f ++ rest)
unfolding field_row
Leads-field_row env to s i y f rest e h = simp e (inr (inl (refl, h)))

pub field_rows-selected :
    (env : Surroundings) (to : ℕ) (s : SettingsScreen) (i k y : ℕ) (fs : List SettingField)
    (f : SettingField)
    → get_elem? fs k ≡ some f
    → s.selected ≡ i + k
    → y + 16 * k + 16 ≤ 208
    → to ≤ y + 16 * k + 16
    → Leads
        (y + 16 * k)
        to
        (take 40 (field_label env s f).0)
        (field_label env s f).1
        dark_gray
        (field_rows env s i y fs)
unfolding field_rows
field_rows-selected env to s i k y [] f e n h j = absurd (cc)
field_rows-selected env to s i zero y (q ∷ fs) f e n h j =
    let t : leb (y + 16) 208 ≡ true = le→leb (y + 16) 208 (omega (arith, h)) in
    let u : (i == s.selected) ≡ true = ground (arith, n) in
    let p : q ≡ f = cc in
    let z : y + 16 * 0 ≡ y = omega arith in
    let rest = field_rows-From env to s (suc i) (y + 16) fs (omega (arith, j)) in
    rw (t, z, sym p) (Leads-field_row env to s i y q (field_rows env s (suc i) (y + 16) fs) u rest)
field_rows-selected env to s i (suc k) y (q ∷ fs) f e n h j =
    let t : leb (y + 16) 208 ≡ true = le→leb (y + 16) 208 (omega (arith, h)) in
    let z : y + 16 * suc k ≡ y + 16 + 16 * k = omega arith in
    rw (t, z)
      (Then-append_right
        (λ d.
          d
          ≡ string (pos 4) (pos (y + 16 + 16 * k)) (take 40 (field_label env s f).0)
              (field_label env s f).1 dark_gray)
        (From to) (field_row env s i y q) (field_rows env s (suc i) (y + 16) fs)
        (field_rows-selected env to s (suc i) k (y + 16) fs f e (omega (arith, n))
          (omega (arith, h)) (omega (arith, j))))
