-- ===== src/Text/Trim.antt =====
-- Texts that trimming and a change of case leave as they are.
use rfmpd.Base.{All, Bytes, [], false, refl, ℕ, ◌∷◌, ◌≡◌}
use rfmpd.Text.{is_space, trim_left, trim_right, trim_space, lower_byte, to_lower}

abbrev pub IsVisible : ℕ → Type 0
IsVisible c = is_space c ≡ false

trim_right_visible : (cs : Bytes) → All IsVisible cs → trim_right cs ≡ cs
unfolding trim_right
trim_right_visible [] h = refl
trim_right_visible (c ∷ cs) h = rw (h.0, trim_right_visible cs h.1)

trim_left_visible : (cs : Bytes) → All IsVisible cs → trim_left cs ≡ cs
unfolding trim_left
trim_left_visible [] h = refl
trim_left_visible (c ∷ cs) h = rw h.0

pub trim_space_visible : (cs : Bytes) → All IsVisible cs → trim_space cs ≡ cs
unfolding trim_space
trim_space_visible cs h = rw (trim_left_visible cs h, trim_right_visible cs h)

pub to_lower_lower : (cs : Bytes) → All (λ c. lower_byte c ≡ c) cs → to_lower cs ≡ cs
unfolding to_lower
to_lower_lower [] h = refl
to_lower_lower (c ∷ cs) h = rw (h.0, to_lower_lower cs h.1)
