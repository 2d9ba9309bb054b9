-- ===== src/Display/Lines.antt =====
-- The timeline counts the lines of a text without drawing it; `DrawStringWrap` counts as it draws.
use rfmpd.Base.{
  Bool, Bytes, List, Option, [], false, length, ltb, none, refl, some, suc, true, ℕ, ◌*◌, ◌+◌, ◌==◌,
  ◌>>=◌, ◌∷◌, ◌≡◌,
}
use rfmpd.Base.Int.{pos}
use rfmpd.Display.Framebuffer.{shift, next_place, draw_char, draw_wrapped, draw_string_wrap}
use rfmpd.Display.Filling.{Sized, IsScreen}
use rfmpd.Display.Drawing.{draw_char-Sized}
use rfmpd.Display.Timeline.{line_count}

-- pixels of the size of the screen, with this count of lines
abbrev pub HasLines : ℕ → Option (List ℕ × ℕ) → Type 0
HasLines n none = ⊥
HasLines n (some (ps, k)) = (length ps ≡ 320 * 240) × (k ≡ n)

branch-HasLines :
    (b : Bool) (n m : ℕ) (x y : Option (List ℕ × ℕ))
    → HasLines n x
    → HasLines m y
    → HasLines (elim b [ true ↦ n | false ↦ m ]) (elim b [ true ↦ x | false ↦ y ])
branch-HasLines true n m x y p q = p
branch-HasLines false n m x y p q = q

bind-HasLines :
    (n : ℕ) (o : Option (List ℕ)) (f : List ℕ → Option (List ℕ × ℕ))
    → Sized (320 * 240) o
    → ((ps : List ℕ) → length ps ≡ 320 * 240 → HasLines n (f ps))
    → HasLines n (o >>= f)
bind-HasLines n none f h k = h
bind-HasLines n (some ps) f h k = k ps h

module _ (font : ℕ → ℕ → ℕ) (fg bg : ℕ) where
  draw_wrapped-HasLines :
      (y : ℕ) (place : ℕ × ℕ) (s : Bytes) (ps : List ℕ)
      → IsScreen 320 240 ps
      → HasLines
          (line_count y place s)
          (draw_wrapped 320 240 font fg bg (pos 4) (pos y) 39 place s ps)
  unfolding draw_wrapped line_count
  draw_wrapped-HasLines y place [] ps e = (e, refl)
  draw_wrapped-HasLines y place (ch ∷ cs) ps e =
      let p = next_place ch 39 place in
      let full = ltb 240 (y + (16 * p.1 + 16)) in
      let drawn =
        draw_char 320 240 font fg bg (shift (pos 4) (8 * p.0)) (pos (y + 16 * p.1)) ch ps >>= λ qs.
        draw_wrapped 320 240 font fg bg (pos 4) (pos y) 39 (suc p.0, p.1) cs qs in
      branch-HasLines (ch == b'\n') (line_count y p cs)
        (elim full [ true ↦ suc p.1 | false ↦ line_count y (suc p.0, p.1) cs ])
        (draw_wrapped 320 240 font fg bg (pos 4) (pos y) 39 p cs ps)
        (elim full [ true ↦ some (ps, suc p.1) | false ↦ drawn ])
        (draw_wrapped-HasLines y p cs ps e)
        (branch-HasLines full (suc p.1) (line_count y (suc p.0, p.1) cs) (some (ps, suc p.1)) drawn
          (e, refl)
          (bind-HasLines (line_count y (suc p.0, p.1) cs)
            (draw_char 320 240 font fg bg (shift (pos 4) (8 * p.0)) (pos (y + 16 * p.1)) ch ps)
            (λ qs. draw_wrapped 320 240 font fg bg (pos 4) (pos y) 39 (suc p.0, p.1) cs qs)
            (draw_char-Sized 320 240 font fg bg (shift (pos 4) (8 * p.0)) (pos (y + 16 * p.1)) ch ps
              e)
            (λ qs k. draw_wrapped-HasLines y (suc p.0, p.1) cs qs k)))

  -- On pixels of the size of the screen, `DrawStringWrap` never indexes out of range, and it
  -- returns the count of lines that the layout of the timeline goes on from.
  draw_string_wrap-line_count :
      (y : ℕ) (s : Bytes) (ps : List ℕ)
      → length ps ≡ 320 * 240
      → HasLines
          (line_count y (0, 0) s)
          (draw_string_wrap 320 240 font fg bg (pos 4) (pos y) 312 s ps)
  unfolding draw_string_wrap
  draw_string_wrap-line_count y s ps e = draw_wrapped-HasLines y (0, 0) s ps e
