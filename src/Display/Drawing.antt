-- ===== src/Display/Drawing.antt =====
-- Any sequence of drawing calls stays inside the pixels of the screen.
use rfmpd.Base.{
  Bool, Bytes, List, Option, [], ap, false, length, length-replicate, none, refl, replicate, some,
  suc, true, zero, ℕ, ◌*◌, ◌+◌, ◌/◌, ◌<◌, ◌==◌, ◌>>=◌, ◌∙◌, ◌∷◌, ◌≡◌,
}
use rfmpd.Base.Int.{ℤ}
use rfmpd.Display.Framebuffer.{
  shift, in_range, above_ℤ, put_column, in_row, glyph_row, glyph_rows, draw_char, draw_string,
  next_place, draw_wrapped, draw_string_wrap, new_framebuffer, clear, Draw, clearing, pixel, rect,
  line, string, wrapped, draw, draw_all,
}
use rfmpd.Display.Filling.{
  Sized, Sized-bind, if-Sized, in_range-InRange, IsScreen, put_column-Sized, in_row-Sized,
  fill_rect-Sized, h_line-Sized, set_pixel-Sized,
}

-- the same for pixels with a count of lines
abbrev SizedLines : ℕ → Option (List ℕ × ℕ) → Type 0
SizedLines n none = ⊥
SizedLines n (some r) = length r.0 ≡ n

lines-bind :
    (n : ℕ) (o : Option (List ℕ)) (f : List ℕ → Option (List ℕ × ℕ))
    → Sized n o
    → ((ps : List ℕ) → length ps ≡ n → SizedLines n (f ps))
    → SizedLines n (o >>= f)
lines-bind n none f h k = h
lines-bind n (some ps) f h k = k ps h

first_of : (n : ℕ) (o : Option (List ℕ × ℕ)) → SizedLines n o → Sized n (o >>= λ r. some r.0)
first_of n none h = h
first_of n (some r) h = h

branch-SizedLines :
    (n : ℕ) (b : Bool) (x y : Option (List ℕ × ℕ))
    → SizedLines n x
    → SizedLines n y
    → SizedLines n (elim b [ true ↦ x | false ↦ y ])
branch-SizedLines n true x y h k = h
branch-SizedLines n false x y h k = k

length-clear : (c : ℕ) (ps : List ℕ) → length (clear c ps) ≡ length ps
unfolding clear
length-clear c [] = refl
length-clear c (p ∷ ps) = ap suc (length-clear c ps)

module _ (w h : ℕ) where
  module _ (font : ℕ → ℕ → ℕ) (fg bg : ℕ) where
    glyph_row-Sized :
        (n col : ℕ) (x : ℤ) (row bits : ℕ) (ps : List ℕ)
        → row < h
        → IsScreen w h ps
        → Sized (w * h) (glyph_row w h font fg bg n col x row bits ps)
    unfolding glyph_row
    glyph_row-Sized zero col x row bits ps p e = e
    glyph_row-Sized (suc n) col x row bits ps p e =
        Sized-bind (w * h) (put_column w h (in_range (shift x col) w) row _ ps)
          (λ qs. glyph_row w h font fg bg n (suc col) x row bits qs)
          (put_column-Sized w h (shift x col) (in_range (shift x col) w) row _ ps
            (in_range-InRange (shift x col) w) p e)
          (λ qs k. glyph_row-Sized n (suc col) x row bits qs p k)

    glyph_rows-Sized :
        (n i : ℕ) (x y : ℤ) (ch : ℕ) (ps : List ℕ)
        → IsScreen w h ps
        → Sized (w * h) (glyph_rows w h font fg bg n i x y ch ps)
    unfolding glyph_rows
    glyph_rows-Sized zero i x y ch ps e = e
    glyph_rows-Sized (suc n) i x y ch ps e =
        let draw : ℕ → List ℕ → Option (List ℕ) =
          λ row. glyph_row w h font fg bg 8 0 x row (font ch i) in
        Sized-bind (w * h) (in_row w h (in_range (shift y i) h) draw ps)
          (λ qs. glyph_rows w h font fg bg n (suc i) x y ch qs)
          (in_row-Sized w h (shift y i) (in_range (shift y i) h) draw ps
            (in_range-InRange (shift y i) h) (λ row p. glyph_row-Sized 8 0 x row (font ch i) ps p e)
            e)
          (λ qs k. glyph_rows-Sized n (suc i) x y ch qs k)

    pub draw_char-Sized :
        (x y : ℤ) (ch : ℕ) (ps : List ℕ)
        → IsScreen w h ps
        → Sized (w * h) (draw_char w h font fg bg x y ch ps)
    draw_char-Sized x y ch ps e = unfold draw_char in glyph_rows-Sized 16 0 x y ch ps e

    draw_string-Sized :
        (x y : ℤ) (s : Bytes) (ps : List ℕ)
        → IsScreen w h ps
        → Sized (w * h) (draw_string w h font fg bg x y s ps)
    unfolding draw_string
    draw_string-Sized x y [] ps e = e
    draw_string-Sized x y (ch ∷ cs) ps e =
        let rest = draw_char w h font fg bg x y ch ps >>= λ qs.
        draw_string w h font fg bg (shift x 8) y cs qs in
        if-Sized (w * h) (above_ℤ (shift x 8) w) (some ps) rest e (
          Sized-bind (w * h) (draw_char w h font fg bg x y ch ps)
            (λ qs. draw_string w h font fg bg (shift x 8) y cs qs) (draw_char-Sized x y ch ps e)
            (λ qs k. draw_string-Sized (shift x 8) y cs qs k))

    draw_wrapped-Sized :
        (x y : ℤ) (cols : ℕ) (place : ℕ × ℕ) (s : Bytes) (ps : List ℕ)
        → IsScreen w h ps
        → SizedLines (w * h) (draw_wrapped w h font fg bg x y cols place s ps)
    unfolding draw_wrapped
    draw_wrapped-Sized x y cols place [] ps e = e
    draw_wrapped-Sized x y cols place (ch ∷ cs) ps e =
        let p = next_place ch cols place in
        let drawn =
          draw_char w h font fg bg (shift x (8 * p.0)) (shift y (16 * p.1)) ch ps >>= λ qs.
          draw_wrapped w h font fg bg x y cols (suc p.0, p.1) cs qs in
        let full = above_ℤ (shift y (16 * p.1 + 16)) h in
        branch-SizedLines (w * h) (ch == b'\n') (draw_wrapped w h font fg bg x y cols p cs ps)
          (elim full [ true ↦ some (ps, suc p.1) | false ↦ drawn ])
          (draw_wrapped-Sized x y cols p cs ps e)
          (branch-SizedLines (w * h) full (some (ps, suc p.1)) drawn e (
            lines-bind (w * h)
              (draw_char w h font fg bg (shift x (8 * p.0)) (shift y (16 * p.1)) ch ps)
              (λ qs. draw_wrapped w h font fg bg x y cols (suc p.0, p.1) cs qs)
              (draw_char-Sized (shift x (8 * p.0)) (shift y (16 * p.1)) ch ps e)
              (λ qs k. draw_wrapped-Sized x y cols (suc p.0, p.1) cs qs k)))

  draw-Sized :
      (font : ℕ → ℕ → ℕ) (d : Draw) (ps : List ℕ)
      → IsScreen w h ps
      → Sized (w * h) (draw w h font d ps)
  unfolding draw
  draw-Sized font (clearing c) ps e = length-clear c ps ∙ e
  draw-Sized font (pixel x y c) ps e = set_pixel-Sized w h x y c ps e
  draw-Sized font (rect x y width height c) ps e = fill_rect-Sized w h x y width height c ps e
  draw-Sized font (line x y width c) ps e = h_line-Sized w h x y width c ps e
  draw-Sized font (string x y s fg bg) ps e = draw_string-Sized font fg bg x y s ps e
  draw-Sized font (wrapped x y max_w s fg bg) ps e =
      first_of (w * h) (draw_string_wrap w h font fg bg x y max_w s ps)
        (unfold draw_string_wrap in draw_wrapped-Sized font fg bg x y (max_w / 8) (0, 0) s ps e)

  draw_all-Sized :
      (font : ℕ → ℕ → ℕ) (ds : List Draw) (ps : List ℕ)
      → IsScreen w h ps
      → Sized (w * h) (draw_all w h font ds ps)
  unfolding draw_all
  draw_all-Sized font [] ps e = e
  draw_all-Sized font (d ∷ ds) ps e =
      Sized-bind (w * h) (draw w h font d ps) (λ qs. draw_all w h font ds qs)
        (draw-Sized font d ps e) (λ qs k. draw_all-Sized font ds qs k)

  -- No sequence of drawing calls on a new screen indexes the pixels out of range, at whatever
  -- coordinates, and the screen keeps its size.
  pub draw_all_total :
      (font : ℕ → ℕ → ℕ) (ds : List Draw)
      → (ps : List ℕ) × (draw_all w h font ds (new_framebuffer w h) ≡ some ps) × (length ps ≡ w * h)
  unfolding new_framebuffer
  draw_all_total font ds =
      present (draw_all w h font ds (replicate (w * h) 0))
        (draw_all-Sized font ds (replicate (w * h) 0) (length-replicate (w * h) 0))
    where
      present :
          (o : Option (List ℕ))
          → Sized (w * h) o
          → (ps : List ℕ) × (o ≡ some ps) × (length ps ≡ w * h)
      present none k = absurd k
      present (some ps) k = (ps, refl, k)
