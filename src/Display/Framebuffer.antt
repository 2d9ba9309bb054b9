-- ===== src/Display/Framebuffer.antt =====
-- cmd/rfmp-display/framebuffer.go: drawing into the pixels of a screen of `w` by `h`. `none` is an
-- index out of range. The font of font.go is a parameter.
use Prim.Native.Nat.{bit_and}
use rfmpd.Base.{
  Bool, Bytes, List, Option, [], false, if◌then◌else◌, leb, ltb, map, none, replicate, some, suc,
  true, zero, ℕ, ◌*◌, ◌+◌, ◌-◌, ◌/◌, ◌==◌, ◌>>=◌, ◌^◌, ◌||◌, ◌∷◌,
}
use rfmpd.Base.Int.{ℤ, pos, negsuc}

-- `z + n`
abbrev pub shift : ℤ → ℕ → ℤ
shift (pos m) n = pos (m + n)
shift (negsuc m) n = if leb n m then negsuc (m - n) else pos (n - suc m)

-- a coordinate from 0 to below `n`
abbrev pub in_range : ℤ → ℕ → Option ℕ
in_range (pos m) n = if ltb m n then some m else none
in_range (negsuc m) n = none

abbrev pub above_ℤ : ℤ → ℕ → Bool
above_ℤ (pos m) n = ltb n m
above_ℤ (negsuc m) n = false

unfoldable pub write_at : ℕ → ℕ → List ℕ → Option (List ℕ)
write_at i c [] = none
write_at zero c (p ∷ ps) = some (c ∷ ps)
write_at (suc i) c (p ∷ ps) = write_at i c ps >>= λ qs. some (p ∷ qs)

-- where a character goes: a line feed, or a line that is full, starts the next line
abbrev pub next_place : ℕ → ℕ → ℕ × ℕ → ℕ × ℕ
next_place ch cols (col, line) = if ch == b'\n' || leb cols col then (0, suc line) else (col, line)

-- `NewFramebuffer`
unfoldable pub new_framebuffer : ℕ → ℕ → List ℕ
new_framebuffer w h = replicate (w * h) 0

-- `Clear`
unfoldable pub clear : ℕ → List ℕ → List ℕ
clear c pix = map (λ p. c) pix

module _ (w h : ℕ) where
  -- a pixel of a row that is on the screen, if its column is
  abbrev pub put_column : Option ℕ → ℕ → ℕ → List ℕ → Option (List ℕ)
  put_column none row c pix = some pix
  put_column (some col) row c pix = write_at (row * w + col) c pix

  -- `n` columns of a row, from `col` on
  unfoldable pub fill_row : ℕ → ℤ → ℕ → ℕ → List ℕ → Option (List ℕ)
  unfolding write_at
  fill_row zero col row c pix = some pix
  fill_row (suc n) col row c pix =
      put_column (in_range col w) row c pix >>= λ qs. fill_row n (shift col 1) row c qs

  -- a row that is not on the screen is skipped
  abbrev pub in_row : Option ℕ → (ℕ → List ℕ → Option (List ℕ)) → List ℕ → Option (List ℕ)
  in_row none draw pix = some pix
  in_row (some row) draw pix = draw row pix

  -- `SetPixel`
  unfoldable pub set_pixel : ℤ → ℤ → ℕ → List ℕ → Option (List ℕ)
  unfolding write_at
  set_pixel x y c pix = in_row (in_range y h) (λ row. put_column (in_range x w) row c) pix

  -- `FillRect`; the width comes before the height.
  unfoldable pub fill_rect : ℤ → ℤ → ℕ → ℕ → ℕ → List ℕ → Option (List ℕ)
  unfolding fill_row
  fill_rect x y width zero c pix = some pix
  fill_rect x y width (suc n) c pix =
      in_row (in_range y h) (λ row. fill_row width x row c) pix >>= λ qs.
      fill_rect x (shift y 1) width n c qs

  -- `HLine`
  unfoldable pub h_line : ℤ → ℤ → ℕ → ℕ → List ℕ → Option (List ℕ)
  unfolding fill_row
  h_line x y width c pix = in_row (in_range y h) (λ row. fill_row width x row c) pix

  module _ (font : ℕ → ℕ → ℕ) (fg bg : ℕ) where
    -- the columns of a row of a glyph, from `col` to 7
    unfoldable pub glyph_row : ℕ → ℕ → ℤ → ℕ → ℕ → List ℕ → Option (List ℕ)
    unfolding write_at
    glyph_row zero col x row bits pix = some pix
    glyph_row (suc n) col x row bits pix =
        put_column (in_range (shift x col) w) row
          (if bit_and bits (0x80 / 2 ^ col) == 0 then bg else fg) pix
        >>= λ qs. glyph_row n (suc col) x row bits qs

    unfoldable pub glyph_rows : ℕ → ℕ → ℤ → ℤ → ℕ → List ℕ → Option (List ℕ)
    unfolding glyph_row
    glyph_rows zero i x y ch pix = some pix
    glyph_rows (suc n) i x y ch pix =
        in_row (in_range (shift y i) h) (λ row. glyph_row 8 0 x row (font ch i)) pix >>= λ qs.
        glyph_rows n (suc i) x y ch qs

    -- `DrawChar`
    unfoldable pub draw_char : ℤ → ℤ → ℕ → List ℕ → Option (List ℕ)
    unfolding glyph_rows
    draw_char x y ch pix = glyph_rows 16 0 x y ch pix

    -- `DrawString`
    unfoldable pub draw_string : ℤ → ℤ → Bytes → List ℕ → Option (List ℕ)
    unfolding draw_char
    draw_string x y [] pix = some pix
    draw_string x y (ch ∷ cs) pix =
        if above_ℤ (shift x 8) w
        then some pix
        else (draw_char x y ch pix >>= λ qs. draw_string (shift x 8) y cs qs)

    -- `DrawStringWrap`: the column and the line of the next character count from 0.
    unfoldable pub draw_wrapped : ℤ → ℤ → ℕ → ℕ × ℕ → Bytes → List ℕ → Option (List ℕ × ℕ)
    unfolding draw_char
    draw_wrapped x y cols place [] pix = some (pix, suc place.1)
    draw_wrapped x y cols place (ch ∷ cs) pix =
        let p = next_place ch cols place in
        elim (ch == b'\n') [
          | true ↦ draw_wrapped x y cols p cs pix
          | false ↦ elim (above_ℤ (shift y (16 * p.1 + 16)) h) [
            | true ↦ some (pix, suc p.1)
            | false ↦ draw_char (shift x (8 * p.0)) (shift y (16 * p.1)) ch pix >>= λ qs.
                draw_wrapped x y cols (suc p.0, p.1) cs qs
          ]
        ]

    unfoldable pub draw_string_wrap : ℤ → ℤ → ℕ → Bytes → List ℕ → Option (List ℕ × ℕ)
    unfolding draw_wrapped
    draw_string_wrap x y max_w s pix = draw_wrapped x y (max_w / 8) (0, 0) s pix

-- the calls that `Render` makes, in any order
pub data Draw : Type 0 where
  clearing : ℕ → Draw
  pixel : ℤ → ℤ → ℕ → Draw
  rect : ℤ → ℤ → ℕ → ℕ → ℕ → Draw
  line : ℤ → ℤ → ℕ → ℕ → Draw
  string : ℤ → ℤ → Bytes → ℕ → ℕ → Draw
  wrapped : ℤ → ℤ → ℕ → Bytes → ℕ → ℕ → Draw

module _ (w h : ℕ) (font : ℕ → ℕ → ℕ) where
  unfoldable pub draw : Draw → List ℕ → Option (List ℕ)
  unfolding clear set_pixel fill_rect h_line draw_string draw_string_wrap
  draw (clearing c) pix = some (clear c pix)
  draw (pixel x y c) pix = set_pixel w h x y c pix
  draw (rect x y width height c) pix = fill_rect w h x y width height c pix
  draw (line x y width c) pix = h_line w h x y width c pix
  draw (string x y s fg bg) pix = draw_string w h font fg bg x y s pix
  draw (wrapped x y max_w s fg bg) pix =
      draw_string_wrap w h font fg bg x y max_w s pix >>= λ r. some r.0

  unfoldable pub draw_all : List Draw → List ℕ → Option (List ℕ)
  unfolding draw
  draw_all [] pix = some pix
  draw_all (d ∷ ds) pix = draw d pix >>= λ qs. draw_all ds qs
