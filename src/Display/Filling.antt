-- ===== src/Display/Filling.antt =====
-- Rows and rectangles stay inside the pixels of the screen.
use rfmpd.Base.{
  Bool, List, Option, [], ap, arith, false, if◌then◌else◌, length, ltb, none, refl, some, subst,
  suc, true, zero, ℕ, ◌*◌, ◌+◌, ◌<◌, ◌>>=◌, ◌∷◌, ◌≡◌,
}
use rfmpd.Base.Int.{ℤ, pos, negsuc}
use rfmpd.Display.Framebuffer.{
  shift, in_range, write_at, put_column, fill_row, in_row, set_pixel, fill_rect, h_line, draw,
}

-- pixels that are there, `n` of them
abbrev pub Sized : ℕ → Option (List ℕ) → Type 0
Sized n none = ⊥
Sized n (some ps) = length ps ≡ n

pub Sized-bind :
    (n : ℕ) (o : Option (List ℕ)) (f : List ℕ → Option (List ℕ))
    → Sized n o
    → ((ps : List ℕ) → length ps ≡ n → Sized n (f ps))
    → Sized n (o >>= f)
Sized-bind n none f h k = h
Sized-bind n (some ps) f h k = k ps h

write_at-Sized : (i c : ℕ) (ps : List ℕ) → i < length ps → Sized (length ps) (write_at i c ps)
unfolding write_at
write_at-Sized i c [] h = absurd (omega arith)
write_at-Sized zero c (p ∷ ps) h = refl
write_at-Sized (suc i) c (p ∷ ps) h = go (write_at i c ps) (write_at-Sized i c ps (omega arith))
  where
    go :
        (o : Option (List ℕ))
        → Sized (length ps) o
        → Sized (suc (length ps)) (o >>= λ qs. some (p ∷ qs))
    go none k = k
    go (some qs) k = ap suc k

pub if-Sized :
    (n : ℕ) (b : Bool) (x y : Option (List ℕ))
    → Sized n x
    → Sized n y
    → Sized n (if b then x else y)
if-Sized n true x y h k = h
if-Sized n false x y h k = k

abbrev pub InRange : ℤ → ℕ → Option ℕ → Type 0
InRange z n none = Unit
InRange z n (some i) = i < n

row_major : (w h row col : ℕ) → row < h → col < w → row * w + col < w * h
row_major w h row col p q = grind arith

pub in_range-InRange : (z : ℤ) (n : ℕ) → InRange z n (in_range z n)
in_range-InRange (negsuc m) n = tt
in_range-InRange (pos m) n = split (ltb m n) refl
  where
    split : (b : Bool) → ltb m n ≡ b → InRange (pos m) n (if b then some m else none)
    split true e = ground arith
    split false e = tt

module _ (w h : ℕ) where
  abbrev pub IsScreen : List ℕ → Type 0
  IsScreen ps = length ps ≡ w * h

  pub put_column-Sized :
      (z : ℤ) (o : Option ℕ) (row c : ℕ) (ps : List ℕ)
      → InRange z w o
      → row < h
      → IsScreen ps
      → Sized (w * h) (put_column w h o row c ps)
  put_column-Sized z none row c ps p q e = e
  put_column-Sized z (some col) row c ps p q e =
      subst (λ n. Sized n (write_at (row * w + col) c ps)) e
        (write_at-Sized (row * w + col) c ps (rw e (row_major w h row col q p)))

  pub in_row-Sized :
      (z : ℤ) (o : Option ℕ) (draw : ℕ → List ℕ → Option (List ℕ)) (ps : List ℕ)
      → InRange z h o
      → ((row : ℕ) → row < h → Sized (w * h) (draw row ps))
      → IsScreen ps
      → Sized (w * h) (in_row w h o draw ps)
  in_row-Sized z none draw ps p k e = e
  in_row-Sized z (some row) draw ps p k e = k row p

  fill_row-Sized :
      (n : ℕ) (col : ℤ) (row c : ℕ) (ps : List ℕ)
      → row < h
      → IsScreen ps
      → Sized (w * h) (fill_row w h n col row c ps)
  unfolding fill_row
  fill_row-Sized zero col row c ps p e = e
  fill_row-Sized (suc n) col row c ps p e =
      Sized-bind (w * h) (put_column w h (in_range col w) row c ps)
        (λ qs. fill_row w h n (shift col 1) row c qs)
        (put_column-Sized col (in_range col w) row c ps (in_range-InRange col w) p e)
        (λ qs k. fill_row-Sized n (shift col 1) row c qs p k)

  pub fill_rect-Sized :
      (x y : ℤ) (width n c : ℕ) (ps : List ℕ)
      → IsScreen ps
      → Sized (w * h) (fill_rect w h x y width n c ps)
  unfolding fill_rect
  fill_rect-Sized x y width zero c ps e = e
  fill_rect-Sized x y width (suc n) c ps e =
      Sized-bind (w * h) (in_row w h (in_range y h) (λ row. fill_row w h width x row c) ps)
        (λ qs. fill_rect w h x (shift y 1) width n c qs)
        (in_row-Sized y (in_range y h) (λ row. fill_row w h width x row c) ps (in_range-InRange y h)
          (λ row p. fill_row-Sized width x row c ps p e) e)
        (λ qs k. fill_rect-Sized x (shift y 1) width n c qs k)

  pub h_line-Sized :
      (x y : ℤ) (width c : ℕ) (ps : List ℕ)
      → IsScreen ps
      → Sized (w * h) (h_line w h x y width c ps)
  unfolding h_line
  h_line-Sized x y width c ps e =
      in_row-Sized y (in_range y h) (λ row. fill_row w h width x row c) ps (in_range-InRange y h)
        (λ row p. fill_row-Sized width x row c ps p e) e

  pub set_pixel-Sized :
      (x y : ℤ) (c : ℕ) (ps : List ℕ) → IsScreen ps → Sized (w * h) (set_pixel w h x y c ps)
  unfolding set_pixel
  set_pixel-Sized x y c ps e =
      in_row-Sized y (in_range y h) (λ row. put_column w h (in_range x w) row c) ps
        (in_range-InRange y h)
        (λ row p. put_column-Sized x (in_range x w) row c ps (in_range-InRange x w) p e) e
