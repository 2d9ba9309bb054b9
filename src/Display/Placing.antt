-- ===== src/Display/Placing.antt =====
-- Where the calls of a drawing leave what was drawn before them.
use rfmpd.Base.{
  All, All-append, All-mono, Bytes, List, [], arith, if◌then◌else◌, inl, inr, leb, ℕ, ◌++◌, ◌+◌,
  ◌∷◌, ◌≡◌, ◌≤◌, ◌⊎◌,
}
use rfmpd.Base.Int.{ℤ, pos, negsuc}
use rfmpd.Display.Framebuffer.{Draw, clearing, pixel, rect, line, string, wrapped}

-- One call is so, and all that follow it are as told.
abbrev pub Then : (Draw → Type 0) → (Draw → Type 0) → List Draw → Type 0
Then P Q [] = ⊥
Then P Q (d ∷ ds) = (P d × All Q ds) ⊎ Then P Q ds

pub Then-append_right :
    (P Q : Draw → Type 0) (xs ys : List Draw) → Then P Q ys → Then P Q (xs ++ ys)
Then-append_right P Q [] ys h = h
Then-append_right P Q (x ∷ xs) ys h = inr (Then-append_right P Q xs ys h)

pub Then-append_left :
    (P Q : Draw → Type 0) (xs ys : List Draw) → Then P Q xs → All Q ys → Then P Q (xs ++ ys)
Then-append_left P Q [] ys h k = absurd h
Then-append_left P Q (x ∷ xs) ys (inl (p, q)) k = inl (p, All-append Q xs ys q k)
Then-append_left P Q (x ∷ xs) ys (inr h) k = inr (Then-append_left P Q xs ys h k)

pub Then-mono :
    (P Q R : Draw → Type 0) (xs : List Draw) → ((d : Draw) → Q d → R d) → Then P Q xs → Then P R xs
Then-mono P Q R [] f h = h
Then-mono P Q R (x ∷ xs) f (inl (p, q)) = inl (p, All-mono xs f q)
Then-mono P Q R (x ∷ xs) f (inr h) = inr (Then-mono P Q R xs f h)

abbrev IsFrom : ℕ → ℤ → Type 0
IsFrom n (pos m) = n ≤ m
IsFrom n (negsuc m) = ⊥

abbrev EndsBy : ℕ → ℤ → ℕ → Type 0
EndsBy n (pos m) h = m + h ≤ n
EndsBy n (negsuc m) h = ⊥

-- A call draws at this ordinate or below it on the screen.
abbrev pub From : ℕ → Draw → Type 0
From n (clearing c) = ⊥
From n (pixel x y c) = IsFrom n y
From n (rect x y w h c) = IsFrom n y
From n (line x y w c) = IsFrom n y
From n (string x y s fg bg) = IsFrom n y
From n (wrapped x y w s fg bg) = IsFrom n y

-- A call draws a text from this column on.
abbrev pub Right : ℕ → Draw → Type 0
Right n (clearing c) = ⊥
Right n (pixel x y c) = ⊥
Right n (rect x y w h c) = ⊥
Right n (line x y w c) = ⊥
Right n (string x y s fg bg) = IsFrom n x
Right n (wrapped x y w s fg bg) = ⊥

-- A call draws a rectangle above this ordinate.
abbrev pub Above : ℕ → Draw → Type 0
Above n (clearing c) = ⊥
Above n (pixel x y c) = ⊥
Above n (rect x y w h c) = EndsBy n y h
Above n (line x y w c) = ⊥
Above n (string x y s fg bg) = ⊥
Above n (wrapped x y w s fg bg) = ⊥

-- A call leaves the lines from `y` up to `to` as they are, left of the column `right`.
abbrev pub Leaves : ℕ → ℕ → ℕ → Draw → Type 0
Leaves y to right d = From to d ⊎ (Right right d ⊎ Above y d)

-- The calls draw this text at this ordinate, and those behind it leave its lines up to `to`, left of
-- the column `right`.
abbrev pub Draws : ℕ → ℕ → ℕ → Bytes → ℕ → ℕ → List Draw → Type 0
Draws y to right s fg bg ds = Then (λ d. d ≡ string (pos 4) (pos y) s fg bg) (Leaves y to right) ds

-- the same where all that follows is further down
abbrev pub Leads : ℕ → ℕ → Bytes → ℕ → ℕ → List Draw → Type 0
Leads y to s fg bg ds = Then (λ d. d ≡ string (pos 4) (pos y) s fg bg) (From to) ds

abbrev pub least : ℕ → ℕ → ℕ
least a b = if leb a b then a else b

pub least-le : (a b : ℕ) → (least a b ≤ a) × (least a b ≤ b)
least-le a b = (ground arith, ground arith)
