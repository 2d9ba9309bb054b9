-- ===== src/Timing/Nanoseconds.antt =====
-- Sums and the order of `time.Duration`, without overflow.
use rfmpd.Base.{
  Bool-cases, arith, if◌then◌else◌, inl, inr, leb, leb→le, le→leb, suc, true, ℕ, ◌+◌, ◌-◌, ◌≡◌, ◌≤◌,
}
use rfmpd.Base.Int.{ℤ, pos, negsuc}

infixl 65 ◌+ℤ◌
infix 50 ◌≤ℤ◌
-- the integer `m - (n + 1)`
abbrev pub less : ℕ → ℕ → ℤ
less m n = if leb (suc n) m then pos (m - suc n) else negsuc (n - m)

unfoldable pub ◌+ℤ◌ : ℤ → ℤ → ℤ
pos m +ℤ pos n = pos (m + n)
pos m +ℤ negsuc n = less m n
negsuc m +ℤ pos n = less n m
negsuc m +ℤ negsuc n = negsuc (suc (m + n))

unfoldable pub ◌≤ℤ◌ : ℤ → ℤ → Type 0
pos m ≤ℤ pos n = m ≤ n
pos m ≤ℤ negsuc n = ⊥
negsuc m ≤ℤ pos n = Unit
negsuc m ≤ℤ negsuc n = n ≤ m

less_mono : (m n k l : ℕ) → m + l ≤ k + n → less m n ≤ℤ less k l
unfolding ◌≤ℤ◌
less_mono m n k l h = elim (Bool-cases (leb (suc n) m)) [
  | inl e ↦
      let p = leb→le (suc n) m e in
      let f : leb (suc l) k ≡ true = le→leb (suc l) k (omega (arith, h, p)) in
      rw (e, f) (omega (arith, h, p))
  | inr e ↦ elim (Bool-cases (leb (suc l) k)) [
    | inl f ↦ rw (e, f) tt
    | inr f ↦ rw (e, f) (ground (arith, h, e, f))
  ]
]

pos-less : (a m n : ℕ) → less a m ≤ℤ pos (a + n)
unfolding ◌≤ℤ◌
pos-less a m n = elim (Bool-cases (leb (suc m) a)) [ inl e ↦ rw e (omega arith) | inr e ↦ rw e tt ]

negsuc-less : (a m n : ℕ) → negsuc (suc (a + m)) ≤ℤ less n a
unfolding ◌≤ℤ◌
negsuc-less a m n = elim (Bool-cases (leb (suc a) n)) [
  | inl e ↦ rw e tt
  | inr e ↦ rw e (omega arith)
]

-- A greater summand gives a greater sum.
pub add_mono : (a b c : ℤ) → b ≤ℤ c → a +ℤ b ≤ℤ a +ℤ c
unfolding ◌+ℤ◌ ◌≤ℤ◌
add_mono (pos a) (pos m) (pos n) h = omega (arith, h)
add_mono (pos a) (pos m) (negsuc n) h = absurd h
add_mono (pos a) (negsuc m) (pos n) h = pos-less a m n
add_mono (pos a) (negsuc m) (negsuc n) h = less_mono a m a n (omega (arith, h))
add_mono (negsuc a) (pos m) (pos n) h = less_mono m a n a (omega (arith, h))
add_mono (negsuc a) (pos m) (negsuc n) h = absurd h
add_mono (negsuc a) (negsuc m) (pos n) h = negsuc-less a m n
add_mono (negsuc a) (negsuc m) (negsuc n) h = omega (arith, h)

pub add_up : (a b : ℤ) → pos 0 ≤ℤ b → a ≤ℤ a +ℤ b
unfolding ◌+ℤ◌ ◌≤ℤ◌
add_up (pos a) (pos n) h = omega arith
add_up (negsuc a) (pos n) h = elim (Bool-cases (leb (suc a) n)) [
  | inl e ↦ rw e tt
  | inr e ↦ rw e (omega arith)
]
add_up a (negsuc n) h = absurd h
