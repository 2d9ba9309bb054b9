-- ===== src/Text/Decimal.antt =====
-- Printed numbers are read back.
use mathlib.Core.List.{concat-ne-nil}
use rfmpd.Base.{
  All, All-append, Bool-cases, Bytes, [], ap, arith, false, inl, inr, leb, ltb, lt→ltb, refl, some,
  suc, sym, zero, ℕ, ◌%◌, ◌*◌, ◌++◌, ◌+◌, ◌-◌, ◌/◌, ◌<◌, ◌==◌, ◌>>=◌, ◌^◌, ◌∙◌, ◌∷◌, ◌≡◌, ◌≢◌, ◌≤◌,
}
use rfmpd.Base.Int.{pos}
use rfmpd.Text.{
  read_digits, is_digit, digits_value, atoi, atoi_value, print_digits, itoa_ℕ, int_max,
}

abbrev pub IsDigit : ℕ → Type 0
IsDigit c = (b'0' ≤ c) × (c ≤ b'9')

pub print_digits-IsDigit : (fuel n : ℕ) → All IsDigit (print_digits fuel n)
unfolding print_digits
print_digits-IsDigit zero n = tt
print_digits-IsDigit (suc fuel) n = elim (Bool-cases (ltb n 10)) [
  | inl e ↦ rw e (ground arith)
  | inr e ↦ rw e (
      All-append IsDigit (print_digits fuel (n / 10)) ((b'0' + n % 10) ∷ [])
        (print_digits-IsDigit fuel (n / 10)) (ground arith))
]

read_digits-snoc :
    (acc d : ℕ) (xs : Bytes)
    → d < 10
    → read_digits acc (xs ++ (b'0' + d) ∷ []) ≡ (read_digits acc xs >>= λ v. some (v * 10 + d))
unfolding read_digits
read_digits-snoc acc d [] h = ground arith
read_digits-snoc acc d (c ∷ xs) h = ground (arith, read_digits-snoc (acc * 10 + (c - b'0')) d xs h)

read_digits-print : (fuel n : ℕ) → n < fuel → read_digits 0 (print_digits fuel n) ≡ some n
unfolding print_digits
read_digits-print zero n h = absurd (omega arith)
read_digits-print (suc fuel) n h = elim (Bool-cases (ltb n 10)) [
  | inl e ↦ rw e (unfold read_digits in ground arith)
  | inr e ↦ rw e (
      rw (read_digits-snoc 0 (n % 10) (print_digits fuel (n / 10)) (omega arith))
        (later (read_digits-print fuel (n / 10) (ground arith))))
]
  where
    later :
        read_digits 0 (print_digits fuel (n / 10)) ≡ some (n / 10)
        → (read_digits 0 (print_digits fuel (n / 10)) >>= λ v. some (v * 10 + n % 10)) ≡ some n
    later e = rw e (ground arith)

print_digits-ne-nil : (fuel n : ℕ) → print_digits (suc fuel) n ≢ []
unfolding print_digits
print_digits-ne-nil fuel n =
    ground (arith, concat-ne-nil ((b'0' + n % 10)) (print_digits fuel (n / 10)))

-- The forms of a printed number: a digit, and more digits.
pub itoa_ℕ-cons : (n : ℕ) → (c : ℕ) × (cs : Bytes) × (itoa_ℕ n ≡ c ∷ cs) × IsDigit c
itoa_ℕ-cons n =
    unfold itoa_ℕ in first (print_digits (suc n) n) refl (print_digits-IsDigit (suc n) n)
  where
    first :
        (ds : Bytes)
        → print_digits (suc n) n ≡ ds
        → All IsDigit ds
        → (c : ℕ) × (cs : Bytes) × (print_digits (suc n) n ≡ c ∷ cs) × IsDigit c
    first [] e h = absurd (print_digits-ne-nil n n e)
    first (c ∷ cs) e h = (c, cs, e, h.0)

atoi_digit :
    (c n : ℕ) (cs : Bytes)
    → IsDigit c
    → n < int_max
    → read_digits 0 (c ∷ cs) ≡ some n
    → atoi (c ∷ cs) ≡ some (pos n)
atoi_digit c n cs d h e =
    let m : (c == b'-') ≡ false = ground arith in
    let p : (c == b'+') ≡ false = ground arith in unfold atoi in rw (m, p, e, lt→ltb n int_max h)

-- A number that fits an `int` is read back from its decimal form.
pub atoi-itoa : (n : ℕ) → n < int_max → atoi (itoa_ℕ n) ≡ some (pos n)
atoi-itoa n h =
    let (c, cs, e, d) = itoa_ℕ-cons n in
    rw e (
      atoi_digit c n cs d h
        (sym (ap (read_digits 0) e) ∙ unfold itoa_ℕ in read_digits-print (suc n) n (omega arith)))

read_digits-le : (acc n : ℕ) (cs : Bytes) → read_digits acc cs ≡ some n → acc ≤ n
unfolding read_digits
read_digits-le acc n [] e = let p : acc ≡ n = cc in omega (arith, p)
read_digits-le acc n (c ∷ cs) e = elim (Bool-cases (is_digit c)) [
  | inl d ↦ let q = read_digits-le (acc * 10 + (c - b'0')) n cs (rw d at e) in omega (arith, q)
  | inr d ↦ absurd (let q = rw d at e in cc)
]

digits_value-read :
    (acc n : ℕ) (cs : Bytes) → read_digits acc cs ≡ some n → n < 2 ^ 64 → digits_value acc cs ≡ n
unfolding read_digits digits_value
digits_value-read acc n [] e h = cc
digits_value-read acc n (c ∷ cs) e h = elim (Bool-cases (is_digit c)) [
  | inl d ↦
      let q : read_digits (acc * 10 + (c - b'0')) cs ≡ some n = rw d at e in
      let small : leb (2 ^ 64) (acc * 10 + (c - b'0')) ≡ false =
        let k = read_digits-le (acc * 10 + (c - b'0')) n cs q in ground (arith, k, h) in
      rw (d, small) (digits_value-read (acc * 10 + (c - b'0')) n cs q h)
  | inr d ↦ absurd (let q = rw d at e in cc)
]

atoi_value_digit :
    (c n : ℕ) (cs : Bytes)
    → IsDigit c
    → n < int_max
    → read_digits 0 (c ∷ cs) ≡ some n
    → atoi_value (c ∷ cs) ≡ pos n
atoi_value_digit c n cs d h e =
    let m : (c == b'-') ≡ false = ground arith in
    let p : (c == b'+') ≡ false = ground arith in
    let v = digits_value-read 0 n (c ∷ cs) e (omega (arith, h)) in
    unfold atoi_value in rw (m, p, v, lt→ltb n int_max h)

-- The same of the value alone.
pub atoi_value-itoa : (n : ℕ) → n < int_max → atoi_value (itoa_ℕ n) ≡ pos n
atoi_value-itoa n h =
    let (c, cs, e, d) = itoa_ℕ-cons n in
    rw e (
      atoi_value_digit c n cs d h
        (sym (ap (read_digits 0) e) ∙ unfold itoa_ℕ in read_digits-print (suc n) n (omega arith)))
