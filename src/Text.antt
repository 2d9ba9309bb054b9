-- ===== src/Text.antt =====
-- The functions of Go's `strings`, `strconv` and `fmt` that the program calls, over the bytes of a
-- string. `Decimal` proves that a printed number is read back.
pub mod Decimal
pub mod Trim
use Prim.Native.Char.{code}
use Prim.Native.String.{String}
use rfmpd.Base.{
  Bool, Bytes, Option, [], arith, drop, false, if◌then◌else◌, is_empty, leb, length, ltb, none,
  refl, some, suc, true, zero, ℕ, ◌%◌, ◌&&◌, ◌*◌, ◌++◌, ◌+◌, ◌-◌, ◌/◌, ◌==◌, ◌>>=◌, ◌^◌, ◌||◌, ◌∷◌,
  ◌≡◌,
}
use rfmpd.Base.Int.{ℤ, pos, negsuc}

-- The bytes of a literal, which is ASCII.
abbrev pub text : String → Bytes
text String.[] = []
text (String.◌∷◌ c s) = code c ∷ text s

-- `strings.ToUpper` over ASCII; other bytes stay as they are.
abbrev pub upper_byte : ℕ → ℕ
upper_byte c = if leb b'a' c && leb c b'z' then c - 32 else c

unfoldable pub to_upper : Bytes → Bytes
to_upper [] = []
to_upper (c ∷ cs) = upper_byte c ∷ to_upper cs

abbrev pub lower_byte : ℕ → ℕ
lower_byte c = if leb b'A' c && leb c b'Z' then c + 32 else c

-- `strings.ToLower` over ASCII
unfoldable pub to_lower : Bytes → Bytes
to_lower [] = []
to_lower (c ∷ cs) = lower_byte c ∷ to_lower cs

abbrev pub is_space : ℕ → Bool
is_space c = c == b' ' || (leb 9 c && leb c 13)

unfoldable pub trim_left : Bytes → Bytes
trim_left [] = []
trim_left (c ∷ cs) = let rest = trim_left cs in if is_space c then rest else c ∷ cs

unfoldable pub trim_right : Bytes → Bytes
trim_right [] = []
trim_right (c ∷ cs) =
    let rest = trim_right cs in if is_space c && is_empty rest then [] else c ∷ rest

-- `strings.TrimSpace` over ASCII
unfoldable pub trim_space : Bytes → Bytes
unfolding trim_left trim_right
trim_space s = trim_right (trim_left s)

unfoldable pub has_prefix : Bytes → Bytes → Bool
has_prefix s [] = true
has_prefix [] (p ∷ ps) = false
has_prefix (c ∷ cs) (p ∷ ps) = c == p && has_prefix cs ps

-- `strings.TrimPrefix`
unfoldable pub trim_prefix : Bytes → Bytes → Bytes
unfolding has_prefix
trim_prefix s prefix = if has_prefix s prefix then drop (length prefix) s else s

-- `strings.Index` of one byte, with the two slices around it.
unfoldable pub cut : ℕ → Bytes → Option (Bytes × Bytes)
cut sep [] = none
cut sep (c ∷ cs) =
    if c == sep then some ([], cs) else (cut sep cs >>= λ (pre, post). some (c ∷ pre, post))

abbrev pub is_digit : ℕ → Bool
is_digit c = leb b'0' c && leb c b'9'

unfoldable pub read_digits : ℕ → Bytes → Option ℕ
read_digits acc [] = some acc
read_digits acc (c ∷ cs) = if is_digit c then read_digits (acc * 10 + (c - b'0')) cs else none

-- At least one digit.
unfoldable pub read_number : Bytes → Option ℕ
unfolding read_digits
read_number [] = none
read_number (c ∷ cs) = read_digits 0 (c ∷ cs)

abbrev pub int_max : ℕ
int_max = 2 ^ 63

abbrev in_range : Bool → ℕ → Option ℤ
in_range false n = if ltb n int_max then some (pos n) else none
in_range true zero = some (pos 0)
in_range true (suc n) = if ltb n int_max then some (negsuc n) else none

-- `strconv.Atoi` for a 64-bit `int`: an optional sign, digits, and no overflow.
unfoldable pub atoi : Bytes → Option ℤ
unfolding read_number
atoi [] = none
atoi (c ∷ cs) =
    if c == b'-'
    then read_number cs >>= in_range true
    else if c == b'+'
    then read_number cs >>= in_range false
    else read_number (c ∷ cs) >>= in_range false

-- The value of digits as an unsigned 64-bit number: the largest one as soon as they go past it, and
-- 0 if a byte that is no digit comes first.
unfoldable pub digits_value : ℕ → Bytes → ℕ
digits_value acc [] = acc
digits_value acc (c ∷ cs) =
    let n = acc * 10 + (c - b'0') in
    let rest = digits_value n cs in
    if is_digit c then if leb (2 ^ 64) n then 2 ^ 64 - 1 else rest else 0

abbrev clamped : Bool → ℕ → ℤ
clamped false n = if ltb n int_max then pos n else pos (int_max - 1)
clamped true zero = pos 0
clamped true (suc n) = if ltb n int_max then negsuc n else negsuc (int_max - 1)

-- The value of `strconv.Atoi`, with or without an error: 0 for a text that is no number, and
-- the nearest `int` for one out of range.
unfoldable pub atoi_value : Bytes → ℤ
unfolding digits_value
atoi_value [] = pos 0
atoi_value (c ∷ cs) =
    if c == b'-'
    then clamped true (digits_value 0 cs)
    else if c == b'+'
    then clamped false (digits_value 0 cs)
    else clamped false (digits_value 0 (c ∷ cs))

-- The digits of a number, with fuel for each.
unfoldable pub print_digits : ℕ → ℕ → Bytes
print_digits zero n = []
print_digits (suc fuel) n =
    let rest = print_digits fuel (n / 10) in
    if ltb n 10 then (b'0' + n) ∷ [] else rest ++ (b'0' + n % 10) ∷ []

-- `strconv.Itoa`, and `%d`. A number has fewer digits than units.
unfoldable pub itoa_ℕ : ℕ → Bytes
unfolding print_digits
itoa_ℕ n = print_digits (suc n) n

unfoldable pub itoa : ℤ → Bytes
unfolding itoa_ℕ
itoa (pos n) = itoa_ℕ n
itoa (negsuc n) = b'-' ∷ itoa_ℕ (suc n)

-- `a <= b` on Go strings: by bytes.
unfoldable pub text_le : Bytes → Bytes → Bool
text_le [] bs = true
text_le (a ∷ xs) [] = false
text_le (a ∷ xs) (b ∷ ys) = if a == b then text_le xs ys else ltb a b

unfoldable pub text_eq : Bytes → Bytes → Bool
text_eq [] [] = true
text_eq (a ∷ xs) (b ∷ ys) = a == b && text_eq xs ys
text_eq _ _ = false

pub text_eq_refl : (s : Bytes) → text_eq s s ≡ true
unfolding text_eq
text_eq_refl [] = refl
text_eq_refl (c ∷ s) = ground (arith, text_eq_refl s)

pub text_eq→≡ : (s t : Bytes) → text_eq s t ≡ true → s ≡ t
unfolding text_eq
text_eq→≡ [] [] h = refl
text_eq→≡ [] (b ∷ t) h = cc
text_eq→≡ (a ∷ s) [] h = cc
text_eq→≡ (a ∷ s) (b ∷ t) h = ground (arith, text_eq→≡ s t)
