-- ===== src/Message/Timestamp.antt =====
-- `time.Time` as the code uses it: whole seconds, in UTC. A time is the number of seconds since
-- the start of the year 0, so that every four-digit year has times.
use rfmpd.Base.{
  Bool, Bytes, List, Option, [], arith, get_or, if◌then◌else◌, is_empty, leb, ltb, none, not, some,
  suc, sum, take, zero, ℕ, ◌%◌, ◌&&◌, ◌*◌, ◌++◌, ◌+◌, ◌-◌, ◌/◌, ◌<◌, ◌==◌, ◌>>=◌, ◌^◌, ◌||◌, ◌∷◌,
  ◌≡◌,
}
use rfmpd.Text.{itoa_ℕ}

abbrev pub Time : Type 0
Time = ℕ

-- 1970-01-01T00:00:00Z
abbrev pub unix_zero : Time
unix_zero = 62167219200

abbrev pub u32_mod : ℕ
u32_mod = 2 ^ 32

-- `uint32(t.Unix())`; a multiple of 2^32 above the offset keeps the difference positive.
unfoldable pub to_epoch : Time → ℕ
to_epoch t = (t + 15 * u32_mod - unix_zero) % u32_mod

unfoldable pub from_epoch : ℕ → Time
from_epoch e = unix_zero + e

-- Every epoch on the wire comes back after decoding and encoding again.
to_epoch-from_epoch : (e : ℕ) → e < u32_mod → to_epoch (from_epoch e) ≡ e
unfolding to_epoch from_epoch
to_epoch-from_epoch e h = omega arith

abbrev pub is_leap : ℕ → Bool
is_leap y = (y % 4 == 0) && (not (y % 100 == 0) || y % 400 == 0)

unfoldable pub year_days : ℕ → ℕ
year_days y = if is_leap y then 366 else 365

abbrev pub month_lengths : ℕ → List ℕ
month_lengths y =
    31 ∷ (if is_leap y then 29 else 28) ∷ 31 ∷ 30 ∷ 31 ∷ 30 ∷ 31 ∷ 31 ∷ 30 ∷ 31 ∷ 30 ∷ 31 ∷ []

unfoldable pub days_before : ℕ → ℕ
days_before zero = 0
days_before (suc y) = days_before y + year_days y

-- The year from `y` on that a day falls into, and the day's number in it.
unfoldable pub find_year : ℕ → ℕ → ℕ → ℕ × ℕ
find_year zero y d = (y, d)
find_year (suc fuel) y d =
    let later = find_year fuel (suc y) (d - year_days y) in
    if ltb d (year_days y) then (y, d) else later

-- The month of a day's number, over the lengths of the months from `m` on.
unfoldable pub find_month : List ℕ → ℕ → ℕ → ℕ × ℕ
find_month [] m d = (m, d)
find_month (l ∷ ls) m d = if ltb d l then (m, d) else find_month ls (suc m) (d - l)

pub record Civil : Type 0 where
  pub year : ℕ
  -- from 0
  pub month : ℕ
  pub day : ℕ
  pub hour : ℕ
  pub minute : ℕ
  pub second : ℕ

unfoldable pub civil : Time → Civil
civil t =
    let (y, yd) = find_year (suc (t / 86400)) 0 (t / 86400) in
    let (m, d) = find_month (month_lengths y) 0 yd in
    record {
      year = y;
      month = m;
      day = d;
      hour = t % 86400 / 3600;
      minute = t % 3600 / 60;
      second = t % 60;
    }

abbrev pub digit : ℕ → ℕ
digit n = b'0' + n % 10

abbrev pub pad2 : ℕ → Bytes → Bytes
pad2 n rest = digit (n / 10) ∷ digit n ∷ rest

abbrev pub pad4 : ℕ → Bytes → Bytes
pad4 n rest = digit (n / 1000) ∷ digit (n / 100) ∷ digit (n / 10) ∷ digit n ∷ rest

abbrev pub print_year : ℕ → Bytes → Bytes
print_year y rest = if ltb y 10000 then pad4 y rest else itoa_ℕ y ++ rest

abbrev pub print_civil : Civil → Bytes
print_civil c = print_year c.year (
    pad2 (c.month + 1)
      (pad2 (c.day + 1) (b'T' ∷ pad2 c.hour (pad2 c.minute (pad2 c.second (b'Z' ∷ []))))))

-- the layout "20060102T150405Z"
unfoldable pub format_timestamp : Time → Bytes
format_timestamp t = print_civil (civil t)

abbrev pub is_digit : ℕ → Bool
is_digit c = leb b'0' c && leb c b'9'

-- two digits, and what follows them
unfoldable pub digits2 : Bytes → Option (ℕ × Bytes)
digits2 (a ∷ b ∷ rest) =
    if is_digit a && is_digit b then some ((a - b'0') * 10 + (b - b'0'), rest) else none
digits2 _ = none

-- `time.Parse` takes a one-digit hour too.
unfoldable pub digits_hour : Bytes → Option (ℕ × Bytes)
digits_hour (a ∷ b ∷ rest) =
    if is_digit a
    then (if is_digit b
        then some ((a - b'0') * 10 + (b - b'0'), rest)
        else some (a - b'0', b ∷ rest))
    else none
digits_hour _ = none

unfoldable pub digits4 : Bytes → Option (ℕ × Bytes)
unfolding digits2
digits4 s = do (hi, rest) ← digits2 s; (lo, rest') ← digits2 rest; some (hi * 100 + lo, rest')

abbrev pub below_or_none : ℕ → ℕ × Bytes → Option (ℕ × Bytes)
below_or_none n p = if ltb p.0 n then some p else none

unfoldable pub expect : ℕ → Bytes → Option Bytes
expect c [] = none
expect c (b ∷ bs) = if b == c then some bs else none

unfoldable pub skip_digits : Bytes → Bytes
skip_digits [] = []
skip_digits (c ∷ cs) = if is_digit c then skip_digits cs else c ∷ cs

-- `time.Parse` accepts a fraction behind the seconds, which whole seconds forget.
unfoldable pub skip_fraction : Bytes → Bytes
unfolding skip_digits
skip_fraction (c ∷ d ∷ cs) =
    if (c == b'.' || c == b',') && is_digit d then skip_digits cs else c ∷ d ∷ cs
skip_fraction s = s

abbrev pub month_length : ℕ → ℕ → ℕ
month_length y m = get_or (month_lengths y) m 0

abbrev pub month_start : ℕ → ℕ → ℕ
month_start y m = sum (take m (month_lengths y))

-- The time of a civil date whose fields are in range.
unfoldable pub to_time : Civil → Time
to_time c =
    (days_before c.year + month_start c.year c.month + c.day) * 86400
    + c.hour * 3600
    + c.minute * 60
    + c.second

-- The month and the day count from 1 in the text.
abbrev pub in_calendar : ℕ → ℕ → ℕ → Bool
in_calendar y m d = leb 1 m && leb m 12 && leb 1 d && leb d (month_length y (m - 1))

-- The last checks, on the month and the day as written and on what follows the `Z`.
abbrev pub check_calendar : ℕ → ℕ → Bytes → Civil → Option Time
check_calendar m d rest c =
    if in_calendar c.year m d && is_empty rest then some (to_time c) else none

unfoldable pub parse_timestamp : Bytes → Option Time
parse_timestamp s = do
  (y, s) ← digits4 s
  (m, s) ← digits2 s
  (d, s) ← digits2 s
  s ← expect b'T' s
  (h, s) ← digits_hour s >>= below_or_none 24
  (mi, s) ← digits2 s >>= below_or_none 60
  (sec, s) ← digits2 s >>= below_or_none 60
  s ← expect b'Z' (skip_fraction s)
  check_calendar m d s
      (record { year = y; month = m - 1; day = d - 1; hour = h; minute = mi; second = sec })
