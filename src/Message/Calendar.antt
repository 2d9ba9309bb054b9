-- ===== src/Message/Calendar.antt =====
-- The text form of a time is read back.
use native.Mathlib.Nat.{sub-zero}
use rfmpd.Base.{
  All, Bool-cases, Bytes, List, [], ap, arith, get_or, inl, inr, length, le→leb, ltb, ltb→lt,
  lt→ltb, refl, some, suc, sum, take, true, zero, ℕ, ◌%◌, ◌*◌, ◌+◌, ◌-◌, ◌/◌, ◌<◌, ◌∙◌, ◌∷◌, ◌≡◌,
  ◌≤◌,
}
use rfmpd.Message.Timestamp.{
  Time, year_days, month_lengths, days_before, find_year, find_month, Civil, civil,
  format_timestamp, digits2, digits_hour, digits4, expect, skip_fraction, month_length, month_start,
  to_time, in_calendar, pad2, pad4, print_civil, check_calendar, parse_timestamp,
}

-- A year and a day of it, for the day with number `d` counted from the start of year `y`.
record InYear (y d : ℕ) (r : ℕ × ℕ) : Type 0 where
  counted : days_before r.0 + r.1 ≡ days_before y + d
  within : r.1 < year_days r.0

year_days_pos : (y : ℕ) → 365 ≤ year_days y
unfolding year_days
year_days_pos y = ground arith

find_year-InYear : (fuel y d : ℕ) → d < fuel → InYear y d (find_year fuel y d)
unfolding find_year
find_year-InYear zero y d h = absurd (omega arith)
find_year-InYear (suc fuel) y d h = elim (Bool-cases (ltb d (year_days y))) [
  | inl e ↦ rw e (record { counted = refl; within = ltb→lt _ _ e })
  | inr e ↦ rw e (
      shift (find_year fuel (suc y) (d - year_days y)) (ground arith)
        (find_year-InYear fuel (suc y) (d - year_days y) (ground (arith, year_days_pos y))))
]
  where
    shift : (r : ℕ × ℕ) → year_days y ≤ d → InYear (suc y) (d - year_days y) r → InYear y d r
    shift r le i = record {
      counted = i.counted ∙ (unfold days_before in omega arith);
      within = i.within;
    }

record InMonth (ls : List ℕ) (m d : ℕ) (r : ℕ × ℕ) : Type 0 where
  from : m ≤ r.0
  below : r.0 < m + length ls
  counted : sum (take (r.0 - m) ls) + r.1 ≡ d
  within : r.1 < get_or ls (r.0 - m) 0

find_month-InMonth : (ls : List ℕ) (m d : ℕ) → d < sum ls → InMonth ls m d (find_month ls m d)
unfolding find_month
find_month-InMonth [] m d h = absurd (omega arith)
find_month-InMonth (l ∷ ls) m d h = elim (Bool-cases (ltb d l)) [
  | inl e ↦
      let z : m - m ≡ 0 = omega arith in
      rw e (record {
        from = omega arith;
        below = omega arith;
        counted = rw z (omega arith);
        within = rw z (ltb→lt d l e);
      })
  | inr e ↦ rw e (shift _ (ground arith) (find_month-InMonth ls (suc m) (d - l) (ground arith)))
]
  where
    shift : (r : ℕ × ℕ) → l ≤ d → InMonth ls (suc m) (d - l) r → InMonth (l ∷ ls) m d r
    shift r le i =
        let z : r.0 - m ≡ suc (r.0 - suc m) = omega (arith, i.from) in
        record {
          from = omega (arith, i.from);
          below = omega (arith, i.below);
          counted = rw z (omega (arith, i.counted));
          within = rw z (i.within);
        }

sum-month_lengths : (y : ℕ) → sum (month_lengths y) ≡ year_days y
unfolding year_days
sum-month_lengths y = ground arith

-- The fields of a civil date are in their ranges, and count the seconds of the time.
record IsCivil (t : Time) (c : Civil) : Type 0 where
  month_lt : c.month < 12
  day_lt : c.day < month_length c.year c.month
  hour_lt : c.hour < 24
  minute_lt : c.minute < 60
  second_lt : c.second < 60
  counted : to_time c ≡ t

seconds-count :
    (t days : ℕ)
    → days ≡ t / 86400
    → days * 86400 + t % 86400 / 3600 * 3600 + t % 3600 / 60 * 60 + t % 60 ≡ t
seconds-count t days e = omega arith

civil-IsCivil : (t : Time) → IsCivil t (civil t)
unfolding civil
civil-IsCivil t =
    fields (find_year (suc (t / 86400)) 0 (t / 86400))
      (find_year-InYear (suc (t / 86400)) 0 (t / 86400) (omega arith))
  where
    fields :
        (y : ℕ × ℕ)
        → InYear 0 (t / 86400) y
        → IsCivil t (record {
          year = y.0;
          month = (find_month (month_lengths y.0) 0 y.1).0;
          day = (find_month (month_lengths y.0) 0 y.1).1;
          hour = t % 86400 / 3600;
          minute = t % 3600 / 60;
          second = t % 60;
        })
    fields y i =
        let m =
          find_month-InMonth (month_lengths y.0) 0 y.1 (rw (sum-month_lengths y.0) i.within) in
        let z = sub-zero (find_month (month_lengths y.0) 0 y.1).0 in
        record {
          month_lt = omega (arith, m.below);
          day_lt = rw z at m.within;
          hour_lt = omega arith;
          minute_lt = omega arith;
          second_lt = omega arith;
          counted =
              unfold to_time in
              seconds-count t
                (days_before y.0
                  + month_start y.0 (find_month (month_lengths y.0) 0 y.1).0
                  + (find_month (month_lengths y.0) 0 y.1).1)
                (unfold days_before in omega (arith, i.counted, rw z at m.counted));
        }

digits2-pad2 : (n : ℕ) (rest : Bytes) → n < 100 → digits2 (pad2 n rest) ≡ some (n, rest)
unfolding digits2
digits2-pad2 n rest h = ground arith

digits_hour-pad2 : (n : ℕ) (rest : Bytes) → n < 100 → digits_hour (pad2 n rest) ≡ some (n, rest)
unfolding digits_hour
digits_hour-pad2 n rest h = ground arith

digits4-pad4 : (n : ℕ) (rest : Bytes) → n < 10000 → digits4 (pad4 n rest) ≡ some (n, rest)
unfolding digits4
digits4-pad4 n rest h = ground arith

skip_fraction_z : skip_fraction (b'Z' ∷ []) ≡ b'Z' ∷ []
unfolding skip_fraction
skip_fraction_z = refl

expect_same : (c : ℕ) (rest : Bytes) → expect c (c ∷ rest) ≡ some rest
unfolding expect
expect_same c rest = ground arith

get_or-le : (ls : List ℕ) (m : ℕ) → All (λ l. l ≤ 31) ls → get_or ls m 0 ≤ 31
get_or-le [] m h = omega arith
get_or-le (l ∷ ls) zero h = h.0
get_or-le (l ∷ ls) (suc m) h = get_or-le ls m h.1

month_length-le : (y m : ℕ) → month_length y m ≤ 31
month_length-le y m = get_or-le (month_lengths y) m (ground arith)

in_calendar-IsCivil :
    (t : Time) (c : Civil) → IsCivil t c → in_calendar c.year (c.month + 1) (c.day + 1) ≡ true
in_calendar-IsCivil t c v =
    let e : c.month + 1 - 1 ≡ c.month = omega arith in
    rw
      (
        e,
        le→leb 1 (c.month + 1) (omega arith),
        le→leb (c.month + 1) 12 (omega (arith, v.month_lt)),
        le→leb 1 (c.day + 1) (omega arith),
      )
      (le→leb (c.day + 1) (month_length c.year c.month) (omega (arith, v.day_lt)))

check_calendar-IsCivil :
    (t : Time) (c : Civil)
    → IsCivil t c
    → check_calendar (c.month + 1) (c.day + 1) [] (record {
      year = c.year;
      month = c.month + 1 - 1;
      day = c.day + 1 - 1;
      hour = c.hour;
      minute = c.minute;
      second = c.second;
    })
      ≡ some t
check_calendar-IsCivil t c v =
    let e : c.month + 1 - 1 ≡ c.month = omega arith in
    let f : c.day + 1 - 1 ≡ c.day = omega arith in
    rw (in_calendar-IsCivil t c v) (rw (e, f) (ap some v.counted))

parse-print_civil :
    (t : Time) (c : Civil) → IsCivil t c → c.year < 10000 → parse_timestamp (print_civil c) ≡ some t
unfolding parse_timestamp
parse-print_civil t c v h =
    rw
      (
        lt→ltb c.year 10000 h,
        digits4-pad4 c.year _ h,
        digits2-pad2 (c.month + 1) _ (omega (arith, v.month_lt)),
        digits2-pad2 (c.day + 1) _ (omega (arith, v.day_lt, month_length-le c.year c.month)),
        expect_same,
        digits_hour-pad2 c.hour _ (omega (arith, v.hour_lt)),
        lt→ltb c.hour 24 v.hour_lt,
        digits2-pad2 c.minute _ (omega (arith, v.minute_lt)),
        lt→ltb c.minute 60 v.minute_lt,
        digits2-pad2 c.second _ (omega (arith, v.second_lt)),
        lt→ltb c.second 60 v.second_lt,
        skip_fraction_z,
        expect_same,
      )
      (check_calendar-IsCivil t c v)

-- The text form of every time before the year 10000 is read back as that time.
pub parse-format_timestamp :
    (t : Time) → (civil t).year < 10000 → parse_timestamp (format_timestamp t) ≡ some t
unfolding format_timestamp
parse-format_timestamp t h = parse-print_civil t (civil t) (civil-IsCivil t) h

days_before-ge : (y : ℕ) → y * 365 ≤ days_before y
unfolding days_before
days_before-ge zero = omega arith
days_before-ge (suc y) = omega (arith, days_before-ge y, year_days_pos y)

-- the bound is 10000 years of 365 days
pub year-civil : (t : Time) → t < 315360000000 → (civil t).year < 10000
unfolding to_time
year-civil t h = let v = civil-IsCivil t in omega (arith, v.counted, days_before-ge (civil t).year)
