-- ===== src/Settlements/Date.antt =====
-- Python's dates, as year, month and day, and the arithmetic that the wizard asks of dateutil and
-- of datetime. Both are parameters, with their documented behaviour as laws.
use projectname.Prelude.{ℕ, ◌+◌, ◌-◌, ◌/◌, ◌%◌, ◌≤◌, ◌≡◌, Bool, true, not, ◌&&◌, ◌||◌, ltb, ◌==◌}

pub record Date : Type 0 where
  pub year : ℕ
  pub month : ℕ
  pub day : ℕ

-- `date(month=month, year=year, day=1)`
abbrev pub first_of : ℕ → ℕ → Date
first_of year month = record { year = year; month = month; day = 1 }

-- `a < b`
unfoldable pub before : Date → Date → Bool
before a b =
    ltb a.year b.year
    || (a.year == b.year) && (ltb a.month b.month || (a.month == b.month) && ltb a.day b.day)

unfoldable pub same_date : Date → Date → Bool
same_date a b = (a.year == b.year) && (a.month == b.month) && (a.day == b.day)

-- `date + relativedelta(months=n)`, `date + relativedelta(years=n)` and
-- `date - timedelta(days=1)`. The years of Python's dates are 1 to 9999.
pub record DateArithmetic : Type 0 where
  pub is_date : Date → Bool
  pub plus_months : Date → ℕ → Date
  pub plus_years : Date → ℕ → Date
  pub day_before : Date → Date
  pub month_pos : (d : Date) → is_date d ≡ true → 1 ≤ d.month
  pub month_le : (d : Date) → is_date d ≡ true → d.month ≤ 12
  pub day_pos : (d : Date) → is_date d ≡ true → 1 ≤ d.day
  pub year_pos : (d : Date) → is_date d ≡ true → 1 ≤ d.year
  pub first_is_date : (y m : ℕ) → 1 ≤ y → y ≤ 9999 → 1 ≤ m → m ≤ 12 → is_date (first_of y m) ≡ true
  pub plus_months_first :
      (y m n : ℕ)
      → 1 ≤ m
      → m ≤ 12
      → y + (m - 1 + n) / 12 ≤ 9999
      → plus_months (first_of y m) n ≡ first_of (y + (m - 1 + n) / 12) ((m - 1 + n) % 12 + 1)
  pub plus_years_first :
      (y m n : ℕ) → y + n ≤ 9999 → plus_years (first_of y m) n ≡ first_of (y + n) m
  pub after_day_before :
      (d e earlier : Date)
      → is_date d ≡ true
      → is_date e ≡ true
      → is_date earlier ≡ true
      → before earlier e ≡ true
      → before (day_before e) d ≡ not (before d e)
