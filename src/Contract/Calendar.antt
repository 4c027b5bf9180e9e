-- ===== src/Contract/Calendar.antt =====
-- Dates and `relativedelta`. A date is its ordinal, `date.toordinal()`. The sum of a date and a
-- `relativedelta` is code of dateutil, so it is a parameter, with the documented behaviour that
-- the addon relies on as laws.
use projectname.Prelude.{ℕ, suc, ◌+◌, ◌*◌, ◌≤◌, ◌<◌, ◌≡◌}

-- The calls of `relativedelta` in the addon: `days=n`, `weeks=n`, `months=n`, `months=n, day=1`
-- and `years=n`.
pub data RelativeDelta : Type 0 where
  days weeks months months_first_day years : ℕ → RelativeDelta

pub record Calendar : Type 0 where
  pub plus : ℕ → RelativeDelta → ℕ
  pub minus : ℕ → RelativeDelta → ℕ
  pub plus_days : (d n : ℕ) → plus d (days n) ≡ d + n
  pub minus_days : (d n : ℕ) → n ≤ d → minus d (days n) + n ≡ d
  pub plus_weeks : (d n : ℕ) → plus d (weeks n) ≡ d + 7 * n
  pub months_grow : (d n : ℕ) → 0 < n → d < plus d (months n)
  pub first_day_grows : (d n : ℕ) → 0 < n → d < plus d (months_first_day n)
  pub first_day_next : (d n : ℕ) → plus d (months_first_day n) < plus d (months_first_day (suc n))
  -- A day of the month that is `n` months after that of `d`: less `n` months, on the first day, it is
  -- the first day of the month of `d`.
  pub minus_first_day :
      (d e n : ℕ)
      → plus d (months_first_day n) ≤ e
      → e < plus d (months_first_day (suc n))
      → minus e (months_first_day n) ≡ plus d (months_first_day 0)
  pub years_grow : (d n : ℕ) → 0 < n → d < plus d (years n)
  pub plus_mono : (r : RelativeDelta) (d e : ℕ) → d ≤ e → plus d r ≤ plus e r
