-- ===== src/Contract/Period/Bounds.antt =====
-- The bounds of a period that `get_next_period_date_end` returns.
use projectname.Prelude.{ℕ, ◌+◌, ◌*◌, ◌≤◌, ◌<◌, ◌≡◌, refl, false, Option, none, some, arith}
use projectname.Contract.Calendar.{Calendar, days}
use projectname.Contract.Line.{
  RuleType, daily, weekly, monthly, monthlylastday, quarterly, semesterly, yearly, InvoicingType,
}
use projectname.Contract.Period.{get_relative_delta, is_past, trim, get_next_period_date_end}

-- `e` ends a period from `start` that stops at the end date.
pub record EndsPeriod (max_date_end : Option ℕ) (start e : ℕ) : Type 0 where
  pub not_empty : start ≤ e
  pub within : is_past max_date_end e ≡ false

module _ (cal : Calendar) where
  open cal use {plus, minus}

  -- One period later is a later day.
  pub plus-get_relative_delta :
      (d : ℕ) (rule : RuleType) (interval : ℕ)
      → 0 < interval
      → d < plus d (get_relative_delta rule interval)
  unfolding get_relative_delta
  plus-get_relative_delta d daily n h = omega (arith, cal.plus_days d n)
  plus-get_relative_delta d weekly n h = omega (arith, cal.plus_weeks d n)
  plus-get_relative_delta d monthly n h = cal.months_grow d n h
  plus-get_relative_delta d monthlylastday n h = cal.first_day_grows d n h
  plus-get_relative_delta d quarterly n h = cal.months_grow d (3 * n) (omega arith)
  plus-get_relative_delta d semesterly n h = cal.months_grow d (6 * n) (omega arith)
  plus-get_relative_delta d yearly n h = cal.years_grow d n h

  pub day_before : (d e : ℕ) → d < e → minus e (days 1) + 1 ≡ e
  day_before d e h = cal.minus_days e 1 (omega arith)

  trim-EndsPeriod :
      (m : Option ℕ) (start e : ℕ)
      → is_past m start ≡ false
      → start ≤ e
      → EndsPeriod m start (trim m e)
  unfolding trim is_past
  trim-EndsPeriod none start e h k = record { not_empty = k; within = refl }
  trim-EndsPeriod (some m) start e h k = ground arith

  pub get_next_period_date_end_bounds :
      (start : ℕ) (rule : RuleType) (interval : ℕ) (m : Option ℕ) (ty : InvoicingType) (off : ℕ)
      → 0 < interval
      → is_past m start ≡ false
      → (e : ℕ) × (get_next_period_date_end cal (some start) rule interval m none ty off ≡ some e)
        × EndsPeriod m start e
  unfolding get_next_period_date_end
  get_next_period_date_end_bounds start rule interval m ty off h k =
      let next = plus start (get_relative_delta rule interval) in
      let grows = plus-get_relative_delta start rule interval h in
      (
        trim m (minus next (days 1)),
        rw k,
        trim-EndsPeriod m start _ k (omega (arith, grows, day_before start next grows)),
      )
