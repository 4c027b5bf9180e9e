-- ===== src/Settlements/Period.antt =====
-- The settlement periods of an agent: `_get_period_start` and `_get_next_period_date` of
-- local/sale_commission_1/wizard/wizard_settle.py.
pub mod Same
use projectname.Prelude.{
  ℕ, ◌+◌, ◌-◌, ◌*◌, ◌/◌, ◌%◌, ◌≤◌, ◌<◌, ◌≡◌, ◌↔◌, refl, sym, ap, ◌∙◌, Bool, true, false, not, ltb,
  arith, inl, inr, Bool-cases, if◌then◌else◌,
}
use projectname.Settlements.Date.{Date, first_of, before, DateArithmetic}

-- the field `settlement` of an agent
pub data SettlementPeriod : Type 0 where
  monthly quaterly semi annual : SettlementPeriod

unfoldable pub get_period_start : SettlementPeriod → Date → Date
get_period_start monthly date_to = first_of date_to.year date_to.month
get_period_start quaterly date_to = first_of date_to.year ((date_to.month - 1) / 3 * 3 + 1)
get_period_start semi date_to =
    if ltb 6 date_to.month then first_of date_to.year 7 else first_of date_to.year 1
get_period_start annual date_to = first_of date_to.year 1

module _ (dates : DateArithmetic) where
  open dates use {is_date, plus_months, plus_years, day_before}

  unfoldable pub get_next_period_date : SettlementPeriod → Date → Date
  get_next_period_date monthly current_date = plus_months current_date 1
  get_next_period_date quaterly current_date = plus_months current_date 3
  get_next_period_date semi current_date = plus_months current_date 6
  get_next_period_date annual current_date = plus_years current_date 1

  -- The last day of the period of a date, `sett_to`.
  unfoldable pub get_period_end : SettlementPeriod → Date → Date
  get_period_end p d = day_before (get_next_period_date p (get_period_start p d))

  -- A date whose period ends on one of Python's dates.
  pub record InRange (d : Date) : Type 0 where
    pub valid : is_date d ≡ true
    pub year_lt : d.year < 9999
