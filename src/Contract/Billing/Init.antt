-- ===== src/Contract/Billing/Init.antt =====
-- `_init_last_date_invoiced` of local/Contract/models/contract_line.py: the last invoiced day of a
-- line, computed back from its next invoice date.
use projectname.Prelude.{
  ℕ, zero, suc, not, Option, none, some, [], ◌∷◌, Result, ok, err, type_error, ◌>>◌, ltb,
  if◌then◌else◌,
}
use projectname.Contract.Calendar.{Calendar, days, months_first_day}
use projectname.Contract.Line.{Line, is_monthlylastday, is_pre_paid}
use projectname.Contract.Period.{get_relative_delta}
use projectname.Contract.Checks.{Field, validate}

-- A line whose last invoiced day is not known.
abbrev pub forgotten : Line → Line
forgotten rec = record rec { last_date_invoiced = none }

module _ (cal : Calendar) where
  open cal use {plus, minus}

  -- `date - relativedelta(months=interval - 1, day=1)`; for the interval 0 the months are negative.
  unfoldable pub minus_other_months : ℕ → ℕ → ℕ
  minus_other_months date zero = plus date (months_first_day 1)
  minus_other_months date (suc interval) = minus date (months_first_day interval)

  unfoldable pub last_date_before : Line → ℕ → ℕ
  unfolding minus_other_months get_relative_delta
  last_date_before rec recurring_next_date =
      if is_monthlylastday rec.recurring_rule_type
      then minus (minus_other_months recurring_next_date rec.recurring_interval) (days 1)
      else if not (is_pre_paid rec.recurring_invoicing_type)
      then minus
          (minus recurring_next_date
            (get_relative_delta rec.recurring_rule_type rec.recurring_interval))
          (days 1)
      else minus recurring_next_date (days 1)

  -- One round of the loop.
  unfoldable pub init_from : Line → Option ℕ → Result Line
  unfolding last_date_before
  init_from rec none = err type_error
  init_from rec (some recurring_next_date) =
      let last_date_invoiced = last_date_before rec recurring_next_date in
      let rec' = record rec { last_date_invoiced = some last_date_invoiced } in
      if ltb rec.date_start last_date_invoiced
      then validate (Field.last_date_invoiced ∷ []) rec' none none >> ok rec'
      else ok rec

  unfoldable pub init_last_date_invoiced : Line → Result Line
  unfolding init_from
  init_last_date_invoiced rec = init_from rec rec.recurring_next_date
