-- ===== src/Contract/Period.antt =====
-- The dates of a contract line's periods and of its invoices: `get_relative_delta`,
-- `get_next_period_date_end`, `get_next_invoice_date`, `_get_first_date_end`,
-- `_get_period_to_invoice` and the computed period fields of
-- local/Contract/models/contract_line.py.
pub mod Bounds
pub mod Forced
pub mod Agree
use projectname.Prelude.{ℕ, ◌*◌, Option, none, some, Bool, false, ltb, if◌then◌else◌}
use projectname.Contract.Calendar.{
  RelativeDelta, days, weeks, months, months_first_day, years, Calendar,
}
use projectname.Contract.Line.{
  RuleType, daily, weekly, monthly, monthlylastday, quarterly, semesterly, yearly, InvoicingType,
  Line, is_pre_paid, recurring_invoicing_offset,
}

unfoldable pub get_relative_delta : RuleType → ℕ → RelativeDelta
get_relative_delta daily interval = days interval
get_relative_delta weekly interval = weeks interval
get_relative_delta monthly interval = months interval
get_relative_delta monthlylastday interval = months_first_day interval
get_relative_delta quarterly interval = months (3 * interval)
get_relative_delta semesterly interval = months (6 * interval)
get_relative_delta yearly interval = years interval

-- `max_date_end and d > max_date_end`
unfoldable pub is_past : Option ℕ → ℕ → Bool
is_past none d = false
is_past (some max_date_end) d = ltb max_date_end d

unfoldable pub trim : Option ℕ → ℕ → ℕ
trim none next_period_date_end = next_period_date_end
trim (some max_date_end) next_period_date_end =
    if ltb max_date_end next_period_date_end then max_date_end else next_period_date_end

module _ (cal : Calendar) where
  open cal use {plus, minus}

  -- The regular algorithm, and the special one when the next invoice date is forced.
  untrimmed_period_end : ℕ → RuleType → ℕ → Option ℕ → InvoicingType → ℕ → ℕ
  unfolding get_relative_delta
  untrimmed_period_end start rule interval none invoicing_type offset =
      minus (plus start (get_relative_delta rule interval)) (days 1)
  untrimmed_period_end start rule interval (some next_invoice_date) invoicing_type offset =
      if is_pre_paid invoicing_type
      then minus (plus (minus next_invoice_date (days offset)) (get_relative_delta rule interval))
          (days 1)
      else minus next_invoice_date (days offset)

  -- Where no date is forced, the invoicing type and the offset are not read.
  unfoldable pub get_next_period_date_end :
      Option ℕ → RuleType → ℕ → Option ℕ → Option ℕ → InvoicingType → ℕ → Option ℕ
  unfolding untrimmed_period_end is_past trim
  get_next_period_date_end none rule interval max_date_end next_invoice_date invoicing_type offset =
      none
  get_next_period_date_end (some start) rule interval max_date_end next_invoice_date invoicing_type
        offset =
      if is_past max_date_end start
      then none
      else some (
          trim max_date_end
            (untrimmed_period_end start rule interval next_invoice_date invoicing_type offset))

  invoice_date : InvoicingType → ℕ → ℕ → Option ℕ → Option ℕ
  invoice_date invoicing_type offset start none = none
  invoice_date invoicing_type offset start (some next_period_date_end) = some (
      if is_pre_paid invoicing_type
      then plus start (days offset)
      else plus next_period_date_end (days offset))

  unfoldable pub get_next_invoice_date :
      Option ℕ → InvoicingType → ℕ → RuleType → ℕ → Option ℕ → Option ℕ
  unfolding invoice_date
  get_next_invoice_date none invoicing_type offset rule interval max_date_end = none
  get_next_invoice_date (some start) invoicing_type offset rule interval max_date_end =
      invoice_date invoicing_type offset start (
        get_next_period_date_end (some start) rule interval max_date_end none invoicing_type offset)

  unfoldable pub get_first_date_end : ℕ → RuleType → ℕ → ℕ
  unfolding get_relative_delta
  get_first_date_end date_start auto_renew_rule_type auto_renew_interval =
      minus (plus date_start (get_relative_delta auto_renew_rule_type auto_renew_interval)) (days 1)

  -- The day after the last invoiced one, or the start of the line.
  unfoldable pub first_date_to_invoice : Option ℕ → ℕ → ℕ
  first_date_to_invoice none date_start = date_start
  first_date_to_invoice (some last_date_invoiced) date_start = plus last_date_invoiced (days 1)

  -- the computed field `next_period_date_start`
  unfoldable pub next_period_date_start : Line → Option ℕ
  unfolding first_date_to_invoice is_past
  next_period_date_start rec =
      let start = first_date_to_invoice rec.last_date_invoiced rec.date_start in
      if is_past rec.date_end start then none else some start

  -- the computed field `next_period_date_end`
  unfoldable pub next_period_date_end : Line → Option ℕ
  next_period_date_end rec =
      get_next_period_date_end (next_period_date_start rec) rec.recurring_rule_type
        rec.recurring_interval rec.date_end rec.recurring_next_date rec.recurring_invoicing_type
        (recurring_invoicing_offset rec)

  -- The three dates of `_get_period_to_invoice`; `none` is False, False, False.
  unfoldable pub get_period_to_invoice :
      Line → Option ℕ → Option ℕ → Bool → Option (ℕ × Option ℕ × ℕ)
  unfolding first_date_to_invoice
  get_period_to_invoice rec last_date_invoiced none stop_at_date_end = none
  get_period_to_invoice rec last_date_invoiced (some recurring_next_date) stop_at_date_end =
      let first = first_date_to_invoice last_date_invoiced rec.date_start in
      some (
        first,
        get_next_period_date_end (some first) rec.recurring_rule_type rec.recurring_interval
            (if stop_at_date_end then rec.date_end else none) (some recurring_next_date)
            rec.recurring_invoicing_type (recurring_invoicing_offset rec),
        recurring_next_date,
      )

  -- `_onchange_date_start`
  unfoldable pub onchange_date_start : Line → Line
  onchange_date_start rec = record rec {
    recurring_next_date =
        get_next_invoice_date (next_period_date_start rec) rec.recurring_invoicing_type
          (recurring_invoicing_offset rec) rec.recurring_rule_type rec.recurring_interval
          rec.date_end;
  }

  -- `_onchange_is_auto_renew`
  unfoldable pub onchange_is_auto_renew : Line → Line
  onchange_is_auto_renew rec =
      if rec.is_auto_renew
      then record rec {
        date_end =
            some
              (get_first_date_end rec.date_start rec.auto_renew_rule_type rec.auto_renew_interval);
      }
      else rec
