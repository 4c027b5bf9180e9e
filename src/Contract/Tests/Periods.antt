-- ===== src/Contract/Tests/Periods.antt =====
-- The theorems on periods and billing, at a line of a hundred days.
use projectname.Prelude.{ℕ, ◌≡◌, refl, true, none, some, ok, arith}
use projectname.Contract.Line.{Line, monthly, monthlylastday, post_paid, recurring_invoicing_offset}
use projectname.Contract.Period.{
  get_next_period_date_end, get_next_invoice_date, get_period_to_invoice, next_period_date_start,
  next_period_date_end, get_relative_delta, is_past, first_date_to_invoice,
}
use projectname.Contract.Period.Bounds.{EndsPeriod, get_next_period_date_end_bounds}
use projectname.Contract.Period.Forced.{get_next_period_date_end_forced}
use projectname.Contract.Period.Agree.{get_period_to_invoice-eq}
use projectname.Contract.Billing.Init.{init_last_date_invoiced, forgotten}
use projectname.Contract.Billing.Forgotten.{at_month_end, init_last_date_invoiced-forgotten}
use projectname.Contract.Billing.Step.{InStep}
use projectname.Contract.Billing.Complete.{bill, BilledTo, bill_from}
use projectname.Contract.Tests.Samples.{thirty_day_months, hundred_days}

get_next_period_date_end_bounds_example :
    (e : ℕ) × (get_next_period_date_end thirty_day_months
        (some 1090)
        monthly
        1
        (some 1099)
        none
        post_paid
        1
      ≡ some e)
    × EndsPeriod (some 1099) 1090 e
unfolding is_past
get_next_period_date_end_bounds_example =
    get_next_period_date_end_bounds thirty_day_months 1090 monthly 1 (some 1099) post_paid 1
      (omega arith) refl

get_next_period_date_end_forced_example :
    get_next_period_date_end thirty_day_months
      (some 1090)
      monthly
      1
      (some 1099)
      (some 1100)
      post_paid
      1
    ≡ get_next_period_date_end thirty_day_months (some 1090) monthly 1 (some 1099) none post_paid 1
unfolding get_next_invoice_date get_next_period_date_end
get_next_period_date_end_forced_example =
    get_next_period_date_end_forced thirty_day_months 1090 monthly 1 (some 1099) post_paid 1 1100
      refl

get_period_to_invoice-eq_example :
    get_period_to_invoice thirty_day_months hundred_days none (some 1030) true
    ≡ some (1000, next_period_date_end thirty_day_months hundred_days, 1030)
unfolding next_period_date_start
get_period_to_invoice-eq_example =
    get_period_to_invoice-eq thirty_day_months hundred_days 1000 1030 refl refl

hundred_days-InStep : InStep thirty_day_months hundred_days
unfolding next_period_date_start get_next_invoice_date get_next_period_date_end
    recurring_invoicing_offset
hundred_days-InStep = record {
  interval_pos = omega arith;
  start_in_range = refl;
  last_in_range = tt;
  next_date = refl;
}

bill_from_example : BilledTo thirty_day_months 1000 1099 (bill thirty_day_months 100 hundred_days)
unfolding first_date_to_invoice
bill_from_example =
    bill_from thirty_day_months 100 hundred_days 1099 hundred_days-InStep refl (omega arith)
      (omega arith)

-- A line by the last day of each second month, invoiced until the end of a month.
abbrev second_months : Line
second_months = record hundred_days {
  recurring_rule_type = monthlylastday;
  recurring_interval = 2;
  last_date_invoiced = some 1019;
  recurring_next_date = some 1079;
}

second_months-InStep : InStep thirty_day_months second_months
unfolding next_period_date_start get_next_invoice_date get_next_period_date_end
    recurring_invoicing_offset first_date_to_invoice is_past
second_months-InStep = record {
  interval_pos = omega arith;
  start_in_range = refl;
  last_in_range = (omega arith, refl);
  next_date = refl;
}

init_last_date_invoiced-forgotten_example :
    init_last_date_invoiced thirty_day_months (forgotten second_months) ≡ ok second_months
unfolding is_past get_relative_delta
init_last_date_invoiced-forgotten_example =
    init_last_date_invoiced-forgotten thirty_day_months second_months 1019 1079 second_months-InStep
      refl refl (omega arith) (at_month_end refl refl refl refl)
