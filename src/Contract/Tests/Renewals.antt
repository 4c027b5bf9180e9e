-- ===== src/Contract/Tests/Renewals.antt =====
-- A run of the daily renewal: a yearly line whose notice date has come, and a line that is not
-- renewed.
use projectname.Prelude.{◌≡◌, refl, true, false, some, none, ok, arith, map, [], ◌∷◌}
use projectname.Contract.Line.{Line}
use projectname.Contract.Checks.{
  validate, constrains, has_field, check_allowed, check_auto_renew_canceled_lines,
  check_last_date_invoiced, check_overlap_predecessor, check_overlap_successor,
  check_recurring_next_date_recurring_invoices, check_recurring_next_date_start_date,
  check_start_end_dates,
}
use projectname.Contract.State.{compute_termination_notice_date}
use projectname.Contract.Period.{get_first_date_end}
use projectname.Contract.Store.{
  Store, Contract, Env, find_line, put_line, find_contract, recompute, write_line, line_renewed,
}
use projectname.Contract.Recurring.Others.{no_line, another}
use projectname.Contract.Lifecycle.Renew.{
  renew, renew_one, renew_extend_line, get_renewal_new_date_end, day_after,
}
use projectname.Contract.Lifecycle.Daily.{
  contract_line_to_renew_domain, lines_to_renew, cron_renew_contract_line,
}
use projectname.Contract.Lifecycle.Daily.Extended.{
  ExtendsLines, renewed, cron_renew_contract_line-extends,
}
use projectname.Contract.Tests.Samples.{hundred_days, thirty_day_months}

abbrev yearly_line : Line
yearly_line = record hundred_days { is_auto_renew = true }

abbrev other_line : Line
other_line = record hundred_days { id = 2 }

abbrev extending : Contract
extending = record {
  id = 7;
  create_new_line_at_contract_line_renew = false;
  is_terminated = false;
  terminate_reason_id = none;
  terminate_comment = none;
  terminate_date = none;
}

abbrev before_run : Store
before_run = record {
  lines = yearly_line ∷ other_line ∷ [];
  next_id = 3;
  contracts = extending ∷ [];
  messages = [];
}

abbrev notice_day : Env
notice_day = record { calendar = thirty_day_months; today = 1069; can_terminate_contract = false }

-- The line ends a year later, and the notice date follows.
abbrev after_run : Store
after_run = record before_run {
  lines =
      record yearly_line { date_end = some 1459; termination_notice_date = some 1429 }
      ∷ other_line
      ∷ [];
  messages = (7, line_renewed 1 1100 1459) ∷ [];
}

renewal_runs : cron_renew_contract_line notice_day before_run ≡ ok after_run
unfolding cron_renew_contract_line lines_to_renew contract_line_to_renew_domain renew renew_one
    renew_extend_line get_renewal_new_date_end day_after find_line find_contract put_line write_line
    recompute validate constrains has_field compute_termination_notice_date get_first_date_end
    check_allowed check_auto_renew_canceled_lines check_last_date_invoiced check_overlap_predecessor
    check_overlap_successor check_recurring_next_date_recurring_invoices
    check_recurring_next_date_start_date check_start_end_dates
renewal_runs = refl

extending-ExtendsLines : ExtendsLines before_run.contracts
unfolding find_contract
extending-ExtendsLines i c h = ground arith

cron_renew_contract_line-extends_example :
    after_run.lines ≡ map (renewed notice_day before_run.contracts) before_run.lines
unfolding find_line
cron_renew_contract_line-extends_example =
    cron_renew_contract_line-extends notice_day before_run after_run extending-ExtendsLines
      (another refl (another refl no_line)) renewal_runs
