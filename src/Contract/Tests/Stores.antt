-- ===== src/Contract/Tests/Stores.antt =====
-- The invariant of the store at a concrete sequence of operations: a line is stopped, then its
-- successor is planned; the termination of its contract;
-- and a delay.
use projectname.Prelude.{
  ℕ, ◌≡◌, ◌<◌, refl, true, false, some, none, ok, err, validation_error, arith, [], ◌∷◌, Bool,
  Option,
}
use projectname.Contract.Line.{Line, recurring_invoicing_offset}
use projectname.Contract.Checks.{
  validate, constrains, has_field, check_allowed, check_auto_renew_canceled_lines,
  check_last_date_invoiced, check_overlap_predecessor, check_overlap_successor,
  check_recurring_next_date_recurring_invoices, check_recurring_next_date_start_date,
  check_start_end_dates,
}
use projectname.Contract.Store.{
  Store, Contract, Env, find_line, put_line, find_contract, put_contract, recompute, write_line,
  create_line, allowed_for, browse, line_stopped,
}
use projectname.Contract.Store.Links.{LinkAt}
use projectname.Contract.Store.Sound.{IsSound}
use projectname.Contract.Allowed.{
  compute_allowed, get_allowed, compute_criteria, criteria_allowed_dict,
}
use projectname.Contract.State.{compute_termination_notice_date}
use projectname.Contract.Period.{
  get_next_invoice_date, get_next_period_date_end, next_period_date_start,
}
use projectname.Contract.Lifecycle.Cancel.{require_all, cancel, uncancel}
use projectname.Contract.Lifecycle.Stop.{
  stop, stop_each, stop_one, stop_line, prepare_value_for_stop,
}
use projectname.Contract.Lifecycle.Successor.{
  plan_successor, plan_successor_one, create_successor, prepare_value_for_plan_successor,
}
use projectname.Contract.Invoicing.{terminate_contract, stop_allowed_lines, write_termination}
use projectname.Contract.Invoicing.Terminated.{terminate_contract-blocks}
use projectname.Contract.Lifecycle.Suspend.{stop_plan_successor, delayed, delay_delta}
use projectname.Contract.Lifecycle.Delay.{SameDays, delayed-after_suspension}
use projectname.Contract.Invariant.Reach.{here, next, stopped, planned, Reach-IsSound}
use projectname.Contract.Tests.Samples.{hundred_days, thirty_day_months}

abbrev company : Contract
company = record {
  id = 7;
  create_new_line_at_contract_line_renew = true;
  is_terminated = false;
  terminate_reason_id = none;
  terminate_comment = none;
  terminate_date = none;
}

abbrev one_line : Store
one_line = record {
  lines = hundred_days ∷ [];
  next_id = 2;
  contracts = company ∷ [];
  messages = [];
}

abbrev session : Env
session = record { calendar = thirty_day_months; today = 1050; can_terminate_contract = true }

-- The end is moved to day 1059, and the notice date with it.
abbrev ended : Line
ended = record hundred_days {
  date_end = some 1059;
  termination_notice_date = some 1029;
  manual_renew_needed = true;
}

abbrev after_stop : Store
after_stop = record one_line { lines = ended ∷ [] }

abbrev successor : Line
successor = record ended {
  id = 2;
  date_start = 1060;
  date_end = some 1119;
  recurring_next_date = some 1090;
  termination_notice_date = some 1089;
  predecessor_contract_line_id = some 1;
}

abbrev after_plan : Store
after_plan = record one_line {
  lines = record ended { successor_contract_line_id = some 2 } ∷ successor ∷ [];
  next_id = 3;
}

alone :
    (rec : Line)
    → rec.successor_contract_line_id ≡ none
    → LinkAt (hundred_days ∷ []) rec rec.successor_contract_line_id
alone rec h = rw h tt

one_line-IsSound : IsSound one_line
unfolding find_line
one_line-IsSound = record {
  fresh = λ i h. ground arith;
  all_linked = λ i rec h. alone rec (ground arith);
}

stop_runs : stop session (1 ∷ []) 1059 true false one_line ≡ ok after_stop
unfolding stop stop_each stop_one stop_line prepare_value_for_stop require_all allowed_for
    compute_allowed get_allowed compute_criteria criteria_allowed_dict find_line find_contract
    put_line write_line recompute validate constrains has_field compute_termination_notice_date
    get_next_invoice_date next_period_date_start check_allowed check_auto_renew_canceled_lines
    check_last_date_invoiced check_overlap_predecessor check_overlap_successor
    check_recurring_next_date_recurring_invoices check_recurring_next_date_start_date
    check_start_end_dates get_next_period_date_end recurring_invoicing_offset
stop_runs = refl

plan_runs :
    plan_successor session (1 ∷ []) 1060 (some 1119) false none false after_stop
    ≡ ok (2 ∷ [], after_plan)
unfolding plan_successor plan_successor_one create_successor create_line allowed_for compute_allowed
    get_allowed compute_criteria criteria_allowed_dict find_line find_contract put_line write_line
    recompute validate constrains has_field compute_termination_notice_date get_next_invoice_date
    check_allowed check_auto_renew_canceled_lines prepare_value_for_plan_successor
    check_last_date_invoiced check_overlap_predecessor check_overlap_successor
    check_recurring_next_date_recurring_invoices check_recurring_next_date_start_date
    check_start_end_dates get_next_period_date_end recurring_invoicing_offset
plan_runs = refl

Reach-IsSound_example : IsSound after_plan
Reach-IsSound_example = Reach-IsSound one_line-IsSound (
    next (next here (stopped session (1 ∷ []) 1059 true false stop_runs))
      (planned session (1 ∷ []) 1060 (some 1119) false none false (2 ∷ []) plan_runs))

-- The contract is terminated on day 1059, which stops its line.
abbrev after_termination : Store
after_termination = record one_line {
  lines = record ended { manual_renew_needed = false } ∷ [];
  contracts =
      record company {
        is_terminated = true;
        terminate_reason_id = some 3;
        terminate_comment = none;
        terminate_date = some 1059;
      }
      ∷ [];
  messages = (7, line_stopped 1 (some 1099) (some 1059)) ∷ [];
}

termination_runs : terminate_contract session 7 3 none 1059 one_line ≡ ok after_termination
unfolding terminate_contract stop_allowed_lines write_termination put_contract stop stop_each
    stop_one stop_line prepare_value_for_stop require_all allowed_for compute_allowed get_allowed
    compute_criteria criteria_allowed_dict find_line find_contract put_line write_line recompute
    validate constrains has_field compute_termination_notice_date get_next_invoice_date
    next_period_date_start check_allowed check_auto_renew_canceled_lines check_last_date_invoiced
    check_overlap_predecessor check_overlap_successor check_recurring_next_date_recurring_invoices
    check_recurring_next_date_start_date check_start_end_dates get_next_period_date_end
    recurring_invoicing_offset
termination_runs = refl

line_found : browse after_termination 1 ≡ ok (record ended { manual_renew_needed = false })
unfolding find_line
line_found = refl

terminate_contract-blocks_example :
    (cancel session (1 ∷ []) after_termination ≡ err validation_error)
    × ((next_date : Option ℕ)
        → uncancel session (1 ∷ []) next_date after_termination ≡ err validation_error)
    × ((d : ℕ) (manual post : Bool)
        → stop session (1 ∷ []) d manual post after_termination ≡ err validation_error)
    × ((start : ℕ) (end : Option ℕ) (auto : Bool) (next_date : Option ℕ) (post : Bool)
        → plan_successor session (1 ∷ []) start end auto next_date post after_termination
          ≡ err validation_error)
    × ((susp_start susp_end : ℕ) (auto : Bool)
        → stop_plan_successor session (1 ∷ []) susp_start susp_end auto after_termination
          ≡ err validation_error)
terminate_contract-blocks_example =
    terminate_contract-blocks session 7 3 none 1059 one_line after_termination termination_runs
      session 1 (record ended { manual_renew_needed = false }) [] line_found refl

-- A suspension from day 990 to day 1010.
delayed-after_suspension_example :
    let line = delayed session hundred_days (delay_delta 1000 990 1010) in
    (1010 < line.date_start) × SameDays (some 1099) 1000 line.date_end line.date_start
delayed-after_suspension_example =
    delayed-after_suspension session hundred_days 990 1010 (omega arith) (omega arith)
