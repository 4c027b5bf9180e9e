-- ===== src/Contract/Tests/Invoices.antt =====
-- The invoices of two contracts that are due on days 1030 and 1040.
use projectname.Prelude.{ℕ, Bool, ◌≡◌, refl, true, false, some, none, ok, map, List, [], ◌∷◌}
use projectname.Contract.Line.{Line, recurring_invoicing_offset, is_recurring_note}
use projectname.Contract.Checks.{
  validate, constrains, has_field, check_allowed, check_auto_renew_canceled_lines,
  check_last_date_invoiced, check_overlap_predecessor, check_overlap_successor,
  check_recurring_next_date_recurring_invoices, check_recurring_next_date_start_date,
  check_start_end_dates,
}
use projectname.Contract.Period.{
  is_past, first_date_to_invoice, get_next_invoice_date, get_next_period_date_end,
  get_period_to_invoice, next_period_date_start, next_period_date_end,
}
use projectname.Contract.Billing.{update_recurring_next_date, invoiced_until}
use projectname.Contract.Invoicing.{
  branch, can_be_invoiced, union, add_invoiced, scan_line, scan_lines, get_lines_to_invoice,
  compute_recurring_next_date,
}
use projectname.Contract.Store.{Contract, Store, Env, find_line, put_line}
use projectname.Contract.Recurring.{
  Invoice, contract_lines, prepare_invoice_line, prepare_invoice_lines, update_each,
  invoice_lines_chosen, invoice_contract, prepare_recurring_invoices_values, contracts_to_invoice,
  cron_recurring_create_invoice,
}
use projectname.Contract.Recurring.Others.{Unique, no_line, another}
use projectname.Contract.Recurring.Cron.{
  heading, Distinct, no_id, new_id, due_among, cron_recurring_create_invoice-due,
  prepare_recurring_invoices_values-first,
}
use projectname.Contract.Tests.Samples.{hundred_days, thirty_day_months}

abbrev company_of : ℕ → Contract
company_of i = record {
  id = i;
  create_new_line_at_contract_line_renew = true;
  is_terminated = false;
  terminate_reason_id = none;
  terminate_comment = none;
  terminate_date = none;
}

abbrev later : Line
later = record hundred_days {
  id = 2;
  contract_id = 8;
  date_start = 1010;
  date_end = some 1109;
  recurring_next_date = some 1040;
}

abbrev two_contracts : Store
two_contracts = record {
  lines = hundred_days ∷ later ∷ [];
  next_id = 3;
  contracts = company_of 7 ∷ company_of 8 ∷ [];
  messages = [];
}

abbrev session : Env
session = record { calendar = thirty_day_months; today = 1050; can_terminate_contract = true }

abbrev has_journal : ℕ → Bool
has_journal i = true

two_lines-Unique : Unique (hundred_days ∷ later ∷ [])
unfolding find_line
two_lines-Unique = another refl (another refl no_line)

two_ids-Distinct : Distinct (7 ∷ 8 ∷ [])
two_ids-Distinct = new_id refl (new_id refl no_id)

cron_run :
    (r : List Invoice × Store) × (cron_recurring_create_invoice session has_journal none
        two_contracts
      ≡ ok r)
unfolding cron_recurring_create_invoice contracts_to_invoice prepare_recurring_invoices_values
    invoice_contract invoice_lines_chosen update_each prepare_invoice_lines prepare_invoice_line
    contract_lines compute_recurring_next_date get_lines_to_invoice scan_lines scan_line
    add_invoiced union branch can_be_invoiced is_recurring_note find_line put_line
    update_recurring_next_date invoiced_until is_past first_date_to_invoice get_next_invoice_date
    get_next_period_date_end get_period_to_invoice next_period_date_start next_period_date_end
    recurring_invoicing_offset validate constrains has_field check_allowed
    check_auto_renew_canceled_lines check_last_date_invoiced check_overlap_predecessor
    check_overlap_successor check_recurring_next_date_recurring_invoices
    check_recurring_next_date_start_date check_start_end_dates
cron_run = (_, refl)

cron_recurring_create_invoice-due_example :
    map heading cron_run.0.0
    ≡ map
        (λ c. (c, 1050))
        (contracts_to_invoice session has_journal 1050
          (hundred_days ∷ later ∷ [])
          (company_of 7 ∷ company_of 8 ∷ []))
cron_recurring_create_invoice-due_example =
    cron_recurring_create_invoice-due session has_journal none two_contracts cron_run.0.0
      cron_run.0.1 two_lines-Unique two_ids-Distinct cron_run.1

next_date : compute_recurring_next_date (contract_lines 7 two_contracts.lines) ≡ some 1030
unfolding compute_recurring_next_date contract_lines is_recurring_note
next_date = refl

undated_run :
    (r : List Invoice × Store) × (prepare_recurring_invoices_values session has_journal none
        (7 ∷ 8 ∷ [])
        two_contracts
      ≡ ok r)
unfolding prepare_recurring_invoices_values invoice_contract invoice_lines_chosen update_each
    prepare_invoice_lines prepare_invoice_line contract_lines compute_recurring_next_date
    get_lines_to_invoice scan_lines scan_line add_invoiced union branch can_be_invoiced
    is_recurring_note find_line put_line update_recurring_next_date invoiced_until is_past
    first_date_to_invoice get_next_invoice_date get_next_period_date_end get_period_to_invoice
    next_period_date_start next_period_date_end recurring_invoicing_offset validate constrains
    has_field check_allowed check_auto_renew_canceled_lines check_last_date_invoiced
    check_overlap_predecessor check_overlap_successor check_recurring_next_date_recurring_invoices
    check_recurring_next_date_start_date check_start_end_dates
undated_run = (_, refl)

prepare_recurring_invoices_values-first_example :
    map heading undated_run.0.0
    ≡ map (λ i. (i, 1030)) (7 ∷ due_among 1030 (hundred_days ∷ later ∷ []) (8 ∷ []))
prepare_recurring_invoices_values-first_example =
    prepare_recurring_invoices_values-first session has_journal 7 1030 (8 ∷ []) two_contracts
      undated_run.0.0 undated_run.0.1 two_lines-Unique two_ids-Distinct next_date undated_run.1
