-- ===== src/Reports/Tests/Runs.antt =====
-- The theorems at these reports.
use projectname.Prelude.{◌≡◌, refl, true, false, ok, none, List, [], ◌∷◌, map, arith}
use projectname.Prelude.Int.{◌+ℤ◌}
use projectname.Reports.Line.{cancel, draft, sale, upselling, Report}
use projectname.Reports.Status.{
  get_to_invoice_qty, get_invoice_qty, sum_parts, invoiced_part, invoice_lines, get_invoice_status,
}
use projectname.Reports.Actions.{
  get_forbidden_state_confirm, needs_account, write_state, action_confirm, action_draft,
  action_cancel, unlink_reports,
}
use projectname.Reports.Invoicing.{
  InvoiceVals, qty_to_invoice, prepare_invoice_line, prepare_invoice, or_user_error, scan,
  invoice_vals, invoice_vals_list, invoices_to_create,
}
use projectname.Reports.Sections.{kept, scan-kept}
use projectname.Reports.Grouping.{lines_of, apart, invoices_to_create-groups}
use projectname.Reports.Upselling.{IsPaid, no_line, get_invoice_status-AllPaid}
use projectname.Reports.Reach.{
  on, Reach, here, next, confirmed, redrafted, canceled, none_locked, Reach-none_locked,
}
use projectname.Reports.Tests.Samples.{chairs, lines, report_of, paid, books, billed, units}

scan-kept_example :
    scan books (paid 5) none lines
    ≡ map (prepare_invoice_line books (paid 5)) (kept books (paid 5) lines)
scan-kept_example = scan-kept books (paid 5) lines

abbrev reports : List Report
reports = paid 5 ∷ paid 6 ∷ paid 6 ∷ []

made : (vals : List InvoiceVals) × (invoices_to_create books true reports ≡ ok vals)
unfolding invoices_to_create invoice_vals_list invoice_vals prepare_invoice or_user_error scan
    qty_to_invoice get_to_invoice_qty get_invoice_qty sum_parts invoice_lines ◌+ℤ◌
made = (_, refl)

invoices_to_create-groups_example :
    (vals : List InvoiceVals) × (invoices_to_create books false reports ≡ ok vals)
    × ((k : InvoiceVals) → lines_of k vals ≡ lines_of k made.0)
    × (apart vals ≡ true)
invoices_to_create-groups_example = invoices_to_create-groups books reports made.0 made.1

IsPaid-five : IsPaid units (billed 2 500 ∷ billed 3 300 ∷ []) (chairs 2 500)
unfolding get_to_invoice_qty get_invoice_qty sum_parts invoiced_part invoice_lines ◌+ℤ◌
IsPaid-five = record {
  units = 5;
  positive = omega arith;
  quantity = refl;
  ordered = refl;
  is_line = refl;
  no_downpayment = refl;
  nothing_left = refl;
}

IsPaid-three : IsPaid units (billed 2 500 ∷ billed 3 300 ∷ []) (chairs 3 300)
unfolding get_to_invoice_qty get_invoice_qty sum_parts invoiced_part invoice_lines ◌+ℤ◌
IsPaid-three = record {
  units = 3;
  positive = omega arith;
  quantity = refl;
  ordered = refl;
  is_line = refl;
  no_downpayment = refl;
  nothing_left = refl;
}

get_invoice_status-AllPaid_example :
    get_invoice_status units
      (billed 2 500 ∷ billed 3 300 ∷ [])
      (report_of 5 sale (chairs 2 500 ∷ chairs 3 300 ∷ []))
    ≡ upselling
get_invoice_status-AllPaid_example =
    get_invoice_status-AllPaid units (billed 2 500 ∷ billed 3 300 ∷ [])
      (report_of 5 sale (chairs 2 500 ∷ chairs 3 300 ∷ [])) (chairs 2 500) (chairs 3 300) []
      (omega arith) refl refl IsPaid-five IsPaid-three no_line

path :
    Reach
      (report_of 6 draft lines ∷ report_of 5 draft lines ∷ [])
      (report_of 6 draft lines ∷ report_of 5 sale lines ∷ [])
unfolding action_confirm get_forbidden_state_confirm needs_account write_state action_draft
    action_cancel
path =
    next
      (next
        (next here (
          on (report_of 6 draft lines ∷ []) (report_of 5 draft lines ∷ [])
            (report_of 5 cancel lines ∷ []) [] canceled))
        (on [] (report_of 6 draft lines ∷ report_of 5 cancel lines ∷ [])
          (report_of 6 draft lines ∷ report_of 5 draft lines ∷ []) [] redrafted))
      (on (report_of 6 draft lines ∷ []) (report_of 5 draft lines ∷ [])
        (report_of 5 sale lines ∷ []) [] (confirmed false refl))

Reach-none_locked_example :
    (none_locked (report_of 6 draft lines ∷ report_of 5 sale lines ∷ []) ≡ true)
    × (unlink_reports (action_cancel (report_of 6 draft lines ∷ report_of 5 sale lines ∷ []))
        ≡ ok tt)
Reach-none_locked_example = Reach-none_locked refl path
