-- ===== src/Reports/Billable.antt =====
-- The reports that are to be invoiced, by their status and by `create_invoices`.
use projectname.Prelude.{
  Error, user_error, key_error, false, ◌≡◌, Bool, true, ◌&&◌, Option, none, some, List, [], ◌∷◌,
  Result, ok, err, is_set,
}
use projectname.Reports.Line.{Report}
use projectname.Reports.Status.{is_to_invoice, get_invoice_status}
use projectname.Reports.Invoicing.{Books, InvoiceVals}
use projectname.Reports.DueLines.{all_plain}

abbrev pub failure {ℓ} : {A : Type ℓ} → Result A → Option Error
failure (err e) = some e
failure (ok a) = none

-- A UserError, unless it may go on.
abbrev refused : Bool → Option Error
refused true = none
refused false = some user_error

-- Once the values are there, only a field that is missing stops the call.
abbrev pub outcome : Bool → Bool → Option Error
outcome has_report_id false = some user_error
outcome true true = none
outcome false true = some key_error

IsNonempty : List InvoiceVals → Type 0
IsNonempty vs = (v : InvoiceVals) × (rest : List InvoiceVals) × (vs ≡ v ∷ rest)

module _ (b : Books) where
  abbrev pub is_ready : Report → Bool
  is_ready report =
      is_set (b.journal report.company_id) && all_plain b report report.commission_line

  abbrev pub all_ready : List Report → Bool
  all_ready [] = true
  all_ready (report ∷ reports) = is_ready report && all_ready reports

  abbrev pub all_to_invoice : List Report → Bool
  all_to_invoice [] = true
  all_to_invoice (report ∷ reports) =
      is_to_invoice (get_invoice_status b.units b.account_lines report) && all_to_invoice reports
