-- ===== src/Contract/Billing.antt =====
-- Moving a line to its next period: `_update_recurring_next_date` of
-- local/Contract/models/contract_line.py.
pub mod Init
pub mod Forgotten
pub mod Step
pub mod Complete
use projectname.Prelude.{
  ℕ, ◌-◌, Bool, true, false, Option, none, some, List, [], ◌∷◌, Result, ok, err, type_error, ◌>>=◌,
  ◌>>◌, ltb, if◌then◌else◌,
}
use projectname.Contract.Calendar.{Calendar, days}
use projectname.Contract.Line.{Line, is_monthlylastday, is_pre_paid, recurring_invoicing_offset}
use projectname.Contract.Period.{get_relative_delta, get_next_invoice_date, next_period_date_end}
use projectname.Contract.Checks.{Field, validate}

module _ (cal : Calendar) where
  open cal use {plus, minus}

  -- The write of the two dates. No constraint on a neighbour line names either of them.
  unfoldable pub invoiced_until : Line → Option ℕ → Result Line
  invoiced_until rec none = err type_error
  invoiced_until rec (some last_date_invoiced) =
      let rec' = record rec {
        recurring_next_date =
            get_next_invoice_date cal (some (plus last_date_invoiced (days 1)))
              rec.recurring_invoicing_type (recurring_invoicing_offset rec) rec.recurring_rule_type
              rec.recurring_interval rec.date_end;
        last_date_invoiced = some last_date_invoiced;
      } in
      do
        validate (Field.recurring_next_date ∷ Field.last_date_invoiced ∷ []) rec' none none
        ok rec'

  unfoldable pub update_recurring_next_date : Line → Result Line
  unfolding invoiced_until
  update_recurring_next_date rec = invoiced_until rec (next_period_date_end cal rec)
