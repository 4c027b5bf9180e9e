-- ===== src/Contract/Tests/Selections.antt =====
-- The selection of the lines to invoice, and the dates of a contract, at concrete lines.
use projectname.Prelude.{◌≡◌, refl, some, none, [], ◌∷◌, ◌++◌}
use projectname.Contract.Line.{Line, line_section, line_note, with_next_line, is_recurring_note}
use projectname.Contract.Invoicing.{
  compute_recurring_next_date, compute_date_end, is_due, contains, get_lines_to_invoice, scan_lines,
  scan_line, branch, can_be_invoiced, add_invoiced, union,
}
use projectname.Contract.Invoicing.Selection.{selected, contains-get_lines_to_invoice}
use projectname.Contract.Invoicing.Due.{
  any_to_invoice, compute_recurring_next_date-is_due, all_ended, compute_date_end-has_ended,
}
use projectname.Contract.Allowed.{has_ended}
use projectname.Contract.Tests.Samples.{hundred_days}

abbrev heading : Line
heading = record hundred_days {
  id = 2;
  display_type = some line_section;
  recurring_next_date = none;
}

abbrev note : Line
note = record hundred_days {
  id = 3;
  display_type = some line_note;
  note_invoicing_mode = some with_next_line;
  recurring_next_date = none;
}

abbrev later : Line
later = record hundred_days { id = 4; recurring_next_date = some 1060 }

-- A note for the next line, where that line is not to be invoiced yet and the one after it is.
contains-get_lines_to_invoice_example :
    contains 3 (get_lines_to_invoice 1030 ((heading ∷ []) ++ (note ∷ later ∷ hundred_days ∷ [])))
    ≡ selected 1030 (heading ∷ []) note (later ∷ hundred_days ∷ [])
contains-get_lines_to_invoice_example =
    contains-get_lines_to_invoice 1030 (heading ∷ []) (later ∷ hundred_days ∷ []) note refl refl

all_but_the_later_selected :
    get_lines_to_invoice 1030 (heading ∷ note ∷ later ∷ hundred_days ∷ [])
    ≡ heading ∷ note ∷ hundred_days ∷ []
unfolding get_lines_to_invoice scan_lines scan_line branch can_be_invoiced add_invoiced union
    is_recurring_note
all_but_the_later_selected = refl

compute_recurring_next_date-is_due_example :
    is_due (compute_recurring_next_date (heading ∷ later ∷ [])) 1059
    ≡ any_to_invoice 1059 (heading ∷ later ∷ [])
compute_recurring_next_date-is_due_example =
    compute_recurring_next_date-is_due 1059 (heading ∷ later ∷ [])

compute_date_end-has_ended_example :
    has_ended 1100 (compute_date_end (heading ∷ later ∷ [])) ≡ all_ended 1100 (heading ∷ later ∷ [])
compute_date_end-has_ended_example = compute_date_end-has_ended 1100 heading (later ∷ [])
