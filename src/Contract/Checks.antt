-- ===== src/Contract/Checks.antt =====
-- The constraints of a contract line, the methods that `@api.constrains` marks in
-- local/Contract/models/contract_line.py, and their choice by the fields that are written.
use projectname.Prelude.{
  both_le, both_lt, ℕ, Bool, false, not, ◌&&◌, ◌||◌, Option, none, some, List, [], ◌∷◌, Check, ok,
  err, validation_error, type_error, raise_if, ◌>>◌, leb, ◌==◌, if◌then◌else◌, is_set,
}
use projectname.Contract.Line.{Line}

-- The fields that some constraint names.
pub data Field : Type 0 where
  is_auto_renew successor_contract_line_id predecessor_contract_line_id : Field
  date_start date_end recurring_next_date last_date_invoiced is_canceled : Field
  manual_renew_needed : Field

unfoldable pub check_allowed : Line → Check
check_allowed rec =
    if rec.is_auto_renew
    then raise_if (is_set rec.successor_contract_line_id || not (is_set rec.date_end))
        validation_error
    else raise_if (not (is_set rec.date_end) && is_set rec.successor_contract_line_id)
        validation_error

unfoldable pub check_auto_renew_canceled_lines : Line → Check
check_auto_renew_canceled_lines rec =
    raise_if (rec.is_canceled && rec.is_auto_renew) validation_error

unfoldable pub check_last_date_invoiced : Line → Check
check_last_date_invoiced rec = do
  raise_if (both_lt rec.last_date_invoiced (some rec.date_start)) validation_error
  raise_if (both_lt rec.date_end rec.last_date_invoiced) validation_error
  raise_if (both_le rec.recurring_next_date rec.last_date_invoiced) validation_error

-- `rec.date_start <= predecessor.date_end`, where an open end is no date to compare with
starts_by : ℕ → Option ℕ → Check
starts_by start none = err type_error
starts_by start (some end) = raise_if (leb start end) validation_error

-- The predecessor is the record that the field refers to, if it is set.
unfoldable pub check_overlap_predecessor : Line → Option Line → Check
unfolding starts_by
check_overlap_predecessor rec none = ok tt
check_overlap_predecessor rec (some predecessor) = starts_by rec.date_start predecessor.date_end

unfoldable pub check_overlap_successor : Line → Option Line → Check
check_overlap_successor rec none = ok tt
check_overlap_successor rec (some successor) =
    raise_if (both_le (some successor.date_start) rec.date_end) validation_error

-- `not date_end or not last_date_invoiced or last_date_invoiced < date_end`
abbrev has_more_to_invoice : Option ℕ → Option ℕ → Bool
has_more_to_invoice end last = not (is_set end) || not (is_set last) || both_lt last end

unfoldable pub check_recurring_next_date_recurring_invoices : Line → Check
check_recurring_next_date_recurring_invoices rec =
    raise_if
      (not (is_set rec.recurring_next_date)
        && has_more_to_invoice rec.date_end rec.last_date_invoiced)
      validation_error

unfoldable pub check_recurring_next_date_start_date : Line → Check
check_recurring_next_date_start_date rec =
    raise_if (both_lt rec.recurring_next_date (some rec.date_start)) validation_error

unfoldable pub check_start_end_dates : Line → Check
check_start_end_dates rec = raise_if (both_lt rec.date_end (some rec.date_start)) validation_error

number : Field → ℕ
number is_auto_renew = 0
number successor_contract_line_id = 1
number predecessor_contract_line_id = 2
number date_start = 3
number date_end = 4
number recurring_next_date = 5
number last_date_invoiced = 6
number is_canceled = 7
number manual_renew_needed = 8

unfoldable pub has_field : Field → List Field → Bool
unfolding number
has_field f [] = false
has_field f (g ∷ gs) = (number f == number g) || has_field f gs

-- A constraint is checked after a write of one of the fields that its decorator names.
unfoldable pub constrains : List Field → List Field → Check → Check
constrains [] written check = ok tt
constrains (f ∷ fs) written check =
    let rest = constrains fs written check in if has_field f written then check else rest

unfoldable pub validate : List Field → Line → Option Line → Option Line → Check
unfolding constrains
validate written rec predecessor successor = do
  constrains (is_auto_renew ∷ successor_contract_line_id ∷ date_end ∷ []) written
      (check_allowed rec)
  constrains (is_canceled ∷ is_auto_renew ∷ []) written (check_auto_renew_canceled_lines rec)
  constrains (date_start ∷ date_end ∷ last_date_invoiced ∷ recurring_next_date ∷ []) written
      (check_last_date_invoiced rec)
  constrains (predecessor_contract_line_id ∷ date_start ∷ []) written
      (check_overlap_predecessor rec predecessor)
  constrains (successor_contract_line_id ∷ date_end ∷ []) written
      (check_overlap_successor rec successor)
  constrains (recurring_next_date ∷ []) written (check_recurring_next_date_recurring_invoices rec)
  constrains (recurring_next_date ∷ date_start ∷ []) written
      (check_recurring_next_date_start_date rec)
  constrains (date_start ∷ date_end ∷ []) written (check_start_end_dates rec)
