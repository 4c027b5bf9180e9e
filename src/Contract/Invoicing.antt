-- ===== src/Contract/Invoicing.antt =====
-- Contracts and their invoices, of local/Contract/models/contract.py: `_get_lines_to_invoice`,
-- `_compute_recurring_next_date`, `_compute_date_end`, `_terminate_contract` and `action_cancel_contract_termination`.
pub mod Waiting
pub mod Selection
pub mod Terminated
pub mod Due
use projectname.Prelude.{
  ℕ, Bool, true, false, not, ◌&&◌, ◌||◌, Option, none, some, List, [], ◌∷◌, ◌++◌, Result, ok, err,
  user_error, raise_if, ◌>>=◌, ◌>>◌, ◌==◌, leb, if◌then◌else◌, is_set,
}
use projectname.Contract.Line.{
  Line, DisplayType, line_section, line_note, NoteInvoicingMode, with_previous_line, with_next_line,
  is_recurring_note,
}
use projectname.Contract.Store.{
  Contract, Store, Env, find_contract, put_contract, allowed_for, or_missing,
}
use projectname.Contract.Lifecycle.Stop.{stop}

-- `not l.is_canceled and l.recurring_next_date and l.recurring_next_date <= date_ref`
unfoldable pub can_be_invoiced : ℕ → Line → Bool
can_be_invoiced date_ref rec = not rec.is_canceled && is_by rec.recurring_next_date
  where
    is_by : Option ℕ → Bool
    is_by none = false
    is_by (some d) = leb d date_ref

-- `line in lines`
abbrev pub contains : ℕ → List Line → Bool
contains i [] = false
contains i (rec ∷ lines) = (rec.id == i) || contains i lines

-- `lines | line`
unfoldable pub union : List Line → Line → List Line
union lines rec = if contains rec.id lines then lines else lines ++ (rec ∷ [])

abbrev pub union_option : List Line → Option Line → List Line
union_option lines none = lines
union_option lines (some rec) = union lines rec

-- The variables of the loop of `_get_lines_to_invoice`. `none` is the empty recordset or False.
pub record Scan : Type 0 where
  pub lines2invoice : List Line
  pub previous : Option Line
  pub current_section : Option Line
  pub current_note : Option Line

-- The branches of the loop.
pub data Branch : Type 0 where
  section previous_note next_note other_note invoiced ignored : Branch

abbrev is_section : Option DisplayType → Bool
is_section (some line_section) = true
is_section _ = false

abbrev is_note : Option DisplayType → Bool
is_note (some line_note) = true
is_note _ = false

abbrev note_branch : Option NoteInvoicingMode → Branch
note_branch (some with_previous_line) = previous_note
note_branch (some with_next_line) = next_note
note_branch _ = other_note

unfoldable pub branch : Line → Branch
branch line =
    if is_section line.display_type
    then section
    else if is_note line.display_type && not (is_recurring_note line)
    then note_branch line.note_invoicing_mode
    else if is_recurring_note line || not (is_set line.display_type)
    then invoiced
    else ignored

-- The empty recordset is in none.
abbrev pub contains_option : Option Line → List Line → Bool
contains_option none lines = false
contains_option (some rec) lines = contains rec.id lines

-- The line itself, after its section and its note.
unfoldable pub add_invoiced : Line → Scan → Scan
add_invoiced line s = record s {
  lines2invoice =
      union (union_option (union_option s.lines2invoice s.current_section) s.current_note) line;
  current_section = none;
  current_note = none;
}

abbrev pub scan_branch : ℕ → Branch → Line → Scan → Scan
scan_branch date_ref section line s = record s { current_section = some line }
scan_branch date_ref previous_note line s = record s {
  lines2invoice =
      if contains_option s.previous s.lines2invoice
      then union s.lines2invoice line
      else s.lines2invoice;
  current_note = none;
}
scan_branch date_ref next_note line s = record s { current_note = some line }
scan_branch date_ref other_note line s = s
scan_branch date_ref invoiced line s =
    if can_be_invoiced date_ref line then add_invoiced line s else s
scan_branch date_ref ignored line s = s

unfoldable pub scan_line : ℕ → Line → Scan → Scan
scan_line date_ref line s = record (scan_branch date_ref (branch line) line s) {
  previous = some line;
}

unfoldable pub scan_lines : ℕ → List Line → Scan → Scan
scan_lines date_ref [] s = s
scan_lines date_ref (line ∷ lines) s = scan_lines date_ref lines (scan_line date_ref line s)

abbrev pub start : Scan
start = record { lines2invoice = []; previous = none; current_section = none; current_note = none }

-- `contract_line_ids` in order, and the recordset before its `sorted()`, which is Odoo's and only
-- changes its order.
unfoldable pub get_lines_to_invoice : ℕ → List Line → List Line
get_lines_to_invoice date_ref lines = (scan_lines date_ref lines start).lines2invoice

-- `is_stop_allowed` of the lines of a contract
unfoldable pub stop_allowed_lines : Env → ℕ → Store → List Line → List ℕ
stop_allowed_lines env contract st [] = []
stop_allowed_lines env contract st (rec ∷ lines) =
    let rest = stop_allowed_lines env contract st lines in
    if (rec.contract_id == contract) && (allowed_for env st rec).stop then rec.id ∷ rest else rest

-- The write of the four fields of a termination. No stored field of a line depends on them.
unfoldable pub write_termination : ℕ → Bool → Option ℕ → Option ℕ → Option ℕ → Store → Result Store
write_termination i is_terminated reason comment date st = do
  contract ← or_missing (find_contract i st.contracts)
  ok (record st {
    contracts =
        put_contract
          (record contract {
            is_terminated = is_terminated;
            terminate_reason_id = reason;
            terminate_comment = comment;
            terminate_date = date;
          })
          st.contracts;
  })

unfoldable pub terminate_contract : Env → ℕ → ℕ → Option ℕ → ℕ → Store → Result Store
terminate_contract env contract reason comment date st = do
  raise_if (not env.can_terminate_contract) user_error
  stopped ← stop env (stop_allowed_lines env contract st st.lines) date false true st
  write_termination contract true (some reason) comment (some date) stopped

unfoldable pub cancel_contract_termination : ℕ → Store → Result Store
cancel_contract_termination contract st = write_termination contract false none none none st

-- `not l.display_type or l.is_recurring_note`
abbrev pub takes_invoices : Line → Bool
takes_invoices rec = not (is_set rec.display_type) || is_recurring_note rec

abbrev pub add_date : Option ℕ → List ℕ → List ℕ
add_date none dates = dates
add_date (some d) dates = d ∷ dates

abbrev pub next_dates : List Line → List ℕ
next_dates [] = []
next_dates (rec ∷ lines) =
    let rest = next_dates lines in
    if not rec.is_canceled && takes_invoices rec
    then add_date rec.recurring_next_date rest
    else rest

abbrev pub min : ℕ → List ℕ → ℕ
min d [] = d
min d (e ∷ dates) = min (if leb e d then e else d) dates

abbrev pub max : ℕ → List ℕ → ℕ
max d [] = d
max d (e ∷ dates) = max (if leb d e then e else d) dates

abbrev pub first_of : List ℕ → Option ℕ
first_of [] = none
first_of (d ∷ dates) = some (min d dates)

-- `none` where the method does not assign the field.
unfoldable pub compute_recurring_next_date : List Line → Option ℕ
compute_recurring_next_date lines = first_of (next_dates lines)

abbrev pub add_end : Option ℕ → Option (List ℕ) → Option (List ℕ)
add_end (some d) (some dates) = some (d ∷ dates)
add_end _ _ = none

-- The end dates, `none` if `all(date_end)` is False.
abbrev pub all_ends : List Line → Option (List ℕ)
all_ends [] = some []
all_ends (rec ∷ lines) = add_end rec.date_end (all_ends lines)

abbrev pub last_of : Option (List ℕ) → Option ℕ
last_of none = none
last_of (some []) = none
last_of (some (d ∷ dates)) = some (max d dates)

unfoldable pub compute_date_end : List Line → Option ℕ
compute_date_end lines = last_of (all_ends lines)

-- `('recurring_next_date', '<=', date_ref)`, the domain of `_get_contracts_to_invoice_domain`
abbrev pub is_due : Option ℕ → ℕ → Bool
is_due none date_ref = false
is_due (some d) date_ref = leb d date_ref
