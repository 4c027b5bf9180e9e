-- ===== src/Contract/Recurring.antt =====
-- The recurring invoices of contracts: `_prepare_recurring_invoices_values` and
-- `cron_recurring_create_invoice` of local/Contract/models/contract.py, and `_prepare_invoice_line`
-- of local/Contract/models/contract_line.py, as far as they choose the lines, the periods and the
-- dates. Prices, quantities and the values that the product gives are left out.
pub mod Chosen
pub mod Owned
pub mod Others
pub mod Cron
use projectname.Prelude.{
  ℕ, Option, none, some, List, [], ◌∷◌, ◌++◌, Result, ok, err, attribute_error, validation_error,
  raise_if, not, Bool, true, ◌>>=◌, ◌>>◌, ◌==◌, if◌then◌else◌,
}
use projectname.Contract.Calendar.{Calendar}
use projectname.Contract.Line.{Line}
use projectname.Contract.Period.{get_period_to_invoice}
use projectname.Contract.Billing.{update_recurring_next_date}
use projectname.Contract.Store.{Contract, Store, Env, put_line, browse}
use projectname.Contract.Invoicing.{get_lines_to_invoice, compute_recurring_next_date, is_due}

-- A line of an invoice, with the days that its markers show.
pub record InvoiceLine : Type 0 where
  pub contract_line_id : ℕ
  pub first : ℕ
  pub last : ℕ

pub record Invoice : Type 0 where
  pub contract_id : ℕ
  pub date_invoice : ℕ
  pub invoice_line_ids : List InvoiceLine

-- `contract_line_ids`, in the order of the store.
unfoldable pub contract_lines : ℕ → List Line → List Line
contract_lines contract [] = []
contract_lines contract (rec ∷ lines) =
    let rest = contract_lines contract lines in
    if rec.contract_id == contract then rec ∷ rest else rest

-- `strftime` of False is an AttributeError.
abbrev marked_line : ℕ → Option (ℕ × Option ℕ × ℕ) → Result InvoiceLine
marked_line i none = err attribute_error
marked_line i (some (first, none, date)) = err attribute_error
marked_line i (some (first, some last, date)) =
    ok (record { contract_line_id = i; first = first; last = last })

abbrev pub or_today : ℕ → Option ℕ → ℕ
or_today today none = today
or_today today (some date_ref) = date_ref

abbrev pub or_else : Option ℕ → Option ℕ → Option ℕ
or_else none o = o
or_else (some d) o = some d

-- `has_journal` is whether a journal is found for a contract.
module _ (env : Env) (has_journal : ℕ → Bool) where
  open env use {calendar, today}

  unfoldable pub prepare_invoice_line : Line → Result InvoiceLine
  prepare_invoice_line rec =
      marked_line rec.id
        (get_period_to_invoice calendar rec rec.last_date_invoiced rec.recurring_next_date true)

  unfoldable pub prepare_invoice_lines : List Line → Result (List InvoiceLine)
  prepare_invoice_lines [] = ok []
  prepare_invoice_lines (rec ∷ lines) = do
    values ← prepare_invoice_line rec
    rest ← prepare_invoice_lines lines
    ok (values ∷ rest)

  -- The loop of `_update_recurring_next_date`.
  unfoldable pub update_each : List Line → Store → Result Store
  update_each [] st = ok st
  update_each (line ∷ lines) st = do
    rec ← browse st line.id
    rec' ← update_recurring_next_date calendar rec
    update_each lines (record st { lines = put_line rec' st.lines })

  -- The invoice of the lines chosen, if there are any.
  unfoldable pub invoice_lines_chosen : ℕ → ℕ → List Line → Store → Result (List Invoice × Store)
  invoice_lines_chosen date_ref contract [] st = ok ([], st)
  invoice_lines_chosen date_ref contract (line ∷ lines) st = do
    raise_if (not (has_journal contract)) validation_error
    values ← prepare_invoice_lines (line ∷ lines)
    st' ← update_each (line ∷ lines) st
    ok (
      record { contract_id = contract; date_invoice = date_ref; invoice_line_ids = values } ∷ [],
      st',
    )

  -- One round of the loop over the contracts.
  unfoldable pub invoice_contract : ℕ → ℕ → Store → Result (List Invoice × Store)
  invoice_contract date_ref contract st =
      invoice_lines_chosen date_ref contract
        (get_lines_to_invoice date_ref (contract_lines contract st.lines)) st

  -- `date_ref` stays for the contracts that follow.
  unfoldable pub prepare_recurring_invoices_values :
      Option ℕ → List ℕ → Store → Result (List Invoice × Store)
  prepare_recurring_invoices_values date_ref [] st = ok ([], st)
  prepare_recurring_invoices_values date_ref (contract ∷ contracts) st =
      elim (or_else date_ref (compute_recurring_next_date (contract_lines contract st.lines))) [
        | none ↦ prepare_recurring_invoices_values none contracts st
        | some d ↦ (do
          (invoices, st') ← invoice_contract d contract st
          (rest, last) ← prepare_recurring_invoices_values (some d) contracts st'
          ok (invoices ++ rest, last))
      ]

  -- `self.search(domain)`
  unfoldable pub contracts_to_invoice : ℕ → List Line → List Contract → List ℕ
  contracts_to_invoice date_ref lines [] = []
  contracts_to_invoice date_ref lines (c ∷ contracts) =
      let rest = contracts_to_invoice date_ref lines contracts in
      if is_due (compute_recurring_next_date (contract_lines c.id lines)) date_ref
      then c.id ∷ rest
      else rest

  unfoldable pub cron_recurring_create_invoice : Option ℕ → Store → Result (List Invoice × Store)
  cron_recurring_create_invoice date_ref st =
      let d = or_today today date_ref in
      prepare_recurring_invoices_values (some d) (contracts_to_invoice d st.lines st.contracts) st
