-- ===== src/Contract/Lifecycle/Successor.antt =====
-- `plan_successor` and `_prepare_value_for_plan_successor` of
-- local/Contract/models/contract_line.py.
use projectname.Prelude.{
  ℕ, Bool, false, not, Option, none, some, List, [], ◌∷◌, Result, ok, validation_error, raise_if,
  ◌>>=◌, ◌>>◌,
}
use projectname.Contract.Line.{Line, recurring_invoicing_offset}
use projectname.Contract.Period.{get_next_invoice_date}
use projectname.Contract.Checks.{Field}
use projectname.Contract.Store.{
  Store, Env, successor_planned, browse, write_line, create_line, allowed_for,
}
use projectname.Contract.Lifecycle.Stop.{post_if}

abbrev given_or {ℓ} : {A : Type ℓ} → Option A → Option A → Option A
given_or none computed = computed
given_or (some a) computed = some a

-- The copy of the line that becomes its successor. Like the source's `read` it keeps every field
-- that is not set here, the successor among them.
unfoldable pub prepare_value_for_plan_successor : Env → Line → ℕ → Option ℕ → Bool → Option ℕ → Line
prepare_value_for_plan_successor env rec start end auto_renew next_date = record rec {
  last_date_invoiced = none;
  date_start = start;
  date_end = end;
  recurring_next_date = given_or next_date (
      get_next_invoice_date env.calendar (some start) rec.recurring_invoicing_type
        (recurring_invoicing_offset rec) rec.recurring_rule_type rec.recurring_interval end);
  is_auto_renew = auto_renew;
  predecessor_contract_line_id = some rec.id;
}

-- The test, the write and the creation of one round of the loop of `plan_successor`: the id of the
-- new line, and the store.
unfoldable pub create_successor :
    Env → ℕ → Option ℕ → Bool → Option ℕ → ℕ → Store → Result (ℕ × Store)
create_successor env start end auto_renew next_date i st = do
  rec ← browse st i
  raise_if (not (allowed_for env st rec).plan_successor) validation_error
  written ← write_line env (Field.is_auto_renew ∷ []) (record rec { is_auto_renew = false }) st
  rec' ← browse written i
  create_line env (prepare_value_for_plan_successor env rec' start end auto_renew next_date) written

-- One round of the loop of `plan_successor`.
unfoldable pub plan_successor_one :
    Env → ℕ → Option ℕ → Bool → Option ℕ → Bool → ℕ → Store → Result (ℕ × Store)
plan_successor_one env start end auto_renew next_date post_message i st = do
  (new_line, created) ← create_successor env start end auto_renew next_date i st
  rec ← browse created i
  st' ←
      write_line env (Field.successor_contract_line_id ∷ [])
        (record rec { successor_contract_line_id = some new_line }) created
  ok (new_line, post_if post_message rec.contract_id (successor_planned i start end) st')

unfoldable pub plan_successor :
    Env → List ℕ → ℕ → Option ℕ → Bool → Option ℕ → Bool → Store → Result (List ℕ × Store)
plan_successor env [] start end auto_renew next_date post_message st = ok ([], st)
plan_successor env (i ∷ ids) start end auto_renew next_date post_message st = do
  (new_line, planned) ← plan_successor_one env start end auto_renew next_date post_message i st
  (new_lines, st') ← plan_successor env ids start end auto_renew next_date post_message planned
  ok (new_line ∷ new_lines, st')
