-- ===== src/Contract/Lifecycle/Stop.antt =====
-- `stop` and `_prepare_value_for_stop` of local/Contract/models/contract_line.py.
use projectname.Prelude.{
  ℕ, Bool, true, false, Option, none, some, List, [], ◌∷◌, Result, ok, ◌>>=◌, ◌>>◌, ltb,
  if◌then◌else◌,
}
use projectname.Contract.Line.{Line, recurring_invoicing_offset}
use projectname.Contract.Period.{get_next_invoice_date, next_period_date_start}
use projectname.Contract.Checks.{Field}
use projectname.Contract.Store.{Store, Env, Message, line_stopped, browse, message_post, write_line}
use projectname.Contract.Lifecycle.Cancel.{require_all, cancel}

-- `not rec.date_end or rec.date_end > date_end`
abbrev pub ends_later : Option ℕ → ℕ → Bool
ends_later none stop_date = true
ends_later (some end) stop_date = ltb stop_date end

-- The values of `_prepare_value_for_stop`, put into the line. The next period still starts by the
-- old end date.
unfoldable pub prepare_value_for_stop : Env → Line → ℕ → Bool → Line
prepare_value_for_stop env rec stop_date manual = record rec {
  date_end = some stop_date;
  is_auto_renew = false;
  manual_renew_needed = manual;
  recurring_next_date =
      get_next_invoice_date env.calendar (next_period_date_start env.calendar rec)
        rec.recurring_invoicing_type (recurring_invoicing_offset rec) rec.recurring_rule_type
        rec.recurring_interval (some stop_date);
}

abbrev pub post_if : Bool → ℕ → Message → Store → Store
post_if post contract m st = if post then message_post contract m st else st

-- The write of a new end date, with its message.
unfoldable pub put_end : Env → ℕ → Bool → Bool → Line → Store → Result Store
put_end env stop_date manual post_message rec st = do
  st' ←
      write_line env
        (Field.date_end ∷ Field.is_auto_renew ∷ Field.manual_renew_needed
          ∷ Field.recurring_next_date ∷ [])
        (prepare_value_for_stop env rec stop_date manual) st
  ok (post_if post_message rec.contract_id (line_stopped rec.id rec.date_end (some stop_date)) st')

unfoldable pub stop_line : Env → ℕ → Bool → Bool → Line → Store → Result Store
unfolding put_end
stop_line env stop_date manual post_message rec st =
    if ltb stop_date rec.date_start
    then cancel env (rec.id ∷ []) st
    else if ends_later rec.date_end stop_date
    then put_end env stop_date manual post_message rec st
    else write_line env (Field.is_auto_renew ∷ Field.manual_renew_needed ∷ [])
        (record rec { is_auto_renew = false; manual_renew_needed = manual }) st

-- One round of the loop of `stop`.
unfoldable pub stop_one : Env → ℕ → Bool → Bool → ℕ → Store → Result Store
stop_one env stop_date manual post_message i st = do
  rec ← browse st i
  stop_line env stop_date manual post_message rec st

unfoldable pub stop_each : Env → ℕ → Bool → Bool → List ℕ → Store → Result Store
stop_each env stop_date manual post_message [] st = ok st
stop_each env stop_date manual post_message (i ∷ ids) st = do
  st' ← stop_one env stop_date manual post_message i st
  stop_each env stop_date manual post_message ids st'

unfoldable pub stop : Env → List ℕ → ℕ → Bool → Bool → Store → Result Store
stop env ids stop_date manual post_message st = do
  require_all env (λ a. a.stop) ids st
  stop_each env stop_date manual post_message ids st
