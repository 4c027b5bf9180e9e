-- ===== src/Reports/Actions.antt =====
-- The actions of a report and the guards of its lines, of
-- local/sale_commission_1/models/commission_agent_report.py. A method acts on a recordset, the list
-- of its reports.
use projectname.Prelude.{
  Bool, true, false, ◌&&◌, ◌||◌, not, Option, none, some, List, [], ◌∷◌, Result, ok, Check,
  raise_if, ◌>>◌, user_error, attribute_error, is_set, if◌then◌else◌,
}
use projectname.Reports.Line.{ReportState, draft, sale, done, cancel, Product, ReportLine, Report}

abbrev is_draft : ReportState → Bool
is_draft draft = true
is_draft _ = false

abbrev is_cancel : ReportState → Bool
is_cancel cancel = true
is_cancel _ = false

abbrev is_done : ReportState → Bool
is_done done = true
is_done _ = false

abbrev pub any_report : (Report → Bool) → List Report → Bool
any_report test [] = false
any_report test (r ∷ rs) = test r || any_report test rs

-- `_get_forbidden_state_confirm`
unfoldable pub get_forbidden_state_confirm : ReportState → Bool
get_forbidden_state_confirm state = is_done state || is_cancel state

abbrev is_expense : Option Product → Bool
is_expense none = false
is_expense (some p) = p.is_expense

abbrev any_expense : List ReportLine → Bool
any_expense [] = false
any_expense (line ∷ lines) = is_expense line.product_id || any_expense lines

-- An analytic account is needed; the method `_prepare_analytic_account_data` that it is made with
-- is not there.
unfoldable pub needs_account : Report → Bool
needs_account report = any_expense report.commission_line && not (is_set report.analytic_account_id)

unfoldable pub write_state : ReportState → List Report → List Report
write_state state [] = []
write_state state (r ∷ rs) = record r { state = state } ∷ write_state state rs

-- `auto_done` is that the user has the group 'sale.group_auto_done_setting'. The method
-- `action_done` that is called then is not there.
unfoldable pub action_confirm : Bool → List Report → Result (List Report)
action_confirm auto_done reports = do
  raise_if (any_report (λ r. get_forbidden_state_confirm r.state) reports) user_error
  raise_if (any_report needs_account reports) attribute_error
  raise_if auto_done attribute_error
  ok (write_state sale reports)

unfoldable pub action_draft : List Report → List Report
action_draft [] = []
action_draft (r ∷ rs) =
    (if is_cancel r.state then record r { state = draft } else r) ∷ action_draft rs

unfoldable pub action_cancel : List Report → List Report
action_cancel reports = write_state cancel reports

abbrev pub may_not_unlink : Report → Bool
may_not_unlink r = not (is_draft r.state || is_cancel r.state)

-- Nothing is left of the recordset.
unfoldable pub unlink_reports : List Report → Check
unlink_reports reports = raise_if (any_report may_not_unlink reports) user_error
