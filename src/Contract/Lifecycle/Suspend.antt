-- ===== src/Contract/Lifecycle/Suspend.antt =====
-- `_delay` and `stop_plan_successor` of local/Contract/models/contract_line.py. A timedelta is its
-- number of days, an integer.
use projectname.Prelude.{
  ℕ, ◌+◌, ◌-◌, Bool, true, false, ◌&&◌, Option, none, some, List, [], ◌∷◌, ◌++◌, Result, ok,
  validation_error, raise_if, ◌>>=◌, ◌>>◌, ltb, leb, if◌then◌else◌, is_set, both_lt,
}
use projectname.Prelude.Int.{ℤ, pos, pos_part, neg_part, sub_ℕ, ◌+ℤ◌}
use projectname.Contract.Calendar.{days}
use projectname.Contract.Line.{Line, recurring_invoicing_offset}
use projectname.Contract.Period.{get_next_invoice_date}
use projectname.Contract.Checks.{Field}
use projectname.Contract.Store.{Store, Env, line_suspended, browse, message_post, write_line}
use projectname.Contract.Lifecycle.Cancel.{require_all}
use projectname.Contract.Lifecycle.Stop.{stop}
use projectname.Contract.Lifecycle.Successor.{plan_successor}

-- `date + timedelta`
abbrev pub shift : ℕ → ℤ → ℕ
shift d delta = d + pos_part delta - neg_part delta

abbrev pub shift_end : Option ℕ → ℤ → Option ℕ
shift_end none delta = none
shift_end (some d) delta = some (shift d delta)

-- The three dates that `_delay` writes.
unfoldable pub delayed : Env → Line → ℤ → Line
delayed env rec delta =
    let start = shift rec.date_start delta in
    let end = shift_end rec.date_end delta in
    record rec {
      date_start = start;
      date_end = end;
      recurring_next_date =
          get_next_invoice_date env.calendar (some start) rec.recurring_invoicing_type
            (recurring_invoicing_offset rec) rec.recurring_rule_type rec.recurring_interval end;
    }

unfoldable pub delay : Env → ℤ → ℕ → Store → Result Store
delay env delta i st = do
  rec ← browse st i
  raise_if (is_set rec.last_date_invoiced) validation_error
  write_line env (Field.date_start ∷ Field.date_end ∷ Field.recurring_next_date ∷ [])
      (delayed env rec delta) st

-- The delay of a line that does not start before the suspension.
unfoldable pub delay_delta : ℕ → ℕ → ℕ → ℤ
delay_delta date_start susp_start susp_end =
    if ltb date_start susp_end
    then sub_ℕ susp_end date_start +ℤ pos 1
    else sub_ℕ susp_end susp_start +ℤ pos 1

-- The end of the successor of a line that goes on after the suspension.
unfoldable pub resumed_end : Env → Option ℕ → ℕ → ℕ → Option ℕ
resumed_end env none susp_start susp_end = none
resumed_end env (some end) susp_start susp_end =
    if ltb susp_start end && ltb end susp_end
    then some (env.calendar.plus (shift susp_end (sub_ℕ end susp_start)) (days 1))
    else some (env.calendar.plus (shift end (sub_ℕ susp_end susp_start)) (days 1))

abbrev pub ends_before : Option ℕ → ℕ → Bool
ends_before end d = both_lt end (some d)

-- Stop the line on the day before the suspension, and plan its successor for the day after it.
unfoldable pub stop_and_resume : Env → ℕ → ℕ → Bool → ℕ → Option ℕ → Store → Result (List ℕ × Store)
stop_and_resume env susp_start susp_end auto_renew i end st = do
  stopped ← stop env (i ∷ []) (env.calendar.minus susp_start (days 1)) true false st
  plan_successor env (i ∷ []) (env.calendar.plus susp_end (days 1)) end auto_renew none false
      stopped

-- One round of the loop of `stop_plan_successor`, but for its message.
unfoldable pub suspend : Env → ℕ → ℕ → Bool → ℕ → Line → Store → Result (List ℕ × Store)
suspend env susp_start susp_end auto_renew i rec st =
    if leb susp_start rec.date_start
    then (do
      st' ← delay env (delay_delta rec.date_start susp_start susp_end) i st
      ok (i ∷ [], st'))
    else if ends_before rec.date_end susp_start
    then (do st' ← stop env (i ∷ []) susp_start false false st; ok ([], st'))
    else stop_and_resume env susp_start susp_end auto_renew i
        (resumed_end env rec.date_end susp_start susp_end) st

unfoldable pub suspend_each : Env → ℕ → ℕ → Bool → List ℕ → Store → Result (List ℕ × Store)
suspend_each env susp_start susp_end auto_renew [] st = ok ([], st)
suspend_each env susp_start susp_end auto_renew (i ∷ ids) st = do
  rec ← browse st i
  (new, suspended) ← suspend env susp_start susp_end auto_renew i rec st
  (others, st') ←
      suspend_each env susp_start susp_end auto_renew ids
        (message_post rec.contract_id (line_suspended i susp_start susp_end) suspended)
  ok (new ++ others, st')

unfoldable pub stop_plan_successor : Env → List ℕ → ℕ → ℕ → Bool → Store → Result (List ℕ × Store)
stop_plan_successor env ids susp_start susp_end auto_renew st = do
  require_all env (λ a. a.stop_plan_successor) ids st
  suspend_each env susp_start susp_end auto_renew ids st
