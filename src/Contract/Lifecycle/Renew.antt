-- ===== src/Contract/Lifecycle/Renew.antt =====
-- `renew` and its parts, of local/Contract/models/contract_line.py.
use projectname.Prelude.{
  ℕ, false, Option, none, some, List, [], ◌∷◌, Result, ok, err, type_error, ◌>>=◌, if◌then◌else◌,
}
use projectname.Contract.Calendar.{days}
use projectname.Contract.Line.{Line}
use projectname.Contract.Period.{get_first_date_end, onchange_date_start}
use projectname.Contract.Checks.{Field}
use projectname.Contract.Store.{
  Store, Env, line_renewed, browse, message_post, write_line, find_contract, or_missing,
}
use projectname.Contract.Lifecycle.Stop.{stop}
use projectname.Contract.Lifecycle.Successor.{plan_successor_one}

-- The day after the end of the line; a line with no end has none.
unfoldable pub day_after : Env → Option ℕ → Result ℕ
day_after env none = err type_error
day_after env (some end) = ok (env.calendar.plus end (days 1))

unfoldable pub get_renewal_new_date_end : Env → Line → Result ℕ
unfolding day_after
get_renewal_new_date_end env rec = do
  start ← day_after env rec.date_end
  ok (get_first_date_end env.calendar start rec.auto_renew_rule_type rec.auto_renew_interval)

pub end_of : Option ℕ → Result ℕ
end_of none = err type_error
end_of (some end) = ok end

unfoldable pub renew_create_line : Env → ℕ → ℕ → Store → Result (ℕ × Store)
unfolding end_of day_after
renew_create_line env new_end i st = do
  rec ← browse st i
  start ← day_after env rec.date_end
  end ← end_of rec.date_end
  stopped ← stop env (i ∷ []) end false false st
  (new_line, planned) ←
      plan_successor_one env start (some new_end) rec.is_auto_renew none false i stopped
  new_rec ← browse planned new_line
  st' ←
      write_line env (Field.recurring_next_date ∷ []) (onchange_date_start env.calendar new_rec)
        planned
  ok (new_line, st')

unfoldable pub renew_extend_line : Env → ℕ → ℕ → Store → Result (ℕ × Store)
renew_extend_line env new_end i st = do
  rec ← browse st i
  st' ← write_line env (Field.date_end ∷ []) (record rec { date_end = some new_end }) st
  ok (i, st')

-- One round of the loop of `renew`: the line that renews it, and the store.
unfoldable pub renew_one : Env → ℕ → Store → Result (ℕ × Store)
unfolding day_after
renew_one env i st = do
  rec ← browse st i
  contract ← or_missing (find_contract rec.contract_id st.contracts)
  end ← get_renewal_new_date_end env rec
  start ← day_after env rec.date_end
  (new_line, renewed) ←
      if contract.create_new_line_at_contract_line_renew
      then renew_create_line env end i st
      else renew_extend_line env end i st
  ok (new_line, message_post rec.contract_id (line_renewed i start end) renewed)

unfoldable pub renew : Env → List ℕ → Store → Result (List ℕ × Store)
renew env [] st = ok ([], st)
renew env (i ∷ ids) st = do
  (new_line, renewed) ← renew_one env i st
  (others, st') ← renew env ids renewed
  ok (new_line ∷ others, st')
