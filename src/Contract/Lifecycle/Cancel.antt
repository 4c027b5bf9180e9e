-- ===== src/Contract/Lifecycle/Cancel.antt =====
-- `cancel`, `uncancel` and `unlink` of local/Contract/models/contract_line.py.
use projectname.Prelude.{
  ℕ, Bool, true, false, not, ◌||◌, Option, none, some, List, [], ◌∷◌, Result, Check, ok,
  validation_error, assertion_error, raise_if, ◌>>=◌, ◌>>◌, ◌==◌, if◌then◌else◌, is_set,
}
use projectname.Contract.Line.{Line}
use projectname.Contract.Criteria.{Allowed}
use projectname.Contract.Checks.{Field}
use projectname.Contract.Store.{
  Store, Env, Message, lines_canceled, lines_uncanceled, browse, linked, message_post, write_line,
  allowed_for,
}

-- `if not all(self.mapped(field)): raise ValidationError`
unfoldable pub require_all : Env → (Allowed → Bool) → List ℕ → Store → Check
require_all env field [] st = ok tt
require_all env field (i ∷ ids) st = do
  rec ← browse st i
  raise_if (not (field (allowed_for env st rec))) validation_error
  require_all env field ids st

-- The contract of each line.
unfoldable pub contracts_of : List ℕ → Store → Result (List (ℕ × ℕ))
contracts_of [] st = ok []
contracts_of (i ∷ ids) st = do
  rec ← browse st i
  rest ← contracts_of ids st
  ok ((rec.contract_id, i) ∷ rest)

unfoldable pub lines_in : ℕ → List (ℕ × ℕ) → List ℕ
lines_in c [] = []
lines_in c ((d, i) ∷ rest) = if d == c then i ∷ lines_in c rest else lines_in c rest

unfoldable pub is_in : ℕ → List ℕ → Bool
is_in c [] = false
is_in c (d ∷ ds) = (c == d) || is_in c ds

-- One message for each contract, with all its lines among those given; `seen` are the contracts
-- that have theirs.
unfoldable pub post_by_contract :
    (List ℕ → Message) → List ℕ → List (ℕ × ℕ) → List (ℕ × ℕ) → Store → Store
unfolding lines_in is_in
post_by_contract message seen all [] st = st
post_by_contract message seen all ((c, i) ∷ rest) st =
    post_by_contract message (c ∷ seen) all rest
      (if is_in c seen then st else message_post c (message (lines_in c all)) st)

unfoldable pub unlink_from : Env → Option Line → Store → Result Store
unlink_from env none st = ok st
unlink_from env (some predecessor) st =
    write_line env (Field.successor_contract_line_id ∷ [])
      (record predecessor { successor_contract_line_id = none }) st

-- `self.mapped('predecessor_contract_line_id').write({'successor_contract_line_id': False})`
unfoldable pub unlink_predecessors : Env → List ℕ → Store → Result Store
unfolding unlink_from
unlink_predecessors env [] st = ok st
unlink_predecessors env (i ∷ ids) st = do
  rec ← browse st i
  st' ← unlink_from env (linked st.lines rec.predecessor_contract_line_id) st
  unlink_predecessors env ids st'

-- `self.write({'is_canceled': True, 'is_auto_renew': False})`
unfoldable pub mark_canceled : Env → List ℕ → Store → Result Store
mark_canceled env [] st = ok st
mark_canceled env (i ∷ ids) st = do
  rec ← browse st i
  st' ←
      write_line env (Field.is_canceled ∷ Field.is_auto_renew ∷ [])
        (record rec { is_canceled = true; is_auto_renew = false }) st
  mark_canceled env ids st'

unfoldable pub cancel : Env → List ℕ → Store → Result Store
unfolding contracts_of post_by_contract
cancel env ids st = do
  require_all env (λ a. a.cancel) ids st
  all ← contracts_of ids st
  st' ← unlink_predecessors env ids (post_by_contract lines_canceled [] all all st)
  mark_canceled env ids st'

unfoldable pub relink_to : Env → ℕ → Option ℕ → Store → Result Store
relink_to env i none st = ok st
relink_to env i (some p) st = do
  predecessor ← browse st p
  raise_if (is_set predecessor.successor_contract_line_id) assertion_error
  write_line env (Field.successor_contract_line_id ∷ [])
      (record predecessor { successor_contract_line_id = some i }) st

-- One round of the loop of `uncancel`.
unfoldable pub uncancel_one : Env → Option ℕ → ℕ → Store → Result Store
unfolding relink_to
uncancel_one env next_date i st = do
  rec ← browse st i
  relinked ← relink_to env i rec.predecessor_contract_line_id st
  rec' ← browse relinked i
  restored ← write_line env (Field.is_canceled ∷ []) (record rec' { is_canceled = false }) relinked
  restored_rec ← browse restored i
  write_line env (Field.recurring_next_date ∷ [])
      (record restored_rec { recurring_next_date = next_date }) restored

unfoldable pub uncancel_each : Env → Option ℕ → List ℕ → Store → Result Store
uncancel_each env next_date [] st = ok st
uncancel_each env next_date (i ∷ ids) st = do
  st' ← uncancel_one env next_date i st
  uncancel_each env next_date ids st'

unfoldable pub uncancel : Env → List ℕ → Option ℕ → Store → Result Store
unfolding contracts_of post_by_contract
uncancel env ids next_date st = do
  require_all env (λ a. a.uncancel) ids st
  all ← contracts_of ids st
  uncancel_each env next_date ids (post_by_contract lines_uncanceled [] all all st)

-- The test of `unlink`; the deletion itself is Odoo's.
unfoldable pub check_unlink : List ℕ → Store → Check
check_unlink [] st = ok tt
check_unlink (i ∷ ids) st = do
  rec ← browse st i
  raise_if (not (rec.is_canceled || is_set rec.display_type)) validation_error
  check_unlink ids st
