-- ===== src/Settlements/States.antt =====
-- The states of settlements: `action_cancel`, `unlink`, `_prepare_invoice` and `make_invoices` of
-- local/sale_commission_1/models/settlement.py, `button_create` of
-- local/sale_commission_1/wizard/wizard_invoice.py and `button_cancel` of
-- local/sale_commission_1/models/account_move.py. Of an invoice, only its settlement is kept: its
-- journal, product and amount are values of Odoo. A deleted settlement takes its lines with it, and
-- its invoices lose it.
use projectname.Prelude.{
  ℕ, suc, Bool, true, false, not, ◌&&◌, ◌||◌, Option, none, some, List, [], ◌∷◌, ◌++◌, ◌==◌, is_set,
  Result, ok, Check, user_error, attribute_error, raise_if, or_missing, ◌>>=◌, ◌>>◌, if◌then◌else◌,
}
use projectname.Settlements.Database.{
  Settlement, SettlementLine, SettlementState, invoiced, cancel, except_invoice, Database,
  find_settlement, is_settled,
}

pub record Move : Type 0 where
  pub id : ℕ
  pub settlement_id : Option ℕ

pub record Books : Type 0 where
  pub db : Database
  pub moves : List Move
  pub next_move : ℕ

abbrev pub is_one_of : ℕ → List ℕ → Bool
is_one_of i [] = false
is_one_of i (j ∷ js) = (i == j) || is_one_of i js

abbrev pub is_invoiced : SettlementState → Bool
is_invoiced invoiced = true
is_invoiced _ = false

-- `any(bad(x.state) for x in self)`
unfoldable pub any_state : (SettlementState → Bool) → List ℕ → List Settlement → Result Bool
any_state bad [] ss = ok false
any_state bad (i ∷ is) ss = do
  s ← or_missing (find_settlement i ss)
  if bad s.state then ok true else any_state bad is ss

abbrev pub in_state : SettlementState → Settlement → Settlement
in_state state s = record s { state = state }

-- `self.write({"state": state})`
unfoldable pub write_state : SettlementState → List ℕ → List Settlement → List Settlement
write_state state ids [] = []
write_state state ids (s ∷ ss) =
    (if is_one_of s.id ids then in_state state s else s) ∷ write_state state ids ss

abbrev pub put_state : SettlementState → List ℕ → Books → Books
put_state state ids b = record b {
  db = record b.db { settlements = write_state state ids b.db.settlements };
}

unfoldable pub action_cancel : List ℕ → Books → Result Books
action_cancel ids b = do
  refused ← any_state (λ state. not (is_settled state)) ids b.db.settlements
  raise_if refused user_error
  ok (put_state cancel ids b)

unfoldable pub delete_settlements : List ℕ → List Settlement → List Settlement
delete_settlements ids [] = []
delete_settlements ids (s ∷ ss) =
    let rest = delete_settlements ids ss in if is_one_of s.id ids then rest else s ∷ rest

unfoldable pub delete_lines : List ℕ → List SettlementLine → List SettlementLine
delete_lines ids [] = []
delete_lines ids (x ∷ xs) =
    let rest = delete_lines ids xs in if is_one_of x.settlement_id ids then rest else x ∷ rest

abbrev pub refers_to : List ℕ → Option ℕ → Bool
refers_to ids none = false
refers_to ids (some s) = is_one_of s ids

unfoldable pub forget_settlements : List ℕ → List Move → List Move
forget_settlements ids [] = []
forget_settlements ids (m ∷ ms) =
    (if refers_to ids m.settlement_id then record m { settlement_id = none } else m)
    ∷ forget_settlements ids ms

unfoldable pub unlink : List ℕ → Books → Result Books
unlink ids b = do
  refused ← any_state is_invoiced ids b.db.settlements
  raise_if refused user_error
  ok (record b {
    db = record b.db {
      settlements = delete_settlements ids b.db.settlements;
      settlement_lines = delete_lines ids b.db.settlement_lines;
    };
    moves = forget_settlements ids b.moves;
  })

-- The days of the period are formatted; False has no `strftime`.
unfoldable pub prepare_invoice : Settlement → Check
prepare_invoice s = raise_if (not (is_set s.date_from && is_set s.date_to)) attribute_error

unfoldable pub prepare_invoices : List ℕ → List Settlement → Check
prepare_invoices [] ss = ok tt
prepare_invoices (i ∷ is) ss = do
  s ← or_missing (find_settlement i ss)
  prepare_invoice s >> prepare_invoices is ss

-- `create(invoice_vals_list)`
unfoldable pub create_moves : List ℕ → Books → Books
create_moves [] b = b
create_moves (i ∷ is) b = create_moves is (record b {
  moves = b.moves ++ (record { id = b.next_move; settlement_id = some i } ∷ []);
  next_move = suc b.next_move;
})

unfoldable pub make_invoices : List ℕ → Books → Result Books
make_invoices ids b = do
  prepare_invoices ids b.db.settlements
  ok (put_state invoiced ids (create_moves ids b))

-- The search of the wizard, for the company of its journal. `agent` is the only type of agents, and
-- a settlement of no agent has no type.
unfoldable pub search_settled : ℕ → List Settlement → List ℕ
search_settled company [] = []
search_settled company (s ∷ ss) =
    let rest = search_settled company ss in
    if is_settled s.state && is_set s.agent_id && (s.company_id == company)
    then s.id ∷ rest
    else rest

unfoldable pub button_create : ℕ → List ℕ → Books → Result Books
button_create company [] b = make_invoices (search_settled company b.db.settlements) b
button_create company (i ∷ is) b = make_invoices (i ∷ is) b

abbrev pub with_id : Option ℕ → List ℕ → List ℕ
with_id none rest = rest
with_id (some s) rest = s ∷ rest

-- `self.settlement_id`
unfoldable pub settlement_ids : List Move → List ℕ → List ℕ
settlement_ids [] ids = []
settlement_ids (m ∷ ms) ids =
    let rest = settlement_ids ms ids in
    if is_one_of m.id ids then with_id m.settlement_id rest else rest

-- The settlements of invoices that are canceled.
unfoldable pub button_cancel : List ℕ → Books → Books
button_cancel ids b = put_state except_invoice (settlement_ids b.moves ids) b
