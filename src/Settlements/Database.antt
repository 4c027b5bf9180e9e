-- ===== src/Settlements/Database.antt =====
-- The records that settling reads and writes: the agents, their lines on invoices, the settlements
-- and their lines, of local/sale_commission_1/models/res_partner.py, account_move.py and
-- settlement.py. Amounts are left out. A table has no order of its own: the lines of agents are
-- listed in the order in which they are searched, by the date of their invoice.
use projectname.Prelude.{
  ℕ, suc, Bool, true, false, not, ◌&&◌, ◌||◌, Option, none, some, List, [], ◌∷◌, ◌++◌, ◌==◌, Result,
  ok, user_error, raise_if, ◌>>◌, if◌then◌else◌,
}
use projectname.Settlements.Date.{Date, same_date}
use projectname.Settlements.Period.{SettlementPeriod}

-- A partner. `agent` says that it is an agent.
pub record Partner : Type 0 where
  pub id : ℕ
  pub agent : Bool
  pub settlement : SettlementPeriod

-- `payment_based` is `commission_id.invoice_state == "paid"`; the last two are the tests of the
-- invoice's payment and of its state.
pub record AgentLine : Type 0 where
  pub id : ℕ
  pub agent_id : ℕ
  pub company_id : ℕ
  pub invoice_date : Option Date
  pub payment_based : Bool
  pub invoice_paid : Bool
  pub invoice_posted : Bool

pub data SettlementState : Type 0 where
  settled invoiced cancel except_invoice : SettlementState

pub record Settlement : Type 0 where
  pub id : ℕ
  pub agent_id : Option ℕ
  pub company_id : ℕ
  pub date_from : Option Date
  pub date_to : Option Date
  pub state : SettlementState

pub record SettlementLine : Type 0 where
  pub settlement_id : ℕ
  pub agent_line : ℕ

pub record Database : Type 0 where
  pub agent_lines : List AgentLine
  pub settlements : List Settlement
  pub settlement_lines : List SettlementLine
  pub next_id : ℕ

unfoldable pub skip_settlement : AgentLine → Bool
skip_settlement line = line.payment_based && not line.invoice_paid || not line.invoice_posted

abbrev pub is_cancel : SettlementState → Bool
is_cancel cancel = true
is_cancel _ = false

unfoldable pub find_settlement : ℕ → List Settlement → Option Settlement
find_settlement i [] = none
find_settlement i (s ∷ settlements) = if s.id == i then some s else find_settlement i settlements

-- `x.settlement_id.state != "cancel"`, where the state of no record is False
abbrev pub not_cancel : Option Settlement → Bool
not_cancel none = true
not_cancel (some s) = not (is_cancel s.state)

-- `any` over the settlement lines of an agent's line
unfoldable pub any_settled : ℕ → List Settlement → List SettlementLine → Bool
any_settled i settlements [] = false
any_settled i settlements (x ∷ xs) =
    (x.agent_line == i) && not_cancel (find_settlement x.settlement_id settlements)
    || any_settled i settlements xs

unfoldable pub compute_settled : Database → ℕ → Bool
unfolding any_settled
compute_settled db i = any_settled i db.settlements db.settlement_lines

abbrev pub is_id : Option ℕ → ℕ → Bool
is_id none i = false
is_id (some j) i = j == i

abbrev pub is_day : Option Date → Date → Bool
is_day none d = false
is_day (some e) d = same_date e d

abbrev pub is_settled : SettlementState → Bool
is_settled settled = true
is_settled _ = false

-- The domain of `_get_settlement`.
unfoldable pub for_period : ℕ → ℕ → Date → Date → Settlement → Bool
for_period agent company sett_from sett_to s =
    is_id s.agent_id agent
    && is_day s.date_from sett_from
    && is_day s.date_to sett_to
    && (s.company_id == company)
    && is_settled s.state

unfoldable pub get_settlement : ℕ → ℕ → Date → Date → List Settlement → Option Settlement
get_settlement agent company sett_from sett_to [] = none
get_settlement agent company sett_from sett_to (s ∷ settlements) =
    if for_period agent company sett_from sett_to s
    then some s
    else get_settlement agent company sett_from sett_to settlements

-- A settlement of the values of `_prepare_settlement_vals`, in the default state.
unfoldable pub prepare_settlement : ℕ → ℕ → Date → Date → ℕ → Settlement
prepare_settlement agent company sett_from sett_to new = record {
  id = new;
  agent_id = some agent;
  company_id = company;
  date_from = some sett_from;
  date_to = some sett_to;
  state = settled;
}

abbrev pub add_settlement : Settlement → Database → Database
add_settlement s db = record db {
  settlements = db.settlements ++ (s ∷ []);
  next_id = suc db.next_id;
}

abbrev pub add_settlement_line : ℕ → ℕ → Database → Database
add_settlement_line s line db = record db {
  settlement_lines = db.settlement_lines ++ (record { settlement_id = s; agent_line = line } ∷ []);
}

-- A new settlement line, and the constraint `_check_company` on it.
unfoldable pub create_settlement_line : Settlement → AgentLine → Database → Result Database
create_settlement_line s line db = do
  raise_if (not (line.company_id == s.company_id)) user_error
  ok (add_settlement_line s.id line.id db)
