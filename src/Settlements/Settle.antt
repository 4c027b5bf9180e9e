-- ===== src/Settlements/Settle.antt =====
-- `action_settle` of local/sale_commission_1/wizard/wizard_settle.py. The variables that outlive a
-- round of its loops are a record. `settlement` is not bound before the first settlement, and it
-- keeps its value from one company or agent to the next.
use projectname.Prelude.{
  ℕ, Bool, false, not, ◌&&◌, Option, none, some, List, [], ◌∷◌, ◌++◌, ◌==◌, Result, ok, err,
  type_error, name_error, ◌>>=◌, if◌then◌else◌,
}
use projectname.Settlements.Date.{Date, first_of, before, DateArithmetic}
use projectname.Settlements.Period.{get_period_start, get_period_end}
use projectname.Settlements.Database.{
  Partner, AgentLine, Settlement, Database, skip_settlement, compute_settled, get_settlement,
  prepare_settlement, add_settlement, create_settlement_line,
}

pub record Run : Type 0 where
  pub db : Database
  pub sett_to : Date
  pub settlement : Option Settlement
  pub settlement_ids : List ℕ

-- A date that is compared, and a variable that is read.
abbrev pub or_type_error {ℓ} : {A : Type ℓ} → Option A → Result A
or_type_error none = err type_error
or_type_error (some a) = ok a

abbrev pub or_name_error {ℓ} : {A : Type ℓ} → Option A → Result A
or_name_error none = err name_error
or_name_error (some a) = ok a

-- The conditions on a line in the search of an agent.
abbrev pub is_before : Option Date → Date → Bool
is_before none date_to = false
is_before (some d) date_to = before d date_to

unfoldable pub is_searched : Database → ℕ → Date → AgentLine → Bool
is_searched db agent date_to line =
    is_before line.invoice_date date_to
    && (line.agent_id == agent)
    && not (compute_settled db line.id)

unfoldable pub search_lines : Database → ℕ → Date → List AgentLine → List AgentLine
search_lines db agent date_to [] = []
search_lines db agent date_to (line ∷ lines) =
    let rest = search_lines db agent date_to lines in
    if is_searched db agent date_to line then line ∷ rest else rest

unfoldable pub of_company : ℕ → List AgentLine → List AgentLine
of_company company [] = []
of_company company (line ∷ lines) =
    let rest = of_company company lines in if line.company_id == company then line ∷ rest else rest

unfoldable pub without : ℕ → List ℕ → List ℕ
without i [] = []
without i (j ∷ js) = let rest = without i js in if j == i then rest else j ∷ rest

-- `agent_lines.mapped("company_id")`: each company once, in the order of the lines.
unfoldable pub mapped_companies : List AgentLine → List ℕ
unfolding without
mapped_companies [] = []
mapped_companies (line ∷ lines) = line.company_id ∷ without line.company_id (mapped_companies lines)

-- The settlement that is searched, or else the new one.
abbrev pub with_settlement : Settlement → Date → Run → Option Settlement → Run
with_settlement new sett_to run none = record run {
  db = add_settlement new run.db;
  sett_to = sett_to;
  settlement = some new;
  settlement_ids = run.settlement_ids ++ (new.id ∷ []);
}
with_settlement new sett_to run (some s) = record run {
  sett_to = sett_to;
  settlement = some s;
  settlement_ids = run.settlement_ids ++ (s.id ∷ []);
}

unfoldable pub settle_in : AgentLine → Run → Result Run
settle_in line run = do
  settlement ← or_name_error run.settlement
  db ← create_settlement_line settlement line run.db
  ok (record run { db = db })

unfoldable pub search_agents : List Partner → List Partner
search_agents [] = []
search_agents (p ∷ partners) =
    let rest = search_agents partners in if p.agent then p ∷ rest else rest

-- `self.agent_ids`, or all agents
unfoldable pub agents_to_settle : List Partner → List Partner → List Partner
agents_to_settle [] partners = search_agents partners
agents_to_settle (p ∷ agent_ids) partners = p ∷ agent_ids

abbrev pub start : Database → Run
start db = record { db = db; sett_to = first_of 1900 1; settlement = none; settlement_ids = [] }

-- The ids of the window that is opened, if any, and what the database becomes.
abbrev pub window : List ℕ → Option (List ℕ)
window [] = none
window (i ∷ ids) = some (i ∷ ids)

module _ (dates : DateArithmetic) where
  -- The settlement of a period, found or made.
  unfoldable pub open_settlement : Partner → ℕ → Date → Run → Run
  open_settlement agent company invoice_date run =
      let sett_from = get_period_start agent.settlement invoice_date in
      let sett_to = get_period_end dates agent.settlement invoice_date in
      with_settlement (prepare_settlement agent.id company sett_from sett_to run.db.next_id) sett_to
        run (get_settlement agent.id company sett_from sett_to run.db.settlements)

  -- One round of the `while` loop.
  unfoldable pub settle_line : Partner → ℕ → AgentLine → Run → Result Run
  unfolding open_settlement settle_in
  settle_line agent company line run = if skip_settlement line then ok run else do
    invoice_date ← or_type_error line.invoice_date
    settle_in line (
        if before run.sett_to invoice_date
        then open_settlement agent company invoice_date run
        else run)

  unfoldable pub settle_lines : Partner → ℕ → List AgentLine → Run → Result Run
  settle_lines agent company [] run = ok run
  settle_lines agent company (line ∷ lines) run = do
    run' ← settle_line agent company line run
    settle_lines agent company lines run'

  -- The loop over the companies of the lines found.
  unfoldable pub settle_companies : Partner → List AgentLine → List ℕ → Run → Result Run
  settle_companies agent lines [] run = ok run
  settle_companies agent lines (company ∷ companies) run = do
    run' ←
        settle_lines agent company (of_company company lines)
          (record run { sett_to = first_of 1900 1 })
    settle_companies agent lines companies run'

  unfoldable pub settle_agent : Date → Partner → Run → Result Run
  settle_agent date_to agent run =
      let lines =
        search_lines run.db agent.id (get_period_start agent.settlement date_to)
          run.db.agent_lines in
      settle_companies agent lines (mapped_companies lines) run

  unfoldable pub settle_agents : Date → List Partner → Run → Result Run
  settle_agents date_to [] run = ok run
  settle_agents date_to (agent ∷ agents) run = do
    run' ← settle_agent date_to agent run
    settle_agents date_to agents run'

  unfoldable pub action_settle :
      Date → List Partner → List Partner → Database → Result (Option (List ℕ) × Database)
  unfolding agents_to_settle
  action_settle date_to agent_ids partners db = do
    run ← settle_agents date_to (agents_to_settle agent_ids partners) (start db)
    ok (window run.settlement_ids, run.db)
