-- ===== src/Settlements/Each.antt =====
-- The loop over the lines of a company, which looks for a settlement only where a period starts,
-- against a loop that looks for the settlement of each line.
pub mod Opened
pub mod Rounds
use projectname.Prelude.{
  ℕ, ◌≡◌, refl, sym, ap, subst, ◌∙◌, Bool, true, false, not, ◌&&◌, Option, none, some, List, [],
  ◌∷◌, ◌++◌, ◌==◌, ==_iff, ok, ◌>>=◌, arith, if◌then◌else◌, inl, inr, Bool-cases, Option-cases,
  and_parts, some_inj,
}
use projectname.Settlements.Date.{Date, first_of, before, same_date, DateArithmetic}
use projectname.Settlements.Period.{
  SettlementPeriod, get_period_start, get_next_period_date, get_period_end, InRange,
}
use projectname.Settlements.Period.Same.{InPeriod, get_period_start-InPeriod}
use projectname.Settlements.Database.{
  Partner, AgentLine, Settlement, Database, skip_settlement, for_period, get_settlement,
  prepare_settlement, add_settlement, add_settlement_line, create_settlement_line,
}
use projectname.Settlements.Settle.{
  Run, with_settlement, open_settlement, settle_in, settle_line, settle_lines,
}

abbrev pub found_or_new : Settlement → Database → Option Settlement → Settlement × Database
found_or_new new db none = (new, add_settlement new db)
found_or_new new db (some s) = (s, db)

abbrev pub put_in : AgentLine → Settlement × Database → Database
put_in line (s, db) = add_settlement_line s.id line.id db

module _ (dates : DateArithmetic) where
  -- The settlement of a line's period, and the database with it.
  abbrev pub settlement_for : Partner → ℕ → Date → Database → Settlement × Database
  settlement_for agent company invoice_date db =
      let sett_from = get_period_start agent.settlement invoice_date in
      let sett_to = get_period_end dates agent.settlement invoice_date in
      found_or_new (prepare_settlement agent.id company sett_from sett_to db.next_id) db
        (get_settlement agent.id company sett_from sett_to db.settlements)

  abbrev pub put_at : Partner → ℕ → AgentLine → Database → Option Date → Database
  put_at agent company line db none = db
  put_at agent company line db (some d) = put_in line (settlement_for agent company d db)

  -- A line in the settlement of its period.
  abbrev pub settled_one : Partner → ℕ → AgentLine → Database → Database
  settled_one agent company line db =
      if skip_settlement line then db else put_at agent company line db line.invoice_date

  abbrev pub settled_each : Partner → ℕ → List AgentLine → Database → Database
  settled_each agent company [] db = db
  settled_each agent company (line ∷ lines) db =
      settled_each agent company lines (settled_one agent company line db)

  -- Lines of a company in the order of their dates, none before `lower`. The loop starts from the
  -- first day of 1900, and Python's dates end with the year 9999.
  pub data Dated (company : ℕ) : Date → List AgentLine → Type 0 where
    no_more : {lower : Date} → Dated company lower []
    dated :
        {lower : Date} {line : AgentLine} {lines : List AgentLine} (d : Date)
        → line.invoice_date ≡ some d
        → InRange dates d
        → before (first_of 1900 1) d ≡ true
        → before d lower ≡ false
        → line.company_id ≡ company
        → Dated company d lines
        → Dated company lower (line ∷ lines)

  -- What the variables of the loop hold: no settlement yet, or that of the period of `lower`.
  pub data Cached (agent : Partner) (company : ℕ) (run : Run) (lower : Date) : Type 0 where
    no_settlement : run.sett_to ≡ first_of 1900 1 → Cached agent company run lower
    in_period :
        (s : Settlement)
        → InRange dates lower
        → run.sett_to ≡ get_period_end dates agent.settlement lower
        → run.settlement ≡ some s
        → get_settlement agent.id company
            (get_period_start agent.settlement lower)
            (get_period_end dates agent.settlement lower)
            run.db.settlements
          ≡ some s
        → Cached agent company run lower
