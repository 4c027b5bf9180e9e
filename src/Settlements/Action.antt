-- ===== src/Settlements/Action.antt =====
-- `action_settle` against the loops over each line.
use projectname.Prelude.{
  ℕ, ◌≡◌, refl, sym, ap, ◌∙◌, subst, true, false, Option, none, some, List, [], ◌∷◌, ◌==◌, ==_iff,
  ok, inl, inr, Bool-cases,
}
use projectname.Settlements.Date.{Date, first_of, before, DateArithmetic}
use projectname.Settlements.Period.{get_period_start, InRange}
use projectname.Settlements.Database.{Partner, AgentLine, Settlement, Database, skip_settlement}
use projectname.Settlements.Settle.{
  Run, is_searched, search_lines, of_company, mapped_companies, settle_companies, settle_agent,
  settle_agents, agents_to_settle, start, window, action_settle,
}
use projectname.Settlements.Each.{
  found_or_new, put_at, settled_one, settled_each, Dated, no_more, dated, no_settlement,
}
use projectname.Settlements.Each.Rounds.{Dated-lower, settle_lines-each}

-- A new settlement, or the one found, leaves the lines of agents.
found_or_new-agent_lines :
    (new : Settlement) (db : Database) (o : Option Settlement)
    → (found_or_new new db o).1.agent_lines ≡ db.agent_lines
found_or_new-agent_lines new db none = refl
found_or_new-agent_lines new db (some s) = refl

module _ (dates : DateArithmetic) where
  -- Lines in the order of the dates of their invoices, none before `lower`.
  pub data InDateOrder : Date → List AgentLine → Type 0 where
    no_line : {lower : Date} → InDateOrder lower []
    undated :
        {lower : Date} {line : AgentLine} {lines : List AgentLine}
        → line.invoice_date ≡ none
        → InDateOrder lower lines
        → InDateOrder lower (line ∷ lines)
    at_date :
        {lower : Date} {line : AgentLine} {lines : List AgentLine} (d : Date)
        → line.invoice_date ≡ some d
        → InRange dates d
        → before (first_of 1900 1) d ≡ true
        → before d lower ≡ false
        → InDateOrder d lines
        → InDateOrder lower (line ∷ lines)

  chosen-Dated :
      (db : Database) (agent : ℕ) (date_to : Date) (company : ℕ) (lower : Date)
      (lines : List AgentLine)
      → InDateOrder lower lines
      → Dated dates company lower (of_company company (search_lines db agent date_to lines))
  unfolding search_lines of_company is_searched
  chosen-Dated db agent date_to company lower [] h = no_more
  chosen-Dated db agent date_to company lower (line ∷ lines) (undated e rest) =
      rw e (chosen-Dated db agent date_to company lower lines rest)
  chosen-Dated db agent date_to company lower (line ∷ lines) (at_date d e is_d late le rest) =
      let tail = chosen-Dated db agent date_to company d lines rest in
      let skipped = Dated-lower dates company lower d _ le tail in
      elim (Bool-cases (is_searched db agent date_to line)) [
        | inl s ↦ elim (Bool-cases (line.company_id == company)) [
          | inl c ↦ rw (s, c) (dated d e is_d late le ((==_iff line.company_id company).0 c) tail)
          | inr c ↦ rw (s, c) skipped
        ]
        | inr s ↦ rw s skipped
      ]

  abbrev pub settled_companies : Partner → List AgentLine → List ℕ → Database → Database
  settled_companies agent lines [] db = db
  settled_companies agent lines (company ∷ companies) db =
      settled_companies agent lines companies
        (settled_each dates agent company (of_company company lines) db)

  abbrev pub settled_agent : Date → Partner → Database → Database
  settled_agent date_to agent db =
      let lines =
        search_lines db agent.id (get_period_start agent.settlement date_to) db.agent_lines in
      settled_companies agent lines (mapped_companies lines) db

  abbrev pub settled_agents : Date → List Partner → Database → Database
  settled_agents date_to [] db = db
  settled_agents date_to (agent ∷ agents) db =
      settled_agents date_to agents (settled_agent date_to agent db)

  put_at-agent_lines :
      (agent : Partner) (company : ℕ) (line : AgentLine) (db : Database) (o : Option Date)
      → (put_at dates agent company line db o).agent_lines ≡ db.agent_lines
  put_at-agent_lines agent company line db none = refl
  put_at-agent_lines agent company line db (some d) = found_or_new-agent_lines _ db _

  settled_one-agent_lines :
      (agent : Partner) (company : ℕ) (line : AgentLine) (db : Database)
      → (settled_one dates agent company line db).agent_lines ≡ db.agent_lines
  settled_one-agent_lines agent company line db = elim (Bool-cases (skip_settlement line)) [
    | inl e ↦ rw e refl
    | inr e ↦ rw e (put_at-agent_lines agent company line db line.invoice_date)
  ]

  settled_each-agent_lines :
      (agent : Partner) (company : ℕ) (lines : List AgentLine) (db : Database)
      → (settled_each dates agent company lines db).agent_lines ≡ db.agent_lines
  settled_each-agent_lines agent company [] db = refl
  settled_each-agent_lines agent company (line ∷ lines) db =
      settled_each-agent_lines agent company lines _ ∙ settled_one-agent_lines agent company line db

  settled_companies-agent_lines :
      (agent : Partner) (lines : List AgentLine) (cs : List ℕ) (db : Database)
      → (settled_companies agent lines cs db).agent_lines ≡ db.agent_lines
  settled_companies-agent_lines agent lines [] db = refl
  settled_companies-agent_lines agent lines (c ∷ cs) db =
      settled_companies-agent_lines agent lines cs
        (settled_each dates agent c (of_company c lines) db)
      ∙ settled_each-agent_lines agent c (of_company c lines) db

  pub settled_agent-agent_lines :
      (date_to : Date) (agent : Partner) (db : Database)
      → (settled_agent date_to agent db).agent_lines ≡ db.agent_lines
  settled_agent-agent_lines date_to agent db =
      let lines =
        search_lines db agent.id (get_period_start agent.settlement date_to) db.agent_lines in
      settled_companies-agent_lines agent lines (mapped_companies lines) db

  settle_companies-each :
      (agent : Partner) (lines : List AgentLine) (cs : List ℕ) (run : Run)
      → ((c : ℕ) → Dated dates c (first_of 1900 1) (of_company c lines))
      → (last : Run) × (settle_companies dates agent lines cs run ≡ ok last)
        × (last.db ≡ settled_companies agent lines cs run.db)
  unfolding settle_companies
  settle_companies-each agent lines [] run h = (run, refl, refl)
  settle_companies-each agent lines (c ∷ cs) run h =
      let (one, runs, db) =
        settle_lines-each dates agent c (first_of 1900 1) (of_company c lines)
          (record run { sett_to = first_of 1900 1 }) (h c) (no_settlement refl) in
      let (last, others, db') = settle_companies-each agent lines cs one h in
      (last, (rw runs others), db' ∙ ap (settled_companies agent lines cs) db)

  settle_agents-each :
      (date_to : Date) (agents : List Partner) (run : Run)
      → InDateOrder (first_of 1900 1) run.db.agent_lines
      → (last : Run) × (settle_agents dates date_to agents run ≡ ok last)
        × (last.db ≡ settled_agents date_to agents run.db)
  unfolding settle_agents settle_agent
  settle_agents-each date_to [] run h = (run, refl, refl)
  settle_agents-each date_to (agent ∷ agents) run h =
      let until = get_period_start agent.settlement date_to in
      let lines = search_lines run.db agent.id until run.db.agent_lines in
      let (one, runs, db) =
        settle_companies-each agent lines (mapped_companies lines) run
          (λ c. chosen-Dated run.db agent.id until c (first_of 1900 1) run.db.agent_lines h) in
      let same = ap (λ b. b.agent_lines) db ∙ settled_agent-agent_lines date_to agent run.db in
      let (last, others, db') =
        settle_agents-each date_to agents one
          (subst (InDateOrder (first_of 1900 1)) (sym same) h) in
      (last, (rw runs others), db' ∙ ap (settled_agents date_to agents) db)

  -- Where the lines of agents are in the order of their dates, all after the first day of 1900 and
  -- before the year 9999, the wizard raises nothing, and it leaves the database that is left by
  -- looking for the settlement of each line.
  pub action_settle-each :
      (date_to : Date) (agent_ids partners : List Partner) (db : Database)
      → InDateOrder (first_of 1900 1) db.agent_lines
      → (ids : List ℕ) × (action_settle dates date_to agent_ids partners db
          ≡ ok (window ids, settled_agents date_to (agents_to_settle agent_ids partners) db))
  unfolding action_settle
  action_settle-each date_to agent_ids partners db h =
      let (last, runs, e) =
        settle_agents-each date_to (agents_to_settle agent_ids partners) (start db) h in
      (last.settlement_ids, (rw (runs, e) refl))
