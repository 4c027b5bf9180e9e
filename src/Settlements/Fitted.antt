-- ===== src/Settlements/Fitted.antt =====
-- Which lines the wizard puts into a settlement.
use projectname.Prelude.{
  refl, ℕ, ◌≤◌, ◌≡◌, sym, subst, ◌∙◌, true, false, some, List, [], ◌∷◌, ◌==◌, ==_iff, arith, ok,
  inl, inr, Bool-cases,
}
use projectname.Settlements.Date.{Date, first_of, DateArithmetic}
use projectname.Settlements.Period.{get_period_start}
use projectname.Settlements.Database.{Partner, AgentLine, Database}
use projectname.Settlements.Settle.{
  is_searched, search_lines, of_company, mapped_companies, agents_to_settle, window, action_settle,
}
use projectname.Settlements.Each.{settled_one, settled_each}
use projectname.Settlements.Action.{
  InDateOrder, undated, at_date, settled_companies, settled_agent, settled_agents,
  action_settle-each,
}
use projectname.Settlements.Numbered.{Numbered}
use projectname.Settlements.Added.{settled_one-Adds, settled_each-Adds}
use projectname.Settlements.Due.{id_count}
use projectname.Settlements.Once.{settled_agent-once}
use projectname.Settlements.Fitting.{find_agent_line, all_fit, Chosen, Fits, settled_one-Fits}

-- The lines are found in the table by their ids.
data Found (table : List AgentLine) : List AgentLine → Type 0 where
  found_none : Found table []
  found_line :
      {line : AgentLine} {lines : List AgentLine}
      → find_agent_line line.id table ≡ some line
      → Found table lines
      → Found table (line ∷ lines)

Found-later :
    (first : AgentLine) (table lines : List AgentLine)
    → id_count first.id lines ≡ 0
    → Found table lines
    → Found (first ∷ table) lines
unfolding find_agent_line
Found-later first table [] h f = found_none
Found-later first table (line ∷ lines) h (found_line e rest) =
    let other : (first.id == line.id) ≡ false = ground arith in
    found_line (rw other e) (Found-later first table lines (ground arith) rest)

Found-all : (table : List AgentLine) → ((i : ℕ) → id_count i table ≤ 1) → Found table table
unfolding find_agent_line
Found-all [] h = found_none
Found-all (line ∷ lines) h =
    let same = (==_iff line.id line.id).1 refl in
    let one = h line.id in
    found_line (rw same refl) (
      Found-later line lines lines (ground arith)
        (Found-all lines (λ i. let le = h i in omega arith)))

module _ (dates : DateArithmetic) (table : List AgentLine) where
  data AllChosen (agent : Partner) (company : ℕ) : List AgentLine → Type 0 where
    no_more : AllChosen agent company []
    chosen :
        {line : AgentLine} {lines : List AgentLine}
        → Chosen dates table agent company line
        → AllChosen agent company lines
        → AllChosen agent company (line ∷ lines)

  search_lines-AllChosen :
      (db : Database) (agent : Partner) (until : Date) (company : ℕ) (lower : Date)
      (lines : List AgentLine)
      → InDateOrder dates lower lines
      → Found table lines
      → AllChosen agent company (of_company company (search_lines db agent.id until lines))
  unfolding search_lines of_company is_searched
  search_lines-AllChosen db agent until company lower [] h f = no_more
  search_lines-AllChosen db agent until company lower (line ∷ lines) (undated e rest)
        (found_line i f) =
      rw e (search_lines-AllChosen db agent until company lower lines rest f)
  search_lines-AllChosen db agent until company lower (line ∷ lines) (at_date d e is_d late le rest)
        (found_line i f) =
      let tail = search_lines-AllChosen db agent until company d lines rest f in
      elim (Bool-cases (is_searched db agent.id until line)) [
        | inl s ↦ elim (Bool-cases (line.company_id == company)) [
          | inl c ↦
              let same : (line.agent_id == agent.id) ≡ true = ground arith in
              let one : Chosen dates table agent company line = record {
                listed = i;
                is_agent = (==_iff line.agent_id agent.id).0 same;
                is_company = (==_iff line.company_id company).0 c;
                day = d;
                is_day = e;
                in_range = is_d;
              } in
              rw (s, c) (chosen one tail)
          | inr c ↦ rw (s, c) tail
        ]
        | inr s ↦ rw s tail
      ]

  settled_each-Fits :
      (agent : Partner) (company : ℕ) (lines : List AgentLine) (db : Database)
      → Numbered db
      → AllChosen agent company lines
      → Fits dates table db
      → Fits dates table (settled_each dates agent company lines db)
  settled_each-Fits agent company [] db n c h = h
  settled_each-Fits agent company (line ∷ lines) db n (chosen one rest) h =
      settled_each-Fits agent company lines (settled_one dates agent company line db)
        (settled_one-Adds dates agent company line db n).numbered rest
        (settled_one-Fits dates table agent company line db n one h)

  settled_companies-Fits :
      (agent : Partner) (lines : List AgentLine) (cs : List ℕ) (db : Database)
      → Numbered db
      → ((c : ℕ) → AllChosen agent c (of_company c lines))
      → Fits dates table db
      → Fits dates table (settled_companies dates agent lines cs db)
  settled_companies-Fits agent lines [] db n all h = h
  settled_companies-Fits agent lines (c ∷ cs) db n all h =
      settled_companies-Fits agent lines cs (settled_each dates agent c (of_company c lines) db)
        (settled_each-Adds dates agent c (of_company c lines) db n).numbered all
        (settled_each-Fits agent c (of_company c lines) db n (all c) h)

  settled_agents-Fits :
      (date_to : Date) (agents : List Partner) (db : Database)
      → InDateOrder dates (first_of 1900 1) table
      → ((i : ℕ) → id_count i table ≤ 1)
      → db.agent_lines ≡ table
      → Numbered db
      → Fits dates table db
      → Fits dates table (settled_agents dates date_to agents db)
  settled_agents-Fits date_to [] db order unique same n h = h
  settled_agents-Fits date_to (agent ∷ agents) db order unique same n h =
      let until = get_period_start agent.settlement date_to in
      let lines = search_lines db agent.id until db.agent_lines in
      let all : (c : ℕ) → AllChosen agent c (of_company c lines) = λ c.
        subst (λ t. AllChosen agent c (of_company c (search_lines db agent.id until t))) (sym same)
          (search_lines-AllChosen db agent until c (first_of 1900 1) table order
            (Found-all table unique)) in
      let one =
        settled_agent-once dates date_to agent db n
          (λ i. subst (λ ls. id_count i ls ≤ 1) (sym same) (unique i)) in
      settled_agents-Fits date_to agents (settled_agent dates date_to agent db) order unique
        (one.agent_lines ∙ same) one.numbered
        (settled_companies-Fits agent lines (mapped_companies lines) db n all h)

module _ (dates : DateArithmetic) where
  -- If the lines of agents have ids of their own and are in the order of their dates, the
  -- settlements have ids of their own, and each settlement line leads to a settlement of the agent
  -- and the company of its agent's line, with the date of that line between its first and its last
  -- day, then the wizard raises nothing, and this holds of the settlement lines that it leaves.
  pub action_settle-Fits :
      (date_to : Date) (agent_ids partners : List Partner) (db : Database)
      → InDateOrder dates (first_of 1900 1) db.agent_lines
      → ((i : ℕ) → id_count i db.agent_lines ≤ 1)
      → Numbered db
      → all_fit db.agent_lines db.settlements db.settlement_lines ≡ true
      → (ids : List ℕ) × (db' : Database) × (action_settle dates date_to agent_ids partners db
          ≡ ok (window ids, db'))
        × (all_fit db.agent_lines db'.settlements db'.settlement_lines ≡ true)
  action_settle-Fits date_to agent_ids partners db order unique n h =
      let agents = agents_to_settle agent_ids partners in
      let (ids, runs) = action_settle-each dates date_to agent_ids partners db order in
      (
        ids,
        settled_agents dates date_to agents db,
        runs,
        settled_agents-Fits dates db.agent_lines date_to agents db order unique refl n h,
      )
