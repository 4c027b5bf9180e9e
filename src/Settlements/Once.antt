-- ===== src/Settlements/Once.antt =====
-- How often the wizard settles a line of an agent.
use projectname.Prelude.{
  refl, ℕ, ◌+◌, ◌≤◌, ◌≡◌, sym, ap, subst, ◌∙◌, Bool, ◌&&◌, ◌||◌, List, [], ◌∷◌, ◌==◌, arith, ok,
  if◌then◌else◌,
}
use projectname.Settlements.Date.{Date, first_of, DateArithmetic}
use projectname.Settlements.Period.{get_period_start}
use projectname.Settlements.Database.{Partner, AgentLine, Database}
use projectname.Settlements.Settle.{
  search_lines, of_company, mapped_companies, agents_to_settle, window, action_settle,
}
use projectname.Settlements.Each.{settled_each}
use projectname.Settlements.Action.{
  InDateOrder, settled_companies, settled_agent, settled_agents, settled_agent-agent_lines,
  action_settle-each,
}
use projectname.Settlements.Numbered.{settlement_count, Numbered}
use projectname.Settlements.Added.{Kept, Adds, settled_each-Adds}
use projectname.Settlements.Companies.{put_companies, put_companies-mapped}
use projectname.Settlements.Due.{
  due_line, due_to_some, id_count, due_count-due_line, search_lines-count,
}

-- A line that was in no settlement is in one if it is due.
abbrev pub once : ℕ → Bool → ℕ
once n due = if (n == 0) && due then 1 else n

once_twice : (n : ℕ) (a b : Bool) → once (once n a) b ≡ once n (a || b)
once_twice n a b = ground arith

-- What settling changes: the lines that are due are in one settlement if they were in none.
pub record SettledOnce (due : ℕ → Bool) (before after : Database) : Type 0 where
  pub numbered : Numbered after
  pub count : (i : ℕ) → settlement_count after i ≡ once (settlement_count before i) (due i)
  pub kept : Kept before.settlements after.settlements
  pub agent_lines : after.agent_lines ≡ before.agent_lines

module _ (dates : DateArithmetic) where
  settled_companies-Adds :
      (agent : Partner) (lines : List AgentLine) (cs : List ℕ) (db : Database)
      → Numbered db
      → Adds db (λ i. put_companies i lines cs) (settled_companies dates agent lines cs db)
  settled_companies-Adds agent lines [] db n = record {
    numbered = n;
    count = λ i. omega arith;
    kept = λ i s h. h;
  }
  settled_companies-Adds agent lines (c ∷ cs) db n =
      let one = settled_each-Adds dates agent c (of_company c lines) db n in
      let rest =
        settled_companies-Adds agent lines cs (settled_each dates agent c (of_company c lines) db)
          one.numbered in
      record {
        numbered = rest.numbered;
        count = λ i. let x = one.count i in let y = rest.count i in omega arith;
        kept = λ i s h. rest.kept i s (one.kept i s h);
      }

  pub settled_agent-once :
      (date_to : Date) (agent : Partner) (db : Database)
      → Numbered db
      → ((i : ℕ) → id_count i db.agent_lines ≤ 1)
      → SettledOnce
          (λ i. due_line date_to agent i db.agent_lines)
          db
          (settled_agent dates date_to agent db)
  settled_agent-once date_to agent db n unique =
      let lines =
        search_lines db agent.id (get_period_start agent.settlement date_to) db.agent_lines in
      let adds = settled_companies-Adds agent lines (mapped_companies lines) db n in
      record {
        numbered = adds.numbered;
        kept = adds.kept;
        agent_lines = settled_agent-agent_lines dates date_to agent db;
        count = λ i.
            adds.count i
            ∙ ap (λ m. settlement_count db i + m)
                (put_companies-mapped i lines
                  ∙ search_lines-count db date_to agent i db.agent_lines)
            ∙ rw (due_count-due_line date_to agent i db.agent_lines (unique i)) (ground arith);
      }

  pub settled_agents-once :
      (date_to : Date) (agents : List Partner) (db : Database)
      → Numbered db
      → ((i : ℕ) → id_count i db.agent_lines ≤ 1)
      → SettledOnce
          (λ i. due_to_some date_to agents i db.agent_lines)
          db
          (settled_agents dates date_to agents db)
  settled_agents-once date_to [] db n unique = record {
    numbered = n;
    kept = λ i s h. h;
    agent_lines = refl;
    count = λ i. ground arith;
  }
  settled_agents-once date_to (agent ∷ agents) db n unique =
      let one = settled_agent-once date_to agent db n unique in
      let others =
        settled_agents-once date_to agents (settled_agent dates date_to agent db) one.numbered
          (λ i. subst (λ ls. id_count i ls ≤ 1) (sym one.agent_lines) (unique i)) in
      record {
        numbered = others.numbered;
        kept = λ i s h. others.kept i s (one.kept i s h);
        agent_lines = others.agent_lines ∙ one.agent_lines;
        count = λ i.
            others.count i
            ∙ ap
                (λ ls.
                  once (settlement_count (settled_agent dates date_to agent db) i)
                    (due_to_some date_to agents i ls))
                one.agent_lines
            ∙ ap (λ m. once m (due_to_some date_to agents i db.agent_lines)) (one.count i)
            ∙ once_twice (settlement_count db i) (due_line date_to agent i db.agent_lines)
                (due_to_some date_to agents i db.agent_lines);
      }

  -- If the lines of agents have ids of their own and are in the order of their dates, and the
  -- settlements have ids of their own, then the wizard raises nothing, and each line that is in no
  -- settlement but canceled ones is in one more if it is due to one of the agents; no other line is
  -- put into a settlement, and no settlement is changed or deleted.
  pub action_settle-once :
      (date_to : Date) (agent_ids partners : List Partner) (db : Database)
      → InDateOrder dates (first_of 1900 1) db.agent_lines
      → ((i : ℕ) → id_count i db.agent_lines ≤ 1)
      → Numbered db
      → (ids : List ℕ) × (db' : Database) × (action_settle dates date_to agent_ids partners db
          ≡ ok (window ids, db'))
        × SettledOnce
            (λ i. due_to_some date_to (agents_to_settle agent_ids partners) i db.agent_lines)
            db
            db'
  action_settle-once date_to agent_ids partners db order unique n =
      let agents = agents_to_settle agent_ids partners in
      let (ids, runs) = action_settle-each dates date_to agent_ids partners db order in
      (
        ids,
        settled_agents dates date_to agents db,
        runs,
        settled_agents-once date_to agents db n unique,
      )
