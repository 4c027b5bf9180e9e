-- ===== src/Settlements/Fitting.antt =====
-- The lines of a settlement: their agent, company and dates against its own.
use projectname.Prelude.{
  ℕ, ◌≡◌, refl, sym, ap, ◌∙◌, subst, Bool, true, false, not, ◌&&◌, Option, none, some, List, [],
  ◌∷◌, ◌++◌, ◌==◌, arith, if◌then◌else◌, inl, inr, Bool-cases, and_parts,
}
use projectname.Settlements.Date.{Date, before, same_date, DateArithmetic}
use projectname.Settlements.Period.{get_period_start, get_period_end, InRange}
use projectname.Settlements.Period.Same.{get_period_start-InPeriod}
use projectname.Settlements.Database.{
  Partner, AgentLine, Settlement, SettlementLine, Database, skip_settlement, find_settlement, is_id,
  is_day, for_period, get_settlement, prepare_settlement,
}
use projectname.Settlements.Found.{get_settlement-for_period, prepared-for_period}
use projectname.Settlements.Each.{found_or_new, settlement_for, put_in, put_at, settled_one}
use projectname.Settlements.Numbered.{Numbered}
use projectname.Settlements.Added.{Kept, found_or_new-Ready}

unfoldable pub find_agent_line : ℕ → List AgentLine → Option AgentLine
find_agent_line i [] = none
find_agent_line i (l ∷ ls) = if l.id == i then some l else find_agent_line i ls

-- The date lies between the first and the last day.
abbrev pub covers : Option Date → Option Date → Option Date → Bool
covers (some a) (some b) (some d) = not (before d a) && not (before b d)
covers _ _ _ = false

-- The line of an agent belongs in the settlement.
abbrev pub fits : Settlement → AgentLine → Bool
fits s l =
    is_id s.agent_id l.agent_id
    && (s.company_id == l.company_id)
    && covers s.date_from s.date_to l.invoice_date

abbrev both_fit : Option Settlement → Option AgentLine → Bool
both_fit (some s) (some l) = fits s l
both_fit _ _ = false

-- The settlement lines lead to a settlement and to a line of an agent that belongs in it.
abbrev pub all_fit : List AgentLine → List Settlement → List SettlementLine → Bool
all_fit table ss [] = true
all_fit table ss (x ∷ xs) =
    both_fit (find_settlement x.settlement_id ss) (find_agent_line x.agent_line table)
    && all_fit table ss xs

all_fit-Kept :
    (table : List AgentLine) (ss ss' : List Settlement) (xs : List SettlementLine)
    → Kept ss ss'
    → all_fit table ss xs ≡ true
    → all_fit table ss' xs ≡ true
all_fit-Kept table ss ss' [] kept h = refl
all_fit-Kept table ss ss' (x ∷ xs) kept h =
    let i = find_settlement x.settlement_id ss in
    let l = find_agent_line x.agent_line table in
    let (a, b) = and_parts (both_fit i l) (all_fit table ss xs) h in
    rw (one i l (kept x.settlement_id) a, all_fit-Kept table ss ss' xs kept b) refl
  where
    one :
        (o : Option Settlement) (l : Option AgentLine) {o' : Option Settlement}
        → ((s : Settlement) → o ≡ some s → o' ≡ some s)
        → both_fit o l ≡ true
        → both_fit o' l ≡ true
    one none l k h = cc
    one (some s) l k h = ap (λ o. both_fit o l) (k s refl) ∙ h

all_fit-append :
    (table : List AgentLine) (ss : List Settlement) (xs : List SettlementLine) (x : SettlementLine)
    → all_fit table ss xs ≡ true
    → both_fit (find_settlement x.settlement_id ss) (find_agent_line x.agent_line table) ≡ true
    → all_fit table ss (xs ++ (x ∷ [])) ≡ true
all_fit-append table ss [] x h k = rw k refl
all_fit-append table ss (y ∷ ys) x h k =
    let (a, b) =
      and_parts (both_fit (find_settlement y.settlement_id ss) (find_agent_line y.agent_line table))
        (all_fit table ss ys) h in
    rw (a, all_fit-append table ss ys x b k) refl

same_date-eq : (a b : Date) → same_date a b ≡ true → a ≡ b
unfolding same_date
same_date-eq a b h =
    let y : a.year ≡ b.year = ground arith in
    let m : a.month ≡ b.month = ground arith in
    let d : a.day ≡ b.day = ground arith in λ i. record { year = y i; month = m i; day = d i }

is_day-eq : (o : Option Date) (d : Date) → is_day o d ≡ true → o ≡ some d
is_day-eq none d h = cc
is_day-eq (some e) d h = ap some (same_date-eq e d h)

-- A settlement of the period of a date, for the agent and the company of a line.
for_period-fits :
    (agent company : ℕ) (a b d : Date) (s : Settlement) (l : AgentLine)
    → for_period agent company a b s ≡ true
    → l.agent_id ≡ agent
    → l.company_id ≡ company
    → l.invoice_date ≡ some d
    → before d a ≡ false
    → before b d ≡ false
    → fits s l ≡ true
unfolding for_period
for_period-fits agent company a b d s l h is_agent is_company is_date early late =
    let agent_same : is_id s.agent_id agent ≡ true = ground arith in
    let from : is_day s.date_from a ≡ true = ground arith in
    let to : is_day s.date_to b ≡ true = ground arith in
    let company_same : (s.company_id == company) ≡ true = ground arith in
    rw
      (
        is_agent,
        is_company,
        is_date,
        is_day-eq s.date_from a from,
        is_day-eq s.date_to b to,
        agent_same,
        company_same,
        early,
        late,
      )
      refl

found_or_new-for_period :
    (agent company : ℕ) (a b : Date) (db : Database) (o : Option Settlement)
    → get_settlement agent company a b db.settlements ≡ o
    → for_period agent company a b
        (found_or_new (prepare_settlement agent company a b db.next_id) db o).0
      ≡ true
found_or_new-for_period agent company a b db none h =
    prepared-for_period agent company a b db.next_id
found_or_new-for_period agent company a b db (some s) h =
    get_settlement-for_period agent company a b db.settlements s h

module _ (dates : DateArithmetic) (table : List AgentLine) where
  -- A line of the table, of an agent and a company, with its date.
  pub record Chosen (agent : Partner) (company : ℕ) (line : AgentLine) : Type 0 where
    pub listed : find_agent_line line.id table ≡ some line
    pub is_agent : line.agent_id ≡ agent.id
    pub is_company : line.company_id ≡ company
    pub day : Date
    pub is_day : line.invoice_date ≡ some day
    pub in_range : InRange dates day

  abbrev pub Fits : Database → Type 0
  Fits db = all_fit table db.settlements db.settlement_lines ≡ true

  put_in-Fits :
      (agent : Partner) (company : ℕ) (line : AgentLine) (db : Database)
      → Numbered db
      → (c : Chosen agent company line) → Fits db
      → Fits (put_in line (settlement_for dates agent company c.day db))
  put_in-Fits agent company line db n c h =
      let a = get_period_start agent.settlement c.day in
      let b = get_period_end dates agent.settlement c.day in
      let r = settlement_for dates agent company c.day db in
      let ready = found_or_new-Ready agent.id company a b db _ n refl in
      let within =
        (get_period_start-InPeriod dates agent.settlement c.day c.day c.in_range c.in_range).0
          refl in
      let fit =
        for_period-fits agent.id company a b c.day r.0 line
          (found_or_new-for_period agent.id company a b db _ refl) c.is_agent c.is_company c.is_day
          within.not_early within.not_late in
      all_fit-append table r.1.settlements r.1.settlement_lines _
        (subst (λ xs. all_fit table r.1.settlements xs ≡ true) (sym ready.lines)
          (all_fit-Kept table db.settlements r.1.settlements db.settlement_lines ready.kept h))
        (rw (ready.found, c.listed) fit)

  pub settled_one-Fits :
      (agent : Partner) (company : ℕ) (line : AgentLine) (db : Database)
      → Numbered db
      → Chosen agent company line
      → Fits db
      → Fits (settled_one dates agent company line db)
  settled_one-Fits agent company line db n c h = elim (Bool-cases (skip_settlement line)) [
    | inl e ↦ rw e h
    | inr e ↦ rw e (
        subst (λ o. Fits (put_at dates agent company line db o)) (sym c.is_day)
          (put_in-Fits agent company line db n c h))
  ]
