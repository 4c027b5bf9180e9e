-- ===== src/Settlements/Each/Opened.antt =====
-- The settlement that is open in a round of the loop.
use projectname.Prelude.{
  ℕ, ◌≡◌, refl, sym, ap, subst, ◌∙◌, true, false, Option, none, some, ◌==◌, ==_iff, ok, arith,
  if◌then◌else◌, inl, inr, Bool-cases,
}
use projectname.Settlements.Date.{Date, first_of, before, DateArithmetic}
use projectname.Settlements.Period.{
  SettlementPeriod, get_period_start, get_next_period_date, get_period_end, InRange,
}
use projectname.Settlements.Period.Same.{get_period_start-InPeriod}
use projectname.Settlements.Database.{
  Partner, AgentLine, Settlement, Database, get_settlement, prepare_settlement, add_settlement_line,
  create_settlement_line,
}
use projectname.Settlements.Settle.{Run, with_settlement, open_settlement, settle_in}
use projectname.Settlements.Found.{
  get_settlement-for_period, get_settlement-append, prepared-for_period, for_period-company,
}
use projectname.Settlements.Each.{found_or_new, settlement_for, Cached, no_settlement, in_period}

pub before_trans : (a b c : Date) → before b a ≡ false → before c b ≡ false → before c a ≡ false
unfolding before
before_trans a b c h k = ground arith

module _ (dates : DateArithmetic) where
  same_period :
      (p : SettlementPeriod) (d e : Date)
      → InRange dates d
      → InRange dates e
      → before e d ≡ false
      → before (get_period_end dates p d) e ≡ false
      → get_period_start p e ≡ get_period_start p d
  same_period p d e h k le within =
      let self = (get_period_start-InPeriod dates p d d h h).0 refl in
      (get_period_start-InPeriod dates p d e h k).1 (record {
        not_early = before_trans (get_period_start p d) d e self.not_early le;
        not_late = within;
      })

  end-same :
      (p : SettlementPeriod) (d e : Date)
      → get_period_start p e ≡ get_period_start p d
      → get_period_end dates p e ≡ get_period_end dates p d
  unfolding get_period_end
  end-same p d e h = ap (λ x. dates.day_before (get_next_period_date dates p x)) h

  pub record Opened (agent : Partner) (company : ℕ) (d : Date) (r : Settlement × Database)
      (opened : Run) : Type 0 where
    pub settlement : opened.settlement ≡ some r.0
    pub db : opened.db ≡ r.1
    pub until : opened.sett_to ≡ get_period_end dates agent.settlement d
    pub found :
        get_settlement agent.id company
          (get_period_start agent.settlement d)
          (get_period_end dates agent.settlement d)
          opened.db.settlements
        ≡ some r.0

  with_settlement-Opened :
      (agent : Partner) (company : ℕ) (d : Date) (run : Run) (o : Option Settlement)
      → let a = get_period_start agent.settlement d in
        let b = get_period_end dates agent.settlement d in
        let new = prepare_settlement agent.id company a b run.db.next_id in
        get_settlement agent.id company a b run.db.settlements ≡ o
        → Opened agent company d (found_or_new new run.db o) (with_settlement new b run o)
  with_settlement-Opened agent company d run none e = record {
    settlement = refl;
    db = refl;
    until = refl;
    found =
        get_settlement-append agent.id company _ _ run.db.settlements _ e
          (prepared-for_period agent.id company _ _ run.db.next_id);
  }
  with_settlement-Opened agent company d run (some s) e = record {
    settlement = refl;
    db = refl;
    until = refl;
    found = e;
  }

  open_settlement-Opened :
      (agent : Partner) (company : ℕ) (d : Date) (run : Run)
      → Opened agent company d
          (settlement_for dates agent company d run.db)
          (open_settlement dates agent company d run)
  unfolding open_settlement
  open_settlement-Opened agent company d run = with_settlement-Opened agent company d run _ refl

  pub settle_in-ok :
      (agent : Partner) (company : ℕ) (a b : Date) (line : AgentLine) (run : Run) (s : Settlement)
      → run.settlement ≡ some s
      → get_settlement agent.id company a b run.db.settlements ≡ some s
      → line.company_id ≡ company
      → settle_in line run ≡ ok (record run { db = add_settlement_line s.id line.id run.db })
  unfolding settle_in create_settlement_line
  settle_in-ok agent company a b line run s is_s found c =
      let same =
        for_period-company agent.id company a b s
          (get_settlement-for_period agent.id company a b run.db.settlements s found) in
      let checked : (line.company_id == s.company_id) ≡ true = (==_iff _ _).1 (c ∙ sym same) in
      rw (is_s, checked) refl

  -- The settlement that is open is that of the line.
  still_open :
      (agent : Partner) (company : ℕ) (lower d : Date) (run : Run)
      → InRange dates d
      → before d lower ≡ false
      → before run.sett_to d ≡ false
      → before (first_of 1900 1) d ≡ true
      → Cached dates agent company run lower
      → Opened agent company d (settlement_for dates agent company d run.db) run
  still_open agent company lower d run is_d le no_later late (no_settlement e) =
      absurd (let early = sym (ap (λ x. before x d) e) ∙ no_later in cc)
  still_open agent company lower d run is_d le no_later late (in_period s is_l until is_s found) =
      let same =
        same_period agent.settlement lower d is_l is_d le
          (sym (ap (λ x. before x d) until) ∙ no_later) in
      let end = end-same agent.settlement lower d same in
      let found_d =
        ap
          (λ x.
            get_settlement agent.id company x (get_period_end dates agent.settlement d)
              run.db.settlements)
          same
        ∙ ap
            (λ x.
              get_settlement agent.id company (get_period_start agent.settlement lower) x
                run.db.settlements)
            end
        ∙ found in
      let a = get_period_start agent.settlement d in
      let b = get_period_end dates agent.settlement d in
      let new = prepare_settlement agent.id company a b run.db.next_id in
      subst (λ r. Opened agent company d r run) (sym (ap (found_or_new new run.db) found_d))
        (record { settlement = is_s; db = refl; until = until ∙ sym end; found = found_d })

  -- The settlement that the code reads is the line's.
  pub ready :
      (agent : Partner) (company : ℕ) (lower d : Date) (run : Run)
      → InRange dates d
      → before d lower ≡ false
      → before (first_of 1900 1) d ≡ true
      → Cached dates agent company run lower
      → Opened agent company d
          (settlement_for dates agent company d run.db)
          (if before run.sett_to d then open_settlement dates agent company d run else run)
  ready agent company lower d run is_d le late c = elim (Bool-cases (before run.sett_to d)) [
    | inl e ↦ rw e (open_settlement-Opened agent company d run)
    | inr e ↦ rw e (still_open agent company lower d run is_d le e late c)
  ]
