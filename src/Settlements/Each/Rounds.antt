-- ===== src/Settlements/Each/Rounds.antt =====
-- The rounds of the loop over the lines of a company, against those of the loop over each line.
use projectname.Prelude.{ℕ, ◌≡◌, refl, sym, ap, ◌∙◌, false, List, [], ◌∷◌, ok, inl, inr, Bool-cases}
use projectname.Settlements.Date.{Date, before, DateArithmetic}
use projectname.Settlements.Period.{get_period_start, get_period_end, InRange}
use projectname.Settlements.Database.{
  Partner, AgentLine, skip_settlement, add_settlement_line, create_settlement_line,
}
use projectname.Settlements.Settle.{Run, settle_in, settle_line, settle_lines}
use projectname.Settlements.Each.{
  settlement_for, put_in, put_at, settled_one, settled_each, Dated, no_more, dated, Cached,
  in_period,
}
use projectname.Settlements.Each.Opened.{before_trans, Opened, settle_in-ok, ready}

module _ (dates : DateArithmetic) where
  pub Dated-lower :
      (company : ℕ) (a b : Date) (lines : List AgentLine)
      → before b a ≡ false
      → Dated dates company b lines
      → Dated dates company a lines
  Dated-lower company a b [] h no_more = no_more
  Dated-lower company a b (line ∷ lines) h (dated d is_d r late le c rest) =
      dated d is_d r late (before_trans a b d h le) c rest

  -- What a round of the loop leaves.
  record Round (agent : Partner) (company : ℕ) (line : AgentLine) (lines : List AgentLine)
      (run : Run) : Type 0 where
    last : Run
    lower : Date
    runs : settle_line dates agent company line run ≡ ok last
    db : last.db ≡ settled_one dates agent company line run.db
    cached : Cached dates agent company last lower
    dated_from : Dated dates company lower lines

  -- A settlement is open that is found for the period of the line.
  in_open :
      (agent : Partner) (company : ℕ) (line : AgentLine) (d : Date) (run run1 : Run)
      → InRange dates d
      → line.company_id ≡ company
      → Opened dates agent company d (settlement_for dates agent company d run.db) run1
      → (last : Run) × (settle_in line run1 ≡ ok last)
        × (last.db ≡ put_in line (settlement_for dates agent company d run.db))
        × Cached dates agent company last d
  in_open agent company line d run run1 is_d c o =
      let r = settlement_for dates agent company d run.db in
      let a = get_period_start agent.settlement d in
      let b = get_period_end dates agent.settlement d in
      (
        record run1 { db = add_settlement_line r.0.id line.id run1.db },
        settle_in-ok dates agent company a b line run1 r.0 o.settlement o.found c,
        ap (add_settlement_line r.0.id line.id) o.db,
        in_period r.0 is_d o.until o.settlement o.found,
      )

  settle_line-Round :
      (agent : Partner) (company : ℕ) (lower : Date) (line : AgentLine) (lines : List AgentLine)
      (run : Run)
      → Dated dates company lower (line ∷ lines)
      → Cached dates agent company run lower
      → Round agent company line lines run
  unfolding settle_line create_settlement_line in_open
  settle_line-Round agent company lower line lines run (dated d is_date is_d late le c rest)
        cached =
      elim (Bool-cases (skip_settlement line)) [
        | inl skip ↦ record {
          last = run;
          lower = lower;
          runs = rw skip refl;
          db = rw skip refl;
          cached = cached;
          dated_from = Dated-lower company lower d lines le rest;
        }
        | inr kept ↦
            let (last, runs, db, next) =
              in_open agent company line d run _ is_d c
                (ready dates agent company lower d run is_d le late cached) in
            record {
              last = last;
              lower = d;
              runs = rw (kept, is_date) runs;
              db = rw kept (db ∙ sym (ap (put_at dates agent company line run.db) is_date));
              cached = next;
              dated_from = rest;
            }
      ]

  -- The loop over the lines of a company, in the order of their dates, raises nothing, and leaves
  -- the database that the loop without its shortcut leaves.
  pub settle_lines-each :
      (agent : Partner) (company : ℕ) (lower : Date) (lines : List AgentLine) (run : Run)
      → Dated dates company lower lines
      → Cached dates agent company run lower
      → (last : Run) × (settle_lines dates agent company lines run ≡ ok last)
        × (last.db ≡ settled_each dates agent company lines run.db)
  unfolding settle_lines
  settle_lines-each agent company lower [] run h c = (run, refl, refl)
  settle_lines-each agent company lower (line ∷ lines) run h c =
      let r = settle_line-Round agent company lower line lines run h c in
      let (last, runs, db) =
        settle_lines-each agent company r.lower lines r.last r.dated_from r.cached in
      (last, (rw (r.runs) runs), db ∙ ap (settled_each dates agent company lines) r.db)
