-- ===== src/Settlements/Added.antt =====
-- What settling lines does to the number of settlements that a line of an agent is in.
use projectname.Prelude.{
  ◌++◌, subst, ℕ, suc, ◌+◌, ◌≤◌, ◌≡◌, refl, ap, ◌∙◌, Bool, true, false, not, is_set, ◌&&◌, Option,
  none, some, List, [], ◌∷◌, ◌==◌, ==_iff, arith, inl, inr, Bool-cases,
}
use mathlib.Core.Bool.{and-true}
use projectname.Settlements.Date.{Date, DateArithmetic}
use projectname.Settlements.Period.{get_period_start, get_period_end}
use projectname.Settlements.Database.{
  Partner, AgentLine, Settlement, Database, SettlementState, settled, invoiced, cancel,
  except_invoice, is_settled, skip_settlement, find_settlement, for_period, get_settlement,
  prepare_settlement,
}
use projectname.Settlements.Found.{get_settlement-for_period}
use projectname.Settlements.Each.{found_or_new, put_in, put_at, settled_one, settled_each}
use projectname.Settlements.Numbered.{
  one_if, active_count, settlement_count, Numbered, found_by_id, find_settlement-append,
  UniqueIds-append, active_count-append, active_count-line,
}

-- The settlements of the first list are found in the second.
abbrev pub Kept : List Settlement → List Settlement → Type 0
Kept before after =
    (i : ℕ) (s : Settlement) → find_settlement i before ≡ some s → find_settlement i after ≡ some s

append-Kept :
    (ss : List Settlement) (new : Settlement)
    → find_settlement new.id ss ≡ none
    → Kept ss (ss ++ (new ∷ []))
append-Kept ss new free i s h =
    find_settlement-append i ss new free ∙ (elim (Bool-cases (new.id == i)) [
      | inl e ↦
          let gone = subst (λ j. find_settlement j ss ≡ none) ((==_iff new.id i).0 e) free in
          absurd cc
      | inr e ↦ rw e h
    ])

-- What is said of a settlement that is found or made.
pub record Ready (db : Database) (r : Settlement × Database) : Type 0 where
  pub numbered : Numbered r.1
  pub found : find_settlement r.0.id r.1.settlements ≡ some r.0
  pub state : r.0.state ≡ settled
  pub count : (i : ℕ) → settlement_count r.1 i ≡ settlement_count db i
  pub kept : Kept db.settlements r.1.settlements
  pub lines : r.1.settlement_lines ≡ db.settlement_lines

for_period-state :
    (agent company : ℕ) (a b : Date) (s : Settlement)
    → for_period agent company a b s ≡ true
    → s.state ≡ settled
unfolding for_period
for_period-state agent company a b s h = go s.state (ground arith)
  where
    go : (x : SettlementState) → is_settled x ≡ true → x ≡ settled
    go settled h = refl
    go invoiced h = cc
    go cancel h = cc
    go except_invoice h = cc

other_id : (n i : ℕ) → suc n ≤ i → (n == i) ≡ false
other_id n i h = ground arith

pub found_or_new-Ready :
    (agent company : ℕ) (a b : Date) (db : Database) (o : Option Settlement)
    → Numbered db
    → get_settlement agent company a b db.settlements ≡ o
    → Ready db (found_or_new (prepare_settlement agent company a b db.next_id) db o)
unfolding prepare_settlement
found_or_new-Ready agent company a b db none n h =
    let free = n.fresh db.next_id (omega arith) in
    let new = prepare_settlement agent company a b db.next_id in
    let found = find_settlement-append db.next_id db.settlements new free in
    record {
      numbered = record {
        unique = UniqueIds-append db.settlements _ n.unique free;
        fresh = λ i le.
            find_settlement-append i db.settlements new free
            ∙ (rw (other_id db.next_id i le) (n.fresh i (omega arith)));
      };
      found = found ∙ (rw ((==_iff db.next_id db.next_id).1 refl) refl);
      state = refl;
      count = λ i. active_count-append i db.settlements new db.settlement_lines free refl;
      kept = append-Kept db.settlements new free;
      lines = refl;
    }
found_or_new-Ready agent company a b db (some s) n h = record {
  numbered = n;
  found = found_by_id agent company a b db.settlements s n.unique h;
  state =
      for_period-state agent company a b s
        (get_settlement-for_period agent company a b db.settlements s h);
  count = λ i. refl;
  kept = λ i s h. h;
  lines = refl;
}

put_in-count :
    (db : Database) (line : AgentLine) (r : Settlement × Database) (i : ℕ)
    → Ready db r
    → settlement_count (put_in line r) i ≡ settlement_count db i + one_if (line.id == i)
put_in-count db line r i h =
    active_count-line i r.1.settlements r.1.settlement_lines _
    ∙ ap (λ b. active_count i r.1.settlements r.1.settlement_lines + one_if b)
        (rw (h.found, h.state) (and-true (line.id == i)))
    ∙ ap (λ n. n + one_if (line.id == i)) (h.count i)

put_in-Numbered :
    (db : Database) (line : AgentLine) (r : Settlement × Database)
    → Ready db r
    → Numbered (put_in line r)
put_in-Numbered db line r h = record { unique = h.numbered.unique; fresh = h.numbered.fresh }

-- The line of an agent is put into a settlement.
abbrev pub is_put : ℕ → AgentLine → Bool
is_put i line = not (skip_settlement line) && is_set line.invoice_date && (line.id == i)

-- How often the lines put it there.
abbrev pub put_count : ℕ → List AgentLine → ℕ
put_count i [] = 0
put_count i (line ∷ lines) = one_if (is_put i line) + put_count i lines

-- The database is numbered, and each line is in `n i` more settlements than before.
pub record Adds (before : Database) (n : ℕ → ℕ) (after : Database) : Type 0 where
  pub numbered : Numbered after
  pub count : (i : ℕ) → settlement_count after i ≡ settlement_count before i + n i
  pub kept : Kept before.settlements after.settlements

module _ (dates : DateArithmetic) where
  put_at-Adds :
      (agent : Partner) (company : ℕ) (line : AgentLine) (db : Database) (o : Option Date)
      → Numbered db
      → Adds db (λ i. one_if (is_set o && (line.id == i))) (put_at dates agent company line db o)
  put_at-Adds agent company line db none n = record {
    numbered = n;
    count = λ i. omega arith;
    kept = λ i s h. h;
  }
  put_at-Adds agent company line db (some d) n =
      let a = get_period_start agent.settlement d in
      let b = get_period_end dates agent.settlement d in
      let r = found_or_new-Ready agent.id company a b db _ n refl in
      record {
        numbered = put_in-Numbered db line _ r;
        count = λ i. put_in-count db line _ i r;
        kept = r.kept;
      }

  pub settled_one-Adds :
      (agent : Partner) (company : ℕ) (line : AgentLine) (db : Database)
      → Numbered db
      → Adds db (λ i. one_if (is_put i line)) (settled_one dates agent company line db)
  settled_one-Adds agent company line db n = elim (Bool-cases (skip_settlement line)) [
    | inl e ↦ rw e (record { numbered = n; count = λ i. omega arith; kept = λ i s h. h })
    | inr e ↦ rw e (put_at-Adds agent company line db line.invoice_date n)
  ]

  pub settled_each-Adds :
      (agent : Partner) (company : ℕ) (lines : List AgentLine) (db : Database)
      → Numbered db
      → Adds db (λ i. put_count i lines) (settled_each dates agent company lines db)
  settled_each-Adds agent company [] db n = record {
    numbered = n;
    count = λ i. omega arith;
    kept = λ i s h. h;
  }
  settled_each-Adds agent company (line ∷ lines) db n =
      let one = settled_one-Adds agent company line db n in
      let rest =
        settled_each-Adds agent company lines (settled_one dates agent company line db)
          one.numbered in
      record {
        numbered = rest.numbered;
        count = λ i. let x = one.count i in let y = rest.count i in omega arith;
        kept = λ i s h. rest.kept i s (one.kept i s h);
      }
