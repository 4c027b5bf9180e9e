-- ===== src/Settlements/Tests/Runs.antt =====
-- The theorems at these books, and a run of the wizard.
use projectname.Prelude.{ℕ, ◌≡◌, ◌↔◌, ◌++◌, refl, true, some, ok, List, [], ◌∷◌, arith}
use projectname.Settlements.Date.{first_of, before, same_date}
use projectname.Settlements.Period.{
  quaterly, get_period_start, get_next_period_date, get_period_end, InRange,
}
use projectname.Settlements.Period.Same.{InPeriod, get_period_start-InPeriod}
use projectname.Settlements.Database.{
  cancel, invoiced, Settlement, Database, skip_settlement, find_settlement, any_settled,
  compute_settled, for_period, get_settlement, prepare_settlement, create_settlement_line,
}
use projectname.Settlements.Settle.{
  Run, is_searched, search_lines, of_company, without, mapped_companies, open_settlement, settle_in,
  settle_line, settle_lines, settle_companies, settle_agent, settle_agents, search_agents,
  agents_to_settle, window, start, action_settle,
}
use projectname.Settlements.Each.{settled_each, dated, no_more, no_settlement}
use projectname.Settlements.Each.Rounds.{settle_lines-each}
use projectname.Settlements.Numbered.{settlement_count, Numbered, no_one}
use projectname.Settlements.Action.{at_date, no_line}
use projectname.Settlements.Due.{due_to_some}
use projectname.Settlements.Once.{SettledOnce, action_settle-once}
use projectname.Settlements.Fitting.{all_fit}
use projectname.Settlements.Fitted.{action_settle-Fits}
use projectname.Settlements.States.{
  Books, any_state, write_state, action_cancel, prepare_invoices, prepare_invoice, create_moves,
  make_invoices,
}
use projectname.Settlements.Single.{Single}
use projectname.Settlements.Reach.{Listed, Reach, here, next, settles, cancels, Reach-Single}
use projectname.Settlements.Tests.Samples.{
  long_months, date, clerk, broker, line, agent_lines, tables, books,
}

get_period_start-InPeriod_example :
    (get_period_start quaterly (date 2022 3 31) ≡ get_period_start quaterly (date 2022 1 20))
    ↔ InPeriod long_months quaterly (date 2022 1 20) (date 2022 3 31)
get_period_start-InPeriod_example =
    get_period_start-InPeriod long_months quaterly (date 2022 1 20) (date 2022 3 31)
      (record { valid = refl; year_lt = omega arith })
      (record { valid = refl; year_lt = omega arith })

jan10 : InRange long_months (date 2022 1 10)
jan10 = record { valid = refl; year_lt = omega arith }

jan20 : InRange long_months (date 2022 1 20)
jan20 = record { valid = refl; year_lt = omega arith }

jan31 : InRange long_months (date 2022 1 31)
jan31 = record { valid = refl; year_lt = omega arith }

feb2 : InRange long_months (date 2022 2 2)
feb2 = record { valid = refl; year_lt = omega arith }

feb3 : InRange long_months (date 2022 2 3)
feb3 = record { valid = refl; year_lt = omega arith }

agent_lines-Listed : Listed long_months agent_lines
unfolding before
agent_lines-Listed = record {
  in_order = at_date (date 2022 1 10) refl jan10 refl refl (
      at_date (date 2022 1 20) refl jan20 refl refl (
        at_date (date 2022 1 31) refl jan31 refl refl (
          at_date (date 2022 1 31) refl jan31 refl refl (
            at_date (date 2022 2 2) refl feb2 refl refl
              (at_date (date 2022 2 3) refl feb3 refl refl no_line)))));
  unique = λ i. ground arith;
}

tables-Numbered : Numbered tables
unfolding find_settlement
tables-Numbered = record { unique = no_one; fresh = λ i h. refl }

settle_lines-each_example :
    (last : Run) × (settle_lines long_months clerk 5
        (line 10 1 5 (date 2022 1 10) ∷ line 14 1 5 (date 2022 2 2) ∷ [])
        (start tables)
      ≡ ok last)
    × (last.db
        ≡ settled_each long_months clerk 5
            (line 10 1 5 (date 2022 1 10) ∷ line 14 1 5 (date 2022 2 2) ∷ [])
            tables)
unfolding before
settle_lines-each_example =
    settle_lines-each long_months clerk 5 (first_of 1900 1)
      (line 10 1 5 (date 2022 1 10) ∷ line 14 1 5 (date 2022 2 2) ∷ []) (start tables)
      (dated (date 2022 1 10) refl jan10 refl refl refl
        (dated (date 2022 2 2) refl feb2 refl refl refl no_more))
      (no_settlement refl)

action_settle-once_example :
    (ids : List ℕ) × (db' : Database) × (action_settle long_months
        (date 2022 2 15)
        (clerk ∷ [])
        []
        tables
      ≡ ok (window ids, db'))
    × SettledOnce
        (λ i. due_to_some (date 2022 2 15) (agents_to_settle (clerk ∷ []) []) i tables.agent_lines)
        tables
        db'
action_settle-once_example =
    action_settle-once long_months (date 2022 2 15) (clerk ∷ []) [] tables
      agent_lines-Listed.in_order agent_lines-Listed.unique tables-Numbered

action_settle-Fits_example :
    (ids : List ℕ) × (db' : Database) × (action_settle long_months
        (date 2022 2 15)
        (clerk ∷ [])
        []
        tables
      ≡ ok (window ids, db'))
    × (all_fit agent_lines db'.settlements db'.settlement_lines ≡ true)
action_settle-Fits_example =
    action_settle-Fits long_months (date 2022 2 15) (clerk ∷ []) [] tables
      agent_lines-Listed.in_order agent_lines-Listed.unique tables-Numbered refl

-- The lines of January are settled, by company.
abbrev january : ℕ → ℕ → Settlement
january i company = prepare_settlement 1 company (first_of 2022 1) (date 2022 1 31) i

abbrev settled_tables : Database
settled_tables = record tables {
  settlements = january 1 5 ∷ january 2 6 ∷ [];
  settlement_lines =
      record { settlement_id = 1; agent_line = 10 }
      ∷ record { settlement_id = 1; agent_line = 13 }
      ∷ record { settlement_id = 2; agent_line = 12 }
      ∷ [];
  next_id = 3;
}

wizard_runs :
    action_settle long_months (date 2022 2 15) [] (clerk ∷ broker ∷ []) tables
    ≡ ok (some (1 ∷ 2 ∷ []), settled_tables)
unfolding action_settle agents_to_settle search_agents settle_agents settle_agent settle_companies
    settle_lines settle_line open_settlement settle_in search_lines is_searched of_company without
    mapped_companies get_period_start get_next_period_date get_period_end before same_date
    skip_settlement compute_settled any_settled find_settlement get_settlement for_period
    prepare_settlement create_settlement_line
wizard_runs = refl

abbrev settled_books : Books
settled_books = record books { db = settled_tables }

abbrev one_canceled : Books
one_canceled = record books {
  db = record settled_tables {
    settlements = record (january 1 5) { state = cancel } ∷ january 2 6 ∷ [];
  };
}

cancel_runs : action_cancel (1 ∷ []) settled_books ≡ ok one_canceled
unfolding action_cancel any_state find_settlement write_state prepare_settlement
cancel_runs = refl

books-Single : Single books
books-Single = record { numbered = tables-Numbered; single = λ i. omega arith; invoices = refl }

settled_and_canceled : Reach long_months books one_canceled
settled_and_canceled =
    next
      (next here (
        settles (date 2022 2 15) [] (clerk ∷ broker ∷ []) (some (1 ∷ 2 ∷ [])) settled_tables
          agent_lines-Listed wizard_runs))
      (cancels (1 ∷ []) cancel_runs)

Reach-Single_example : Single one_canceled
Reach-Single_example = Reach-Single books-Single settled_and_canceled

-- The lines of the canceled settlement are settled again.
abbrev settled_again : Books
settled_again = record books {
  db = record settled_tables {
    settlements = record (january 1 5) { state = cancel } ∷ january 2 6 ∷ january 3 5 ∷ [];
    settlement_lines =
        settled_tables.settlement_lines
        ++ (record { settlement_id = 3; agent_line = 10 }
            ∷ record { settlement_id = 3; agent_line = 13 }
            ∷ []);
    next_id = 4;
  };
}

-- An invoice of the canceled settlement, which `make_invoices` does not refuse.
abbrev both_paid : Books
both_paid = record settled_again {
  db = record settled_again.db {
    settlements = record (january 1 5) { state = invoiced } ∷ january 2 6 ∷ january 3 5 ∷ [];
  };
  moves = record { id = 1; settlement_id = some 1 } ∷ [];
  next_move = 2;
}

canceled_is_invoiced : make_invoices (1 ∷ []) settled_again ≡ ok both_paid
unfolding make_invoices prepare_invoices prepare_invoice create_moves write_state find_settlement
    prepare_settlement
canceled_is_invoiced = refl

line_in_two_settlements : settlement_count both_paid.db 10 ≡ 2
unfolding find_settlement prepare_settlement
line_in_two_settlements = refl
