-- ===== src/Settlements/Due.antt =====
-- Which lines of agents are due, and which of them the search finds.
use projectname.Prelude.{
  ℕ, ◌+◌, ◌≤◌, ◌≡◌, refl, ap, ◌∙◌, Bool, true, false, not, ◌&&◌, ◌||◌, Option, none, some, List, [],
  ◌∷◌, ◌==◌, ==_iff, arith, if◌then◌else◌, inl, inr, Bool-cases, is_set, ltb,
}
use projectname.Settlements.Date.{Date}
use projectname.Settlements.Period.{get_period_start}
use projectname.Settlements.Database.{Partner, AgentLine, Database, skip_settlement}
use projectname.Settlements.Settle.{is_before, is_searched, search_lines}
use projectname.Settlements.Numbered.{one_if, settlement_count, compute_settled-count}
use projectname.Settlements.Added.{is_put, put_count}

-- The wizard with this date pays the line to the agent: it is the agent's, its invoice is dated
-- before the agent's period of the date, and nothing puts off its payment.
abbrev pub is_due : Date → Partner → AgentLine → Bool
is_due date_to agent line =
    is_before line.invoice_date (get_period_start agent.settlement date_to)
    && (line.agent_id == agent.id)
    && not (skip_settlement line)

abbrev pub due_line : Date → Partner → ℕ → List AgentLine → Bool
due_line date_to agent i [] = false
due_line date_to agent i (line ∷ lines) =
    (line.id == i) && is_due date_to agent line || due_line date_to agent i lines

abbrev pub due_to_some : Date → List Partner → ℕ → List AgentLine → Bool
due_to_some date_to [] i lines = false
due_to_some date_to (agent ∷ agents) i lines =
    due_line date_to agent i lines || due_to_some date_to agents i lines

abbrev pub id_count : ℕ → List AgentLine → ℕ
id_count i [] = 0
id_count i (line ∷ lines) = one_if (line.id == i) + id_count i lines

abbrev pub due_count : Date → Partner → ℕ → List AgentLine → ℕ
due_count date_to agent i [] = 0
due_count date_to agent i (line ∷ lines) =
    one_if ((line.id == i) && is_due date_to agent line) + due_count date_to agent i lines

and_count : (a b : Bool) → one_if (a && b) ≤ one_if a
and_count true true = omega arith
and_count true false = omega arith
and_count false b = omega arith

or_count : (a b : Bool) → one_if a + one_if b ≤ 1 → one_if a + one_if b ≡ one_if (a || b)
or_count true true h = absurd (omega (arith, h))
or_count true false h = omega arith
or_count false b h = omega arith

due_count-le :
    (date_to : Date) (agent : Partner) (i : ℕ) (lines : List AgentLine)
    → due_count date_to agent i lines ≤ id_count i lines
due_count-le date_to agent i [] = omega arith
due_count-le date_to agent i (line ∷ lines) =
    let e = due_count-le date_to agent i lines in
    omega (arith, and_count (line.id == i) (is_due date_to agent line))

pub due_count-due_line :
    (date_to : Date) (agent : Partner) (i : ℕ) (lines : List AgentLine)
    → id_count i lines ≤ 1
    → due_count date_to agent i lines ≡ one_if (due_line date_to agent i lines)
due_count-due_line date_to agent i [] h = refl
due_count-due_line date_to agent i (line ∷ lines) h =
    let due = (line.id == i) && is_due date_to agent line in
    let first = and_count (line.id == i) (is_due date_to agent line) in
    let later = due_count-le date_to agent i lines in
    let e = due_count-due_line date_to agent i lines (omega arith) in
    ap (λ n. one_if due + n) e ∙ or_count due (due_line date_to agent i lines) (omega arith)

before_set : (o : Option Date) (d : Date) → is_before o d ≡ true → is_set o ≡ true
before_set none d h = cc
before_set (some e) d h = refl

-- One line, with the tests of the search and of the payment.
found_and_put :
    (b a k s same : Bool) (n : ℕ)
    → (b ≡ true → s ≡ true)
    → (if b && a && not (ltb 0 n) then one_if (not k && s && same) else 0)
      ≡ (if n == 0 then one_if (same && (b && a && not k)) else 0)
found_and_put b a k s same n h = ground arith

if_put :
    (i : ℕ) (b : Bool) (line : AgentLine) (lines : List AgentLine)
    → put_count i (if b then line ∷ lines else lines)
      ≡ (if b then one_if (is_put i line) else 0) + put_count i lines
if_put i true line lines = refl
if_put i false line lines = omega arith

if_sum :
    (b : Bool) (m n : ℕ) → (if b then m else 0) + (if b then n else 0) ≡ (if b then m + n else 0)
if_sum true m n = refl
if_sum false m n = omega arith

-- The line, if it is found, is the one that is counted.
line_count :
    (db : Database) (date_to : Date) (agent : Partner) (i : ℕ) (line : AgentLine)
    → (if is_searched db agent.id (get_period_start agent.settlement date_to) line
        then one_if (is_put i line)
        else 0)
      ≡ (if settlement_count db i == 0
          then one_if ((line.id == i) && is_due date_to agent line)
          else 0)
unfolding is_searched
line_count db date_to agent i line =
    let until = get_period_start agent.settlement date_to in
    elim (Bool-cases (line.id == i)) [
      | inl same ↦
          let settled =
            compute_settled-count db line.id
            ∙ ap (λ j. ltb 0 (settlement_count db j)) ((==_iff line.id i).0 same) in
          rw (settled, same)
            (found_and_put (is_before line.invoice_date until) (line.agent_id == agent.id)
              (skip_settlement line) (is_set line.invoice_date) true (settlement_count db i)
              (before_set line.invoice_date until))
      | inr other ↦ rw other (ground arith)
    ]

-- The lines found, where the line is in no settlement.
pub search_lines-count :
    (db : Database) (date_to : Date) (agent : Partner) (i : ℕ) (lines : List AgentLine)
    → put_count i (search_lines db agent.id (get_period_start agent.settlement date_to) lines)
      ≡ (if settlement_count db i == 0 then due_count date_to agent i lines else 0)
unfolding search_lines
search_lines-count db date_to agent i [] = ground arith
search_lines-count db date_to agent i (line ∷ lines) =
    let until = get_period_start agent.settlement date_to in
    let rest = search_lines db agent.id until lines in
    if_put i (is_searched db agent.id until line) line rest
    ∙ ap (λ n. n + put_count i rest) (line_count db date_to agent i line)
    ∙ ap
        (λ n.
          (if settlement_count db i == 0
            then one_if ((line.id == i) && is_due date_to agent line)
            else 0)
          + n)
        (search_lines-count db date_to agent i lines)
    ∙ if_sum (settlement_count db i == 0) _ _
