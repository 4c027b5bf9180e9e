-- ===== src/Contract/Invoicing/Due.antt =====
-- The dates of a contract against those of its lines.
use projectname.Prelude.{
  ℕ, ◌≡◌, refl, sym, ◌∙◌, Bool, true, false, ◌&&◌, ◌||◌, Option, none, some, List, [], ◌∷◌, leb,
  ltb, if◌then◌else◌, arith,
}
use mathlib.Core.Bool.{or-false, or_assoc, and-true, and-false, and_assoc}
use projectname.Contract.Line.{Line}
use projectname.Contract.Allowed.{has_ended}
use projectname.Contract.Invoicing.{
  can_be_invoiced, takes_invoices, next_dates, min, max, first_of, compute_recurring_next_date,
  is_due, add_end, all_ends, last_of, compute_date_end,
}

-- One of the lines takes invoices and can be invoiced.
abbrev pub any_to_invoice : ℕ → List Line → Bool
any_to_invoice date_ref [] = false
any_to_invoice date_ref (line ∷ lines) =
    (takes_invoices line && can_be_invoiced date_ref line) || any_to_invoice date_ref lines

any_by : ℕ → List ℕ → Bool
any_by date_ref [] = false
any_by date_ref (d ∷ dates) = leb d date_ref || any_by date_ref dates

earlier :
    (date_ref d e : ℕ)
    → leb (if leb e d then e else d) date_ref ≡ (leb d date_ref || leb e date_ref)
earlier date_ref d e = ground arith

min-any_by :
    (date_ref d : ℕ) (dates : List ℕ)
    → leb (min d dates) date_ref ≡ (leb d date_ref || any_by date_ref dates)
unfolding any_by
min-any_by date_ref d [] = sym (or-false (leb d date_ref))
min-any_by date_ref d (e ∷ dates) =
    min-any_by date_ref (if leb e d then e else d) dates
    ∙ (rw (earlier date_ref d e)
        (or_assoc (leb d date_ref) (leb e date_ref) (any_by date_ref dates)))

first_of-any_by :
    (date_ref : ℕ) (dates : List ℕ) → is_due (first_of dates) date_ref ≡ any_by date_ref dates
unfolding any_by
first_of-any_by date_ref [] = refl
first_of-any_by date_ref (d ∷ dates) = min-any_by date_ref d dates

next_dates-any_by :
    (date_ref : ℕ) (lines : List Line)
    → any_by date_ref (next_dates lines) ≡ any_to_invoice date_ref lines
unfolding any_by can_be_invoiced
next_dates-any_by date_ref [] = refl
next_dates-any_by date_ref (line ∷ lines) = ground (arith, next_dates-any_by date_ref lines)

-- A contract is due for invoices on a day if and only if one of its lines takes invoices and can be
-- invoiced on that day.
pub compute_recurring_next_date-is_due :
    (date_ref : ℕ) (lines : List Line)
    → is_due (compute_recurring_next_date lines) date_ref ≡ any_to_invoice date_ref lines
unfolding compute_recurring_next_date
compute_recurring_next_date-is_due date_ref lines =
    first_of-any_by date_ref (next_dates lines) ∙ next_dates-any_by date_ref lines

-- Each of the lines has ended.
abbrev pub all_ended : ℕ → List Line → Bool
all_ended today [] = true
all_ended today (line ∷ lines) = has_ended today line.date_end && all_ended today lines

all_before : ℕ → List ℕ → Bool
all_before today [] = true
all_before today (d ∷ dates) = ltb d today && all_before today dates

ends_before : ℕ → Option (List ℕ) → Bool
ends_before today none = false
ends_before today (some dates) = all_before today dates

later : (today d e : ℕ) → ltb (if leb d e then e else d) today ≡ (ltb d today && ltb e today)
later today d e = ground arith

max-all_before :
    (today d : ℕ) (dates : List ℕ)
    → ltb (max d dates) today ≡ (ltb d today && all_before today dates)
unfolding all_before
max-all_before today d [] = sym (and-true (ltb d today))
max-all_before today d (e ∷ dates) =
    max-all_before today (if leb d e then e else d) dates
    ∙ (rw (later today d e) (and_assoc (ltb d today) (ltb e today) (all_before today dates)))

add_end-ends_before :
    (today : ℕ) (end : Option ℕ) (ends : Option (List ℕ))
    → ends_before today (add_end end ends) ≡ (has_ended today end && ends_before today ends)
unfolding ends_before all_before has_ended
add_end-ends_before today none ends = refl
add_end-ends_before today (some d) none = sym (and-false (ltb d today))
add_end-ends_before today (some d) (some dates) = refl

all_ends-ends_before :
    (today : ℕ) (lines : List Line) → ends_before today (all_ends lines) ≡ all_ended today lines
unfolding ends_before all_before
all_ends-ends_before today [] = refl
all_ends-ends_before today (line ∷ lines) =
    add_end-ends_before today line.date_end (all_ends lines)
    ∙ (rw (all_ends-ends_before today lines) refl)

last_of-ends_before :
    (today : ℕ) (end : Option ℕ) (ends : Option (List ℕ))
    → has_ended today (last_of (add_end end ends)) ≡ ends_before today (add_end end ends)
unfolding has_ended ends_before all_before
last_of-ends_before today none ends = refl
last_of-ends_before today (some d) none = refl
last_of-ends_before today (some d) (some dates) = max-all_before today d dates

-- A contract that has a line has ended, by its end date, if and only if each of its lines has.
pub compute_date_end-has_ended :
    (today : ℕ) (line : Line) (lines : List Line)
    → has_ended today (compute_date_end (line ∷ lines)) ≡ all_ended today (line ∷ lines)
unfolding compute_date_end
compute_date_end-has_ended today line lines =
    last_of-ends_before today line.date_end (all_ends lines)
    ∙ all_ends-ends_before today (line ∷ lines)
