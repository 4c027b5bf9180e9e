-- ===== src/Contract/Recurring/Chosen.antt =====
-- Which contracts get an invoice.
use projectname.Prelude.{
  ℕ, ◌≡◌, refl, sym, ap, ◌∙◌, Bool, true, false, not, ◌&&◌, ◌||◌, Option, none, some, List, [], ◌∷◌,
  ◌++◌, arith, if◌then◌else◌, inl, inr, Bool-cases,
}
use mathlib.Core.Bool.{and-true, and-false}
use projectname.Contract.Line.{Line, is_recurring_note}
use projectname.Contract.Invoicing.{
  Scan, Branch, section, previous_note, next_note, other_note, invoiced, ignored, branch,
  can_be_invoiced, takes_invoices, union, contains, contains_option, start, add_invoiced,
  scan_branch, scan_line, scan_lines, get_lines_to_invoice, compute_recurring_next_date, is_due,
}
use projectname.Contract.Invoicing.Due.{any_to_invoice, compute_recurring_next_date-is_due}

abbrev pub is_empty {ℓ} : {A : Type ℓ} → List A → Bool
is_empty [] = true
is_empty (x ∷ xs) = false

is_invoiced : Branch → Bool
is_invoiced invoiced = true
is_invoiced _ = false

branch-takes : (line : Line) → is_invoiced (branch line) ≡ takes_invoices line
unfolding branch is_invoiced is_recurring_note
branch-takes line = ground arith

append-is_empty {ℓ} : {A : Type ℓ} (xs : List A) (x : A) → is_empty (xs ++ (x ∷ [])) ≡ false
append-is_empty [] x = refl
append-is_empty (y ∷ ys) x = refl

union-is_empty : (lines : List Line) (line : Line) → is_empty (union lines line) ≡ false
unfolding union
union-is_empty [] line = refl
union-is_empty (l ∷ ls) line = (elim (Bool-cases (contains line.id (l ∷ ls))) [
  | inl e ↦ rw e refl
  | inr e ↦ rw e refl
])

no_line_before : (previous : Option Line) → contains_option previous [] ≡ false
no_line_before none = refl
no_line_before (some l) = refl

added-is_empty :
    (b : Bool) (lines : List Line) (line : Line)
    → (is_empty lines ≡ true → b ≡ false)
    → is_empty (if b then union lines line else lines) ≡ is_empty lines
added-is_empty false lines line h = refl
added-is_empty true [] line h = absurd (let e = h refl in cc)
added-is_empty true (l ∷ ls) line h = union-is_empty (l ∷ ls) line

previous-is_empty :
    (previous : Option Line) (lines : List Line)
    → is_empty lines ≡ true
    → contains_option previous lines ≡ false
previous-is_empty previous [] h = no_line_before previous
previous-is_empty previous (l ∷ ls) h = absurd cc

scan_branch-is_empty :
    (d : ℕ) (b : Branch) (line : Line) (s : Scan)
    → is_empty (scan_branch d b line s).lines2invoice
      ≡ (is_empty s.lines2invoice && not (is_invoiced b && can_be_invoiced d line))
unfolding is_invoiced add_invoiced
scan_branch-is_empty d section line s = sym (and-true _)
scan_branch-is_empty d previous_note line s =
    added-is_empty (contains_option s.previous s.lines2invoice) s.lines2invoice line
      (previous-is_empty s.previous s.lines2invoice)
    ∙ sym (and-true _)
scan_branch-is_empty d next_note line s = sym (and-true _)
scan_branch-is_empty d other_note line s = sym (and-true _)
scan_branch-is_empty d invoiced line s = elim (Bool-cases (can_be_invoiced d line)) [
  | inl c ↦ rw c (union-is_empty _ line ∙ sym (and-false _))
  | inr c ↦ rw c (sym (and-true _))
]
scan_branch-is_empty d ignored line s = sym (and-true _)

not_either : (a b c : Bool) → (a && not b && not c) ≡ (a && not (b || c))
not_either a b c = ground arith

scan_lines-is_empty :
    (d : ℕ) (lines : List Line) (s : Scan)
    → is_empty (scan_lines d lines s).lines2invoice
      ≡ (is_empty s.lines2invoice && not (any_to_invoice d lines))
unfolding scan_lines scan_line
scan_lines-is_empty d [] s = sym (and-true _)
scan_lines-is_empty d (line ∷ lines) s =
    scan_lines-is_empty d lines (scan_line d line s)
    ∙ rw (scan_branch-is_empty d (branch line) line s, branch-takes line) (not_either _ _ _)

-- No line of a contract is chosen if and only if the contract is not due.
pub get_lines_to_invoice-is_due :
    (d : ℕ) (lines : List Line)
    → is_empty (get_lines_to_invoice d lines) ≡ not (is_due (compute_recurring_next_date lines) d)
unfolding get_lines_to_invoice
get_lines_to_invoice-is_due d lines =
    scan_lines-is_empty d lines start ∙ ap not (sym (compute_recurring_next_date-is_due d lines))
