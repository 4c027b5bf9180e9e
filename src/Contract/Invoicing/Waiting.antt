-- ===== src/Contract/Invoicing/Waiting.antt =====
-- The loop of `_get_lines_to_invoice`: what a line does to the lines selected and to the section
-- and the note that wait.
use projectname.Prelude.{
  ℕ, ◌≡◌, refl, sym, ◌∙◌, Bool, true, false, ◌&&◌, ◌||◌, Option, none, some, List, [], ◌∷◌, ◌++◌,
  ◌==◌, ==_iff, if◌then◌else◌, Bool-cases, inl, inr,
}
use mathlib.Core.Bool.{or-false, or_assoc}
use projectname.Contract.Line.{Line}
use projectname.Contract.Invoicing.{
  contains, union, union_option, Scan, Branch, section, previous_note, next_note, other_note,
  invoiced, ignored,
}

abbrev pub past_line_section : Branch → Bool → Bool → Bool
past_line_section section can rest = false
past_line_section invoiced can rest = can || rest
past_line_section _ can rest = rest

abbrev pub past_line_note : Branch → Bool → Bool → Bool
past_line_note previous_note can rest = false
past_line_note next_note can rest = false
past_line_note invoiced can rest = can || rest
past_line_note _ can rest = rest

abbrev pub is_line : ℕ → Option Line → Bool
is_line i none = false
is_line i (some rec) = rec.id == i

contains-append :
    (i : ℕ) (lines : List Line) (rec : Line)
    → contains i (lines ++ (rec ∷ [])) ≡ (contains i lines || (rec.id == i))
contains-append i [] rec = or-false (rec.id == i)
contains-append i (l ∷ lines) rec =
    rw (contains-append i lines rec) (sym (or_assoc (l.id == i) (contains i lines) (rec.id == i)))

same_contains :
    (i : ℕ) (lines : List Line) (rec : Line)
    → contains rec.id lines ≡ true
    → contains i lines ≡ (contains i lines || (rec.id == i))
same_contains i lines rec h = elim (Bool-cases (rec.id == i)) [
  | inl same ↦ rw (← (==_iff rec.id i).0 same, h) refl
  | inr other ↦ rw other (sym (or-false (contains i lines)))
]

pub contains-union :
    (i : ℕ) (lines : List Line) (rec : Line)
    → contains i (union lines rec) ≡ (contains i lines || (rec.id == i))
unfolding union
contains-union i lines rec = elim (Bool-cases (contains rec.id lines)) [
  | inl old ↦ rw old (same_contains i lines rec old)
  | inr new ↦ rw new (contains-append i lines rec)
]

pub contains-union_option :
    (i : ℕ) (lines : List Line) (o : Option Line)
    → contains i (union_option lines o) ≡ (contains i lines || is_line i o)
contains-union_option i lines none = sym (or-false (contains i lines))
contains-union_option i lines (some rec) = contains-union i lines rec

-- Whether a line is among those selected, or is the section or the note that waits.
pub record Held (i : ℕ) (s : Scan) (f u n : Bool) : Type 0 where
  pub found : contains i s.lines2invoice ≡ f
  pub in_section : is_line i s.current_section ≡ u
  pub in_note : is_line i s.current_note ≡ n

-- What a line of another id does to it.
abbrev pub after_branch : Branch → Bool → Bool → Bool → Bool → Bool × Bool × Bool
after_branch section can f s n = (f, false, n)
after_branch previous_note can f s n = (f, s, false)
after_branch next_note can f s n = (f, s, false)
after_branch other_note can f s n = (f, s, n)
after_branch invoiced can f s n = if can then ((f || s) || n, false, false) else (f, s, n)
after_branch ignored can f s n = (f, s, n)

-- What is selected in the end, when sections and notes that wait are used or not.
abbrev pub in_the_end : Bool → Bool → Bool × Bool × Bool → Bool
in_the_end section_is_used note_is_used (f, u, n) =
    (f || (u && section_is_used)) || (n && note_is_used)

pub used_branch :
    (b : Branch) (can ss ns f u n : Bool)
    → in_the_end ss ns (after_branch b can f u n)
      ≡ in_the_end (past_line_section b can ss) (past_line_note b can ns) (f, u, n)
used_branch section can ss ns f true n = refl
used_branch section can ss ns f false n = refl
used_branch previous_note can ss ns f u true = refl
used_branch previous_note can ss ns f u false = refl
used_branch next_note can ss ns f u true = refl
used_branch next_note can ss ns f u false = refl
used_branch other_note can ss ns f u n = refl
used_branch invoiced true ss ns true u n = refl
used_branch invoiced true ss ns false true n = refl
used_branch invoiced true ss ns false false true = refl
used_branch invoiced true ss ns false false false = refl
used_branch invoiced false ss ns f u n = refl
used_branch ignored can ss ns f u n = refl

pub nothing_left : (f u n : Bool) → f ≡ in_the_end false false (f, u, n)
nothing_left true u n = refl
nothing_left false true true = refl
nothing_left false true false = refl
nothing_left false false true = refl
nothing_left false false false = refl

pub drop_two : (b : Bool) → ((b || false) || false) ≡ b
drop_two true = refl
drop_two false = refl

pub other_union :
    (i : ℕ) (lines : List Line) (line : Line)
    → (line.id == i) ≡ false
    → contains i (union lines line) ≡ contains i lines
other_union i lines line h = contains-union i lines line ∙ (rw h (or-false (contains i lines)))
