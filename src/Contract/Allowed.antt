-- ===== src/Contract/Allowed.antt =====
-- What may be done with a contract line: the expansion of the table of criteria and its lookup, of
-- local/Contract/models/contract_line_constraints.py, and `_compute_allowed` of
-- local/Contract/models/contract_line.py.
pub mod Rules
use projectname.Prelude.{
  ℕ, Bool, true, false, Option, none, some, List, [], ◌∷◌, ◌++◌, ltb, not, ◌&&◌, if◌then◌else◌,
  is_set,
}
use projectname.Contract.Line.{Line}
use projectname.Contract.Criteria.{
  When, before, during, after, Criteria, Pattern, Allowed, criterion, allowed,
  criteria_allowed_rows,
}

abbrev bools : Option Bool → List Bool
bools none = true ∷ false ∷ []
bools (some b) = b ∷ []

abbrev whens : Option When → List When
whens none = before ∷ during ∷ after ∷ []
whens (some w) = w ∷ []

-- `for x in xs` in a product
infixl 5 ◌>>=◌
abbrev ◌>>=◌ : {A B : Type 0} → List A → (A → List B) → List B
[] >>= f = []
(x ∷ xs) >>= f = f x ++ (xs >>= f)

-- The product of the variations of the seven attributes.
unfoldable pub expand_none : Pattern → List Criteria
expand_none c = do
  w ← whens c.when
  e ← bools c.has_date_end
  i ← bools c.has_last_date_invoiced
  a ← bools c.is_auto_renew
  s ← bools c.has_successor
  p ← bools c.predecessor_has_successor
  k ← bools c.canceled
  criterion w e i a s p k ∷ []

abbrev same_when : When → When → Bool
same_when before before = true
same_when during during = true
same_when after after = true
same_when _ _ = false

abbrev same_bool : Bool → Bool → Bool
same_bool true b = b
same_bool false b = not b

-- equality of two keys of the dictionary
unfoldable pub same_criteria : Criteria → Criteria → Bool
same_criteria c d =
    same_when c.when d.when
    && same_bool c.has_date_end d.has_date_end
    && same_bool c.has_last_date_invoiced d.has_last_date_invoiced
    && same_bool c.is_auto_renew d.is_auto_renew
    && same_bool c.has_successor d.has_successor
    && same_bool c.predecessor_has_successor d.predecessor_has_successor
    && same_bool c.canceled d.canceled

-- A dictionary, by what a lookup finds.
abbrev pub Matrix : Type 0
Matrix = Criteria → Option Allowed

assign_all : Matrix → List Criteria → Allowed → Matrix
unfolding same_criteria
assign_all matrix [] value = matrix
assign_all matrix (c ∷ cs) value =
    assign_all (λ k. if same_criteria k c then some value else matrix k) cs value

-- `_add`
unfoldable pub add : Matrix → Pattern → Allowed → Matrix
unfolding assign_all expand_none
add matrix pattern value = assign_all matrix (expand_none pattern) value

unfoldable pub add_rows : Matrix → List (Pattern × Allowed) → Matrix
unfolding add
add_rows matrix [] = matrix
add_rows matrix ((pattern, value) ∷ rows) = add_rows (add matrix pattern value) rows

unfoldable pub criteria_allowed_dict : Matrix
unfolding add_rows
criteria_allowed_dict = add_rows (λ k. none) criteria_allowed_rows

-- `date_end and today > date_end`
unfoldable pub has_ended : ℕ → Option ℕ → Bool
has_ended today none = false
has_ended today (some date_end) = ltb date_end today

unfoldable pub compute_when : ℕ → ℕ → Option ℕ → When
unfolding has_ended
compute_when today date_start date_end =
    if ltb today date_start then before else if has_ended today date_end then after else during

-- The successor of the predecessor, `none` where there is no predecessor, is the caller's lookup.
unfoldable pub compute_criteria : ℕ → Line → Option ℕ → Criteria
unfolding compute_when
compute_criteria today rec predecessor_successor = record {
  when = compute_when today rec.date_start rec.date_end;
  has_date_end = is_set rec.date_end;
  has_last_date_invoiced = is_set rec.last_date_invoiced;
  is_auto_renew = rec.is_auto_renew;
  has_successor = is_set rec.successor_contract_line_id;
  predecessor_has_successor = is_set predecessor_successor;
  canceled = rec.is_canceled;
}

-- `none` is the False of a combination that the table does not have.
unfoldable pub get_allowed : ℕ → Line → Option ℕ → Option Allowed
get_allowed today rec predecessor_successor =
    criteria_allowed_dict (compute_criteria today rec predecessor_successor)

abbrev pub nothing_allowed : Allowed
nothing_allowed = allowed false false false false false

abbrev pub or_nothing : Option Allowed → Allowed
or_nothing none = nothing_allowed
or_nothing (some a) = a

-- `_compute_allowed`. Where the table has no entry the five fields are not assigned, and stay
-- False.
unfoldable pub compute_allowed : ℕ → Bool → Line → Option ℕ → Allowed
compute_allowed today is_terminated rec predecessor_successor =
    if is_terminated
    then nothing_allowed
    else or_nothing (get_allowed today rec predecessor_successor)
