-- ===== src/Contract/State/Search.antt =====
-- The lines that a search by state finds. How Odoo reads a domain is not code of the repository:
-- it is a parameter, whose law is the documented prefix notation.
use projectname.Prelude.{
  ℕ, Bool, true, false, not, ◌&&◌, ◌||◌, Option, none, some, List, [], ◌∷◌, ◌++◌, both_le, both_lt,
  is_set, ◌≡◌, refl, arith, ◌≤◌, Option-cases, inl, inr, ◌∙◌,
}
use projectname.Contract.Line.{Line}
use projectname.Contract.State.{
  State, upcoming, in_progress, to_renew, upcoming_close, closed, canceled, compute_state,
  DateField, Flag, Comparator, gt, le, ge, lt, Leaf, date_is, date_end_unset, flag_is,
  successor_is_set, display_type_is_set, no_id, Token, both, either, leaf, get_state_domain,
}

-- A condition as a tree, and its tokens.
pub data Condition : Type 0 where
  test : Leaf → Condition
  all_of any_of : Condition → Condition → Condition

abbrev pub tokens : Condition → List Token
tokens (test l) = leaf l ∷ []
tokens (all_of c d) = both ∷ (tokens c ++ tokens d)
tokens (any_of c d) = either ∷ (tokens c ++ tokens d)

abbrev date_of : DateField → Line → Option ℕ
date_of DateField.date_start rec = some rec.date_start
date_of DateField.date_end rec = rec.date_end
date_of DateField.termination_notice_date rec = rec.termination_notice_date

abbrev flag_of : Flag → Line → Bool
flag_of Flag.is_canceled rec = rec.is_canceled
flag_of Flag.is_auto_renew rec = rec.is_auto_renew
flag_of Flag.manual_renew_needed rec = rec.manual_renew_needed

-- A date that is not set is NULL, for which no comparison holds.
abbrev compares : Comparator → Option ℕ → ℕ → Bool
compares gt d v = both_lt (some v) d
compares le d v = both_le d (some v)
compares ge d v = both_le (some v) d
compares lt d v = both_lt d (some v)

abbrev same_bool : Bool → Bool → Bool
same_bool true b = b
same_bool false b = not b

abbrev pub holds_leaf : Leaf → Line → Bool
holds_leaf (date_is f op v) rec = compares op (date_of f rec) v
holds_leaf date_end_unset rec = not (is_set rec.date_end)
holds_leaf (flag_is f b) rec = same_bool b (flag_of f rec)
holds_leaf (successor_is_set b) rec = same_bool b (is_set rec.successor_contract_line_id)
holds_leaf display_type_is_set rec = is_set rec.display_type
holds_leaf no_id rec = false

abbrev pub holds : Condition → Line → Bool
holds (test l) rec = holds_leaf l rec
holds (all_of c d) rec = holds c rec && holds d rec
holds (any_of c d) rec = holds c rec || holds d rec

-- Which records a domain selects.
pub record DomainSearch : Type 0 where
  pub matches : List Token → Line → Bool
  pub prefix_notation : (c : Condition) (rec : Line) → matches (tokens c) rec ≡ holds c rec

abbrev flag : Flag → Bool → Condition
flag f b = test (flag_is f b)

abbrev date : DateField → Comparator → ℕ → Condition
date f op today = test (date_is f op today)

-- The tree of each state's domain.
abbrev pub condition : ℕ → State → Condition
condition today upcoming = all_of (date DateField.date_start gt today) (flag Flag.is_canceled false)
condition today in_progress =
    all_of
      (all_of (all_of (date DateField.date_start le today) (flag Flag.is_canceled false))
        (any_of (date DateField.date_end ge today) (test date_end_unset)))
      (any_of (flag Flag.is_auto_renew true)
        (all_of (flag Flag.is_auto_renew false) (date DateField.termination_notice_date gt today)))
condition today to_renew =
    all_of (all_of (flag Flag.is_canceled false) (date DateField.date_end lt today)) (
      any_of (all_of (flag Flag.manual_renew_needed true) (test (successor_is_set false)))
        (flag Flag.is_auto_renew true))
condition today upcoming_close =
    all_of
      (all_of
        (all_of
          (all_of (all_of (date DateField.date_start le today) (flag Flag.is_auto_renew false))
            (flag Flag.manual_renew_needed false))
          (flag Flag.is_canceled false))
        (date DateField.termination_notice_date lt today))
      (date DateField.date_end ge today)
condition today closed =
    all_of
      (all_of (all_of (flag Flag.is_canceled false) (date DateField.date_end lt today))
        (flag Flag.is_auto_renew false))
      (any_of (all_of (flag Flag.manual_renew_needed true) (test (successor_is_set true)))
        (flag Flag.manual_renew_needed false))
condition today canceled = flag Flag.is_canceled true

pub tokens-condition :
    (today : ℕ) (s : State) → tokens (condition today s) ≡ get_state_domain today (some s)
unfolding get_state_domain
tokens-condition today upcoming = refl
tokens-condition today in_progress = refl
tokens-condition today to_renew = refl
tokens-condition today upcoming_close = refl
tokens-condition today closed = refl
tokens-condition today canceled = refl

abbrev pub same_state : State → State → Bool
same_state upcoming upcoming = true
same_state in_progress in_progress = true
same_state to_renew to_renew = true
same_state upcoming_close upcoming_close = true
same_state closed closed = true
same_state canceled canceled = true
same_state _ _ = false

abbrev pub is_state : Option (Option State) → State → Bool
is_state (some (some s)) t = same_state s t
is_state _ t = false

-- A line in progress whose renewal is not automatic and whose notice date is not in the future: it
-- has none, or it is today, or it is past; and a line that is to close and has no end.
abbrev pub missed : ℕ → State → Line → Bool
missed today in_progress rec =
    not rec.is_auto_renew && not (both_lt (some today) rec.termination_notice_date)
missed today upcoming_close rec = not (is_set rec.date_end)
missed today _ rec = false

-- The end date, where it is set, is not before the start.
abbrev pub EndsAfterStart : Line → Option ℕ → Type 0
EndsAfterStart rec none = Unit
EndsAfterStart rec (some e) = rec.date_start ≤ e

holds-condition :
    (today : ℕ) (s : State) (rec : Line)
    → rec.display_type ≡ none
    → EndsAfterStart rec rec.date_end
    → holds (condition today s) rec
      ≡ (is_state (compute_state today rec) s && not (missed today s rec))
unfolding compute_state
holds-condition today upcoming rec h v = elim (Option-cases rec.date_end) [
  | inl open_end ↦ elim (Option-cases rec.termination_notice_date) [
    | inl unset ↦ ground arith
    | inr (n, en) ↦ ground arith
  ]
  | inr (m, em) ↦ elim (Option-cases rec.termination_notice_date) [
    | inl unset ↦ ground arith
    | inr (n, en) ↦ ground arith
  ]
]
holds-condition today _ rec h v = elim (Option-cases rec.date_end) [
  | inl open_end ↦ elim (Option-cases rec.termination_notice_date) [
    | inl unset ↦ ground arith
    | inr (n, en) ↦ ground arith
  ]
  | inr (m, em) ↦ elim (Option-cases rec.termination_notice_date) [
    | inl unset ↦ ground arith
    | inr (n, en) ↦ ground arith
  ]
]

module _ (search : DomainSearch) where
  -- Of the lines that are no section and no note and that do not end before they start, a search
  -- for a state finds those whose computed state it is, but for the lines that `missed` names: a
  -- line in progress without automatic renewal is found only while its notice date is set and in
  -- the future, and a line to be closed only if it has an end date.
  pub get_state_domain-matches :
      (today : ℕ) (s : State) (rec : Line)
      → rec.display_type ≡ none
      → EndsAfterStart rec rec.date_end
      → search.matches (get_state_domain today (some s)) rec
        ≡ (is_state (compute_state today rec) s && not (missed today s rec))
  get_state_domain-matches today s rec h v =
      rw (← tokens-condition today s)
        (search.prefix_notation (condition today s) rec ∙ holds-condition today s rec h v)
