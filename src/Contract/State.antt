-- ===== src/Contract/State.antt =====
-- The state of a contract line: `_compute_state`, `_compute_termination_notice_date`,
-- `_compute_create_invoice_visibility`, `_get_state_domain` and `_search_state` of
-- local/Contract/models/contract_line.py.
pub mod Progress
pub mod Search
pub mod Asked
pub mod Union
use projectname.Prelude.{
  ℕ, Bool, true, false, not, ◌&&◌, ◌||◌, Option, none, some, List, [], ◌∷◌, ◌++◌, ◌==◌, ltb, leb,
  both_le, both_lt, if◌then◌else◌, is_set,
}
use projectname.Contract.Calendar.{Calendar}
use projectname.Contract.Line.{Line, is_recurring_note}
use projectname.Contract.Period.{get_relative_delta}

pub data State : Type 0 where
  upcoming in_progress to_renew upcoming_close closed canceled : State

-- `none` is a state that the method does not assign, `some none` is False.
unfoldable pub compute_state : ℕ → Line → Option (Option State)
compute_state today rec =
    if is_set rec.display_type
    then some none
    else if rec.is_canceled
    then some (some canceled)
    else if ltb today rec.date_start
    then some (some upcoming)
    else if leb rec.date_start today
        && (not (is_set rec.date_end) || both_le (some today) rec.date_end)
    then some (
        some (
          if both_lt rec.termination_notice_date (some today)
            && not rec.is_auto_renew
            && not rec.manual_renew_needed
          then upcoming_close
          else in_progress))
    else if both_lt rec.date_end (some today)
    then some (
        some (
          if rec.manual_renew_needed && not (is_set rec.successor_contract_line_id)
            || rec.is_auto_renew
          then to_renew
          else closed))
    else none

-- Where the line has no end, no date is assigned.
unfoldable pub compute_termination_notice_date : Calendar → Line → Line
compute_termination_notice_date cal rec = elim rec.date_end [
  | none ↦ record rec { termination_notice_date = none }
  | some date_end ↦ record rec {
    termination_notice_date = some (
        cal.minus date_end
          (get_relative_delta rec.termination_notice_rule_type rec.termination_notice_interval));
  }
]

unfoldable pub compute_create_invoice_visibility : ℕ → Line → Bool
compute_create_invoice_visibility today rec =
    if (not (is_set rec.display_type) || is_recurring_note rec) && leb rec.date_start today
    then is_set rec.recurring_next_date
    else false

-- The fields and the conditions that a search domain of the addon names.
pub data DateField : Type 0 where
  date_start date_end termination_notice_date : DateField

pub data Flag : Type 0 where
  is_canceled is_auto_renew manual_renew_needed : Flag

pub data Comparator : Type 0 where
  gt le ge lt : Comparator

-- `(f, op, today)`, `('date_end', '=', False)`, `(flag, '=', b)`, the two tests of
-- `successor_contract_line_id` against False, `('display_type', '!=', False)` and
-- `('id', '=', False)`.
pub data Leaf : Type 0 where
  date_is : DateField → Comparator → ℕ → Leaf
  date_end_unset : Leaf
  flag_is : Flag → Bool → Leaf
  successor_is_set : Bool → Leaf
  display_type_is_set : Leaf
  no_id : Leaf

-- An item of a domain, a list in prefix notation.
pub data Token : Type 0 where
  both either : Token
  leaf : Leaf → Token

unfoldable pub get_state_domain : ℕ → Option State → List Token
get_state_domain today (some upcoming) =
    both ∷ leaf (date_is date_start gt today) ∷ leaf (flag_is is_canceled false) ∷ []
get_state_domain today (some in_progress) =
    both
    ∷ both
    ∷ both
    ∷ leaf (date_is date_start le today)
    ∷ leaf (flag_is is_canceled false)
    ∷ either
    ∷ leaf (date_is date_end ge today)
    ∷ leaf date_end_unset
    ∷ either
    ∷ leaf (flag_is is_auto_renew true)
    ∷ both
    ∷ leaf (flag_is is_auto_renew false)
    ∷ leaf (date_is termination_notice_date gt today)
    ∷ []
get_state_domain today (some to_renew) =
    both
    ∷ both
    ∷ leaf (flag_is is_canceled false)
    ∷ leaf (date_is date_end lt today)
    ∷ either
    ∷ both
    ∷ leaf (flag_is manual_renew_needed true)
    ∷ leaf (successor_is_set false)
    ∷ leaf (flag_is is_auto_renew true)
    ∷ []
get_state_domain today (some upcoming_close) =
    both
    ∷ both
    ∷ both
    ∷ both
    ∷ both
    ∷ leaf (date_is date_start le today)
    ∷ leaf (flag_is is_auto_renew false)
    ∷ leaf (flag_is manual_renew_needed false)
    ∷ leaf (flag_is is_canceled false)
    ∷ leaf (date_is termination_notice_date lt today)
    ∷ leaf (date_is date_end ge today)
    ∷ []
get_state_domain today (some closed) =
    both
    ∷ both
    ∷ both
    ∷ leaf (flag_is is_canceled false)
    ∷ leaf (date_is date_end lt today)
    ∷ leaf (flag_is is_auto_renew false)
    ∷ either
    ∷ both
    ∷ leaf (flag_is manual_renew_needed true)
    ∷ leaf (successor_is_set true)
    ∷ leaf (flag_is manual_renew_needed false)
    ∷ []
get_state_domain today (some canceled) = leaf (flag_is is_canceled true) ∷ []
get_state_domain today none = leaf display_type_is_set ∷ []

-- What `_search_state` is called with: `=`, `!=`, `in` and `not in`, and a state or states. `none`
-- is False.
pub data Query : Type 0 where
  equal not_equal : Option State → Query
  among not_among : List (Option State) → Query

state_number : Option State → ℕ
state_number none = 0
state_number (some upcoming) = 1
state_number (some in_progress) = 2
state_number (some to_renew) = 3
state_number (some upcoming_close) = 4
state_number (some closed) = 5
state_number (some canceled) = 6

abbrev pub states : List (Option State)
states =
    some upcoming
    ∷ some in_progress
    ∷ some to_renew
    ∷ some upcoming_close
    ∷ some closed
    ∷ some canceled
    ∷ none
    ∷ []

unfoldable pub is_among : Option State → List (Option State) → Bool
unfolding state_number
is_among s [] = false
is_among s (v ∷ vs) = (state_number s == state_number v) || is_among s vs

-- the states that are not among those given
unfoldable pub others : List (Option State) → List (Option State) → List (Option State)
others vs [] = []
others vs (s ∷ ss) = let rest = others vs ss in if is_among s vs then rest else s ∷ rest

-- `if domain: domain.insert(0, '|')`, then `domain.extend(more)`
abbrev pub extend : List Token → List Token → List Token
extend [] more = more
extend domain more = either ∷ (domain ++ more)

unfoldable pub extend_all : ℕ → List Token → List (Option State) → List Token
extend_all today domain [] = domain
extend_all today domain (s ∷ ss) = extend_all today (extend domain (get_state_domain today s)) ss

abbrev no_line_or : List (Option State) → List Token → List Token
no_line_or [] domain = leaf no_id ∷ []
no_line_or (s ∷ ss) domain = domain

-- The sets `value` and `states` are equal where no state is left.
unfoldable pub search_state : ℕ → Query → List Token
search_state today (equal v) = get_state_domain today v
search_state today (not_equal v) = extend_all today [] (others (v ∷ []) states)
search_state today (among vs) = extend_all today [] vs
search_state today (not_among vs) =
    no_line_or (others vs states) (extend_all today [] (others vs states))
