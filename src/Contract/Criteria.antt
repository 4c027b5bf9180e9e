-- ===== src/Contract/Criteria.antt =====
-- The criteria and their table: `Criteria`, `Allowed` and `CRITERIA_ALLOWED_DICT` of
-- local/Contract/models/contract_line_constraints.py. A namedtuple is a record; None in a
-- criterion, which stands for each of its values, is `none`.
use projectname.Prelude.{Bool, true, false, Option, none, some, List, [], ◌∷◌, ◌++◌}

-- 'BEFORE', 'IN' and 'AFTER'
pub data When : Type 0 where
  before during after : When

pub record Criteria : Type 0 where
  pub when : When
  pub has_date_end : Bool
  pub has_last_date_invoiced : Bool
  pub is_auto_renew : Bool
  pub has_successor : Bool
  pub predecessor_has_successor : Bool
  pub canceled : Bool

-- a row's criteria, before the expansion
pub record Pattern : Type 0 where
  pub when : Option When
  pub has_date_end : Option Bool
  pub has_last_date_invoiced : Option Bool
  pub is_auto_renew : Option Bool
  pub has_successor : Option Bool
  pub predecessor_has_successor : Option Bool
  pub canceled : Option Bool

pub record Allowed : Type 0 where
  pub plan_successor : Bool
  pub stop_plan_successor : Bool
  pub stop : Bool
  pub cancel : Bool
  pub uncancel : Bool

abbrev pub criterion : When → Bool → Bool → Bool → Bool → Bool → Bool → Criteria
criterion w e i a s p c = record {
  when = w;
  has_date_end = e;
  has_last_date_invoiced = i;
  is_auto_renew = a;
  has_successor = s;
  predecessor_has_successor = p;
  canceled = c;
}

abbrev criteria :
    Option When
    → Option Bool
    → Option Bool
    → Option Bool
    → Option Bool
    → Option Bool
    → Option Bool
    → Pattern
criteria w e i a s p c = record {
  when = w;
  has_date_end = e;
  has_last_date_invoiced = i;
  is_auto_renew = a;
  has_successor = s;
  predecessor_has_successor = p;
  canceled = c;
}

abbrev pub allowed : Bool → Bool → Bool → Bool → Bool → Allowed
allowed plan stop_plan stop cancel uncancel = record {
  plan_successor = plan;
  stop_plan_successor = stop_plan;
  stop = stop;
  cancel = cancel;
  uncancel = uncancel;
}

abbrev pub not_invoiced_rows : List (Pattern × Allowed)
not_invoiced_rows =
    (
      criteria (some before) (some true) (some false) (some true) (some false) none (some false),
      allowed false true true true false,
    )
    ∷ (
      criteria (some before) (some true) (some false) (some false) (some true) none (some false),
      allowed false false true true false,
    )
    ∷ (
      criteria (some before) (some true) (some false) (some false) (some false) none (some false),
      allowed true true true true false,
    )
    ∷ (
      criteria (some before) (some false) (some false) (some false) (some false) none (some false),
      allowed false true true true false,
    )
    ∷ (
      criteria (some during) (some true) (some false) (some true) (some false) none (some false),
      allowed false true true true false,
    )
    ∷ (
      criteria (some during) (some true) (some false) (some false) (some true) none (some false),
      allowed false false true true false,
    )
    ∷ (
      criteria (some during) (some true) (some false) (some false) (some false) none (some false),
      allowed true true true true false,
    )
    ∷ (
      criteria (some during) (some false) (some false) (some false) (some false) none (some false),
      allowed false true true true false,
    )
    ∷ []

abbrev pub invoiced_rows : List (Pattern × Allowed)
invoiced_rows =
    (
      criteria (some before) (some true) (some true) (some true) (some false) none (some false),
      allowed false true true false false,
    )
    ∷ (
      criteria (some before) (some true) (some true) (some false) (some true) none (some false),
      allowed false false true false false,
    )
    ∷ (
      criteria (some before) (some true) (some true) (some false) (some false) none (some false),
      allowed true true true false false,
    )
    ∷ (
      criteria (some before) (some false) (some true) (some false) (some false) none (some false),
      allowed false true true false false,
    )
    ∷ (
      criteria (some during) (some true) (some true) (some true) (some false) none (some false),
      allowed false true true false false,
    )
    ∷ (
      criteria (some during) (some true) (some true) (some false) (some true) none (some false),
      allowed false false true false false,
    )
    ∷ (
      criteria (some during) (some true) (some true) (some false) (some false) none (some false),
      allowed true true true false false,
    )
    ∷ (
      criteria (some during) (some false) (some true) (some false) (some false) none (some false),
      allowed false true true false false,
    )
    ∷ []

abbrev pub ended_and_canceled_rows : List (Pattern × Allowed)
ended_and_canceled_rows =
    (
      criteria (some after) (some true) none (some true) (some false) none (some false),
      allowed false false true false false,
    )
    ∷ (
      criteria (some after) (some true) none (some false) (some true) none (some false),
      allowed false false false false false,
    )
    ∷ (
      criteria (some after) (some true) none (some false) (some false) none (some false),
      allowed true false true false false,
    )
    ∷ (
      criteria none none none none none (some false) (some true),
      allowed false false false false true,
    )
    ∷ (
      criteria none none none none none (some true) (some true),
      allowed false false false false false,
    )
    ∷ []

abbrev pub criteria_allowed_rows : List (Pattern × Allowed)
criteria_allowed_rows = not_invoiced_rows ++ (invoiced_rows ++ ended_and_canceled_rows)
