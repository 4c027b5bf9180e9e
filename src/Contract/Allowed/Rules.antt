-- ===== src/Contract/Allowed/Rules.antt =====
-- The table of criteria against the rules that it writes out case by case.
use projectname.Contract.Line.{Line}
use projectname.Prelude.{
  ℕ, is_set, subst, Bool, true, false, Option, none, some, ◌≡◌, refl, arith, ◌&&◌, ◌||◌, not,
  if◌then◌else◌,
}
use projectname.Contract.Criteria.{
  When, before, during, after, Criteria, Allowed, criterion, allowed,
}
use projectname.Contract.Allowed.{
  criteria_allowed_dict, same_bool, or_nothing, compute_allowed, get_allowed, compute_criteria,
}

-- A canceled line can only be un-canceled, and only while its predecessor has no successor.
-- No auto-renew line has a successor, and no line without an end has a successor or renews.
-- An ended line cannot be suspended or canceled, an invoiced line cannot be canceled.
abbrev pub rules : Criteria → Option Allowed
rules c =
    if c.canceled
    then some (allowed false false false false (not c.predecessor_has_successor))
    else if (c.is_auto_renew && c.has_successor)
        || not c.has_date_end && (c.is_auto_renew || c.has_successor)
    then none
    else for_when c.when
  where
    for_when : When → Option Allowed
    for_when after =
        if c.has_date_end
        then some (
            allowed (not c.is_auto_renew && not c.has_successor) false (not c.has_successor) false
              false)
        else none
    for_when _ = some (
        allowed (c.has_date_end && not c.is_auto_renew && not c.has_successor) (not c.has_successor)
          true (not c.has_last_date_invoiced) false)

-- A check of both values of a Boolean.
for_both : (Bool → Bool) → Bool
for_both f = f true && f false

for_both_sound : (f : Bool → Bool) → for_both f ≡ true → (b : Bool) → f b ≡ true
unfolding for_both
for_both_sound f h true = ground arith
for_both_sound f h false = ground arith

agree : Option Allowed → Option Allowed → Bool
agree none none = true
agree (some a) (some b) =
    same_bool a.plan_successor b.plan_successor
    && same_bool a.stop_plan_successor b.stop_plan_successor
    && same_bool a.stop b.stop
    && same_bool a.cancel b.cancel
    && same_bool a.uncancel b.uncancel
agree _ _ = false

agree_sound : (x y : Option Allowed) → agree x y ≡ true → x ≡ y
unfolding agree
agree_sound none none h = refl
agree_sound none (some b) h = cc
agree_sound (some a) none h = cc
agree_sound (some a) (some b) h = ground arith

agrees_at : Criteria → Bool
agrees_at c = agree (criteria_allowed_dict c) (rules c)

table :
    (w : When)
    → for_both (λ e. for_both (λ i.
      for_both
        (λ a. for_both (λ s. for_both (λ p. for_both (λ k. agrees_at (criterion w e i a s p k)))))))
      ≡ true
unfolding criteria_allowed_dict agrees_at agree for_both
table before = refl
table during = refl
table after = refl

-- For every combination of the seven criteria, the expanded table holds what the rules say, and
-- has no entry exactly where the rules have none.
pub criteria_allowed_dict-eq-rules : (c : Criteria) → criteria_allowed_dict c ≡ rules c
unfolding agrees_at
criteria_allowed_dict-eq-rules c = agree_sound _ _ (
    for_both_sound _
      (for_both_sound _
        (for_both_sound _
          (for_both_sound _
            (for_both_sound _ (for_both_sound _ (table c.when) c.has_date_end)
              c.has_last_date_invoiced)
            c.is_auto_renew)
          c.has_successor)
        c.predecessor_has_successor)
      c.canceled)

rules_alone :
    (c : Criteria) → (or_nothing (rules c)).plan_successor ≡ true → c.has_successor ≡ false
rules_alone c h = ground arith

-- A successor can be planned only for a line that has none.
pub plan_successor_alone :
    (c : Criteria)
    → (or_nothing (criteria_allowed_dict c)).plan_successor ≡ true
    → c.has_successor ≡ false
plan_successor_alone c h = rules_alone c (
    subst (λ (o : Option Allowed). (or_nothing o).plan_successor ≡ true)
      (criteria_allowed_dict-eq-rules c) h)

-- The same of the computed field.
pub compute_allowed_alone :
    (today : ℕ) (over : Bool) (rec : Line) (p : Option ℕ)
    → (compute_allowed today over rec p).plan_successor ≡ true
    → is_set rec.successor_contract_line_id ≡ false
unfolding compute_allowed get_allowed compute_criteria
compute_allowed_alone today true rec p h = cc
compute_allowed_alone today false rec p h = plan_successor_alone (compute_criteria today rec p) h
