-- ===== src/Reports/Reach.antt =====
-- The states that a report can reach.
use projectname.Prelude.{
  sym, ◌∙◌, ◌&&◌, ◌++◌, and_parts, ◌≡◌, refl, subst, Bool, true, false, ◌||◌, not, List, [], ◌∷◌,
  ok, raise_if, check_ran, user_error, attribute_error, if◌then◌else◌, arith,
}
use projectname.Reports.Line.{draft, sale, done, cancel, Report}
use projectname.Reports.Actions.{
  any_report, get_forbidden_state_confirm, needs_account, write_state, action_confirm, action_draft,
  action_cancel, may_not_unlink, unlink_reports,
}

-- One action on some reports that raises nothing.
pub data Action : List Report → List Report → Type 0 where
  confirmed :
      {rs rs' : List Report} (auto_done : Bool)
      → action_confirm auto_done rs ≡ ok rs'
      → Action rs rs'
  redrafted : {rs : List Report} → Action rs (action_draft rs)
  canceled : {rs : List Report} → Action rs (action_cancel rs)

-- An action on some of the reports.
pub data Step : List Report → List Report → Type 0 where
  on :
      (before rs rs' after : List Report)
      → Action rs rs'
      → Step (before ++ (rs ++ after)) (before ++ (rs' ++ after))

pub data Reach (rs : List Report) : List Report → Type 0 where
  here : Reach rs rs
  next : {a b : List Report} → Reach rs a → Step a b → Reach rs b

abbrev pub is_locked : Report → Bool
is_locked r = elim r.state [ done ↦ true | _ ↦ false ]

abbrev pub none_locked : List Report → Bool
none_locked rs = not (any_report is_locked rs)

cancel-none_locked : (rs : List Report) → none_locked (write_state cancel rs) ≡ true
unfolding write_state
cancel-none_locked [] = refl
cancel-none_locked (r ∷ rs) = cancel-none_locked rs

sale-none_locked : (rs : List Report) → none_locked (write_state sale rs) ≡ true
unfolding write_state
sale-none_locked [] = refl
sale-none_locked (r ∷ rs) = sale-none_locked rs

not_locked_again :
    (r : Report) (b : Bool)
    → is_locked r ≡ false
    → is_locked (if b then record r { state = draft } else r) ≡ false
not_locked_again r true h = refl
not_locked_again r false h = h

nor : (a b : Bool) → not (a || b) ≡ true → (a ≡ false) × (not b ≡ true)
nor a b h = (ground arith, ground arith)

draft-none_locked :
    (rs : List Report) → none_locked rs ≡ true → none_locked (action_draft rs) ≡ true
unfolding action_draft
draft-none_locked [] h = refl
draft-none_locked (r ∷ rs) h =
    let (one, others) = nor (is_locked r) (any_report is_locked rs) h in
    rw (not_locked_again r _ one) (draft-none_locked rs others)

confirmed-sale :
    (auto_done : Bool) (rs rs' : List Report)
    → action_confirm auto_done rs ≡ ok rs'
    → write_state sale rs ≡ rs'
unfolding action_confirm
confirmed-sale auto_done rs rs' h =
    let (allowed, rest) =
      check_ran (raise_if (any_report (λ r. get_forbidden_state_confirm r.state) rs) user_error) _
        h in
    let (accounts, rest') =
      check_ran (raise_if (any_report needs_account rs) attribute_error) _ rest in
    let (auto, last) = check_ran (raise_if auto_done attribute_error) _ rest' in cc

Action-none_locked :
    {rs rs' : List Report} → Action rs rs' → none_locked rs ≡ true → none_locked rs' ≡ true
unfolding action_cancel
Action-none_locked (confirmed {rs} {rs'} auto_done e) h =
    subst (λ s. none_locked s ≡ true) (confirmed-sale auto_done rs rs' e) (sale-none_locked rs)
Action-none_locked (redrafted {rs}) h = draft-none_locked rs h
Action-none_locked (canceled {rs}) h = cancel-none_locked rs

append-none_locked :
    (firsts bs : List Report) → none_locked (firsts ++ bs) ≡ (none_locked firsts && none_locked bs)
append-none_locked [] bs = refl
append-none_locked (a ∷ firsts) bs = ground (arith, append-none_locked firsts bs)

Step-none_locked :
    {rs rs' : List Report} → Step rs rs' → none_locked rs ≡ true → none_locked rs' ≡ true
Step-none_locked (on before rs rs' after action) h =
    let (first, others) =
      and_parts (none_locked before) (none_locked (rs ++ after))
        (sym (append-none_locked before (rs ++ after)) ∙ h) in
    let (old, last) =
      and_parts (none_locked rs) (none_locked after) (sym (append-none_locked rs after) ∙ others) in
    append-none_locked before (rs' ++ after)
    ∙ rw (first, append-none_locked rs' after, Action-none_locked action old) last

canceled-may_unlink : (rs : List Report) → any_report may_not_unlink (write_state cancel rs) ≡ false
unfolding write_state
canceled-may_unlink [] = refl
canceled-may_unlink (r ∷ rs) = canceled-may_unlink rs

-- Reports of which none is locked are not locked by any sequence of actions, each on some of
-- them, that raise nothing,
-- and after each such sequence they can be deleted once they are canceled.
pub Reach-none_locked :
    {rs rs' : List Report}
    → none_locked rs ≡ true
    → Reach rs rs'
    → (none_locked rs' ≡ true) × (unlink_reports (action_cancel rs') ≡ ok tt)
unfolding action_cancel unlink_reports
Reach-none_locked h here = (h, rw (canceled-may_unlink _) refl)
Reach-none_locked h (next path step) =
    (Step-none_locked step (Reach-none_locked h path).0, rw (canceled-may_unlink _) refl)
