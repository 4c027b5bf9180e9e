-- ===== src/Contract/Invoicing/Terminated.antt =====
-- The termination of a contract: the invariant of the store, and what may no longer be done.
use projectname.Prelude.{
  ℕ, ◌≡◌, refl, sym, ap, subst, Bool, true, false, not, Option, none, some, List, [], ◌∷◌, ok, err,
  arith, ran, check_ran, raise_if, user_error, validation_error,
}
use projectname.Contract.Line.{Line}
use projectname.Contract.Allowed.{compute_allowed, nothing_allowed}
use projectname.Contract.Store.{
  Contract, Store, Env, find_contract, put_contract, allowed_for, or_missing, browse, terminated,
}
use projectname.Contract.Store.Sound.{IsSound}
use projectname.Contract.Store.Writes.{ok_store}
use projectname.Contract.Lifecycle.Cancel.{require_all, cancel, uncancel}
use projectname.Contract.Lifecycle.Stop.{stop}
use projectname.Contract.Lifecycle.Successor.{create_successor, plan_successor_one, plan_successor}
use projectname.Contract.Lifecycle.Suspend.{stop_plan_successor}
use projectname.Contract.Invariant.Stop.{stop-IsSound}
use projectname.Contract.Invoicing.{
  stop_allowed_lines, write_termination, terminate_contract, cancel_contract_termination,
}

find_contract-put_contract :
    (c old : Contract) (contracts : List Contract)
    → find_contract c.id contracts ≡ some old
    → find_contract c.id (put_contract c contracts) ≡ some c
unfolding find_contract put_contract
find_contract-put_contract c old [] h = cc
find_contract-put_contract c old (d ∷ contracts) h =
    ground (arith, find_contract-put_contract c old contracts)

find_contract-id :
    (i : ℕ) (contracts : List Contract) (c : Contract)
    → find_contract i contracts ≡ some c
    → c.id ≡ i
unfolding find_contract
find_contract-id i [] c h = cc
find_contract-id i (d ∷ contracts) c h = ground (arith, find_contract-id i contracts c)

write_termination-IsSound :
    (i : ℕ) (b : Bool) (reason comment date : Option ℕ) (st st' : Store)
    → write_termination i b reason comment date st ≡ ok st'
    → IsSound st
    → IsSound st'
unfolding write_termination
write_termination-IsSound i b reason comment date st st' h v =
    let a = ran (or_missing (find_contract i st.contracts)) _ h in
    subst IsSound (ok_store a.rest) (record { fresh = v.fresh; all_linked = v.all_linked })

or_missing_found {ℓ} : {A : Type ℓ} (o : Option A) (a : A) → or_missing o ≡ ok a → o ≡ some a
or_missing_found none a h = cc
or_missing_found (some b) a h = cc

write_termination-terminated :
    (i : ℕ) (reason comment date : Option ℕ) (st st' : Store)
    → write_termination i true reason comment date st ≡ ok st'
    → terminated (find_contract i st'.contracts) ≡ true
unfolding write_termination
write_termination-terminated i reason comment date st st' h =
    let a = ran (or_missing (find_contract i st.contracts)) _ h in
    let found = or_missing_found (find_contract i st.contracts) a.value a.called in
    let e = find_contract-id i st.contracts a.value found in
    let c : Contract = record a.value {
      is_terminated = true;
      terminate_reason_id = reason;
      terminate_comment = comment;
      terminate_date = date;
    } in
    subst (λ (t : Store). terminated (find_contract i t.contracts) ≡ true) (ok_store a.rest)
      (subst (λ k. terminated (find_contract k (put_contract c st.contracts)) ≡ true) e
        (ap terminated (
          find_contract-put_contract c a.value st.contracts
            (subst (λ k. find_contract k st.contracts ≡ some a.value) (sym e) found))))

pub cancel_contract_termination-IsSound :
    (contract : ℕ) (st st' : Store)
    → cancel_contract_termination contract st ≡ ok st'
    → IsSound st
    → IsSound st'
unfolding cancel_contract_termination
cancel_contract_termination-IsSound contract st st' h =
    write_termination-IsSound contract false none none none st st' h

module _ (env : Env) (contract reason : ℕ) (comment : Option ℕ) (date : ℕ) (st st' : Store)
    (done : terminate_contract env contract reason comment date st ≡ ok st') where
  pub terminate_contract-IsSound : IsSound st → IsSound st'
  unfolding terminate_contract
  terminate_contract-IsSound v =
      let (permitted, rest) =
        check_ran (raise_if (not env.can_terminate_contract) user_error) _ done in
      let s =
        ran (stop env (stop_allowed_lines env contract st st.lines) date false true st) _ rest in
      write_termination-IsSound contract true (some reason) comment (some date) s.value st' s.rest (
        stop-IsSound env (stop_allowed_lines env contract st st.lines) date false true st s.value
          s.called v)

  terminated_there : terminated (find_contract contract st'.contracts) ≡ true
  unfolding terminate_contract
  terminated_there =
      let (permitted, rest) =
        check_ran (raise_if (not env.can_terminate_contract) user_error) _ done in
      let s =
        ran (stop env (stop_allowed_lines env contract st st.lines) date false true st) _ rest in
      write_termination-terminated contract (some reason) comment (some date) s.value st' s.rest

  nothing_left :
      (later : Env) (rec : Line)
      → rec.contract_id ≡ contract
      → allowed_for later st' rec ≡ nothing_allowed
  unfolding allowed_for compute_allowed
  nothing_left later rec h = rw (h, terminated_there) refl

  -- After the termination of a contract none of its lines may be canceled, uncanceled, stopped,
  -- suspended or given a successor, on any day: each operation on lines of which one of the
  -- contract is the first raises a ValidationError.
  pub terminate_contract-blocks :
      (later : Env) (i : ℕ) (rec : Line) (ids : List ℕ)
      → browse st' i ≡ ok rec
      → rec.contract_id ≡ contract
      → (cancel later (i ∷ ids) st' ≡ err validation_error)
        × ((next_date : Option ℕ) → uncancel later (i ∷ ids) next_date st' ≡ err validation_error)
        × ((d : ℕ) (manual post : Bool)
            → stop later (i ∷ ids) d manual post st' ≡ err validation_error)
        × ((start : ℕ) (end : Option ℕ) (auto : Bool) (next_date : Option ℕ) (post : Bool)
            → plan_successor later (i ∷ ids) start end auto next_date post st'
              ≡ err validation_error)
        × ((susp_start susp_end : ℕ) (auto : Bool)
            → stop_plan_successor later (i ∷ ids) susp_start susp_end auto st'
              ≡ err validation_error)
  unfolding cancel uncancel stop plan_successor plan_successor_one create_successor
      stop_plan_successor require_all
  terminate_contract-blocks later i rec ids found own =
      let none_left = nothing_left later rec own in
      (
        rw (found, none_left) refl,
        (λ next_date. rw (found, none_left) refl),
        (λ d manual post. rw (found, none_left) refl),
        (λ start end auto next_date post. rw (found, none_left) refl),
        (λ susp_start susp_end auto. rw (found, none_left) refl),
      )
