-- ===== src/Contract/Invariant/Reach.antt =====
-- Sequences of operations: what any of them, in any order and on any days, leaves in the store.
use projectname.Prelude.{ℕ, ◌≡◌, Bool, Option, List, ok}
use projectname.Contract.Store.{Store, Env}
use projectname.Contract.Store.Sound.{IsSound}
use projectname.Contract.Lifecycle.Cancel.{cancel, uncancel}
use projectname.Contract.Lifecycle.Stop.{stop}
use projectname.Contract.Lifecycle.Successor.{plan_successor}
use projectname.Contract.Lifecycle.Suspend.{stop_plan_successor}
use projectname.Contract.Lifecycle.Renew.{renew}
use projectname.Contract.Invoicing.{terminate_contract, cancel_contract_termination}
use projectname.Contract.Invoicing.Terminated.{
  terminate_contract-IsSound, cancel_contract_termination-IsSound,
}
use projectname.Contract.Invariant.Cancel.{cancel-IsSound, uncancel-IsSound}
use projectname.Contract.Invariant.Stop.{stop-IsSound}
use projectname.Contract.Invariant.Successor.{plan_successor-IsSound}
use projectname.Contract.Invariant.Suspend.{stop_plan_successor-IsSound}
use projectname.Contract.Invariant.Renew.{renew-IsSound}

-- One operation that does not raise, on any lines, with any arguments and on any day.
pub data Step (st st' : Store) : Type 0 where
  canceled : (env : Env) (ids : List ℕ) → cancel env ids st ≡ ok st' → Step st st'
  uncanceled :
      (env : Env) (ids : List ℕ) (d : Option ℕ) → uncancel env ids d st ≡ ok st' → Step st st'
  stopped :
      (env : Env) (ids : List ℕ) (d : ℕ) (manual post : Bool)
      → stop env ids d manual post st ≡ ok st'
      → Step st st'
  planned :
      (env : Env) (ids : List ℕ) (start : ℕ) (end : Option ℕ) (auto : Bool) (d : Option ℕ)
      (post : Bool) (new : List ℕ)
      → plan_successor env ids start end auto d post st ≡ ok (new, st')
      → Step st st'
  suspended :
      (env : Env) (ids : List ℕ) (a b : ℕ) (auto : Bool) (new : List ℕ)
      → stop_plan_successor env ids a b auto st ≡ ok (new, st')
      → Step st st'
  terminated :
      (env : Env) (contract reason : ℕ) (comment : Option ℕ) (date : ℕ)
      → terminate_contract env contract reason comment date st ≡ ok st'
      → Step st st'
  termination_canceled :
      (contract : ℕ) → cancel_contract_termination contract st ≡ ok st' → Step st st'
  renewed : (env : Env) (ids new : List ℕ) → renew env ids st ≡ ok (new, st') → Step st st'

pub data Reach (st : Store) : Store → Type 0 where
  here : Reach st st
  next : {a b : Store} → Reach st a → Step a b → Reach st b

Step-IsSound : {st st' : Store} → Step st st' → IsSound st → IsSound st'
Step-IsSound (canceled env ids h) = cancel-IsSound env ids _ _ h
Step-IsSound (uncanceled env ids d h) = uncancel-IsSound env ids d _ _ h
Step-IsSound (stopped env ids d manual post h) = stop-IsSound env ids d manual post _ _ h
Step-IsSound (planned env ids start end auto d post new h) =
    plan_successor-IsSound env ids start end auto d post _ new _ h
Step-IsSound (suspended env ids a b auto new h) =
    stop_plan_successor-IsSound env ids a b auto _ new _ h
Step-IsSound (terminated env c reason comment d h) =
    terminate_contract-IsSound env c reason comment d _ _ h
Step-IsSound (termination_canceled c h) = cancel_contract_termination-IsSound c _ _ h
Step-IsSound (renewed env ids new h) = renew-IsSound env ids _ new _ h

-- From a sound store, whatever operations are done, in any order and on any days, the store stays
-- sound: ids from `next_id` on are free, and each line that names a successor has an end date, and
-- the successor exists, names the line as its predecessor and starts after that end.
pub Reach-IsSound : {st st' : Store} → IsSound st → Reach st st' → IsSound st'
Reach-IsSound v here = v
Reach-IsSound v (next r s) = Step-IsSound s (Reach-IsSound v r)
