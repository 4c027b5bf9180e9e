-- ===== src/Contract/Invariant/Suspend.antt =====
-- `stop_plan_successor`, under the invariant of the store.
use projectname.Prelude.{
  ℕ, ◌≡◌, subst, Bool, true, false, Option, none, List, [], ◌∷◌, ok, ran, check_ran, leb, inl, inr,
  Bool-cases,
}
use projectname.Contract.Calendar.{days}
use projectname.Contract.Line.{Line}
use projectname.Contract.Store.{Store, Env, line_suspended, browse, message_post}
use projectname.Contract.Store.Sound.{IsSound}
use projectname.Contract.Lifecycle.Cancel.{require_all}
use projectname.Contract.Lifecycle.Stop.{stop}
use projectname.Contract.Lifecycle.Suspend.{
  delay, delay_delta, resumed_end, stop_and_resume, suspend, suspend_each, stop_plan_successor,
  ends_before,
}
use projectname.Contract.Invariant.Cancel.{message-IsSound}
use projectname.Contract.Invariant.Stop.{stop-IsSound, delay-IsSound}
use projectname.Contract.Invariant.Successor.{plan_successor-IsSound, ok_pair}

-- The store that a call leaves beside its value.
abbrev Left : {A : Type 0} → A × Store → Type 0
Left r = IsSound r.1

stop_and_resume-IsSound :
    (env : Env) (a b : ℕ) (auto : Bool) (i : ℕ) (end : Option ℕ) (st : Store) (new : List ℕ)
    (st' : Store)
    → stop_and_resume env a b auto i end st ≡ ok (new, st')
    → IsSound st
    → IsSound st'
unfolding stop_and_resume
stop_and_resume-IsSound env a b auto i end st new st' h v =
    let s = ran (stop env (i ∷ []) (env.calendar.minus a (days 1)) true false st) _ h in
    let stopped =
      stop-IsSound env (i ∷ []) (env.calendar.minus a (days 1)) true false st s.value s.called v in
    plan_successor-IsSound env (i ∷ []) (env.calendar.plus b (days 1)) end auto none false s.value
      new st' s.rest stopped

suspend-IsSound :
    (env : Env) (a b : ℕ) (auto : Bool) (i : ℕ) (rec : Line) (st : Store) (new : List ℕ)
    (st' : Store)
    → suspend env a b auto i rec st ≡ ok (new, st')
    → IsSound st
    → IsSound st'
unfolding suspend
suspend-IsSound env a b auto i rec st new st' h v = elim (Bool-cases (leb a rec.date_start)) [
  | inl within ↦
      let h' = rw within at h in
      let d = ran (delay env (delay_delta rec.date_start a b) i st) _ h' in
      subst Left (ok_pair d.rest)
        (delay-IsSound env (delay_delta rec.date_start a b) i st d.value d.called v)
  | inr earlier ↦ elim (Bool-cases (ends_before rec.date_end a)) [
    | inl over ↦
        let h' = rw (earlier, over) at h in
        let s = ran (stop env (i ∷ []) a false false st) _ h' in
        subst Left (ok_pair s.rest) (stop-IsSound env (i ∷ []) a false false st s.value s.called v)
    | inr running ↦
        stop_and_resume-IsSound env a b auto i (resumed_end env rec.date_end a b) st new st'
          (rw (earlier, running) at h) v
  ]
]

suspend_each-IsSound :
    (env : Env) (a b : ℕ) (auto : Bool) (ids : List ℕ) (st : Store) (new : List ℕ) (st' : Store)
    → suspend_each env a b auto ids st ≡ ok (new, st')
    → IsSound st
    → IsSound st'
unfolding suspend_each
suspend_each-IsSound env a b auto [] st new st' h v = subst Left (ok_pair h) v
suspend_each-IsSound env a b auto (i ∷ ids) st new st' h v =
    let r = ran (browse st i) _ h in
    let rec = r.value in
    let s = ran (suspend env a b auto i rec st) _ r.rest in
    let posted = message_post rec.contract_id (line_suspended i a b) s.value.1 in
    let e = ran (suspend_each env a b auto ids posted) _ s.rest in
    let one = suspend-IsSound env a b auto i rec st s.value.0 s.value.1 s.called v in
    let all =
      suspend_each-IsSound env a b auto ids posted e.value.0 e.value.1 e.called
        (message-IsSound rec.contract_id (line_suspended i a b) s.value.1 one) in
    subst Left (ok_pair e.rest) all

pub stop_plan_successor-IsSound :
    (env : Env) (ids : List ℕ) (a b : ℕ) (auto : Bool) (st : Store) (new : List ℕ) (st' : Store)
    → stop_plan_successor env ids a b auto st ≡ ok (new, st')
    → IsSound st
    → IsSound st'
unfolding stop_plan_successor
stop_plan_successor-IsSound env ids a b auto st new st' h v =
    let (allowed, each) = check_ran (require_all env (λ x. x.stop_plan_successor) ids st) _ h in
    suspend_each-IsSound env a b auto ids st new st' each v
