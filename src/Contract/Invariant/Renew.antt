-- ===== src/Contract/Invariant/Renew.antt =====
-- `renew`, under the invariant of the store.
use projectname.Prelude.{
  ℕ, ◌≡◌, refl, subst, Bool, true, false, none, some, List, [], ◌∷◌, ok, ran, if◌then◌else◌, inl,
}
use projectname.Contract.Period.{onchange_date_start}
use projectname.Contract.Checks.{Field, has_field}
use projectname.Contract.Store.{
  Store, Env, line_renewed, browse, write_line, find_contract, or_missing,
}
use projectname.Contract.Store.Laws.{SameLinks}
use projectname.Contract.Store.Sound.{IsSound, end_written}
use projectname.Contract.Store.Writes.{browse_found, write_line-IsSound, find_line_self}
use projectname.Contract.Lifecycle.Stop.{stop}
use projectname.Contract.Lifecycle.Successor.{plan_successor_one}
use projectname.Contract.Lifecycle.Renew.{
  day_after, end_of, get_renewal_new_date_end, renew_create_line, renew_extend_line, renew_one,
  renew,
}
use projectname.Contract.Invariant.Cancel.{message-IsSound, write_same}
use projectname.Contract.Invariant.Stop.{stop-IsSound}
use projectname.Contract.Invariant.Successor.{plan_successor_one-IsSound, ok_pair}

abbrev Left : {A : Type 0} → A × Store → Type 0
Left r = IsSound r.1

renew_create_line-IsSound :
    (env : Env) (d i : ℕ) (st : Store) (new : ℕ) (st' : Store)
    → renew_create_line env d i st ≡ ok (new, st')
    → IsSound st
    → IsSound st'
unfolding renew_create_line onchange_date_start
renew_create_line-IsSound env d i st new st' h v =
    let r = ran (browse st i) _ h in
    let rec = r.value in
    let a = ran (day_after env rec.date_end) _ r.rest in
    let b = ran (end_of rec.date_end) _ a.rest in
    let s = ran (stop env (i ∷ []) b.value false false st) _ b.rest in
    let p =
      ran (plan_successor_one env a.value (some d) rec.is_auto_renew none false i s.value) _
        s.rest in
    let n = ran (browse p.value.1 p.value.0) _ p.rest in
    let line = n.value in
    let w = Field.recurring_next_date ∷ [] in
    let o = ran (write_line env w (onchange_date_start env.calendar line) p.value.1) _ n.rest in
    let stopped = stop-IsSound env (i ∷ []) b.value false false st s.value s.called v in
    let planned =
      plan_successor_one-IsSound env a.value (some d) rec.is_auto_renew none false i s.value
        p.value.0 p.value.1 p.called stopped in
    let links : SameLinks (onchange_date_start env.calendar line) line = record {
      id = refl;
      predecessor = refl;
      successor = refl;
      date_start = refl;
      date_end = refl;
    } in
    subst Left (ok_pair o.rest) (
      write_same env w (onchange_date_start env.calendar line) line p.value.0 p.value.1 o.value
        (browse_found p.value.1 p.value.0 line n.called) links o.called planned)

renew_extend_line-IsSound :
    (env : Env) (d i : ℕ) (st : Store) (new : ℕ) (st' : Store)
    → renew_extend_line env d i st ≡ ok (new, st')
    → IsSound st
    → IsSound st'
unfolding renew_extend_line has_field
renew_extend_line-IsSound env d i st new st' h v =
    let r = ran (browse st i) _ h in
    let rec = r.value in
    let w = Field.date_end ∷ [] in
    let longer = record rec { date_end = some d } in
    let o = ran (write_line env w longer st) _ r.rest in
    subst Left (ok_pair o.rest) (
      write_line-IsSound env w longer rec st o.value
        (find_line_self i st.lines rec (browse_found st i rec r.called))
        (end_written refl refl refl (inl refl)) o.called v)

renewed-IsSound :
    (b : Bool) (env : Env) (d i : ℕ) (st : Store) (new : ℕ) (st' : Store)
    → (if b then renew_create_line env d i st else renew_extend_line env d i st) ≡ ok (new, st')
    → IsSound st
    → IsSound st'
renewed-IsSound true = renew_create_line-IsSound
renewed-IsSound false = renew_extend_line-IsSound

renew_one-IsSound :
    (env : Env) (i : ℕ) (st : Store) (new : ℕ) (st' : Store)
    → renew_one env i st ≡ ok (new, st')
    → IsSound st
    → IsSound st'
unfolding renew_one
renew_one-IsSound env i st new st' h v =
    let r = ran (browse st i) _ h in
    let rec = r.value in
    let c = ran (or_missing (find_contract rec.contract_id st.contracts)) _ r.rest in
    let e = ran (get_renewal_new_date_end env rec) _ c.rest in
    let s = ran (day_after env rec.date_end) _ e.rest in
    let create = c.value.create_new_line_at_contract_line_renew in
    let n =
      ran
        (if create then renew_create_line env e.value i st else renew_extend_line env e.value i st)
        _ s.rest in
    let sound = renewed-IsSound create env e.value i st n.value.0 n.value.1 n.called v in
    subst Left (ok_pair n.rest)
      (message-IsSound rec.contract_id (line_renewed i s.value e.value) n.value.1 sound)

pub renew-IsSound :
    (env : Env) (ids : List ℕ) (st : Store) (new : List ℕ) (st' : Store)
    → renew env ids st ≡ ok (new, st')
    → IsSound st
    → IsSound st'
unfolding renew
renew-IsSound env [] st new st' h v = subst Left (ok_pair h) v
renew-IsSound env (i ∷ ids) st new st' h v =
    let a = ran (renew_one env i st) _ h in
    let b = ran (renew env ids a.value.1) _ a.rest in
    let one = renew_one-IsSound env i st a.value.0 a.value.1 a.called v in
    subst Left (ok_pair b.rest) (renew-IsSound env ids a.value.1 b.value.0 b.value.1 b.called one)
