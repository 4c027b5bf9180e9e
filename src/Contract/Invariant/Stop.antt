-- ===== src/Contract/Invariant/Stop.antt =====
-- `stop` and `_delay`, under the invariant of the store.
use projectname.Prelude.{
  ℕ, ◌≡◌, refl, subst, Bool, false, some, List, [], ◌∷◌, ok, ran, check_ran, raise_if, is_set, inl,
  inr, ltb, Bool-cases, validation_error,
}
use projectname.Prelude.Int.{ℤ}
use projectname.Contract.Line.{Line}
use projectname.Contract.Checks.{Field, has_field}
use projectname.Contract.Store.{
  Store, Env, Message, line_stopped, find_line, browse, write_line, message_post,
}
use projectname.Contract.Store.Sound.{IsSound, end_written}
use projectname.Contract.Store.Writes.{browse_found, write_line-IsSound, find_line_self, ok_store}
use projectname.Contract.Lifecycle.Cancel.{require_all}
use projectname.Contract.Lifecycle.Stop.{
  ends_later, prepare_value_for_stop, post_if, put_end, stop_line, stop_one, stop_each, stop,
}
use projectname.Contract.Lifecycle.Suspend.{delay, delayed}
use projectname.Contract.Invariant.Cancel.{
  message-IsSound, either-IsSound, cancel-IsSound, write_same,
}

pub post_if-IsSound :
    (b : Bool) (c : ℕ) (m : Message) (st : Store) → IsSound st → IsSound (post_if b c m st)
post_if-IsSound b c m st v = either-IsSound b (message_post c m st) st (message-IsSound c m st v) v

put_end-IsSound :
    (env : Env) (d : ℕ) (manual post : Bool) (rec : Line) (st st' : Store)
    → find_line rec.id st.lines ≡ some rec
    → put_end env d manual post rec st ≡ ok st'
    → IsSound st
    → IsSound st'
unfolding put_end prepare_value_for_stop has_field
put_end-IsSound env d manual post rec st st' found h v =
    let w =
      Field.date_end ∷ Field.is_auto_renew ∷ Field.manual_renew_needed ∷ Field.recurring_next_date
      ∷ [] in
    let a = ran (write_line env w (prepare_value_for_stop env rec d manual) st) _ h in
    let sound =
      write_line-IsSound env w (prepare_value_for_stop env rec d manual) rec st a.value found
        (end_written refl refl refl (inl refl)) a.called v in
    subst IsSound (ok_store a.rest) (
      post_if-IsSound post rec.contract_id (line_stopped rec.id rec.date_end (some d)) a.value
        sound)

stop_line-IsSound :
    (env : Env) (d : ℕ) (manual post : Bool) (rec : Line) (st st' : Store)
    → find_line rec.id st.lines ≡ some rec
    → stop_line env d manual post rec st ≡ ok st'
    → IsSound st
    → IsSound st'
unfolding stop_line
stop_line-IsSound env d manual post rec st st' found h v =
    elim (Bool-cases (ltb d rec.date_start)) [
      | inl early ↦ cancel-IsSound env (rec.id ∷ []) st st' (rw early at h) v
      | inr later ↦ elim (Bool-cases (ends_later rec.date_end d)) [
        | inl shorter ↦
            put_end-IsSound env d manual post rec st st' found (rw (later, shorter) at h) v
        | inr ended ↦
            write_same env (Field.is_auto_renew ∷ Field.manual_renew_needed ∷ [])
              (record rec { is_auto_renew = false; manual_renew_needed = manual }) rec rec.id st st'
              found
              (record {
                id = refl;
                predecessor = refl;
                successor = refl;
                date_start = refl;
                date_end = refl;
              })
              (rw (later, ended) at h) v
      ]
    ]

stop_one-IsSound :
    (env : Env) (d : ℕ) (manual post : Bool) (i : ℕ) (st st' : Store)
    → stop_one env d manual post i st ≡ ok st'
    → IsSound st
    → IsSound st'
unfolding stop_one
stop_one-IsSound env d manual post i st st' h v =
    let a = ran (browse st i) _ h in
    stop_line-IsSound env d manual post a.value st st'
      (find_line_self i st.lines a.value (browse_found st i a.value a.called)) a.rest v

stop_each-IsSound :
    (env : Env) (d : ℕ) (manual post : Bool) (ids : List ℕ) (st st' : Store)
    → stop_each env d manual post ids st ≡ ok st'
    → IsSound st
    → IsSound st'
unfolding stop_each
stop_each-IsSound env d manual post [] st st' h v = subst IsSound (ok_store h) v
stop_each-IsSound env d manual post (i ∷ ids) st st' h v =
    let a = ran (stop_one env d manual post i st) _ h in
    stop_each-IsSound env d manual post ids a.value st' a.rest
      (stop_one-IsSound env d manual post i st a.value a.called v)

pub stop-IsSound :
    (env : Env) (ids : List ℕ) (d : ℕ) (manual post : Bool) (st st' : Store)
    → stop env ids d manual post st ≡ ok st'
    → IsSound st
    → IsSound st'
unfolding stop
stop-IsSound env ids d manual post st st' h v =
    let (allowed, each) = check_ran (require_all env (λ a. a.stop) ids st) _ h in
    stop_each-IsSound env d manual post ids st st' each v

pub delay-IsSound :
    (env : Env) (delta : ℤ) (i : ℕ) (st st' : Store)
    → delay env delta i st ≡ ok st'
    → IsSound st
    → IsSound st'
unfolding delay delayed has_field
delay-IsSound env delta i st st' h v =
    let a = ran (browse st i) _ h in
    let rec = a.value in
    let w = Field.date_start ∷ Field.date_end ∷ Field.recurring_next_date ∷ [] in
    let (never, written) =
      check_ran (raise_if (is_set rec.last_date_invoiced) validation_error) _ a.rest in
    write_line-IsSound env w (delayed env rec delta) rec st st'
      (find_line_self i st.lines rec (browse_found st i rec a.called))
      (end_written refl refl refl (inr refl)) written v
