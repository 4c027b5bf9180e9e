-- ===== src/Contract/Invariant/Cancel.antt =====
-- `cancel` and `uncancel`, under the invariant of the store.
use projectname.Prelude.{
  ℕ, ◌≡◌, refl, sym, ◌∙◌, ap, subst, Bool, true, false, Option, none, some, List, [], ◌∷◌, ok, ran,
  check_ran, raise_if, if◌then◌else◌, is_set, assertion_error,
}
use projectname.Contract.Line.{Line}
use projectname.Contract.Checks.{Field, has_field}
use projectname.Contract.Store.{
  Store, Env, Message, lines_canceled, lines_uncanceled, find_line, linked, browse, write_line,
  message_post,
}
use projectname.Contract.Store.Laws.{SameLinks, find_line-id}
use projectname.Contract.Store.Sound.{IsSound, same, unlinked, linked_to}
use projectname.Contract.Store.Writes.{browse_found, write_line-IsSound, find_line_self, ok_store}
use projectname.Contract.Lifecycle.Cancel.{
  require_all, contracts_of, post_by_contract, is_in, lines_in, unlink_from, unlink_predecessors,
  mark_canceled, cancel, relink_to, uncancel_one, uncancel_each, uncancel,
}

pub message-IsSound :
    (c : ℕ) (m : Message) (st : Store) → IsSound st → IsSound (message_post c m st)
message-IsSound c m st v = record { fresh = v.fresh; all_linked = v.all_linked }

pub either-IsSound :
    (b : Bool) (st st' : Store) → IsSound st → IsSound st' → IsSound (if b then st else st')
either-IsSound true st st' v w = v
either-IsSound false st st' v w = w

post-IsSound :
    (message : List ℕ → Message) (seen : List ℕ) (all rest : List (ℕ × ℕ)) (st : Store)
    → IsSound st
    → IsSound (post_by_contract message seen all rest st)
unfolding post_by_contract
post-IsSound message seen all [] st v = v
post-IsSound message seen all ((c, i) ∷ rest) st v =
    post-IsSound message (c ∷ seen) all rest _
      (either-IsSound (is_in c seen) st _ v (message-IsSound c (message (lines_in c all)) st v))

-- A write that leaves alone what links the line.
pub write_same :
    (env : Env) (w : List Field) (rec old : Line) (i : ℕ) (st st' : Store)
    → find_line i st.lines ≡ some old
    → SameLinks rec old
    → write_line env w rec st ≡ ok st'
    → IsSound st
    → IsSound st'
write_same env w rec old i st st' found e h v =
    let found' : find_line rec.id st.lines ≡ some old =
      subst (λ k. find_line k st.lines ≡ some old) (sym e.id)
        (find_line_self i st.lines old found) in
    write_line-IsSound env w rec old st st' found' (same e) h v

linked_found :
    (lines : List Line) (o : Option ℕ) (p : Line)
    → linked lines o ≡ some p
    → find_line p.id lines ≡ some p
linked_found lines none p h = cc
linked_found lines (some i) p h = find_line_self i lines p h

unlink_from-IsSound :
    (env : Env) (o : Option ℕ) (p : Option Line) (st st' : Store)
    → linked st.lines o ≡ p
    → unlink_from env p st ≡ ok st'
    → IsSound st
    → IsSound st'
unfolding unlink_from
unlink_from-IsSound env o none st st' e h v = subst IsSound (ok_store h) v
unlink_from-IsSound env o (some p) st st' e h v =
    write_line-IsSound env (Field.successor_contract_line_id ∷ [])
      (record p { successor_contract_line_id = none }) p st st' (linked_found st.lines o p e)
      (unlinked refl refl refl) h v

unlink_predecessors-IsSound :
    (env : Env) (ids : List ℕ) (st st' : Store)
    → unlink_predecessors env ids st ≡ ok st'
    → IsSound st
    → IsSound st'
unfolding unlink_predecessors
unlink_predecessors-IsSound env [] st st' h v = subst IsSound (ok_store h) v
unlink_predecessors-IsSound env (i ∷ ids) st st' h v =
    let a = ran (browse st i) _ h in
    let o = a.value.predecessor_contract_line_id in
    let b = ran (unlink_from env (linked st.lines o) st) _ a.rest in
    unlink_predecessors-IsSound env ids b.value st' b.rest
      (unlink_from-IsSound env o (linked st.lines o) st b.value refl b.called v)

mark_canceled-IsSound :
    (env : Env) (ids : List ℕ) (st st' : Store)
    → mark_canceled env ids st ≡ ok st'
    → IsSound st
    → IsSound st'
unfolding mark_canceled
mark_canceled-IsSound env [] st st' h v = subst IsSound (ok_store h) v
mark_canceled-IsSound env (i ∷ ids) st st' h v =
    let a = ran (browse st i) _ h in
    let rec = a.value in
    let found = browse_found st i rec a.called in
    let b =
      ran
        (write_line env (Field.is_canceled ∷ Field.is_auto_renew ∷ [])
          (record rec { is_canceled = true; is_auto_renew = false }) st)
        _ a.rest in
    mark_canceled-IsSound env ids b.value st' b.rest (
      write_line-IsSound env (Field.is_canceled ∷ Field.is_auto_renew ∷ [])
        (record rec { is_canceled = true; is_auto_renew = false }) rec st b.value
        (find_line_self i st.lines rec found)
        (same (record {
          id = refl;
          predecessor = refl;
          successor = refl;
          date_start = refl;
          date_end = refl;
        }))
        b.called v)

pub cancel-IsSound :
    (env : Env) (ids : List ℕ) (st st' : Store)
    → cancel env ids st ≡ ok st'
    → IsSound st
    → IsSound st'
unfolding cancel
cancel-IsSound env ids st st' h v =
    let (allowed, h₁) = check_ran (require_all env (λ a. a.cancel) ids st) _ h in
    let a = ran (contracts_of ids st) _ h₁ in
    let posted = post_by_contract lines_canceled [] a.value a.value st in
    let b = ran (unlink_predecessors env ids posted) _ a.rest in
    mark_canceled-IsSound env ids b.value st' b.rest (
      unlink_predecessors-IsSound env ids posted b.value b.called
        (post-IsSound lines_canceled [] a.value a.value st v))

relink_to-IsSound :
    (env : Env) (i : ℕ) (o : Option ℕ) (rec : Line) (st st' : Store)
    → find_line i st.lines ≡ some rec
    → rec.predecessor_contract_line_id ≡ o
    → relink_to env i o st ≡ ok st'
    → IsSound st
    → IsSound st'
unfolding relink_to has_field
relink_to-IsSound env i none rec st st' found hp h v = subst IsSound (ok_store h) v
relink_to-IsSound env i (some p) rec st st' found hp h v =
    let a = ran (browse st p) _ h in
    let old = a.value in
    let old_found = browse_found st p old a.called in
    let w = Field.successor_contract_line_id ∷ [] in
    let (free, written) =
      check_ran (raise_if (is_set old.successor_contract_line_id) assertion_error) _ a.rest in
    let id = find_line-id p st.lines old old_found in
    write_line-IsSound env w (record old { successor_contract_line_id = some i }) old st st'
      (find_line_self p st.lines old old_found)
      (linked_to refl refl refl i rec refl found (hp ∙ ap some (sym id))) written v

uncancel_one-IsSound :
    (env : Env) (d : Option ℕ) (i : ℕ) (st st' : Store)
    → uncancel_one env d i st ≡ ok st'
    → IsSound st
    → IsSound st'
unfolding uncancel_one
uncancel_one-IsSound env d i st st' h v =
    let a = ran (browse st i) _ h in
    let rec = a.value in
    let b = ran (relink_to env i rec.predecessor_contract_line_id st) _ a.rest in
    let c = ran (browse b.value i) _ b.rest in
    let rec' = c.value in
    let back = record rec' { is_canceled = false } in
    let e = ran (write_line env (Field.is_canceled ∷ []) back b.value) _ c.rest in
    let f = ran (browse e.value i) _ e.rest in
    let last = f.value in
    let relinked =
      relink_to-IsSound env i rec.predecessor_contract_line_id rec st b.value
        (browse_found st i rec a.called) refl b.called v in
    let restored =
      write_same env (Field.is_canceled ∷ []) back rec' i b.value e.value
        (browse_found b.value i rec' c.called)
        (record {
          id = refl;
          predecessor = refl;
          successor = refl;
          date_start = refl;
          date_end = refl;
        })
        e.called relinked in
    write_same env (Field.recurring_next_date ∷ []) (record last { recurring_next_date = d }) last i
      e.value st' (browse_found e.value i last f.called)
      (record {
        id = refl;
        predecessor = refl;
        successor = refl;
        date_start = refl;
        date_end = refl;
      })
      f.rest restored

uncancel_each-IsSound :
    (env : Env) (d : Option ℕ) (ids : List ℕ) (st st' : Store)
    → uncancel_each env d ids st ≡ ok st'
    → IsSound st
    → IsSound st'
unfolding uncancel_each
uncancel_each-IsSound env d [] st st' h v = subst IsSound (ok_store h) v
uncancel_each-IsSound env d (i ∷ ids) st st' h v =
    let a = ran (uncancel_one env d i st) _ h in
    uncancel_each-IsSound env d ids a.value st' a.rest
      (uncancel_one-IsSound env d i st a.value a.called v)

pub uncancel-IsSound :
    (env : Env) (ids : List ℕ) (d : Option ℕ) (st st' : Store)
    → uncancel env ids d st ≡ ok st'
    → IsSound st
    → IsSound st'
unfolding uncancel
uncancel-IsSound env ids d st st' h v =
    let (allowed, h₁) = check_ran (require_all env (λ a. a.uncancel) ids st) _ h in
    let a = ran (contracts_of ids st) _ h₁ in
    uncancel_each-IsSound env d ids _ st' a.rest
      (post-IsSound lines_uncanceled [] a.value a.value st v)
