-- ===== src/Contract/Invariant/Successor.antt =====
-- `plan_successor`, under the invariant of the store.
use projectname.Prelude.{
  ℕ, ◌≡◌, refl, sym, ◌∙◌, ap, subst, Bool, true, false, not, Option, none, some, List, [], ◌∷◌, ok,
  ran, check_ran, raise_if, is_set, validation_error,
}
use projectname.Contract.Line.{Line}
use projectname.Contract.Allowed.Rules.{compute_allowed_alone}
use projectname.Contract.Checks.{Field, has_field}
use projectname.Contract.Store.{
  Store, Env, successor_planned, find_line, browse, write_line, allowed_for,
}
use projectname.Contract.Store.Laws.{SameLinks, some_eq, find_line-id}
use projectname.Contract.Store.Sound.{IsSound, linked_to}
use projectname.Contract.Store.Writes.{
  browse_found, write_line-IsSound, write_line_self, find_line_self, create_line-Created,
}
use projectname.Contract.Lifecycle.Successor.{
  prepare_value_for_plan_successor, create_successor, plan_successor_one, plan_successor,
}
use projectname.Contract.Invariant.Cancel.{write_same}
use projectname.Contract.Invariant.Stop.{post_if-IsSound}

unset_none : (o : Option ℕ) → is_set o ≡ false → o ≡ none
unset_none none h = refl
unset_none (some s) h = cc

-- What `_compute_allowed` grants only to a line that has no successor.
allowed_alone :
    (env : Env) (st : Store) (rec : Line)
    → (allowed_for env st rec).plan_successor ≡ true
    → rec.successor_contract_line_id ≡ none
unfolding allowed_for
allowed_alone env st rec h = unset_none _ (compute_allowed_alone _ _ rec _ h)

granted : (b : Bool) → raise_if (not b) validation_error ≡ ok tt → b ≡ true
granted true h = refl
granted false h = cc

pub ok_pair {ℓ} : {A : Type ℓ} {a b : A} → ok a ≡ ok b → a ≡ b
ok_pair h = cc

-- The store with the new line, before the line that it succeeds is written.
record Planned (i : ℕ) (new_line : ℕ) (st : Store) : Type 0 where
  sound : IsSound st
  new : Line
  found : find_line new_line st.lines ≡ some new
  back : new.predecessor_contract_line_id ≡ some i

create_successor-Planned :
    (env : Env) (start : ℕ) (end : Option ℕ) (auto : Bool) (d : Option ℕ) (i : ℕ) (st : Store)
    (new_line : ℕ) (st' : Store)
    → create_successor env start end auto d i st ≡ ok (new_line, st')
    → IsSound st
    → Planned i new_line st'
unfolding create_successor prepare_value_for_plan_successor
create_successor-Planned env start end auto d i st new_line st' h v =
    let a = ran (browse st i) _ h in
    let rec = a.value in
    let found = browse_found st i rec a.called in
    let (allowed, h₁) =
      check_ran (raise_if (not (allowed_for env st rec).plan_successor) validation_error) _
        a.rest in
    let w = Field.is_auto_renew ∷ [] in
    let manual = record rec { is_auto_renew = false } in
    let b = ran (write_line env w manual st) _ h₁ in
    let same : SameLinks manual rec = record {
      id = refl;
      predecessor = refl;
      successor = refl;
      date_start = refl;
      date_end = refl;
    } in
    let sound = write_same env w manual rec i st b.value found same b.called v in
    let c = ran (browse b.value i) _ b.rest in
    let rec' = c.value in
    let found' = browse_found b.value i rec' c.called in
    let (rec₂, here, e) =
      write_line_self env w manual rec st b.value (find_line_self i st.lines rec found) b.called in
    let alone : rec.successor_contract_line_id ≡ none =
      allowed_alone env st rec (granted _ allowed) in
    let id : rec.id ≡ i = find_line-id i st.lines rec found in
    let at_i : find_line i b.value.lines ≡ some rec₂ =
      subst (λ k. find_line k b.value.lines ≡ some rec₂) id here in
    let is_rec : rec₂ ≡ rec' = some_eq rec₂ rec' (sym at_i ∙ found') in
    let alone' : rec'.successor_contract_line_id ≡ none =
      ap (λ (x : Line). x.successor_contract_line_id) (sym is_rec) ∙ e.successor ∙ alone in
    let created =
      create_line-Created env (prepare_value_for_plan_successor env rec' start end auto d) b.value
        new_line st' alone' c.rest sound in
    record {
      sound = created.sound;
      new = created.new;
      found = created.found;
      back = created.predecessor ∙ ap some (find_line-id i b.value.lines rec' found');
    }

pub plan_successor_one-IsSound :
    (env : Env) (start : ℕ) (end : Option ℕ) (auto : Bool) (d : Option ℕ) (post : Bool) (i : ℕ)
    (st : Store) (new_line : ℕ) (st' : Store)
    → plan_successor_one env start end auto d post i st ≡ ok (new_line, st')
    → IsSound st
    → IsSound st'
unfolding plan_successor_one has_field
plan_successor_one-IsSound env start end auto d post i st new_line st' h v =
    let a = ran (create_successor env start end auto d i st) _ h in
    let planned =
      create_successor-Planned env start end auto d i st a.value.0 a.value.1 a.called v in
    let b = ran (browse a.value.1 i) _ a.rest in
    let rec = b.value in
    let found = browse_found a.value.1 i rec b.called in
    let id = find_line-id i a.value.1.lines rec found in
    let w = Field.successor_contract_line_id ∷ [] in
    let linked_rec = record rec { successor_contract_line_id = some a.value.0 } in
    let c = ran (write_line env w linked_rec a.value.1) _ b.rest in
    let sound =
      write_line-IsSound env w linked_rec rec a.value.1 c.value
        (find_line_self i a.value.1.lines rec found)
        (linked_to refl refl refl a.value.0 planned.new refl planned.found
          (planned.back ∙ ap some (sym id)))
        c.called planned.sound in
    let posted =
      post_if-IsSound post rec.contract_id (successor_planned i start end) c.value sound in
    subst (λ (r : ℕ × Store). IsSound r.1) (ok_pair c.rest) posted

pub plan_successor-IsSound :
    (env : Env) (ids : List ℕ) (start : ℕ) (end : Option ℕ) (auto : Bool) (d : Option ℕ)
    (post : Bool) (st : Store) (new : List ℕ) (st' : Store)
    → plan_successor env ids start end auto d post st ≡ ok (new, st')
    → IsSound st
    → IsSound st'
unfolding plan_successor
plan_successor-IsSound env [] start end auto d post st new st' h v =
    subst (λ (r : List ℕ × Store). IsSound r.1) (ok_pair h) v
plan_successor-IsSound env (i ∷ ids) start end auto d post st new st' h v =
    let a = ran (plan_successor_one env start end auto d post i st) _ h in
    let b = ran (plan_successor env ids start end auto d post a.value.1) _ a.rest in
    let one =
      plan_successor_one-IsSound env start end auto d post i st a.value.0 a.value.1 a.called v in
    let all =
      plan_successor-IsSound env ids start end auto d post a.value.1 b.value.0 b.value.1 b.called
        one in
    subst (λ (r : List ℕ × Store). IsSound r.1) (ok_pair b.rest) all
