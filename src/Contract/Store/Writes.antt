-- ===== src/Contract/Store/Writes.antt =====
-- Writes and creations of lines in the store, under its invariant.
use projectname.Prelude.{
  ℕ, suc, ◌≡◌, refl, sym, ◌∙◌, ap, subst, Option, none, some, List, [], ◌∷◌, ◌++◌, ok, ◌==◌, ==_iff,
  if◌then◌else◌, arith, Bool-cases, Option-cases, ◌≤◌, check_ran, inl, inr,
}
use projectname.Contract.Line.{Line}
use projectname.Contract.Checks.{Field, validate}
use projectname.Contract.Store.{
  Store, Env, find_line, put_line, linked, recompute, write_line, create_line, all_fields, browse,
}
use projectname.Contract.Store.Laws.{
  find_line-id, find_line-put_line, find_line-append, SameLinks, recompute-SameLinks,
  write_line-Written, some_eq, none-some,
}
use projectname.Contract.Store.Links.{LinkOf, LinkAt, AllLinked}
use projectname.Contract.Store.Sound.{IsSound, Change, Change-SameLinks, AllLinked-Change}

pub browse_found :
    (st : Store) (i : ℕ) (rec : Line) → browse st i ≡ ok rec → find_line i st.lines ≡ some rec
browse_found st i rec h = elim (Option-cases (find_line i st.lines)) [
  | inl missing ↦ ground arith
  | inr (l, e) ↦ ground arith
]

fresh-put_line :
    (st : Store) (rec old : Line)
    → find_line rec.id st.lines ≡ some old
    → IsSound st
    → (i : ℕ) → st.next_id ≤ i
    → find_line i (put_line rec st.lines) ≡ none
fresh-put_line st rec old found v i h =
    find_line-put_line rec old st.lines i found ∙ elim (Bool-cases (rec.id == i)) [
      | inl self ↦
          absurd
            (clash (subst (λ k. find_line k st.lines ≡ some old) ((==_iff rec.id i).0 self) found))
      | inr other ↦ rw other (v.fresh i h)
    ]
  where
    clash : find_line i st.lines ≡ some old → ⊥
    clash e = none-some old (sym (v.fresh i h) ∙ e)

ok_eq : {a b : ℕ × Store} → ok a ≡ ok b → a ≡ b
ok_eq h = cc

-- A write keeps the invariant.
pub write_line-IsSound :
    (env : Env) (w : List Field) (rec old : Line) (st st' : Store)
    → find_line rec.id st.lines ≡ some old
    → Change w st.lines rec old
    → write_line env w rec st ≡ ok st'
    → IsSound st
    → IsSound st'
write_line-IsSound env w rec old st st' found c h v =
    let written = write_line-Written env w rec st st' h in
    let e = recompute-SameLinks env w rec in
    let rec' = recompute env w rec in
    let found' : find_line rec'.id st.lines ≡ some old =
      subst (λ k. find_line k st.lines ≡ some old) (sym e.id) found in
    let sound : IsSound (record st { lines = put_line rec' st.lines }) = record {
      fresh = fresh-put_line st rec' old found' v;
      all_linked =
          AllLinked-Change w st.lines rec' old found' v.all_linked written.checked
            (Change-SameLinks rec' e c);
    } in
    subst IsSound (sym written.stores) sound

-- What a successful creation leaves.
pub record Created (values : Line) (st : Store) (i : ℕ) (st' : Store) : Type 0 where
  pub sound : IsSound st'
  pub new : Line
  pub found : find_line i st'.lines ≡ some new
  pub predecessor : new.predecessor_contract_line_id ≡ values.predecessor_contract_line_id
  pub kept : (j : ℕ) (r : Line) → find_line j st.lines ≡ some r → find_line j st'.lines ≡ some r

module _ (st : Store) (new : Line) (v : IsSound st) (id : new.id ≡ st.next_id)
    (alone : new.successor_contract_line_id ≡ none) where
  abbrev more : Store
  more = record st { lines = st.lines ++ (new ∷ []); next_id = suc st.next_id }

  more_kept : (j : ℕ) (r : Line) → find_line j st.lines ≡ some r → find_line j more.lines ≡ some r
  more_kept j r h = find_line-append st.lines new j ∙ rw h

  more_new : find_line st.next_id more.lines ≡ some new
  more_new =
      find_line-append st.lines new st.next_id
      ∙ rw (v.fresh st.next_id (omega arith), id) (rw ((==_iff st.next_id st.next_id).1 refl))

  more_fresh : (i : ℕ) → suc st.next_id ≤ i → find_line i more.lines ≡ none
  more_fresh i h =
      find_line-append st.lines new i ∙ rw (v.fresh i (omega arith)) (ground (arith, id))

  more_link : (r : Line) (s : Option ℕ) → LinkAt st.lines r s → LinkAt more.lines r s
  more_link r none h = tt
  more_link r (some s) h = elim (Option-cases (find_line s st.lines)) [
    | inl missing ↦ absurd (subst (λ o. LinkOf r o) missing h)
    | inr (t, e) ↦ subst (λ o. LinkOf r o) (e ∙ sym (more_kept s t e)) h
  ]

  new_linked : (r : Line) → new ≡ r → LinkAt more.lines r r.successor_contract_line_id
  new_linked r same =
      subst (λ x. LinkAt more.lines x x.successor_contract_line_id) same
        (subst (λ o. LinkAt more.lines new o) (sym alone) tt)

  more_linked : AllLinked more.lines
  more_linked j r h = elim (Option-cases (find_line j st.lines)) [
    | inl missing ↦ elim (Bool-cases (new.id == j)) [
      | inl self ↦ new_linked r (some_eq new r (sym (at_new missing ∙ rw self) ∙ h))
      | inr other ↦ absurd (none-some r (sym (at_new missing ∙ rw other) ∙ h))
    ]
    | inr (t, e) ↦
        let same : t ≡ r = some_eq t r (sym (more_kept j t e) ∙ h) in
        more_link r r.successor_contract_line_id (v.all_linked j r (e ∙ ap some same))
  ]
    where
      at_new :
          find_line j st.lines ≡ none
          → find_line j more.lines ≡ (if new.id == j then some new else none)
      at_new missing = find_line-append st.lines new j ∙ rw missing

  pub more-IsSound : IsSound more
  more-IsSound = record { fresh = more_fresh; all_linked = more_linked }

-- A creation of a line that names no successor keeps the invariant and every line that was there.
pub create_line-Created :
    (env : Env) (values : Line) (st : Store) (i : ℕ) (st' : Store)
    → values.successor_contract_line_id ≡ none
    → create_line env values st ≡ ok (i, st')
    → IsSound st
    → Created values st i st'
unfolding create_line
create_line-Created env values st i st' alone h v =
    let draft : Line = record values { id = st.next_id } in
    let e = recompute-SameLinks env all_fields draft in
    let new = recompute env all_fields draft in
    let lines = st.lines ++ (new ∷ []) in
    let made : Store = record st { lines = lines; next_id = suc st.next_id } in
    let (valid, done) =
      check_ran
        (validate all_fields new (linked lines new.predecessor_contract_line_id)
          (linked lines new.successor_contract_line_id))
        (ok (st.next_id, made)) h in
    let created : Created values st st.next_id made = record {
      sound = more-IsSound st new v e.id (e.successor ∙ alone);
      new = new;
      found = more_new st new v e.id (e.successor ∙ alone);
      predecessor = e.predecessor;
      kept = more_kept st new v e.id (e.successor ∙ alone);
    } in
    subst (λ (r : ℕ × Store). Created values st r.0 r.1) (ok_eq done) created

pub find_line_self :
    (i : ℕ) (lines : List Line) (rec : Line)
    → find_line i lines ≡ some rec
    → find_line rec.id lines ≡ some rec
find_line_self i lines rec h =
    subst (λ k. find_line k lines ≡ some rec) (sym (find_line-id i lines rec h)) h

pub ok_store : {a b : Store} → ok a ≡ ok b → a ≡ b
ok_store h = cc

-- What a write leaves in the place of the line written.
pub write_line_self :
    (env : Env) (w : List Field) (rec old : Line) (st st' : Store)
    → find_line rec.id st.lines ≡ some old
    → write_line env w rec st ≡ ok st'
    → (rec' : Line) × (find_line rec.id st'.lines ≡ some rec') × SameLinks rec' rec
write_line_self env w rec old st st' found h =
    let written = write_line-Written env w rec st st' h in
    let e = recompute-SameLinks env w rec in
    let rec' = recompute env w rec in
    let found' : find_line rec'.id st.lines ≡ some old =
      subst (λ k. find_line k st.lines ≡ some old) (sym e.id) found in
    let here : find_line rec'.id (put_line rec' st.lines) ≡ some rec' =
      find_line-put_line rec' old st.lines rec'.id found' ∙ rw ((==_iff rec'.id rec'.id).1 refl) in
    let there : find_line rec.id (put_line rec' st.lines) ≡ some rec' =
      subst (λ k. find_line k (put_line rec' st.lines) ≡ some rec') e.id here in
    (
      rec',
      subst (λ (x : Store). find_line rec.id x.lines ≡ some rec') (sym written.stores) there,
      e,
    )
