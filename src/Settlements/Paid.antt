-- ===== src/Settlements/Paid.antt =====
-- The settlements of a line when settlements are made, canceled and deleted.
use projectname.Prelude.{
  ℕ, ◌≤◌, ◌≡◌, refl, sym, ap, ◌∙◌, subst, Bool, true, false, not, Option, none, some, List, [], ◌∷◌,
  arith, ok, ran, check_ran, user_error, raise_if, ok_inj, and_parts, if◌then◌else◌, inl, inr,
  Bool-cases,
}
use projectname.Settlements.Database.{
  Settlement, SettlementState, settled, invoiced, cancel, except_invoice, Database, find_settlement,
  is_cancel, is_settled,
}
use projectname.Settlements.States.{
  Move, Books, is_one_of, is_invoiced, any_state, action_cancel, delete_settlements,
  forget_settlements, refers_to, unlink,
}
use projectname.Settlements.Numbered.{settlement_count}
use projectname.Settlements.Added.{Kept}
use projectname.Settlements.Once.{SettledOnce, once}
use projectname.Settlements.Written.{
  find-delete_settlements, delete_settlements-UniqueIds, delete_lines-le, any_state-none,
}
use projectname.Settlements.Single.{
  is_billed, billed, billed_by, all_billed, Single, all_billed-change, put_state-Single,
}

raise_no : (b : Bool) → raise_if b user_error ≡ ok tt → b ≡ false
raise_no true h = cc
raise_no false h = refl

kept-billed :
    (ss ss' : List Settlement) (i : ℕ)
    → Kept ss ss'
    → billed (find_settlement i ss) ≡ true
    → billed (find_settlement i ss') ≡ true
kept-billed ss ss' i h k = go (find_settlement i ss) refl k
  where
    go :
        (o : Option Settlement)
        → find_settlement i ss ≡ o
        → billed o ≡ true
        → billed (find_settlement i ss') ≡ true
    go none e b = cc
    go (some s) e b = ap billed (h i s e) ∙ b

pub settled-Single :
    (due : ℕ → Bool) (b : Books) (db' : Database)
    → SettledOnce due b.db db'
    → Single b
    → Single (record b { db = db' })
settled-Single due b db' s v = record {
  numbered = s.numbered;
  single = λ i.
      subst (λ n. n ≤ 1) (sym (s.count i)) (once-le (settlement_count b.db i) (due i) (v.single i));
  invoices =
      all_billed-change b.db.settlements db'.settlements b.moves
        (λ i. kept-billed b.db.settlements db'.settlements i s.kept) v.invoices;
}
  where
    once-le : (n : ℕ) (d : Bool) → n ≤ 1 → once n d ≤ 1
    once-le n d h = ground arith

-- A settlement that is settled has not been invoiced, and is not canceled.
pub settled_only :
    (x : SettlementState)
    → not (is_settled x) ≡ false
    → (is_billed x ≡ false) × (not (is_cancel x) ≡ true)
settled_only settled h = (refl, refl)
settled_only invoiced h = cc
settled_only cancel h = cc
settled_only except_invoice h = cc

pub action_cancel-Single :
    (ids : List ℕ) (b b' : Books) → action_cancel ids b ≡ ok b' → Single b → Single b'
unfolding action_cancel
action_cancel-Single ids b b' h v =
    let r = ran (any_state (λ state. not (is_settled state)) ids b.db.settlements) _ h in
    let (refused, done) = check_ran (raise_if r.value user_error) _ r.rest in
    let all_settled = r.called ∙ ap ok (raise_no r.value refused) in
    subst Single (ok_inj done) (
      put_state-Single cancel ids b
        (λ i s m f.
          let (unbilled, active) =
            settled_only s.state (any_state-none _ ids b.db.settlements i s all_settled m f) in
          (λ k. active, λ k. absurd (let e = sym unbilled ∙ k in cc)))
        v)

deleted-billed :
    (ids : List ℕ) (ss : List Settlement) (ms : List Move)
    → all_billed ss ms ≡ true
    → all_billed (delete_settlements ids ss) (forget_settlements ids ms) ≡ true
unfolding forget_settlements
deleted-billed ids ss [] h = refl
deleted-billed ids ss (m ∷ ms) h =
    let (a, b) = and_parts (billed_by ss m.settlement_id) (all_billed ss ms) h in
    let rest = deleted-billed ids ss ms b in
    elim (Bool-cases (refers_to ids m.settlement_id)) [
      | inl e ↦ rw e rest
      | inr e ↦ rw e (rw (one m.settlement_id e a) rest)
    ]
  where
    one :
        (o : Option ℕ)
        → refers_to ids o ≡ false
        → billed_by ss o ≡ true
        → billed_by (delete_settlements ids ss) o ≡ true
    one none e k = refl
    one (some i) e k = ap billed (find-delete_settlements ids i ss ∙ (rw e refl)) ∙ k

both_same {ℓ} : {A : Type ℓ} (c : Bool) (x : A) → (if c then x else x) ≡ x
both_same true x = refl
both_same false x = refl

pub unlink-Single : (ids : List ℕ) (b b' : Books) → unlink ids b ≡ ok b' → Single b → Single b'
unfolding unlink
unlink-Single ids b b' h v =
    let r = ran (any_state is_invoiced ids b.db.settlements) _ h in
    let (refused, done) = check_ran (raise_if r.value user_error) _ r.rest in
    let ss = b.db.settlements in
    subst Single (ok_inj done) (record {
      numbered = record {
        unique = delete_settlements-UniqueIds ids ss v.numbered.unique;
        fresh = λ i le.
            find-delete_settlements ids i ss
            ∙ ap (λ o. if is_one_of i ids then none else o) (v.numbered.fresh i le)
            ∙ both_same (is_one_of i ids) none;
      };
      single = λ i.
          let le = delete_lines-le i ids ss b.db.settlement_lines in omega (arith, le, v.single i);
      invoices = deleted-billed ids ss b.moves v.invoices;
    })
