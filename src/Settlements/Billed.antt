-- ===== src/Settlements/Billed.antt =====
-- The settlements of a line when settlements are invoiced and their invoices canceled.
use projectname.Prelude.{
  is_set, ℕ, ◌≡◌, refl, sym, ap, ◌∙◌, subst, Bool, true, false, not, ◌&&◌, Option, none, some, List,
  [], ◌∷◌, ◌++◌, ◌==◌, ==_iff, arith, ok, ran, check_ran, or_missing, or_missing-found, ok_inj,
  some_inj, and_parts, inl, inr, Bool-cases,
}
use mathlib.Core.Bool.{or-true}
use projectname.Settlements.Database.{
  Settlement, SettlementState, settled, invoiced, cancel, except_invoice, find_settlement,
  is_cancel, is_settled,
}
use projectname.Settlements.States.{
  Move, Books, is_one_of, write_state, prepare_invoice, prepare_invoices, create_moves,
  make_invoices, search_settled, settlement_ids, with_id, button_cancel,
}
use projectname.Settlements.Numbered.{UniqueIds, no_one, another}
use projectname.Settlements.Written.{find-write_state}
use projectname.Settlements.Single.{
  is_billed, billed, billed_by, all_billed, Single, put_state-Single,
}
use projectname.Settlements.Paid.{settled_only}

create_moves-db : (ids : List ℕ) (b : Books) → (create_moves ids b).db ≡ b.db
unfolding create_moves
create_moves-db [] b = refl
create_moves-db (i ∷ is) b = create_moves-db is _

all_billed-append :
    (ss : List Settlement) (ms : List Move) (m : Move)
    → all_billed ss ms ≡ true
    → billed_by ss m.settlement_id ≡ true
    → all_billed ss (ms ++ (m ∷ [])) ≡ true
all_billed-append ss [] m h k = rw k refl
all_billed-append ss (x ∷ ms) m h k =
    let (a, b) = and_parts (billed_by ss x.settlement_id) (all_billed ss ms) h in
    rw (a, all_billed-append ss ms m b k) refl

create_moves-billed :
    (ss : List Settlement) (ids : List ℕ) (b : Books)
    → all_billed ss b.moves ≡ true
    → ((i : ℕ) → is_one_of i ids ≡ true → billed (find_settlement i ss) ≡ true)
    → all_billed ss (create_moves ids b).moves ≡ true
unfolding create_moves
create_moves-billed ss [] b h k = h
create_moves-billed ss (i ∷ is) b h k =
    create_moves-billed ss is _
      (all_billed-append ss b.moves _ h (k i (rw ((==_iff i i).1 refl) refl)))
      (λ j m. k j (rw (m, or-true (j == i)) refl))

prepared :
    (ids : List ℕ) (ss : List Settlement) (i : ℕ)
    → prepare_invoices ids ss ≡ ok tt
    → is_one_of i ids ≡ true
    → (s : Settlement) × (find_settlement i ss ≡ some s)
unfolding prepare_invoices
prepared [] ss i h m = cc
prepared (j ∷ js) ss i h m =
    let r = ran (or_missing (find_settlement j ss)) _ h in
    let (one, others) = check_ran (prepare_invoice r.value) _ r.rest in
    elim (Bool-cases (i == j)) [
      | inl e ↦ (
        r.value,
        ap (λ k. find_settlement k ss) ((==_iff i j).0 e) ∙ or_missing-found _ r.value r.called,
      )
      | inr e ↦ prepared js ss i others (rw e at m)
    ]

-- The settlements of these ids are settled.
abbrev pub AllSettled : List ℕ → List Settlement → Type 0
AllSettled ids ss =
    (i : ℕ) (s : Settlement)
    → is_one_of i ids ≡ true
    → find_settlement i ss ≡ some s
    → not (is_settled s.state) ≡ false

pub make_invoices-Single :
    (ids : List ℕ) (b b' : Books)
    → AllSettled ids b.db.settlements
    → make_invoices ids b ≡ ok b'
    → Single b
    → Single b'
unfolding make_invoices
make_invoices-Single ids b b' h run v =
    let ss = b.db.settlements in
    let (ready, done) = check_ran (prepare_invoices ids ss) _ run in
    let written =
      put_state-Single invoiced ids b
        (λ i s m f. ((λ k. (settled_only s.state (h i s m f)).1), (λ k. refl))) v in
    let same = create_moves-db ids b in
    let bills : all_billed (write_state invoiced ids ss) (create_moves ids b).moves ≡ true =
      create_moves-billed (write_state invoiced ids ss) ids b written.invoices (λ i m.
        let (s, f) = prepared ids ss i ready m in
        ap billed (find-write_state invoiced ids i ss) ∙ (rw (m, f) refl)) in
    let made = create_moves ids b in
    subst Single (ok_inj done) (
      subst
        (λ db. Single (record {
          db = record db { settlements = write_state invoiced ids db.settlements };
          moves = made.moves;
          next_move = made.next_move;
        }))
        (sym same)
        (record { numbered = written.numbered; single = written.single; invoices = bills }))

-- The settlements that the wizard finds are settled.
not_found :
    (company i : ℕ) (ss : List Settlement)
    → find_settlement i ss ≡ none
    → is_one_of i (search_settled company ss) ≡ false
unfolding search_settled find_settlement
not_found company i [] h = refl
not_found company i (s ∷ ss) h = ground (arith, not_found company i ss)

clash {ℓ} : {A : Type ℓ} {b : Bool} → b ≡ false → b ≡ true → A
clash h k = cc

==_swap : (a b : ℕ) → (b == a) ≡ (a == b)
==_swap a b = ground arith

pub search_settled-AllSettled :
    (company : ℕ) (ss : List Settlement) → UniqueIds ss → AllSettled (search_settled company ss) ss
unfolding search_settled find_settlement
search_settled-AllSettled company [] no_one i s m f = cc
search_settled-AllSettled company (x ∷ ss) (another n u) i s m f =
    let later = search_settled-AllSettled company ss u i s in
    let taken = is_settled x.state && is_set x.agent_id && (x.company_id == company) in
    elim (Bool-cases taken) [
      | inl c ↦ elim (Bool-cases (x.id == i)) [
        | inl e ↦
            let is_x = ap (λ y. is_settled y.state) (some_inj (sym (rw e at f))) in
            let (found, same) =
              and_parts (is_settled x.state && is_set x.agent_id) (x.company_id == company) c in
            ap not (is_x ∙ (and_parts (is_settled x.state) (is_set x.agent_id) found).0)
        | inr e ↦ later (rw (c, ==_swap x.id i ∙ e) at m) (rw e at f)
      ]
      | inr c ↦ elim (Bool-cases (x.id == i)) [
        | inl e ↦
            let free = subst (λ j. find_settlement j ss ≡ none) ((==_iff x.id i).0 e) n in
            absurd (
              let gone = not_found company i ss free in let there = (rw c at m) in clash gone there)
        | inr e ↦ later (rw c at m) (rw e at f)
      ]
    ]

with_id-billed :
    (ss : List Settlement) (o : Option ℕ) (rest : List ℕ) (i : ℕ)
    → billed_by ss o ≡ true
    → (is_one_of i rest ≡ true → billed (find_settlement i ss) ≡ true)
    → is_one_of i (with_id o rest) ≡ true
    → billed (find_settlement i ss) ≡ true
with_id-billed ss none rest i h later m = later m
with_id-billed ss (some j) rest i h later m = elim (Bool-cases (i == j)) [
  | inl e ↦ ap (λ k. billed (find_settlement k ss)) ((==_iff i j).0 e) ∙ h
  | inr e ↦ later (rw e at m)
]

settlement_ids-billed :
    (ss : List Settlement) (ms : List Move) (ids : List ℕ) (i : ℕ)
    → all_billed ss ms ≡ true
    → is_one_of i (settlement_ids ms ids) ≡ true
    → billed (find_settlement i ss) ≡ true
unfolding settlement_ids
settlement_ids-billed ss [] ids i h m = cc
settlement_ids-billed ss (x ∷ ms) ids i h m =
    let (a, b) = and_parts (billed_by ss x.settlement_id) (all_billed ss ms) h in
    let later = settlement_ids-billed ss ms ids i b in
    elim (Bool-cases (is_one_of x.id ids)) [
      | inl e ↦ with_id-billed ss x.settlement_id (settlement_ids ms ids) i a later (rw e at m)
      | inr e ↦ later (rw e at m)
    ]

billed-active : (x : SettlementState) → is_billed x ≡ true → not (is_cancel x) ≡ true
billed-active settled h = cc
billed-active invoiced h = refl
billed-active cancel h = cc
billed-active except_invoice h = refl

pub button_cancel-Single : (ids : List ℕ) (b : Books) → Single b → Single (button_cancel ids b)
unfolding button_cancel
button_cancel-Single ids b v =
    let ss = b.db.settlements in
    put_state-Single except_invoice (settlement_ids b.moves ids) b
      (λ i s m f.
        let paid = sym (ap billed f) ∙ settlement_ids-billed ss b.moves ids i v.invoices m in
        ((λ k. billed-active s.state paid), (λ k. refl)))
      v
