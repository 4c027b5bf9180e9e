-- ===== src/Settlements/Written.antt =====
-- What a write of the state of settlements, or their deletion, does to the search by id and to the
-- settlements of a line.
use projectname.Prelude.{
  ℕ, ◌≤◌, ◌≡◌, refl, sym, ap, ◌∙◌, subst, Bool, true, false, Option, none, some, List, [], ◌∷◌,
  ◌==◌, ==_iff, arith, ok, ran, or_missing, or_missing-found, some_inj, and_parts, if◌then◌else◌,
  inl, inr, Bool-cases,
}
use projectname.Settlements.Database.{
  Settlement, SettlementLine, SettlementState, find_settlement, not_cancel,
}
use projectname.Settlements.States.{
  is_one_of, any_state, in_state, write_state, delete_settlements, delete_lines,
}
use projectname.Settlements.Numbered.{one_if, counts, active_count, UniqueIds, no_one, another}

abbrev pub restated : SettlementState → Bool → Option Settlement → Option Settlement
restated state b none = none
restated state b (some s) = some (if b then in_state state s else s)

restate-id :
    (state : SettlementState) (b : Bool) (s : Settlement)
    → (if b then in_state state s else s).id ≡ s.id
restate-id state true s = refl
restate-id state false s = refl

same_member : (ids : List ℕ) (i j : ℕ) → (i == j) ≡ true → is_one_of j ids ≡ is_one_of i ids
same_member ids i j h = ap (λ k. is_one_of k ids) (sym ((==_iff i j).0 h))

pub find-write_state :
    (state : SettlementState) (ids : List ℕ) (i : ℕ) (ss : List Settlement)
    → find_settlement i (write_state state ids ss)
      ≡ restated state (is_one_of i ids) (find_settlement i ss)
unfolding find_settlement write_state
find-write_state state ids i [] = refl
find-write_state state ids i (s ∷ ss) =
    let later = find-write_state state ids i ss in
    rw (restate-id state (is_one_of s.id ids) s) (elim (Bool-cases (s.id == i)) [
      | inl e ↦ rw (e, same_member ids s.id i e) refl
      | inr e ↦ rw e later
    ])

pub write_state-UniqueIds :
    (state : SettlementState) (ids : List ℕ) (ss : List Settlement)
    → UniqueIds ss
    → UniqueIds (write_state state ids ss)
unfolding write_state
write_state-UniqueIds state ids [] no_one = no_one
write_state-UniqueIds state ids (s ∷ ss) (another n u) =
    another
      (subst (λ i. find_settlement i (write_state state ids ss) ≡ none)
        (sym (restate-id state (is_one_of s.id ids) s))
        (find-write_state state ids s.id ss ∙ ap (restated state (is_one_of s.id ids)) n))
      (write_state-UniqueIds state ids ss u)

pub find-delete_settlements :
    (ids : List ℕ) (i : ℕ) (ss : List Settlement)
    → find_settlement i (delete_settlements ids ss)
      ≡ (if is_one_of i ids then none else find_settlement i ss)
unfolding find_settlement delete_settlements
find-delete_settlements ids i [] = ground arith
find-delete_settlements ids i (s ∷ ss) =
    let later = find-delete_settlements ids i ss in
    elim (Bool-cases (is_one_of s.id ids)) [
      | inl m ↦ rw m (elim (Bool-cases (s.id == i)) [
        | inl e ↦ rw (later, e, same_member ids s.id i e, m) refl
        | inr e ↦ rw e later
      ])
      | inr m ↦ rw m (elim (Bool-cases (s.id == i)) [
        | inl e ↦ rw (e, same_member ids s.id i e, m) refl
        | inr e ↦ rw e later
      ])
    ]

pub delete_settlements-UniqueIds :
    (ids : List ℕ) (ss : List Settlement) → UniqueIds ss → UniqueIds (delete_settlements ids ss)
unfolding delete_settlements
delete_settlements-UniqueIds ids [] no_one = no_one
delete_settlements-UniqueIds ids (s ∷ ss) (another n u) =
    let rest = delete_settlements-UniqueIds ids ss u in
    elim (Bool-cases (is_one_of s.id ids)) [
      | inl m ↦ rw m rest
      | inr m ↦ rw m (another (find-delete_settlements ids s.id ss ∙ (rw m n)) rest)
    ]

one_if-le : (a b : Bool) → (a ≡ true → b ≡ true) → one_if a ≤ one_if b
one_if-le true b h = omega (arith, ap one_if (h refl))
one_if-le false b h = omega arith

counts-le :
    (i : ℕ) (ss ss' : List Settlement) (x : SettlementLine)
    → (not_cancel (find_settlement x.settlement_id ss') ≡ true
        → not_cancel (find_settlement x.settlement_id ss) ≡ true)
    → counts i ss' x ≡ true
    → counts i ss x ≡ true
counts-le i ss ss' x h k =
    let (same, active) = and_parts (x.agent_line == i) _ k in rw (same, h active) refl

pub active_count-le :
    (i : ℕ) (ss ss' : List Settlement) (xs : List SettlementLine)
    → ((j : ℕ)
        → not_cancel (find_settlement j ss') ≡ true
        → not_cancel (find_settlement j ss) ≡ true)
    → active_count i ss' xs ≤ active_count i ss xs
active_count-le i ss ss' [] h = omega arith
active_count-le i ss ss' (x ∷ xs) h =
    let e = active_count-le i ss ss' xs h in
    omega
      (arith, one_if-le (counts i ss' x) (counts i ss x) (counts-le i ss ss' x (h x.settlement_id)))

pub delete_lines-le :
    (i : ℕ) (ids : List ℕ) (ss : List Settlement) (xs : List SettlementLine)
    → active_count i (delete_settlements ids ss) (delete_lines ids xs) ≤ active_count i ss xs
unfolding delete_lines
delete_lines-le i ids ss [] = omega arith
delete_lines-le i ids ss (x ∷ xs) =
    let e = delete_lines-le i ids ss xs in
    elim (Bool-cases (is_one_of x.settlement_id ids)) [
      | inl gone ↦ rw gone (omega arith)
      | inr kept ↦
          let same : find_settlement x.settlement_id (delete_settlements ids ss)
              ≡ find_settlement x.settlement_id ss =
            find-delete_settlements ids x.settlement_id ss ∙ (rw kept refl) in
          rw kept (rw same (omega arith))
    ]

wrong {ℓ} : {A : Type ℓ} → ok true ≡ ok false → A
wrong h = cc

-- What the test of all states has found.
pub any_state-none :
    (bad : SettlementState → Bool) (ids : List ℕ) (ss : List Settlement) (i : ℕ) (s : Settlement)
    → any_state bad ids ss ≡ ok false
    → is_one_of i ids ≡ true
    → find_settlement i ss ≡ some s
    → bad s.state ≡ false
unfolding any_state
any_state-none bad [] ss i s h k f = cc
any_state-none bad (j ∷ js) ss i s h k f =
    let r = ran (or_missing (find_settlement j ss)) _ h in
    let found = or_missing-found _ r.value r.called in
    elim (Bool-cases (bad r.value.state)) [
      | inl b ↦ absurd (let refused = (rw b at r.rest) in wrong refused)
      | inr b ↦ elim (Bool-cases (i == j)) [
        | inl e ↦
            let same : r.value ≡ s =
              some_inj (sym found ∙ ap (λ x. find_settlement x ss) (sym ((==_iff i j).0 e)) ∙ f) in
            ap (λ x. bad x.state) (sym same) ∙ b
        | inr e ↦ any_state-none bad js ss i s (rw b at r.rest) (rw e at k) f
      ]
    ]
