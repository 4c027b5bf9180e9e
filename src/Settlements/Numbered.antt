-- ===== src/Settlements/Numbered.antt =====
-- The ids of settlements, and in how many settlements that are not canceled a line of an agent is.
use projectname.Prelude.{
  ℕ, ◌+◌, ◌≤◌, ◌≡◌, refl, sym, subst, ◌∙◌, Bool, false, ◌&&◌, none, some, List, [], ◌∷◌, ◌++◌, ◌==◌,
  ==_iff, arith, ltb, if◌then◌else◌, inl, inr, Bool-cases, some_inj,
}
use projectname.Settlements.Date.{Date}
use projectname.Settlements.Database.{
  Settlement, SettlementLine, Database, settled, find_settlement, not_cancel, any_settled,
  compute_settled, for_period, get_settlement,
}

-- The settlement line counts for the line of an agent.
abbrev pub counts : ℕ → List Settlement → SettlementLine → Bool
counts i ss x = (x.agent_line == i) && not_cancel (find_settlement x.settlement_id ss)

abbrev pub one_if : Bool → ℕ
one_if b = if b then 1 else 0

abbrev pub active_count : ℕ → List Settlement → List SettlementLine → ℕ
active_count i ss [] = 0
active_count i ss (x ∷ xs) = one_if (counts i ss x) + active_count i ss xs

-- The settlements of a line that are not canceled.
abbrev pub settlement_count : Database → ℕ → ℕ
settlement_count db i = active_count i db.settlements db.settlement_lines

any_settled-count :
    (i : ℕ) (ss : List Settlement) (xs : List SettlementLine)
    → any_settled i ss xs ≡ ltb 0 (active_count i ss xs)
unfolding any_settled
any_settled-count i ss [] = refl
any_settled-count i ss (x ∷ xs) = ground (arith, any_settled-count i ss xs)

pub compute_settled-count :
    (db : Database) (i : ℕ) → compute_settled db i ≡ ltb 0 (settlement_count db i)
unfolding compute_settled
compute_settled-count db i = any_settled-count i db.settlements db.settlement_lines

-- No id twice.
pub data UniqueIds : List Settlement → Type 0 where
  no_one : UniqueIds []
  another :
      {s : Settlement} {ss : List Settlement}
      → find_settlement s.id ss ≡ none
      → UniqueIds ss
      → UniqueIds (s ∷ ss)

-- The ids of settlements are theirs alone, and those from `next_id` on are free.
pub record Numbered (db : Database) : Type 0 where
  pub unique : UniqueIds db.settlements
  pub fresh : (i : ℕ) → db.next_id ≤ i → find_settlement i db.settlements ≡ none

find_here : (s : Settlement) (ss : List Settlement) → find_settlement s.id (s ∷ ss) ≡ some s
unfolding find_settlement
find_here s ss = rw ((==_iff s.id s.id).1 refl) refl

find_later :
    (x s : Settlement) (ss : List Settlement)
    → find_settlement x.id ss ≡ none
    → find_settlement s.id ss ≡ some s
    → find_settlement s.id (x ∷ ss) ≡ some s
unfolding find_settlement
find_later x s ss n h = elim (Bool-cases (x.id == s.id)) [
  | inl e ↦
      let gone = subst (λ i. find_settlement i ss ≡ none) ((==_iff x.id s.id).0 e) n in absurd cc
  | inr e ↦ rw e h
]

not_here :
    (i : ℕ) (s : Settlement) (ss : List Settlement)
    → find_settlement i (s ∷ ss) ≡ none
    → ((i == s.id) ≡ false) × (find_settlement i ss ≡ none)
unfolding find_settlement
not_here i s ss h = (ground arith, ground arith)

pub found_by_id :
    (agent company : ℕ) (a b : Date) (ss : List Settlement) (s : Settlement)
    → UniqueIds ss
    → get_settlement agent company a b ss ≡ some s
    → find_settlement s.id ss ≡ some s
unfolding get_settlement find_settlement
found_by_id agent company a b [] s no_one h = cc
found_by_id agent company a b (x ∷ ss) s (another n u) h =
    elim (Bool-cases (for_period agent company a b x)) [
      | inl e ↦
          subst (λ y. find_settlement s.id (y ∷ ss) ≡ some s) (sym (some_inj (rw e at h)))
            (find_here s ss)
      | inr e ↦ find_later x s ss n (found_by_id agent company a b ss s u (rw e at h))
    ]

pub find_settlement-append :
    (i : ℕ) (ss : List Settlement) (new : Settlement)
    → find_settlement new.id ss ≡ none
    → find_settlement i (ss ++ (new ∷ []))
      ≡ (if new.id == i then some new else find_settlement i ss)
unfolding find_settlement
find_settlement-append i [] new h = ground arith
find_settlement-append i (s ∷ ss) new h = ground (arith, find_settlement-append i ss new)

pub UniqueIds-append :
    (ss : List Settlement) (new : Settlement)
    → UniqueIds ss
    → find_settlement new.id ss ≡ none
    → UniqueIds (ss ++ (new ∷ []))
unfolding find_settlement
UniqueIds-append [] new no_one h = another refl no_one
UniqueIds-append (s ∷ ss) new (another n u) h =
    let (other, later) = not_here new.id s ss h in
    another (find_settlement-append s.id ss new later ∙ (rw other n))
      (UniqueIds-append ss new u later)

not_cancel-append :
    (i : ℕ) (ss : List Settlement) (new : Settlement)
    → find_settlement new.id ss ≡ none
    → new.state ≡ settled
    → not_cancel (find_settlement i (ss ++ (new ∷ []))) ≡ not_cancel (find_settlement i ss)
not_cancel-append i ss new h k =
    rw (find_settlement-append i ss new h) (elim (Bool-cases (new.id == i)) [
      | inl e ↦
          let gone = subst (λ j. find_settlement j ss ≡ none) ((==_iff new.id i).0 e) h in
          rw e (rw (k, gone) refl)
      | inr e ↦ rw e refl
    ])

pub active_count-append :
    (i : ℕ) (ss : List Settlement) (new : Settlement) (xs : List SettlementLine)
    → find_settlement new.id ss ≡ none
    → new.state ≡ settled
    → active_count i (ss ++ (new ∷ [])) xs ≡ active_count i ss xs
active_count-append i ss new [] h k = refl
active_count-append i ss new (x ∷ xs) h k =
    rw (not_cancel-append x.settlement_id ss new h k, active_count-append i ss new xs h k) refl

pub active_count-line :
    (i : ℕ) (ss : List Settlement) (xs : List SettlementLine) (x : SettlementLine)
    → active_count i ss (xs ++ (x ∷ [])) ≡ active_count i ss xs + one_if (counts i ss x)
active_count-line i ss [] x = omega arith
active_count-line i ss (y ∷ xs) x = let e = active_count-line i ss xs x in omega arith
