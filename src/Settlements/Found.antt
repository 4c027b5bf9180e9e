-- ===== src/Settlements/Found.antt =====
-- The search of a settlement by its period.
use projectname.Prelude.{
  ℕ, ◌≡◌, refl, sym, ap, ◌∙◌, true, none, some, List, [], ◌∷◌, ◌++◌, arith, inl, inr, Bool-cases,
  some_inj,
}
use projectname.Settlements.Date.{Date, same_date}
use projectname.Settlements.Database.{Settlement, for_period, get_settlement, prepare_settlement}

pub for_period-company :
    (agent company : ℕ) (a b : Date) (s : Settlement)
    → for_period agent company a b s ≡ true
    → s.company_id ≡ company
unfolding for_period
for_period-company agent company a b s h = ground arith

pub get_settlement-for_period :
    (agent company : ℕ) (a b : Date) (ss : List Settlement) (s : Settlement)
    → get_settlement agent company a b ss ≡ some s
    → for_period agent company a b s ≡ true
unfolding get_settlement
get_settlement-for_period agent company a b [] s h = cc
get_settlement-for_period agent company a b (x ∷ ss) s h =
    elim (Bool-cases (for_period agent company a b x)) [
      | inl e ↦ ap (for_period agent company a b) (sym (some_inj (rw e at h))) ∙ e
      | inr e ↦ get_settlement-for_period agent company a b ss s (rw e at h)
    ]

-- A settlement just made is the one that is found.
pub get_settlement-append :
    (agent company : ℕ) (a b : Date) (ss : List Settlement) (new : Settlement)
    → get_settlement agent company a b ss ≡ none
    → for_period agent company a b new ≡ true
    → get_settlement agent company a b (ss ++ (new ∷ [])) ≡ some new
unfolding get_settlement
get_settlement-append agent company a b [] new h k = rw k refl
get_settlement-append agent company a b (x ∷ ss) new h k =
    elim (Bool-cases (for_period agent company a b x)) [
      | inl e ↦ let gone = (rw e at h) in absurd cc
      | inr e ↦ rw e (get_settlement-append agent company a b ss new (rw e at h) k)
    ]

pub prepared-for_period :
    (agent company : ℕ) (a b : Date) (new : ℕ)
    → for_period agent company a b (prepare_settlement agent company a b new) ≡ true
unfolding for_period prepare_settlement same_date
prepared-for_period agent company a b new = ground arith
