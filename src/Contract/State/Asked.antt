-- ===== src/Contract/State/Asked.antt =====
-- The states that a search by several states asks for, against those that the code goes through.
use mathlib.Core.Bool.{or-true}
use mathlib.Core.List.{Memᴰ}
use mathlib.Core.List.Memᴰ
use projectname.Prelude.{
  ℕ, Bool, true, false, ◌||◌, Option, none, some, List, [], ◌∷◌, ◌≡◌, refl, sym, ◌∙◌, ap, subst,
  ◌↔◌, ◌==◌, ==_iff, inl, inr, Bool-cases, if◌then◌else◌,
}
use projectname.Contract.State.{
  State, upcoming, in_progress, to_renew, upcoming_close, closed, canceled, state_number, Query,
  equal, not_equal, among, not_among, states, is_among, others,
}

-- The states that the code searches for.
abbrev pub wanted : Query → List (Option State)
wanted (equal v) = v ∷ []
wanted (not_equal v) = others (v ∷ []) states
wanted (among vs) = vs
wanted (not_among vs) = others vs states

abbrev pub any : (Option State → Bool) → List (Option State) → Bool
any p [] = false
any p (s ∷ ss) = p s || any p ss

-- The state is one of those that a query asks for.
abbrev pub Asks : Query → Option State → Type 0
Asks (equal v) s = s ≡ v
Asks (not_equal v) s = ¬ (s ≡ v)
Asks (among vs) s = Memᴰ s vs
Asks (not_among vs) s = ¬ Memᴰ s vs

pub any-Memᴰ :
    (p : Option State → Bool) (ss : List (Option State))
    → (any p ss ≡ true → (s : Option State) × Memᴰ s ss × (p s ≡ true))
      × ((s : Option State) → Memᴰ s ss → p s ≡ true → any p ss ≡ true)
any-Memᴰ p [] = ((λ e. absurd cc), (λ s m f. absurd (Memᴰ.not-nil m)))
any-Memᴰ p (v ∷ vs) =
    let (there, back) = any-Memᴰ p vs in
    (
      (λ e. elim (Bool-cases (p v)) [
        | inl is_it ↦ (v, Memᴰ.head refl, is_it)
        | inr not_it ↦
            let (s, m, f) = there (sym (ap (λ b. b || any p vs) not_it) ∙ e) in (s, Memᴰ.tail m, f)
      ]),
      (λ s m f. elim (Memᴰ.cases_cons m) [
        | inl same ↦ ap (λ b. b || any p vs) (ap p (sym same) ∙ f)
        | inr later ↦ ap (λ b. p v || b) (back s later f) ∙ or-true (p v)
      ]),
    )

state_of : ℕ → Option State
state_of n =
    if n == 1
    then some upcoming
    else if n == 2
    then some in_progress
    else if n == 3
    then some to_renew
    else if n == 4
    then some upcoming_close
    else if n == 5
    then some closed
    else if n == 6
    then some canceled
    else none

state_of-state_number : (s : Option State) → state_of (state_number s) ≡ s
unfolding state_of state_number
state_of-state_number none = refl
state_of-state_number (some upcoming) = refl
state_of-state_number (some in_progress) = refl
state_of-state_number (some to_renew) = refl
state_of-state_number (some upcoming_close) = refl
state_of-state_number (some closed) = refl
state_of-state_number (some canceled) = refl

is_among-Memᴰ : (s : Option State) (vs : List (Option State)) → (is_among s vs ≡ true) ↔ Memᴰ s vs
unfolding is_among
is_among-Memᴰ s [] = ((λ e. absurd cc), (λ m. absurd (Memᴰ.not-nil m)))
is_among-Memᴰ s (v ∷ vs) =
    let (there, back) = is_among-Memᴰ s vs in
    (
      (λ e. elim (Bool-cases (state_number s == state_number v)) [
        | inl is_it ↦
            let same = (==_iff (state_number s) (state_number v)).0 is_it in
            Memᴰ.head (sym (state_of-state_number s) ∙ ap state_of same ∙ state_of-state_number v)
        | inr not_it ↦ Memᴰ.tail (there (sym (ap (λ b. b || is_among s vs) not_it) ∙ e))
      ]),
      (λ m. elim (Memᴰ.cases_cons m) [
        | inl same ↦
            ap (λ b. b || is_among s vs)
              ((==_iff (state_number s) (state_number v)).1 (ap state_number same))
        | inr later ↦
            ap (λ b. (state_number s == state_number v) || b) (back later)
            ∙ or-true (state_number s == state_number v)
      ]),
    )

states-Memᴰ : (s : Option State) → Memᴰ s states
states-Memᴰ s = (is_among-Memᴰ s states).0 (all s)
  where
    all : (s : Option State) → is_among s states ≡ true
    all none = unfold is_among state_number in refl
    all (some upcoming) = unfold is_among state_number in refl
    all (some in_progress) = unfold is_among state_number in refl
    all (some to_renew) = unfold is_among state_number in refl
    all (some upcoming_close) = unfold is_among state_number in refl
    all (some closed) = unfold is_among state_number in refl
    all (some canceled) = unfold is_among state_number in refl

others-Memᴰ :
    (vs ss : List (Option State)) (s : Option State)
    → (Memᴰ s (others vs ss) → ¬ Memᴰ s vs) × (Memᴰ s ss → ¬ Memᴰ s vs → Memᴰ s (others vs ss))
unfolding others
others-Memᴰ vs [] s = ((λ m. absurd (Memᴰ.not-nil m)), (λ m n. m))
others-Memᴰ vs (v ∷ rest) s =
    let (there, back) = others-Memᴰ vs rest s in
    elim (Bool-cases (is_among v vs)) [
      | inl is_it ↦ rw is_it (
        there,
        (λ m n. elim (Memᴰ.cases_cons m) [
          | inl same ↦ absurd (n (subst (λ t. Memᴰ t vs) (sym same) ((is_among-Memᴰ v vs).0 is_it)))
          | inr later ↦ back later n
        ]),
      )
      | inr not_it ↦ rw not_it (
        (λ m. elim (Memᴰ.cases_cons m) [
          | inl same ↦ λ w.
              let among_them = (is_among-Memᴰ v vs).1 (subst (λ t. Memᴰ t vs) same w) in absurd cc
          | inr later ↦ there later
        ]),
        (λ m n. elim (Memᴰ.cases_cons m) [
          | inl same ↦ Memᴰ.head same
          | inr later ↦ Memᴰ.tail (back later n)
        ]),
      )
    ]

one-Memᴰ : (s v : Option State) → Memᴰ s (v ∷ []) ↔ (s ≡ v)
one-Memᴰ s v = (
  (λ m. elim (Memᴰ.cases_cons m) [ inl same ↦ same | inr later ↦ absurd (Memᴰ.not-nil later) ]),
  (λ e. Memᴰ.head e),
)

-- The states that the code searches for are those that are asked for.
pub wanted-Asks : (q : Query) (s : Option State) → Memᴰ s (wanted q) ↔ Asks q s
wanted-Asks (equal v) s = one-Memᴰ s v
wanted-Asks (not_equal v) s =
    let (there, back) = others-Memᴰ (v ∷ []) states s in
    (
      (λ m e. there m ((one-Memᴰ s v).1 e)),
      (λ n. back (states-Memᴰ s) (λ m. n ((one-Memᴰ s v).0 m))),
    )
wanted-Asks (among vs) s = ((λ m. m), (λ m. m))
wanted-Asks (not_among vs) s =
    let (there, back) = others-Memᴰ vs states s in (there, (λ n. back (states-Memᴰ s) n))
