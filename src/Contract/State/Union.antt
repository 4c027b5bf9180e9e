-- ===== src/Contract/State/Union.antt =====
-- The lines that a search by several states finds.
use projectname.Prelude.{
  ℕ, Bool, true, false, ◌||◌, Option, none, some, List, [], ◌∷◌, ◌++◌, ◌≡◌, refl, sym, ◌∙◌, ap, ◌↔◌,
}
use mathlib.Core.Bool.{or_assoc, or-false}
use projectname.Contract.Line.{Line}
use projectname.Contract.State.{
  State, upcoming, in_progress, to_renew, upcoming_close, closed, canceled, display_type_is_set,
  no_id, Token, either, get_state_domain, Query, equal, not_equal, among, not_among, states,
  is_among, others, extend, extend_all, no_line_or, search_state,
}
use projectname.Contract.State.Asked.{wanted, any, Asks, any-Memᴰ, wanted-Asks}
use projectname.Contract.State.Search.{
  Condition, test, any_of, tokens, holds, DomainSearch, condition, tokens-condition,
}

abbrev condition_of : ℕ → Option State → Condition
condition_of today none = test display_type_is_set
condition_of today (some s) = condition today s

tokens-condition_of :
    (today : ℕ) (s : Option State) → tokens (condition_of today s) ≡ get_state_domain today s
unfolding get_state_domain
tokens-condition_of today none = refl
tokens-condition_of today (some s) = tokens-condition today s

any_more : ℕ → Condition → List (Option State) → Condition
any_more today c [] = c
any_more today c (s ∷ ss) = any_more today (any_of c (condition_of today s)) ss

extend-tokens :
    (c : Condition) (more : List Token) → extend (tokens c) more ≡ either ∷ (tokens c ++ more)
extend-tokens (test l) more = refl
extend-tokens (Condition.all_of c d) more = refl
extend-tokens (any_of c d) more = refl

extend_all-tokens :
    (today : ℕ) (c : Condition) (ss : List (Option State))
    → extend_all today (tokens c) ss ≡ tokens (any_more today c ss)
unfolding extend_all any_more
extend_all-tokens today c [] = refl
extend_all-tokens today c (s ∷ ss) =
    ap (λ d. extend_all today d ss)
      (extend-tokens c (get_state_domain today s)
        ∙ ap (λ d. either ∷ (tokens c ++ d)) (sym (tokens-condition_of today s)))
    ∙ extend_all-tokens today (any_of c (condition_of today s)) ss

holds-any_more :
    (today : ℕ) (c : Condition) (rec : Line) (ss : List (Option State))
    → holds (any_more today c ss) rec
      ≡ (holds c rec || any (λ s. holds (condition_of today s) rec) ss)
unfolding any_more
holds-any_more today c rec [] = sym (or-false (holds c rec))
holds-any_more today c rec (s ∷ ss) =
    holds-any_more today (any_of c (condition_of today s)) rec ss
    ∙ or_assoc (holds c rec) (holds (condition_of today s) rec) _

-- Not the search for a state among none.
abbrev pub asks : Query → Bool
asks (among []) = false
asks _ = true

module _ (search : DomainSearch) (today : ℕ) (rec : Line) where
  abbrev pub found : Option State → Bool
  found s = search.matches (get_state_domain today s) rec

  found-holds : (s : Option State) → holds (condition_of today s) rec ≡ found s
  found-holds s =
      sym (search.prefix_notation (condition_of today s) rec)
      ∙ ap (λ d. search.matches d rec) (tokens-condition_of today s)

  any-found :
      (ss : List (Option State)) → any (λ s. holds (condition_of today s) rec) ss ≡ any found ss
  any-found [] = refl
  any-found (s ∷ ss) = rw (found-holds s, any-found ss) refl

  extend_all-matches :
      (s : Option State) (ss : List (Option State))
      → search.matches (extend_all today [] (s ∷ ss)) rec ≡ any found (s ∷ ss)
  unfolding extend_all
  extend_all-matches s ss =
      ap (λ d. search.matches d rec)
        (ap (λ d. extend_all today d ss) (sym (tokens-condition_of today s))
          ∙ extend_all-tokens today (condition_of today s) ss)
      ∙ search.prefix_notation (any_more today (condition_of today s) ss) rec
      ∙ holds-any_more today (condition_of today s) rec ss
      ∙ any-found (s ∷ ss)

  not_all :
      (v : Option State)
      → search.matches (extend_all today [] (others (v ∷ []) states)) rec
        ≡ any found (others (v ∷ []) states)
  unfolding others is_among
  not_all none = extend_all-matches _ _
  not_all (some upcoming) = extend_all-matches _ _
  not_all (some in_progress) = extend_all-matches _ _
  not_all (some to_renew) = extend_all-matches _ _
  not_all (some upcoming_close) = extend_all-matches _ _
  not_all (some closed) = extend_all-matches _ _
  not_all (some canceled) = extend_all-matches _ _

  left_over :
      (ss : List (Option State))
      → search.matches (no_line_or ss (extend_all today [] ss)) rec ≡ any found ss
  left_over [] = search.prefix_notation (test no_id) rec
  left_over (s ∷ ss) = extend_all-matches s ss

  searched-matches :
      (q : Query) → asks q ≡ true → search.matches (search_state today q) rec ≡ any found (wanted q)
  unfolding search_state
  searched-matches (equal v) h = sym (or-false (found v))
  searched-matches (not_equal v) h = not_all v
  searched-matches (among []) h = cc
  searched-matches (among (v ∷ vs)) h = extend_all-matches v vs
  searched-matches (not_among vs) h = left_over (others vs states)

  -- A search by state, with any operator but `in` with no state, finds a line if and only if the
  -- search for some state finds it, out of those that the operator asks for: the state, each other
  -- one, those of the list, or those that are not on it. A line of a section or a note has no
  -- state, which counts as one.
  pub search_state-matches :
      (q : Query)
      → asks q ≡ true
      → (search.matches (search_state today q) rec ≡ true)
        ↔ ((s : Option State) × Asks q s × (found s ≡ true))
  search_state-matches q h =
      let (there, back) = any-Memᴰ found (wanted q) in
      (
        (λ e.
            let (s, m, f) = there (sym (searched-matches q h) ∙ e) in
            (s, (wanted-Asks q s).0 m, f)),
        (λ (s, a, f). searched-matches q h ∙ back s ((wanted-Asks q s).1 a) f),
      )
