-- ===== src/Contract/Tests/States.antt =====
-- The theorems on the state of a line and on what may be done with it, at concrete lines.
use projectname.Prelude.{◌≡◌, ◌↔◌, refl, Option, true, false, none, some, [], ◌∷◌, arith, not, ◌&&◌}
use projectname.Contract.Criteria.{criterion, during}
use projectname.Contract.Allowed.{criteria_allowed_dict}
use projectname.Contract.Allowed.Rules.{rules, criteria_allowed_dict-eq-rules}
use projectname.Contract.State.{
  State, in_progress, canceled, compute_state, get_state_domain, search_state, not_among,
}
use projectname.Contract.State.Progress.{Advances, compute_state-Advances}
use projectname.Contract.State.Search.{get_state_domain-matches, is_state, missed}
use projectname.Contract.State.Union.{found, search_state-matches}
use projectname.Contract.State.Asked.{Asks}
use projectname.Contract.Tests.Samples.{hundred_days, from_the_right}

criteria_allowed_dict-eq-rules_example :
    criteria_allowed_dict (criterion during true false false true true false)
    ≡ rules (criterion during true false false true true false)
criteria_allowed_dict-eq-rules_example =
    criteria_allowed_dict-eq-rules (criterion during true false false true true false)

compute_state-Advances_example :
    Advances (compute_state 1050 hundred_days) (compute_state 1080 hundred_days)
compute_state-Advances_example = compute_state-Advances hundred_days 1050 1080 refl (omega arith)

get_state_domain-matches_example :
    from_the_right.matches (get_state_domain 1050 (some in_progress)) hundred_days ≡ (
      is_state (compute_state 1050 hundred_days) in_progress
      && not (missed 1050 in_progress hundred_days))
get_state_domain-matches_example =
    get_state_domain-matches from_the_right 1050 in_progress hundred_days refl (omega arith)

search_state-matches_example :
    (from_the_right.matches (search_state 1050 (not_among (none ∷ some canceled ∷ []))) hundred_days
      ≡ true)
    ↔ ((s : Option State) × Asks (not_among (none ∷ some canceled ∷ [])) s
        × (found from_the_right 1050 hundred_days s ≡ true))
search_state-matches_example =
    search_state-matches from_the_right 1050 hundred_days (not_among (none ∷ some canceled ∷ []))
      refl

-- On the day of its notice date the line is in progress and a search for that state misses it.
notice_day_missed :
    (compute_state 1069 hundred_days ≡ some (some in_progress))
    × (from_the_right.matches (get_state_domain 1069 (some in_progress)) hundred_days ≡ false)
unfolding compute_state get_state_domain
notice_day_missed = (refl, refl)
