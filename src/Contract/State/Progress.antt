-- ===== src/Contract/State/Progress.antt =====
-- How the state of a line that is not written changes as the days pass.
use projectname.Prelude.{
  ltb, both_lt, not, ◌&&◌, ◌||◌, if◌then◌else◌, ℕ, ◌≤◌, ◌≡◌, Option, none, some, arith, is_set,
  Option-cases, inl, inr,
}
use projectname.Contract.Line.{Line}
use projectname.Contract.State.{
  State, upcoming, in_progress, to_renew, upcoming_close, closed, canceled, compute_state,
}

-- The order in which a line goes through its states.
abbrev pub rank : State → ℕ
rank upcoming = 0
rank in_progress = 1
rank upcoming_close = 2
rank to_renew = 3
rank closed = 3
rank canceled = 4

-- Two assigned states, the second not before the first in that order.
abbrev pub Advances : Option (Option State) → Option (Option State) → Type 0
Advances (some (some earlier)) (some (some later)) = rank earlier ≤ rank later
Advances _ _ = ⊥

module _ (rec : Line) where
  -- The state within the period, by the notice date.
  in_period : ℕ → Option ℕ → State
  in_period day notice =
      if both_lt notice (some day) && not rec.is_auto_renew && not rec.manual_renew_needed
      then upcoming_close
      else in_progress

  after_end : State
  after_end =
      if rec.manual_renew_needed && not (is_set rec.successor_contract_line_id) || rec.is_auto_renew
      then to_renew
      else closed

  since_start : ℕ → Option ℕ → State
  since_start day none = in_period day rec.termination_notice_date
  since_start day (some stop) =
      if ltb stop day then after_end else in_period day rec.termination_notice_date

  phase : ℕ → State
  phase day =
      if rec.is_canceled
      then canceled
      else if ltb day rec.date_start
      then upcoming
      else since_start day rec.date_end

  compute_state-eq :
      (day : ℕ) → rec.display_type ≡ none → compute_state day rec ≡ some (some (phase day))
  unfolding compute_state phase since_start in_period after_end
  compute_state-eq day h = elim (Option-cases rec.date_end) [
    | inl open_end ↦ ground arith
    | inr (stop, e) ↦ ground arith
  ]

  rank-in_period :
      (day : ℕ) (notice : Option ℕ)
      → (1 ≤ rank (in_period day notice)) × (rank (in_period day notice) ≤ 2)
  unfolding in_period
  rank-in_period day notice = ground arith

  rank-after_end : rank after_end ≡ 3
  unfolding after_end
  rank-after_end = ground arith

  in_period_mono :
      (a b : ℕ) (notice : Option ℕ) → a ≤ b → rank (in_period a notice) ≤ rank (in_period b notice)
  unfolding in_period
  in_period_mono a b none h = ground arith
  in_period_mono a b (some n) h = ground arith

  since_start_mono :
      (a b : ℕ) (end : Option ℕ) → a ≤ b → rank (since_start a end) ≤ rank (since_start b end)
  unfolding since_start
  since_start_mono a b none h = in_period_mono a b _ h
  since_start_mono a b (some stop) h = ground (
    arith,
    in_period_mono a b rec.termination_notice_date,
    rank-in_period a rec.termination_notice_date,
    rank-in_period b rec.termination_notice_date,
    rank-after_end,
  )

  phase_mono : (a b : ℕ) → a ≤ b → rank (phase a) ≤ rank (phase b)
  unfolding phase
  phase_mono a b h = ground (arith, since_start_mono a b rec.date_end)

-- A line that is no section and no note has a state on every day, and for a line that is not
-- written in between its state on a later day does not come before its state on an earlier day, in
-- the order upcoming, in progress, upcoming close, closed or to renew.
pub compute_state-Advances :
    (rec : Line) (earlier later : ℕ)
    → rec.display_type ≡ none
    → earlier ≤ later
    → Advances (compute_state earlier rec) (compute_state later rec)
compute_state-Advances rec a b h le =
    rw (compute_state-eq rec a h, compute_state-eq rec b h) (phase_mono rec a b le)
