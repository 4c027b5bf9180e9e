-- ===== src/Contract/Lifecycle/Delay.antt =====
-- The dates of a line that is delayed by a suspension.
use projectname.Prelude.{
  ℕ, ◌+◌, ◌-◌, ◌≤◌, ◌<◌, ◌≡◌, true, Option, none, some, arith, Bool-cases, inl, inr, ltb, leb, ◌∙◌,
  if◌then◌else◌,
}
use projectname.Prelude.Int.{pos, sub_ℕ, ◌+ℤ◌}
use projectname.Contract.Line.{Line}
use projectname.Contract.Store.{Env}
use projectname.Contract.Lifecycle.Suspend.{delayed, delay_delta, shift, shift_end}

leb-true : (m n : ℕ) → m ≤ n → leb m n ≡ true
leb-true m n h = ground arith

positive : (d n : ℕ) → shift d (pos n +ℤ pos 1) ≡ d + n + 1
unfolding ◌+ℤ◌
positive d n = rw (leb-true 0 (n + 1) (omega arith)) (omega arith)

shift-sub_ℕ : (d m n : ℕ) → m ≤ n → shift d (sub_ℕ n m +ℤ pos 1) ≡ d + (n - m) + 1
shift-sub_ℕ d m n h = rw (leb-true m n h) (positive d (n - m))

-- The days of the delay.
abbrev delay_days : ℕ → ℕ → ℕ → ℕ
delay_days start susp_start susp_end =
    if ltb start susp_end then susp_end - start + 1 else susp_end - susp_start + 1

shift-delay_delta :
    (start susp_start susp_end d : ℕ)
    → susp_start ≤ susp_end
    → shift d (delay_delta start susp_start susp_end) ≡ d + delay_days start susp_start susp_end
unfolding delay_delta
shift-delay_delta start a b d h = elim (Bool-cases (ltb start b)) [
  | inl inside ↦ rw inside (shift-sub_ℕ d start b (ground arith) ∙ omega arith)
  | inr after ↦ rw after (shift-sub_ℕ d a b h ∙ omega arith)
]

-- The end of the line is as many days after its start as before the delay.
abbrev pub SameDays : Option ℕ → ℕ → Option ℕ → ℕ → Type 0
SameDays none start none start' = Unit
SameDays (some e) start (some e') start' = e' + start ≡ e + start'
SameDays _ _ _ _ = ⊥

SameDays-shifted :
    (end : Option ℕ) (start susp_start susp_end : ℕ)
    → susp_start ≤ susp_end
    → let delta = delay_delta start susp_start susp_end in
      SameDays end start (shift_end end delta) (shift start delta)
SameDays-shifted none start a b h = tt
SameDays-shifted (some e) start a b h =
    rw (shift-delay_delta start a b e h, shift-delay_delta start a b start h) (omega arith)

after_suspension :
    (start susp_start susp_end : ℕ)
    → susp_start ≤ start
    → susp_end < start + delay_days start susp_start susp_end
after_suspension start a b h = ground arith

-- A line that does not start before a suspension starts after it once it is delayed, and its end,
-- if it has one, is as many days after its start as it was.
pub delayed-after_suspension :
    (env : Env) (rec : Line) (susp_start susp_end : ℕ)
    → susp_start ≤ susp_end
    → susp_start ≤ rec.date_start
    → let line = delayed env rec (delay_delta rec.date_start susp_start susp_end) in
      (susp_end < line.date_start)
      × SameDays rec.date_end rec.date_start line.date_end line.date_start
unfolding delayed
delayed-after_suspension env rec a b h k = (
  rw (shift-delay_delta rec.date_start a b rec.date_start h)
      (after_suspension rec.date_start a b k),
  SameDays-shifted rec.date_end rec.date_start a b h,
)
