-- ===== src/Settlements/Period/Same.antt =====
-- When two dates have the same settlement period: the months are counted from the year 0, and the
-- months of a period are divided by its length.
use projectname.Prelude.{
  ℕ, ◌+◌, ◌-◌, ◌*◌, ◌/◌, ◌%◌, ◌≤◌, ◌<◌, ◌≡◌, ◌↔◌, refl, sym, ap, ◌∙◌, true, false, not, ltb, arith,
  inl, inr, Bool-cases,
}
use projectname.Settlements.Date.{Date, first_of, before, DateArithmetic}
use projectname.Settlements.Period.{
  SettlementPeriod, monthly, quaterly, semi, annual, get_period_start, get_next_period_date,
  get_period_end, InRange,
}

-- The months of a period.
abbrev span : SettlementPeriod → ℕ
span monthly = 1
span quaterly = 3
span semi = 6
span annual = 12

-- The months from the year 0 to that of a date.
abbrev month_index : Date → ℕ
month_index d = d.year * 12 + (d.month - 1)

abbrev first_of_index : ℕ → Date
first_of_index k = first_of (k / 12) (k % 12 + 1)

same_first : (y z m n : ℕ) → y ≡ z → m ≡ n → first_of y m ≡ first_of z n
same_first y z m n e f = rw (e, f) refl

grows : (p : SettlementPeriod) (k : ℕ) → ltb (k / 12 * 12 + (k % 12 + 1 - 1)) (k + span p) ≡ true
grows monthly k = ground arith
grows quaterly k = ground arith
grows semi k = ground arith
grows annual k = ground arith

index_inj : (i j : ℕ) → first_of_index i ≡ first_of_index j → i ≡ j
index_inj i j h = let y = ap (λ d. d.year) h in let m = ap (λ d. d.month) h in omega arith

same_part :
    (p : SettlementPeriod) (i j : ℕ)
    → j / span p * span p ≡ i
    → (ltb j i ≡ false) × (not (ltb j (i + span p)) ≡ false)
same_part monthly i j e = (ground arith, ground arith)
same_part quaterly i j e = (ground arith, ground arith)
same_part semi i j e = (ground arith, ground arith)
same_part annual i j e = (ground arith, ground arith)

part_same :
    (p : SettlementPeriod) (i j : ℕ)
    → i / span p * span p ≡ i
    → ltb j i ≡ false
    → not (ltb j (i + span p)) ≡ false
    → j / span p * span p ≡ i
part_same monthly i j e a b = ground arith
part_same quaterly i j e a b = ground arith
part_same semi i j e a b = ground arith
part_same annual i j e a b = ground arith

module _ (dates : DateArithmetic) where
  open dates use {is_date, plus_months, plus_years, day_before}

  start-index :
      (p : SettlementPeriod) (d : Date)
      → 1 ≤ d.month
      → d.month ≤ 12
      → get_period_start p d ≡ first_of_index (month_index d / span p * span p)
  unfolding get_period_start
  start-index monthly d h k = same_first _ _ _ _ (omega arith) (omega arith)
  start-index quaterly d h k = same_first _ _ _ _ (omega arith) (omega arith)
  start-index semi d h k = elim (Bool-cases (ltb 6 d.month)) [
    | inl late ↦ rw late (same_first _ _ _ _ (ground arith) (ground arith))
    | inr early ↦ rw early (same_first _ _ _ _ (ground arith) (ground arith))
  ]
  start-index annual d h k = same_first _ _ _ _ (omega arith) (omega arith)

  plus_months-index :
      (k n : ℕ) → (k + n) / 12 ≤ 9999 → plus_months (first_of_index k) n ≡ first_of_index (k + n)
  plus_months-index k n h =
      dates.plus_months_first (k / 12) (k % 12 + 1) n (omega arith) (omega arith) (omega arith)
      ∙ same_first _ _ _ _ (omega arith) (omega arith)

  -- The start of a period and the next one.
  record Bounded (p : SettlementPeriod) (k : ℕ) : Type 0 where
    whole : k / span p * span p ≡ k
    low : 12 ≤ k
    high : k + span p ≤ 9999 * 12

  bound : (p : SettlementPeriod) (i : ℕ) → 12 ≤ i → i < 9999 * 12 → Bounded p (i / span p * span p)
  bound monthly i a b = record { whole = omega arith; low = omega arith; high = omega arith }
  bound quaterly i a b = record { whole = omega arith; low = omega arith; high = omega arith }
  bound semi i a b = record { whole = omega arith; low = omega arith; high = omega arith }
  bound annual i a b = record { whole = omega arith; low = omega arith; high = omega arith }

  bounded :
      (p : SettlementPeriod) (d : Date)
      → InRange dates d
      → Bounded p (month_index d / span p * span p)
  bounded p d h =
      let l = dates.month_pos d h.valid in
      let m = dates.month_le d h.valid in
      let y = dates.year_pos d h.valid in
      let z = h.year_lt in bound p (month_index d) (omega arith) (omega arith)

  next-index :
      (p : SettlementPeriod) (k : ℕ)
      → Bounded p k
      → get_next_period_date dates p (first_of_index k) ≡ first_of_index (k + span p)
  unfolding get_next_period_date
  next-index monthly k h = plus_months-index k 1 (let b = h.high in omega arith)
  next-index quaterly k h = plus_months-index k 3 (let b = h.high in omega arith)
  next-index semi k h = plus_months-index k 6 (let b = h.high in omega arith)
  next-index annual k h =
      let b = h.high in
      dates.plus_years_first (k / 12) (k % 12 + 1) 1 (omega arith)
      ∙ same_first _ _ _ _ (omega arith) (omega arith)

  -- A date is before the first day of a month when its month is an earlier one.
  before-first :
      (d : Date) (k : ℕ) → is_date d ≡ true → before d (first_of_index k) ≡ ltb (month_index d) k
  unfolding before
  before-first d k h = ground (arith, dates.month_pos d h, dates.month_le d h, dates.day_pos d h)

  index-is_date : (k : ℕ) → 12 ≤ k → k ≤ 9999 * 12 → is_date (first_of_index k) ≡ true
  index-is_date k a b =
      dates.first_is_date (k / 12) (k % 12 + 1) (omega arith) (omega arith) (omega arith)
        (omega arith)

  -- The second date lies in the period of the first.
  pub record InPeriod (p : SettlementPeriod) (d e : Date) : Type 0 where
    pub not_early : before e (get_period_start p d) ≡ false
    pub not_late : before (get_period_end dates p d) e ≡ false

  after_end :
      (p : SettlementPeriod) (d e : Date)
      → InRange dates d
      → is_date e ≡ true
      → before (get_period_end dates p d) e
        ≡ not (ltb (month_index e) (month_index d / span p * span p + span p))
  unfolding get_period_end
  after_end p d e h v =
      let k = month_index d / span p * span p in
      let b = bounded p d h in
      let start : get_period_start p d ≡ first_of_index k =
        start-index p d (dates.month_pos d h.valid) (dates.month_le d h.valid) in
      let next : get_next_period_date dates p (get_period_start p d) ≡ first_of_index (k + span p) =
        ap (get_next_period_date dates p) start ∙ next-index p k b in
      let first_ok = index-is_date k b.low (let high = b.high in omega arith) in
      let next_ok = index-is_date (k + span p) (let low = b.low in omega arith) b.high in
      let earlier = before-first (first_of_index k) (k + span p) first_ok ∙ grows p k in
      ap (λ x. before (day_before x) e) next
      ∙ dates.after_day_before e (first_of_index (k + span p)) (first_of_index k) v next_ok first_ok
          earlier
      ∙ ap not (before-first e (k + span p) v)

  -- Two dates have the same period just when the second lies between the first and the last day of
  -- the period of the first.
  pub get_period_start-InPeriod :
      (p : SettlementPeriod) (d e : Date)
      → InRange dates d
      → InRange dates e
      → (get_period_start p e ≡ get_period_start p d) ↔ InPeriod p d e
  get_period_start-InPeriod p d e h k =
      let start = start-index p d (dates.month_pos d h.valid) (dates.month_le d h.valid) in
      let start' = start-index p e (dates.month_pos e k.valid) (dates.month_le e k.valid) in
      let i = month_index d / span p * span p in
      let early = ap (before e) start ∙ before-first e i k.valid in
      let late = after_end p d e h k.valid in
      (
        (λ same.
            let eq = index_inj (month_index e / span p * span p) i (sym start' ∙ same ∙ start) in
            let (a, b) = same_part p i (month_index e) eq in
            record { not_early = early ∙ a; not_late = late ∙ b }),
        (λ within.
            start'
            ∙ ap first_of_index (
                part_same p i (month_index e) (bounded p d h).whole (sym early ∙ within.not_early)
                  (sym late ∙ within.not_late))
            ∙ sym start),
      )
