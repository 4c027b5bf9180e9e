-- ===== src/Contract/Billing/Forgotten.antt =====
-- `_init_last_date_invoiced` on a line whose last invoiced day is lost.
use projectname.Prelude.{
  ℕ, zero, suc, ◌<◌, ◌≡◌, refl, true, false, Option, none, some, arith, [], ◌∷◌, ok, ap, sym, subst,
  ◌∙◌, some_inj, ltb, if◌then◌else◌, Bool-cases, Option-cases, inl, inr,
}
use projectname.Contract.Calendar.{Calendar, days, months_first_day}
use projectname.Contract.Line.{
  Line, monthlylastday, pre_paid, post_paid, is_monthlylastday, recurring_invoicing_offset,
}
use projectname.Contract.Period.{
  get_relative_delta, is_past, trim, get_next_period_date_end, get_next_invoice_date,
  first_date_to_invoice, next_period_date_start,
}
use projectname.Contract.Billing.Init.{
  minus_other_months, last_date_before, init_from, init_last_date_invoiced, forgotten,
}
use projectname.Contract.Checks.{Field, validate, constrains, has_field, check_last_date_invoiced}
use projectname.Contract.Period.Bounds.{
  get_next_period_date_end_bounds, plus-get_relative_delta, day_before,
}
use projectname.Contract.Billing.Step.{
  computed_after, InStep, LastInRange, computed_invoice_date, next_period_date_start-eq,
}

module _ (cal : Calendar) where
  open cal use {plus, minus}

  -- The end of the period from `s`, before it is cut at the end of the line.
  abbrev whole_period_end : Line → ℕ → ℕ
  whole_period_end rec s =
      minus (plus s (get_relative_delta rec.recurring_rule_type rec.recurring_interval)) (days 1)

  -- When the start `s` of a period can be read off its invoice date. A line that is invoiced before
  -- each period needs nothing; otherwise the period is not cut at the end of the line, and `s` is
  -- the first day of a month, for a line by the last day of months, or else a day to which
  -- dateutil's subtraction leads back from the sum.
  pub data Recoverable (rec : Line) (s : ℕ) : Type 0 where
    before_period :
        is_monthlylastday rec.recurring_rule_type ≡ false
        → rec.recurring_invoicing_type ≡ pre_paid
        → Recoverable rec s
    after_period :
        is_monthlylastday rec.recurring_rule_type ≡ false
        → rec.recurring_invoicing_type ≡ post_paid
        → is_past rec.date_end (whole_period_end rec s) ≡ false
        → minus
            (plus s (get_relative_delta rec.recurring_rule_type rec.recurring_interval))
            (get_relative_delta rec.recurring_rule_type rec.recurring_interval)
          ≡ s
        → Recoverable rec s
    at_month_end :
        rec.recurring_rule_type ≡ monthlylastday
        → rec.recurring_invoicing_type ≡ post_paid
        → is_past rec.date_end (whole_period_end rec s) ≡ false
        → plus s (months_first_day 0) ≡ s
        → Recoverable rec s

  trim-fits : (m : Option ℕ) (e : ℕ) → is_past m e ≡ false → trim m e ≡ e
  unfolding trim is_past
  trim-fits none e h = refl
  trim-fits (some m) e h = rw h refl

  -- The invoice date of a whole period.
  whole_period :
      (rec : Line) (s : ℕ)
      → is_past rec.date_end s ≡ false
      → is_past rec.date_end (whole_period_end rec s) ≡ false
      → rec.recurring_invoicing_type ≡ post_paid
      → computed_invoice_date cal rec (some s)
        ≡ some (plus (whole_period_end rec s) (days (recurring_invoicing_offset rec)))
  unfolding get_next_invoice_date get_next_period_date_end trim is_past
  whole_period rec s open_end fits post =
      rw (open_end, trim-fits rec.date_end (whole_period_end rec s) fits, post) refl

  at_start :
      (rec : Line) (s : ℕ)
      → 0 < rec.recurring_interval
      → is_past rec.date_end s ≡ false
      → rec.recurring_invoicing_type ≡ pre_paid
      → computed_invoice_date cal rec (some s)
        ≡ some (plus s (days (recurring_invoicing_offset rec)))
  unfolding get_next_invoice_date
  at_start rec s h open_end pre =
      let (e, eq, b) =
        get_next_period_date_end_bounds cal s rec.recurring_rule_type rec.recurring_interval
          rec.date_end rec.recurring_invoicing_type (recurring_invoicing_offset rec) h open_end in
      rw (eq, pre) refl

  month_back :
      (s n : ℕ)
      → 0 < n
      → plus s (months_first_day 0) ≡ s
      → minus_other_months cal (minus (plus s (months_first_day n)) (days 1)) n ≡ s
  unfolding minus_other_months
  month_back s zero h first = absurd (omega (arith, h))
  month_back s (suc n) h first =
      let later = cal.first_day_next s n in
      let last = cal.minus_days (plus s (months_first_day (suc n))) 1 (omega (arith, later)) in
      cal.minus_first_day s (minus (plus s (months_first_day (suc n))) (days 1)) n
        (omega (arith, later, last)) (omega (arith, last))
      ∙ first

  month_end_back :
      (rec : Line) (s : ℕ)
      → 0 < rec.recurring_interval
      → rec.recurring_rule_type ≡ monthlylastday
      → plus s (months_first_day 0) ≡ s
      → minus_other_months cal (whole_period_end rec s) rec.recurring_interval ≡ s
  unfolding get_relative_delta
  month_end_back rec s h rule first = rw rule (month_back s rec.recurring_interval h first)

  -- The code's date is the day before the start of the period.
  last_date_before-eq :
      (rec : Line) (s next : ℕ)
      → 0 < rec.recurring_interval
      → is_past rec.date_end s ≡ false
      → Recoverable rec s
      → computed_invoice_date cal rec (some s) ≡ some next
      → last_date_before cal rec next ≡ minus s (days 1)
  unfolding last_date_before recurring_invoicing_offset
  last_date_before-eq rec s next h open_end (before_period rule pre) eq =
      let at : next ≡ plus s (days 0) =
        some_inj (sym eq ∙ at_start rec s h open_end pre) ∙ (rw pre refl) in
      let same : next ≡ s = omega (arith, at, cal.plus_days s 0) in rw (rule, pre, same) refl
  last_date_before-eq rec s next h open_end (after_period rule post fits undone) eq =
      let at : next ≡ plus (whole_period_end rec s) (days 1) =
        some_inj (sym eq ∙ whole_period rec s open_end fits post) ∙ (rw (post, rule) refl) in
      let grows = plus-get_relative_delta cal s rec.recurring_rule_type rec.recurring_interval h in
      let e = plus s (get_relative_delta rec.recurring_rule_type rec.recurring_interval) in
      let back = day_before cal s e grows in
      let same : next ≡ e = omega (arith, at, cal.plus_days (minus e (days 1)) 1, back) in
      rw (rule, post, same, undone) refl
  last_date_before-eq rec s next h open_end (at_month_end rule post fits first) eq =
      let undone = month_end_back rec s h rule first in
      let at : next ≡ plus (whole_period_end rec s) (days 0) =
        some_inj (sym eq ∙ whole_period rec s open_end fits post)
        ∙ (rw (post, ap is_monthlylastday rule) refl) in
      let same : next ≡ whole_period_end rec s =
        omega (arith, at, cal.plus_days (whole_period_end rec s) 0) in
      rw (ap is_monthlylastday rule, same, undone) refl

  same_last :
      (rec : Line) (last : Option ℕ)
      → rec.last_date_invoiced ≡ last
      → record rec { last_date_invoiced = last } ≡ rec
  same_last rec last h = ap (λ x. record rec { last_date_invoiced = x }) (sym h)

  ltb-yes : (a b : ℕ) → a < b → ltb a b ≡ true
  ltb-yes a b h = ground arith

  absurd_some {ℓ} : {A : Type ℓ} {a : ℕ} → some a ≡ none → A
  absurd_some h = cc

  -- The invoice date of a line in step is that of the period after the last invoiced day.
  next_from_last :
      (rec : Line) (last next : ℕ)
      → InStep cal rec
      → rec.last_date_invoiced ≡ some last
      → rec.recurring_next_date ≡ some next
      → (is_past rec.date_end (plus last (days 1)) ≡ false)
        × (computed_invoice_date cal rec (some (plus last (days 1))) ≡ some next)
  unfolding first_date_to_invoice get_next_invoice_date
  next_from_last rec last next inv is_last is_next =
      let first = plus last (days 1) in
      let start : next_period_date_start cal rec
          ≡ (if is_past rec.date_end first then none else some first) =
        next_period_date_start-eq cal rec ∙ (rw is_last refl) in
      let eq : some next
          ≡ computed_invoice_date cal rec
              (if is_past rec.date_end first then none else some first) =
        sym is_next ∙ inv.next_date ∙ ap (computed_invoice_date cal rec) start in
      elim (Bool-cases (is_past rec.date_end (plus last (days 1)))) [
        | inl past ↦ absurd_some (eq ∙ (rw past refl))
        | inr more ↦ (more, sym (eq ∙ (rw more refl)))
      ]

  validate_last :
      (rec : Line) (last next : ℕ)
      → rec.date_start < last
      → is_past rec.date_end last ≡ false
      → rec.recurring_next_date ≡ some next
      → last < next
      → validate
          (Field.last_date_invoiced ∷ [])
          (record rec { last_date_invoiced = some last })
          none
          none
        ≡ ok tt
  unfolding validate constrains has_field check_last_date_invoiced is_past
  validate_last rec last next after within is_next before = elim (Option-cases rec.date_end) [
    | inl open_end ↦ ground arith
    | inr (m, eq) ↦ ground arith
  ]

  init_from-written :
      (rec : Line) (last next : ℕ)
      → last_date_before cal rec next ≡ last
      → rec.date_start < last
      → validate
          (Field.last_date_invoiced ∷ [])
          (record rec { last_date_invoiced = some last })
          none
          none
        ≡ ok tt
      → init_from cal (forgotten rec) (some next)
        ≡ ok (record rec { last_date_invoiced = some last })
  unfolding init_from last_date_before
  init_from-written rec last next back after valid =
      rw (back, ltb-yes rec.date_start last after, valid) refl

  -- If the last invoiced day of a line in step is lost, and it is after the start of the line, then
  -- the method gives the line back, where the next period can be read off its invoice date.
  pub init_last_date_invoiced-forgotten :
      (rec : Line) (last next : ℕ)
      → InStep cal rec
      → rec.last_date_invoiced ≡ some last
      → rec.recurring_next_date ≡ some next
      → rec.date_start < last
      → Recoverable rec (plus last (days 1))
      → init_last_date_invoiced cal (forgotten rec) ≡ ok rec
  unfolding init_last_date_invoiced
  init_last_date_invoiced-forgotten rec last next inv is_last is_next after r =
      let (more, eq) = next_from_last rec last next inv is_last is_next in
      let (nid, computed, le) = computed_after cal rec (plus last (days 1)) inv.interval_pos more in
      let before : last < next =
        omega (arith, le, cal.plus_days last 1, some_inj (sym eq ∙ computed)) in
      let within : is_past rec.date_end last ≡ false =
        (subst (LastInRange rec) is_last inv.last_in_range).1 in
      let one = cal.minus_days (plus last (days 1)) 1 (omega (arith, cal.plus_days last 1)) in
      let back : last_date_before cal rec next ≡ last =
        last_date_before-eq rec (plus last (days 1)) next inv.interval_pos more r eq
        ∙ (omega (arith, one, cal.plus_days last 1)) in
      let valid = validate_last rec last next after within is_next before in
      ap (init_from cal (forgotten rec)) is_next
      ∙ init_from-written rec last next back after valid
      ∙ ap ok (same_last rec (some last) is_last)
