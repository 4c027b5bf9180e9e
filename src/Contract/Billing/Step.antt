-- ===== src/Contract/Billing/Step.antt =====
-- One step of billing.
use projectname.Prelude.{
  ℕ, ◌+◌, ◌≤◌, ◌<◌, ◌≡◌, refl, true, false, Option, none, some, arith, ok, sym, ◌∙◌, Option-cases,
  Bool-cases, inl, inr, [], ◌∷◌, if◌then◌else◌,
}
use projectname.Contract.Calendar.{Calendar, days}
use projectname.Contract.Line.{
  Line, recurring_invoicing_offset, InvoicingType, RuleType, is_pre_paid,
}
use projectname.Contract.Period.{
  is_past, get_next_period_date_end, get_next_invoice_date, first_date_to_invoice,
  next_period_date_start, next_period_date_end,
}
use projectname.Contract.Period.Bounds.{EndsPeriod, get_next_period_date_end_bounds}
use projectname.Contract.Period.Forced.{get_next_period_date_end_forced}
use projectname.Contract.Checks.{
  check_last_date_invoiced, check_recurring_next_date_recurring_invoices,
  check_recurring_next_date_start_date, validate, Field, constrains, has_field,
}
use projectname.Contract.Billing.{update_recurring_next_date}

-- The last invoiced day lies in the line.
abbrev pub LastInRange : Line → Option ℕ → Type 0
LastInRange rec none = Unit
LastInRange rec (some last) = (rec.date_start ≤ last) × (is_past rec.date_end last ≡ false)

module _ (cal : Calendar) where
  open cal use {plus, minus}

  -- The invoice date that the code computes for a period from `start`.
  abbrev pub computed_invoice_date : Line → Option ℕ → Option ℕ
  computed_invoice_date rec start =
      get_next_invoice_date cal start rec.recurring_invoicing_type (recurring_invoicing_offset rec)
        rec.recurring_rule_type rec.recurring_interval rec.date_end

  -- What holds of a line between two invoices.
  pub record InStep (rec : Line) : Type 0 where
    pub interval_pos : 0 < rec.recurring_interval
    pub start_in_range : is_past rec.date_end rec.date_start ≡ false
    pub last_in_range : LastInRange rec rec.last_date_invoiced
    pub next_date :
        rec.recurring_next_date ≡ computed_invoice_date rec (next_period_date_start cal rec)

  -- The invoice date of a period is not before its start.
  pub computed_after :
      (rec : Line) (start : ℕ)
      → 0 < rec.recurring_interval
      → is_past rec.date_end start ≡ false
      → (nid : ℕ) × (computed_invoice_date rec (some start) ≡ some nid) × (start ≤ nid)
  unfolding get_next_invoice_date
  computed_after rec start h k =
      let off = recurring_invoicing_offset rec in
      let (e, eq, b) =
        get_next_period_date_end_bounds cal start rec.recurring_rule_type rec.recurring_interval
          rec.date_end rec.recurring_invoicing_type off h k in
      (
        if is_pre_paid rec.recurring_invoicing_type
            then plus start (days off)
            else plus e (days off),
        rw eq,
        ground (arith, cal.plus_days start off, cal.plus_days e off, b.not_empty),
      )

  -- The line ends the period that starts at `s` on `e`.
  pub record NextPeriod (rec : Line) (s : ℕ) : Type 0 where
    pub nid : ℕ
    pub e : ℕ
    pub due : rec.recurring_next_date ≡ some nid
    pub ends : next_period_date_end cal rec ≡ some e
    pub after_start : s ≤ nid
    pub bounds : EndsPeriod rec.date_end s e

  pub InStep-NextPeriod :
      (rec : Line) (s : ℕ)
      → InStep rec
      → next_period_date_start cal rec ≡ some s
      → is_past rec.date_end s ≡ false
      → NextPeriod rec s
  unfolding next_period_date_end recurring_invoicing_offset
  InStep-NextPeriod rec s inv hs hr =
      let off = recurring_invoicing_offset rec in
      let (nid, due, le) = computed_after rec s inv.interval_pos hr in
      let (e, eq, b) =
        get_next_period_date_end_bounds cal s rec.recurring_rule_type rec.recurring_interval
          rec.date_end rec.recurring_invoicing_type off inv.interval_pos hr in
      let due' : rec.recurring_next_date ≡ some nid = inv.next_date ∙ (rw hs due) in
      record {
        nid = nid;
        e = e;
        due = due';
        ends = rw (hs, due') (get_next_period_date_end_forced cal s _ _ _ _ _ nid due ∙ eq);
        after_start = le;
        bounds = b;
      }

  pub start-le-first :
      (rec : Line) (last : Option ℕ)
      → LastInRange rec last
      → rec.date_start ≤ first_date_to_invoice cal last rec.date_start
  unfolding first_date_to_invoice
  start-le-first rec none h = omega arith
  start-le-first rec (some last) h = omega (arith, cal.plus_days last 1)

  -- The line after an invoice that ends on `e`.
  abbrev pub after_invoice : Line → ℕ → Line
  after_invoice rec e = record rec {
    recurring_next_date = computed_invoice_date rec (some (plus e (days 1)));
    last_date_invoiced = some e;
  }

  -- What the next invoice date must be for the write to pass the constraints.
  abbrev Due : Option ℕ → ℕ → Option ℕ → Type 0
  Due end e none = is_past end (e + 1) ≡ true
  Due end e (some nid) = e < nid

  validate_invoiced :
      (rec : Line) (e : ℕ) (nid : Option ℕ)
      → rec.date_start ≤ e
      → is_past rec.date_end e ≡ false
      → Due rec.date_end e nid
      → validate
          (Field.recurring_next_date ∷ Field.last_date_invoiced ∷ [])
          (record rec { recurring_next_date = nid; last_date_invoiced = some e })
          none
          none
        ≡ ok tt
  unfolding validate constrains has_field check_last_date_invoiced
      check_recurring_next_date_recurring_invoices check_recurring_next_date_start_date is_past
  validate_invoiced rec e none h k d = elim (Option-cases rec.date_end) [
    | inl open_end ↦ ground arith
    | inr (m, eq) ↦ ground arith
  ]
  validate_invoiced rec e (some nid) h k d = elim (Option-cases rec.date_end) [
    | inl open_end ↦ ground arith
    | inr (m, eq) ↦ ground arith
  ]

  pub computed-none :
      (rec : Line) (start : ℕ)
      → is_past rec.date_end start ≡ true
      → computed_invoice_date rec (some start) ≡ none
  unfolding get_next_invoice_date get_next_period_date_end
  computed-none rec start past = rw past

  computed-Due :
      (rec : Line) (e : ℕ)
      → 0 < rec.recurring_interval
      → Due rec.date_end e (computed_invoice_date rec (some (plus e (days 1))))
  computed-Due rec e h = rw (cal.plus_days e 1) (elim (Bool-cases (is_past rec.date_end (e + 1))) [
    | inl past ↦ rw (computed-none rec (e + 1) past) past
    | inr more ↦ let (nid, eq, le) = computed_after rec (e + 1) h more in rw eq (omega arith)
  ])

  -- From a line in step, whose next period starts on `s`, `_update_recurring_next_date` raises
  -- nothing, and moves the line past the period to a line in step.
  pub update_recurring_next_date-ok :
      (rec : Line) (s : ℕ) (next : NextPeriod rec s)
      → InStep rec
      → rec.date_start ≤ s
      → update_recurring_next_date cal rec ≡ ok (after_invoice rec next.e)
  unfolding update_recurring_next_date
  update_recurring_next_date-ok rec s next inv le = rw (next.ends) (
      rw (
        validate_invoiced rec next.e _ (omega (arith, next.bounds.not_empty)) next.bounds.within
          (computed-Due rec next.e inv.interval_pos)))

  no_start_no_date :
      (ty : InvoicingType) (off : ℕ) (rule : RuleType) (interval : ℕ) (m : Option ℕ)
      → get_next_invoice_date cal none ty off rule interval m ≡ none
  unfolding get_next_invoice_date
  no_start_no_date ty off rule interval m = refl

  after_invoice-next :
      (rec : Line) (e : ℕ)
      → computed_invoice_date rec (some (plus e (days 1)))
        ≡ computed_invoice_date
            (after_invoice rec e)
            (next_period_date_start cal (after_invoice rec e))
  unfolding next_period_date_start first_date_to_invoice recurring_invoicing_offset
  after_invoice-next rec e = elim (Bool-cases (is_past rec.date_end (plus e (days 1)))) [
    | inl past ↦
        rw past (computed-none rec (plus e (days 1)) past ∙ sym (no_start_no_date _ _ _ _ _))
    | inr more ↦ rw more
  ]

  pub InStep-after_invoice :
      (rec : Line) (s : ℕ) (next : NextPeriod rec s)
      → InStep rec
      → rec.date_start ≤ s
      → InStep (after_invoice rec next.e)
  InStep-after_invoice rec s next inv le = record {
    interval_pos = inv.interval_pos;
    start_in_range = inv.start_in_range;
    last_in_range = (omega (arith, next.bounds.not_empty), next.bounds.within);
    next_date = after_invoice-next rec next.e;
  }

  -- The first day not invoiced, and what the line says of its next period.
  pub next_period_date_start-eq :
      (rec : Line)
      → next_period_date_start cal rec ≡ (
          let s = first_date_to_invoice cal rec.last_date_invoiced rec.date_start in
          if is_past rec.date_end s then none else some s)
  unfolding next_period_date_start
  next_period_date_start-eq rec = refl
