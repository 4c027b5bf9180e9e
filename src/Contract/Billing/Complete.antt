-- ===== src/Contract/Billing/Complete.antt =====
-- Billing a line to its end: invoicing the line again and again, as the daily job does.
use projectname.Prelude.{
  ℕ, zero, suc, ◌+◌, ◌≤◌, ◌<◌, ◌≡◌, refl, ◌∙◌, ap, subst, true, false, Option, none, some, List, [],
  ◌∷◌, Result, ok, err, type_error, ◌>>=◌, ◌==◌, ==_iff, arith, Bool-cases, inl, inr,
}
use projectname.Contract.Calendar.{Calendar, days}
use projectname.Contract.Line.{Line}
use projectname.Contract.Period.{
  is_past, get_period_to_invoice, next_period_date_start, first_date_to_invoice,
}
use projectname.Contract.Period.Agree.{get_period_to_invoice-eq}
use projectname.Contract.Billing.{update_recurring_next_date}
use projectname.Contract.Billing.Step.{
  InStep, NextPeriod, InStep-NextPeriod, InStep-after_invoice, after_invoice,
  update_recurring_next_date-ok, next_period_date_start-eq, start-le-first, computed-none,
}

-- The periods, each from its first to its last day, follow one another without a gap or an
-- overlap, from the day `start` to the day `stop`.
abbrev pub Tiles : ℕ → ℕ → List (ℕ × ℕ) → Type 0
Tiles start stop [] = start ≡ stop + 1
Tiles start stop ((first, last) ∷ periods) =
    (first ≡ start) × (first ≤ last) × Tiles (last + 1) stop periods

not_past : (stop d : ℕ) → d ≤ stop → is_past (some stop) d ≡ false
unfolding is_past
not_past stop d h = ground arith

past_le : (stop d : ℕ) → is_past (some stop) d ≡ false → d ≤ stop
unfolding is_past
past_le stop d h = ground arith

past_end : (stop : ℕ) → is_past (some stop) (stop + 1) ≡ true
unfolding is_past
past_end stop = ground arith

module _ (cal : Calendar) where
  open cal use {plus}

  -- One invoice of the line, and then the `rest`.
  round :
      Line
      → (Line → Result (List (ℕ × ℕ) × Line))
      → Option (ℕ × Option ℕ × ℕ)
      → Result (List (ℕ × ℕ) × Line)
  round rec rest none = ok ([], rec)
  round rec rest (some (first, none, date)) = err type_error
  round rec rest (some (first, some last, date)) = do
    rec' ← update_recurring_next_date cal rec
    (periods, final) ← rest rec'
    ok ((first, last) ∷ periods, final)

  -- Invoice the line while it has a next invoice date, for `fuel` rounds at most.
  pub bill : ℕ → Line → Result (List (ℕ × ℕ) × Line)
  unfolding round
  bill zero rec = ok ([], rec)
  bill (suc fuel) rec =
      round rec (bill fuel)
        (get_period_to_invoice cal rec rec.last_date_invoiced rec.recurring_next_date true)

  -- Every day from `start` to `stop` is in exactly one invoice, and nothing is left to invoice.
  pub record BilledTo (start stop : ℕ) (r : Result (List (ℕ × ℕ) × Line)) : Type 0 where
    pub periods : List (ℕ × ℕ)
    pub final : Line
    pub returns : r ≡ ok (periods, final)
    pub tiles : Tiles start stop periods
    pub invoiced : final.last_date_invoiced ≡ some stop
    pub finished : final.recurring_next_date ≡ none

  bill_done :
      (fuel : ℕ) (rec : Line) → rec.recurring_next_date ≡ none → bill fuel rec ≡ ok ([], rec)
  unfolding bill get_period_to_invoice
  bill_done zero rec h = refl
  bill_done (suc fuel) rec h = ground arith

  -- One round, once the line's next period is known.
  bill_round :
      (fuel : ℕ) (rec : Line) (s : ℕ) (next : NextPeriod cal rec s)
      → InStep cal rec
      → rec.date_start ≤ s
      → next_period_date_start cal rec ≡ some s
      → bill (suc fuel) rec ≡ (do
        (periods, final) ← bill fuel (after_invoice cal rec next.e)
        ok ((s, next.e) ∷ periods, final))
  unfolding bill
  bill_round fuel rec s next inv le hs = rw (
    get_period_to_invoice-eq cal rec s next.nid hs next.due,
    next.ends,
    update_recurring_next_date-ok cal rec s next inv le,
  )

  billed_one :
      (fuel : ℕ) (rec : Line) (s e stop : ℕ)
      → s ≤ e
      → BilledTo (e + 1) stop (bill fuel rec)
      → BilledTo s stop (do (periods, final) ← bill fuel rec; ok ((s, e) ∷ periods, final))
  billed_one fuel rec s e stop h b = record {
    periods = (s, e) ∷ b.periods;
    final = b.final;
    returns = rw b.returns;
    tiles = (refl, h, b.tiles);
    invoiced = b.invoiced;
    finished = b.finished;
  }

  first-after_invoice :
      (rec : Line) (e : ℕ)
      → let rec' = after_invoice cal rec e in
        first_date_to_invoice cal rec'.last_date_invoiced rec'.date_start ≡ e + 1
  unfolding first_date_to_invoice
  first-after_invoice rec e = cal.plus_days e 1

  bill_last :
      (fuel : ℕ) (rec : Line) (e stop : ℕ)
      → e ≡ stop
      → rec.date_end ≡ some stop
      → BilledTo (e + 1) stop (bill fuel (after_invoice cal rec e))
  bill_last fuel rec e stop eq hend =
      let past : is_past rec.date_end (plus e (days 1)) ≡ true =
        rw (cal.plus_days e 1, eq, hend) (past_end stop) in
      let nothing_due = computed-none cal rec (plus e (days 1)) past in
      record {
        periods = [];
        final = after_invoice cal rec e;
        returns = bill_done fuel (after_invoice cal rec e) nothing_due;
        tiles = omega arith;
        invoiced = ap some eq;
        finished = nothing_due;
      }

  -- A line in step that has a last day and is not past it: invoicing it for as many rounds as
  -- days are left, or more, raises nothing and invoices each day from its first day not invoiced
  -- up to its last day exactly once, and then no invoice is due.
  pub bill_from :
      (fuel : ℕ) (rec : Line) (stop : ℕ)
      → InStep cal rec
      → rec.date_end ≡ some stop
      → let s = first_date_to_invoice cal rec.last_date_invoiced rec.date_start in
        s ≤ stop → stop < s + fuel → BilledTo s stop (bill fuel rec)
  bill_from zero rec stop inv hend h enough = absurd (omega arith)
  bill_from (suc fuel) rec stop inv hend h enough =
      let s = first_date_to_invoice cal rec.last_date_invoiced rec.date_start in
      let inside : is_past rec.date_end s ≡ false = rw hend (not_past stop s h) in
      let hs : next_period_date_start cal rec ≡ some s =
        next_period_date_start-eq cal rec ∙ rw inside in
      let next = InStep-NextPeriod cal rec s inv hs inside in
      let le = start-le-first cal rec rec.last_date_invoiced inv.last_in_range in
      let e = next.e in
      let rec' = after_invoice cal rec e in
      let e_in : e ≤ stop = past_le stop e (rw hend at next.bounds.within) in
      let first : first_date_to_invoice cal rec'.last_date_invoiced rec'.date_start ≡ e + 1 =
        first-after_invoice rec e in
      rw (bill_round fuel rec s next inv le hs) (
        billed_one fuel rec' s e stop next.bounds.not_empty (elim (Bool-cases (e == stop)) [
          | inl last ↦ bill_last fuel rec e stop ((==_iff _ _).0 last) hend
          | inr more ↦
              subst (λ d. BilledTo d stop (bill fuel rec')) first
                (bill_from fuel rec' stop (InStep-after_invoice cal rec s next inv le) hend
                  (rw first (ground arith)) (rw first (omega (arith, next.bounds.not_empty))))
        ]))
