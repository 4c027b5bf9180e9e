-- ===== src/Contract/Period/Agree.antt =====
-- `_get_period_to_invoice` against the computed fields `next_period_date_start` and
-- `next_period_date_end`.
use projectname.Prelude.{ℕ, ◌≡◌, true, some, arith, Bool-cases, inl, inr}
use projectname.Contract.Calendar.{Calendar}
use projectname.Contract.Line.{Line}
use projectname.Contract.Period.{
  is_past, first_date_to_invoice, get_period_to_invoice, next_period_date_end,
  next_period_date_start,
}

module _ (cal : Calendar) where
  -- On a line that has a next invoice date and a next period, `_get_period_to_invoice` returns
  -- the start and the end of that period as the two computed fields have them.
  pub get_period_to_invoice-eq :
      (rec : Line) (start invoice_date : ℕ)
      → next_period_date_start cal rec ≡ some start
      → rec.recurring_next_date ≡ some invoice_date
      → get_period_to_invoice cal rec rec.last_date_invoiced rec.recurring_next_date true
        ≡ some (start, next_period_date_end cal rec, invoice_date)
  unfolding next_period_date_start get_period_to_invoice next_period_date_end
  get_period_to_invoice-eq rec start nid hs hn =
      elim (Bool-cases
        (is_past rec.date_end (first_date_to_invoice cal rec.last_date_invoiced rec.date_start))) [
          | inl past ↦ ground arith
          | inr more ↦ ground arith
        ]
