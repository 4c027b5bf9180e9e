-- ===== src/Contract/Period/Forced.antt =====
-- The two algorithms of `get_next_period_date_end`, the regular one and the one for a forced
-- invoice date, on the date that `get_next_invoice_date` computes.
use projectname.Prelude.{ℕ, ◌≡◌, refl, Option, none, some, arith, inl, inr, Bool-cases}
use projectname.Contract.Calendar.{Calendar, days}
use projectname.Contract.Line.{RuleType, InvoicingType, pre_paid, post_paid}
use projectname.Contract.Period.{
  get_relative_delta, is_past, trim, get_next_period_date_end, get_next_invoice_date,
}

trim-trim : (m : Option ℕ) (e : ℕ) → trim m (trim m e) ≡ trim m e
unfolding trim
trim-trim none e = refl
trim-trim (some m) e = ground arith

module _ (cal : Calendar) where
  open cal use {plus, minus}

  minus-plus_days : (d n : ℕ) → minus (plus d (days n)) (days n) ≡ d
  minus-plus_days d n =
      let back = cal.minus_days (plus d (days n)) n (omega (arith, cal.plus_days d n)) in
      omega (arith, cal.plus_days d n)

  -- With the invoice date that the code computes for a period, for either invoicing type and any
  -- offset, the algorithm for a forced invoice date ends the period on the same day as the
  -- regular algorithm.
  pub get_next_period_date_end_forced :
      (start : ℕ) (rule : RuleType) (interval : ℕ) (m : Option ℕ) (ty : InvoicingType) (off : ℕ)
      (invoice_date : ℕ)
      → get_next_invoice_date cal (some start) ty off rule interval m ≡ some invoice_date
      → get_next_period_date_end cal (some start) rule interval m (some invoice_date) ty off
        ≡ get_next_period_date_end cal (some start) rule interval m none ty off
  unfolding get_next_period_date_end get_next_invoice_date
  get_next_period_date_end_forced start rule interval m pre_paid off nid h =
      elim (Bool-cases (is_past m start)) [
        | inl past ↦ rw past
        | inr more ↦ ground (arith, minus-plus_days start off)
      ]
  get_next_period_date_end_forced start rule interval m post_paid off nid h =
      elim (Bool-cases (is_past m start)) [
        | inl past ↦ rw past
        | inr more ↦
            let e = trim m (minus (plus start (get_relative_delta rule interval)) (days 1)) in
            ground (
              arith,
              minus-plus_days e off,
              trim-trim m (minus (plus start (get_relative_delta rule interval)) (days 1)),
            )
      ]
