-- ===== src/Reports/Upselling.antt =====
-- The status of a report all of whose lines are invoiced.
use native.Mathlib.Nat.{add-mul, zero-mul, mul-div_cancel, mul-lt-mul_of_pos_right}
use projectname.Prelude.{
  ℕ, ◌+◌, ◌*◌, ◌≤◌, ◌<◌, ◌≡◌, refl, sym, ap, ◌∙◌, subst, if◌then◌else◌, Bool, true, false, Option,
  none, some, List, [], ◌∷◌, arith, ltb,
}
use projectname.Prelude.Int.{pos, ◌+ℤ◌}
use projectname.Reports.Line.{
  LineType, sale, upselling, InvoiceStatus, AccountLine, ReportLine, Report, is_zero,
}
use projectname.Reports.Status.{
  Units, get_to_invoice_qty, total, amount_quantity, to_integer, is_order, line_status,
  compute_invoice_status, line_statuses, is_to_invoice, is_closed, any_status, all_status,
  status_of, get_invoice_status,
}

pos_sum : (a b : ℕ) → (pos a +ℤ pos b) ≡ pos (a + b)
unfolding ◌+ℤ◌
pos_sum a b = ground arith

read_status :
    (dt : Option LineType) (dp : Bool) (s : InvoiceStatus) (rest : List InvoiceStatus)
    → dt ≡ none
    → dp ≡ false
    → (elim dt [ none ↦ if dp then rest else s ∷ rest | some t ↦ rest ]) ≡ s ∷ rest
read_status dt dp s rest e f = rw (e, f) refl

lt→ltb : (a b : ℕ) → a < b → ltb (a + 0) (b + 0) ≡ true
lt→ltb a b h = ground arith

module _ (u : Units) (als : List AccountLine) where
  -- A line of a whole number of units, of a product that is invoiced by what is ordered, of which
  -- all is invoiced.
  pub record IsPaid (line : ReportLine) : Type 0 where
    pub units : ℕ
    pub positive : 0 < units
    pub quantity : line.product_uom_qty ≡ pos (units * u.whole)
    pub ordered : is_order line.product_id ≡ true
    pub is_line : line.display_type ≡ none
    pub no_downpayment : line.is_downpayment ≡ false
    pub nothing_left : is_zero (get_to_invoice_qty u als sale line) ≡ true

  pub data AllPaid : List ReportLine → Type 0 where
    no_line : AllPaid []
    one_more :
        {line : ReportLine} {lines : List ReportLine}
        → IsPaid line
        → AllPaid lines
        → AllPaid (line ∷ lines)

  units_of : {lines : List ReportLine} → AllPaid lines → ℕ
  units_of no_line = 0
  units_of (one_more p ps) = p.units + units_of ps

  total-AllPaid :
      (n : ℕ) {lines : List ReportLine} (ps : AllPaid lines)
      → total lines (pos (n * u.whole)) ≡ pos ((n + units_of ps) * u.whole)
  unfolding total units_of
  total-AllPaid n no_line = ap (λ m. pos (m * u.whole)) (omega arith)
  total-AllPaid n (one_more {line} {lines} p ps) =
      rw (p.quantity, pos_sum (n * u.whole) (p.units * u.whole), sym (add-mul n p.units u.whole))
        (total-AllPaid (n + p.units) ps ∙ ap (λ m. pos (m * u.whole)) (omega arith))

  amount-AllPaid :
      {lines : List ReportLine} (ps : AllPaid lines)
      → 0 < u.whole
      → amount_quantity u lines ≡ pos (units_of ps * u.whole)
  unfolding amount_quantity
  amount-AllPaid {lines} ps h =
      ap (to_integer u.whole)
        (ap (λ m. total lines (pos m)) (sym (zero-mul u.whole)) ∙ total-AllPaid 0 ps)
      ∙ rw (mul-div_cancel (0 + units_of ps) h) (ap (λ m. pos (m * u.whole)) (omega arith))

  status-IsPaid :
      (s : ℕ) (line : ReportLine) (p : IsPaid line)
      → 0 < u.whole
      → p.units < s
      → compute_invoice_status u als sale (pos (s * u.whole)) line ≡ upselling
  unfolding compute_invoice_status line_status
  status-IsPaid s line p h below =
      rw
        (
          p.nothing_left,
          p.ordered,
          p.quantity,
          lt→ltb (p.units * u.whole) (s * u.whole) (mul-lt-mul_of_pos_right below h),
        )
        refl

  statuses-IsPaid :
      (s : ℕ) {line : ReportLine} (lines : List ReportLine) (p : IsPaid line)
      → 0 < u.whole
      → p.units < s
      → line_statuses u als sale (pos (s * u.whole)) (line ∷ lines)
        ≡ upselling ∷ line_statuses u als sale (pos (s * u.whole)) lines
  unfolding line_statuses
  statuses-IsPaid s {line} lines p h below =
      read_status line.display_type line.is_downpayment _ _ p.is_line p.no_downpayment
      ∙ ap (λ x. x ∷ line_statuses u als sale (pos (s * u.whole)) lines)
          (status-IsPaid s line p h below)

  statuses-AllPaid :
      (s m : ℕ) {lines : List ReportLine} (ps : AllPaid lines)
      → 0 < u.whole
      → 0 < m
      → m + units_of ps ≤ s
      → (any_status is_to_invoice (line_statuses u als sale (pos (s * u.whole)) lines) ≡ false)
        × (all_status is_closed (line_statuses u als sale (pos (s * u.whole)) lines) ≡ true)
  unfolding units_of line_statuses
  statuses-AllPaid s m no_line h pos_m le = (refl, refl)
  statuses-AllPaid s m (one_more {line} {lines} p ps) h pos_m le =
      let (no_more, closed) = statuses-AllPaid s (m + p.units) ps h (omega arith) (omega arith) in
      (
        subst (λ ss. any_status is_to_invoice ss ≡ false)
            (sym (statuses-IsPaid s lines p h (omega arith))) no_more,
        subst (λ ss. all_status is_closed ss ≡ true)
            (sym (statuses-IsPaid s lines p h (omega arith))) closed,
      )

  -- A paid report of two lines or more, each a whole positive number of units of a product that is
  -- invoiced by what is ordered, has the status 'upselling' once all of it is invoiced: the number
  -- of units of a line is compared with that of the whole report.
  pub get_invoice_status-AllPaid :
      (report : Report) (l l' : ReportLine) (ls : List ReportLine)
      → 0 < u.whole
      → report.state ≡ sale
      → report.commission_line ≡ l ∷ l' ∷ ls
      → IsPaid l
      → IsPaid l'
      → AllPaid ls
      → get_invoice_status u als report ≡ upselling
  unfolding get_invoice_status status_of units_of
  get_invoice_status-AllPaid report l l' ls h state lines p p' ps =
      let below : p.units < p.units + (p'.units + units_of ps) =
        (let q = p'.positive in omega arith) in
      let all = one_more p (one_more p' ps) in
      let (no_more, closed) =
        statuses-AllPaid (units_of all) p.units (one_more p' ps) h p.positive (omega arith) in
      rw
        (
          state,
          lines,
          amount-AllPaid all h,
          statuses-IsPaid (units_of all) (l' ∷ ls) p h below,
          no_more,
          closed,
        )
        refl
