-- ===== src/Reports/DueLines.antt =====
-- The status of a report, and whether one of its lines has a quantity to invoice.
use projectname.Prelude.{
  and_parts, ◌≡◌, refl, sym, ap, ◌∙◌, Bool, true, false, ◌&&◌, ◌||◌, not, Option, none, some, List,
  [], ◌∷◌, arith, if◌then◌else◌, inl, inr, Bool-cases,
}
use projectname.Prelude.Int.{ℤ}
use projectname.Reports.Line.{
  ReportState, draft, sale, done, cancel, InvoiceStatus, upselling, invoiced, to_invoice, no,
  LineType, line_section, line_note, AccountLine, ReportLine, Report, is_section, is_confirmed,
  is_zero,
}
use projectname.Reports.Status.{
  Units, get_to_invoice_qty, line_status, compute_invoice_status, line_statuses, is_to_invoice,
  is_no, any_status, status_of, get_invoice_status,
}
use projectname.Reports.Invoicing.{Books, qty_to_invoice}
use projectname.Reports.Sections.{is_due, followed, kept}

abbrev has_type : Option LineType → Bool
has_type none = false
has_type (some t) = true

first_choice :
    (a b c : Bool)
    → is_to_invoice (if a then to_invoice else if b then invoiced else if c then upselling else no)
      ≡ a
first_choice true b c = refl
first_choice false true c = refl
first_choice false false true = refl
first_choice false false false = refl

second_choice :
    (c z u q : Bool)
    → is_to_invoice (
        if not c
        then no
        else if not z
        then to_invoice
        else if u
        then upselling
        else if q
        then invoiced
        else no)
      ≡ (c && not z)
second_choice false z u q = refl
second_choice true false u q = refl
second_choice true true true q = refl
second_choice true true false true = refl
second_choice true true false false = refl

overridden :
    (d g m a : Bool) (s : InvoiceStatus)
    → is_to_invoice (if d && is_no s && g && m && a then invoiced else s) ≡ is_to_invoice s
overridden d g m a s = ground arith

status_of-is_to_invoice :
    (ss : List InvoiceStatus) → is_to_invoice (status_of ss) ≡ any_status is_to_invoice ss
unfolding status_of
status_of-is_to_invoice ss = first_choice (any_status is_to_invoice ss) _ _

unconfirmed :
    (u : Units) (als : List AccountLine) (state : ReportState) (line : ReportLine)
    → (is_confirmed state && not (is_zero (get_to_invoice_qty u als state line)))
      ≡ not (is_zero (get_to_invoice_qty u als state line))
unfolding get_to_invoice_qty
unconfirmed u als draft line = refl
unconfirmed u als sale line = refl
unconfirmed u als done line = refl
unconfirmed u als cancel line = refl

one_line :
    (dt : Option LineType) (dp due : Bool) (s : InvoiceStatus) (rest : List InvoiceStatus)
    → (not dp && not (has_type dt && due)) ≡ true
    → is_to_invoice s ≡ due
    → any_status is_to_invoice (elim dt [ none ↦ if dp then rest else s ∷ rest | some t ↦ rest ])
      ≡ (due || any_status is_to_invoice rest)
one_line none false due s rest h e = ap (λ x. x || any_status is_to_invoice rest) e
one_line none true due s rest h e = ground arith
one_line (some t) dp false s rest h e = refl
one_line (some t) dp true s rest h e = ground arith

abbrev pub some_line {ℓ} : {A : Type ℓ} → List A → Bool
some_line [] = false
some_line (line ∷ lines) = true

section_not_due :
    (dt : Option LineType)
    → (elim dt [ some line_section ↦ true | _ ↦ false ]) ≡ true
    → (dp due : Bool) → (not dp && not (has_type dt && due)) ≡ true
    → due ≡ false
section_not_due none h dp due plain = ground arith
section_not_due (some line_section) h dp due plain = ground arith
section_not_due (some line_note) h dp due plain = ground arith

module _ (b : Books) where
  -- A section, a note or a line has a quantity to invoice only if it is a line, and it is no down
  -- payment.
  abbrev pub is_plain : Report → ReportLine → Bool
  is_plain report line =
      not line.is_downpayment && not (has_type line.display_type && is_due b report line)

  abbrev pub all_plain : Report → List ReportLine → Bool
  all_plain report [] = true
  all_plain report (line ∷ lines) = is_plain report line && all_plain report lines

  abbrev pub any_due : Report → List ReportLine → Bool
  any_due report [] = false
  any_due report (line ∷ lines) = is_due b report line || any_due report lines

  compute-is_due :
      (report : Report) (amount : ℤ) (line : ReportLine)
      → is_to_invoice (compute_invoice_status b.units b.account_lines report.state amount line)
        ≡ is_due b report line
  unfolding compute_invoice_status line_status qty_to_invoice
  compute-is_due report amount line =
      overridden _ _ _ _ _
      ∙ second_choice _ _ _ _
      ∙ unconfirmed b.units b.account_lines report.state line

  statuses-any_due :
      (report : Report) (amount : ℤ) (lines : List ReportLine)
      → all_plain report lines ≡ true
      → any_status is_to_invoice (line_statuses b.units b.account_lines report.state amount lines)
        ≡ any_due report lines
  unfolding line_statuses
  statuses-any_due report amount [] h = refl
  statuses-any_due report amount (line ∷ lines) h =
      let (plain, others) = and_parts (is_plain report line) (all_plain report lines) h in
      one_line line.display_type line.is_downpayment (is_due b report line) _ _ plain
        (compute-is_due report amount line)
      ∙ ap (λ x. is_due b report line || x) (statuses-any_due report amount lines others)

  -- No line is due before the report is confirmed.
  none_due :
      (report : Report) (lines : List ReportLine)
      → is_confirmed report.state ≡ false
      → any_due report lines ≡ false
  unfolding qty_to_invoice get_to_invoice_qty
  none_due report [] h = refl
  none_due report (line ∷ lines) h = rw h (none_due report lines h)

  pub status-any_due :
      (report : Report)
      → all_plain report report.commission_line ≡ true
      → is_to_invoice (get_invoice_status b.units b.account_lines report)
        ≡ any_due report report.commission_line
  unfolding get_invoice_status
  status-any_due report h = elim (Bool-cases (is_confirmed report.state)) [
    | inl c ↦ rw c (status_of-is_to_invoice _ ∙ statuses-any_due report _ report.commission_line h)
    | inr c ↦ rw c (sym (none_due report report.commission_line c))
  ]

  followed-any_due :
      (report : Report) (lines : List ReportLine)
      → followed b report lines ≡ true
      → any_due report lines ≡ true
  followed-any_due report [] h = h
  followed-any_due report (line ∷ lines) h = ground (arith, followed-any_due report lines)

  pub kept-any_due :
      (report : Report) (lines : List ReportLine)
      → all_plain report lines ≡ true
      → some_line (kept b report lines) ≡ any_due report lines
  kept-any_due report [] h = refl
  kept-any_due report (line ∷ lines) h =
      let (plain, others) = and_parts (is_plain report line) (all_plain report lines) h in
      let rest = kept-any_due report lines others in
      elim (Bool-cases (is_section line)) [
        | inl section ↦
            rw (section, section_not_due line.display_type section _ _ plain)
              (elim (Bool-cases (followed b report lines)) [
                | inl f ↦ rw f (sym (followed-any_due report lines f))
                | inr f ↦ rw f rest
              ])
        | inr other ↦ rw other (elim (Bool-cases (is_due b report line)) [
          | inl due ↦ rw due refl
          | inr due ↦ rw due rest
        ])
      ]
