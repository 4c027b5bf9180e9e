-- ===== src/Reports/Sections.antt =====
-- Which lines of a report are invoiced.
use projectname.Prelude.{
  ◌≡◌, refl, ap, ◌∙◌, Bool, true, false, ◌||◌, not, Option, none, some, List, [], ◌∷◌, ◌++◌, map,
  arith, if◌then◌else◌, inl, inr, Bool-cases,
}
use projectname.Prelude.Int.{ℤ, pos, negsuc}
use projectname.Reports.Line.{ReportLine, Report, is_section, is_zero, lt_ℤ}
use projectname.Reports.Invoicing.{Books, qty_to_invoice, prepare_invoice_line, pending_lines, scan}

not_zero : (q : ℤ) → (lt_ℤ (pos 0) q || lt_ℤ q (pos 0)) ≡ not (is_zero q)
not_zero (pos n) = ground arith
not_zero (negsuc n) = ground arith

no_pending {ℓ} : {A : Type ℓ} (b : Bool) (xs : List A) → (if b then [] else []) ++ xs ≡ xs
no_pending true xs = refl
no_pending false xs = refl

module _ (b : Books) (report : Report) where
  abbrev pub is_due : ReportLine → Bool
  is_due line = not (is_zero (qty_to_invoice b report line))

  -- A line with a quantity to invoice follows, before the next section.
  abbrev pub followed : List ReportLine → Bool
  followed [] = false
  followed (line ∷ lines) = if is_section line then false else is_due line || followed lines

  -- The sections that such a line follows, and the other lines with a quantity to invoice.
  abbrev pub kept : List ReportLine → List ReportLine
  kept [] = []
  kept (line ∷ lines) =
      let rest = kept lines in
      if (if is_section line then followed lines else is_due line) then line ∷ rest else rest

  scan-pending :
      (pending : Option ReportLine) (lines : List ReportLine)
      → scan b report pending lines
        ≡ (if followed lines then pending_lines b report pending else [])
          ++ map (prepare_invoice_line b report) (kept lines)
  unfolding scan
  scan-pending pending [] = refl
  scan-pending pending (line ∷ lines) = elim (Bool-cases (is_section line)) [
    | inl es ↦
        rw (es, scan-pending (some line) lines)
          (elim (Bool-cases (followed lines)) [ inl ef ↦ rw ef refl | inr ef ↦ rw ef refl ])
    | inr es ↦ elim (Bool-cases (is_zero (qty_to_invoice b report line))) [
      | inl ez ↦ rw (es, ez, scan-pending pending lines) refl
      | inr ez ↦
          rw (es, ez, not_zero (qty_to_invoice b report line), ez, scan-pending none lines)
            (ap (λ ls. pending_lines b report pending ++ (prepare_invoice_line b report line ∷ ls))
              (no_pending (followed lines) _))
    ]
  ]

  -- The lines of a report's invoice are those of its lines with a quantity to invoice, and of each
  -- section that one of these follows before the next section, in the order of the report.
  pub scan-kept :
      (lines : List ReportLine)
      → scan b report none lines ≡ map (prepare_invoice_line b report) (kept lines)
  scan-kept lines = scan-pending none lines ∙ no_pending (followed lines) _
