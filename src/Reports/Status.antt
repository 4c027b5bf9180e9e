-- ===== src/Reports/Status.antt =====
-- The computed fields of a report and its lines: `_get_invoice_qty`, `_get_to_invoice_qty`,
-- `_compute_invoice_status`, `_amount_quantity` and `_get_invoice_status` of
-- local/sale_commission_1/models/commission_agent_report.py, and what
-- local/sale_commission_1/models/commission_order.py adds to the status of a line.
use projectname.Prelude.{
  ℕ, suc, ◌*◌, ◌/◌, Bool, true, false, ◌&&◌, ◌||◌, not, Option, none, some, List, [], ◌∷◌, ◌==◌,
  if◌then◌else◌,
}
use projectname.Prelude.Int.{ℤ, pos, negsuc, sub_ℕ, ◌+ℤ◌}
use projectname.Reports.Line.{
  ReportState, sale, done, InvoiceStatus, upselling, invoiced, to_invoice, no, order, Product,
  out_invoice, out_refund, other_type, AccountLine, ReportLine, Report, is_confirmed, is_zero, lt_ℤ,
}

abbrev pub neg : ℤ → ℤ
neg (pos n) = sub_ℕ 0 n
neg (negsuc n) = pos (suc n)

-- What the methods ask of other models: `_compute_quantity` of a unit of measure, to another unit,
-- and how many of the smallest units make one.
pub record Units : Type 0 where
  pub compute_quantity : Option ℕ → ℤ → Option ℕ → ℤ
  pub whole : ℕ

abbrev pub mem_id : ℕ → List ℕ → Bool
mem_id n [] = false
mem_id n (m ∷ ms) = n == m || mem_id n ms

-- `self.invoice_lines`, the side of the relation that the line has.
unfoldable pub invoice_lines : ReportLine → List AccountLine → List AccountLine
invoice_lines line [] = []
invoice_lines line (al ∷ als) =
    let rest = invoice_lines line als in
    if mem_id line.id al.commission_line_ids then al ∷ rest else rest

-- The part of one invoice line in `_get_invoice_qty`.
unfoldable pub invoiced_part : Units → ReportLine → AccountLine → ℤ
invoiced_part u line al =
    let qty = u.compute_quantity al.product_uom_id al.quantity line.product_uom in
    if al.move_canceled
    then pos 0
    else elim al.move_type [ out_invoice ↦ qty | out_refund ↦ neg qty | other_type ↦ pos 0 ]

unfoldable pub sum_parts : Units → ReportLine → List AccountLine → ℤ → ℤ
sum_parts u line [] qty_invoiced = qty_invoiced
sum_parts u line (al ∷ als) qty_invoiced =
    sum_parts u line als (qty_invoiced +ℤ invoiced_part u line al)

unfoldable pub get_invoice_qty : Units → List AccountLine → ReportLine → ℤ
get_invoice_qty u als line = sum_parts u line (invoice_lines line als) (pos 0)

unfoldable pub get_to_invoice_qty : Units → List AccountLine → ReportState → ReportLine → ℤ
get_to_invoice_qty u als state line =
    if is_confirmed state then line.product_uom_qty +ℤ neg (get_invoice_qty u als line) else pos 0

unfoldable pub total : List ReportLine → ℤ → ℤ
total [] quantity = quantity
total (line ∷ lines) quantity = total lines (quantity +ℤ line.product_uom_qty)

-- The value of an Integer field: the number without its fraction.
abbrev pub to_integer : ℕ → ℤ → ℤ
to_integer whole (pos n) = pos (n / whole * whole)
to_integer whole (negsuc n) = neg (pos (suc n / whole * whole))

unfoldable pub amount_quantity : Units → List ReportLine → ℤ
amount_quantity u lines = to_integer u.whole (total lines (pos 0))

abbrev pub is_order : Option Product → Bool
is_order none = false
is_order (some p) = elim p.invoice_policy [ order ↦ true | _ ↦ false ]

abbrev pub is_sale : ReportState → Bool
is_sale sale = true
is_sale _ = false

abbrev is_done : ReportState → Bool
is_done done = true
is_done _ = false

abbrev pub is_no : InvoiceStatus → Bool
is_no no = true
is_no _ = false

abbrev is_goods : Option Product → Bool
is_goods none = false
is_goods (some p) = p.is_goods

abbrev all_true : List Bool → Bool
all_true [] = true
all_true (b ∷ bs) = b && all_true bs

abbrev any_move : List Bool → Bool
any_move [] = false
any_move (b ∷ bs) = true

-- `_compute_invoice_status`, with the quantity of the whole report.
unfoldable pub line_status : Units → List AccountLine → ReportState → ℤ → ReportLine → InvoiceStatus
line_status u als state amount line =
    let qty_invoiced = get_invoice_qty u als line in
    if not (is_confirmed state)
    then no
    else if not (is_zero (get_to_invoice_qty u als state line))
    then to_invoice
    else if is_sale state && is_order line.product_id && lt_ℤ line.product_uom_qty amount
    then upselling
    else if not (lt_ℤ qty_invoiced line.product_uom_qty)
    then invoiced
    else no

-- The override, which looks at the stock moves.
unfoldable pub compute_invoice_status :
    Units → List AccountLine → ReportState → ℤ → ReportLine → InvoiceStatus
compute_invoice_status u als state amount line =
    let status = line_status u als state amount line in
    if is_done state
      && is_no status
      && is_goods line.product_id
      && any_move line.moves_done
      && all_true line.moves_done
    then invoiced
    else status

-- The statuses of the lines that are read: no sections, notes and down payments. `read_group` gives
-- each status once, which `any` and `all` do not tell apart.
unfoldable pub line_statuses :
    Units → List AccountLine → ReportState → ℤ → List ReportLine → List InvoiceStatus
line_statuses u als state amount [] = []
line_statuses u als state amount (line ∷ lines) =
    let rest = line_statuses u als state amount lines in
    let status = compute_invoice_status u als state amount line in
    elim line.display_type [
      | none ↦ if line.is_downpayment then rest else status ∷ rest
      | some t ↦ rest
    ]

abbrev pub is_to_invoice : InvoiceStatus → Bool
is_to_invoice to_invoice = true
is_to_invoice _ = false

abbrev pub is_invoiced : InvoiceStatus → Bool
is_invoiced invoiced = true
is_invoiced _ = false

abbrev pub is_closed : InvoiceStatus → Bool
is_closed invoiced = true
is_closed upselling = true
is_closed _ = false

abbrev pub any_status : (InvoiceStatus → Bool) → List InvoiceStatus → Bool
any_status test [] = false
any_status test (s ∷ ss) = test s || any_status test ss

abbrev pub all_status : (InvoiceStatus → Bool) → List InvoiceStatus → Bool
all_status test [] = true
all_status test (s ∷ ss) = test s && all_status test ss

abbrev pub non_empty : List InvoiceStatus → Bool
non_empty [] = false
non_empty (s ∷ ss) = true

unfoldable pub status_of : List InvoiceStatus → InvoiceStatus
status_of ss =
    if any_status is_to_invoice ss
    then to_invoice
    else if non_empty ss && all_status is_invoiced ss
    then invoiced
    else if non_empty ss && all_status is_closed ss
    then upselling
    else no

unfoldable pub get_invoice_status : Units → List AccountLine → Report → InvoiceStatus
get_invoice_status u als report =
    let lines = report.commission_line in
    if is_confirmed report.state
    then status_of (line_statuses u als report.state (amount_quantity u lines) lines)
    else no
