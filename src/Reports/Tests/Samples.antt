-- ===== src/Reports/Tests/Samples.antt =====
-- Reports with lines of five and of three units, two decimals kept.
use projectname.Prelude.{ℕ, true, false, none, some, List, [], ◌∷◌}
use projectname.Prelude.Int.{pos}
use projectname.Reports.Line.{
  ReportState, sale, LineType, line_section, line_note, order, Product, out_invoice, AccountLine,
  ReportLine, Report,
}
use projectname.Reports.Status.{Units}
use projectname.Reports.Invoicing.{Books}

abbrev pub units : Units
units = record { compute_quantity = λ unit qty to. qty; whole = 100 }

abbrev pub chair : Product
chair = record { id = 7; invoice_policy = order; is_goods = true; is_expense = false }

abbrev pub text_line : ℕ → LineType → ReportLine
text_line id t = record {
  id = id;
  sequence = 10;
  display_type = some t;
  product_id = none;
  product_uom = none;
  product_uom_qty = pos 0;
  price_unit = pos 0;
  tax_id = [];
  analytic_tag_ids = [];
  is_downpayment = false;
  moves_done = [];
}

abbrev pub chairs : ℕ → ℕ → ReportLine
chairs id qty = record {
  id = id;
  sequence = 10;
  display_type = none;
  product_id = some chair;
  product_uom = some 1;
  product_uom_qty = pos qty;
  price_unit = pos 2500;
  tax_id = [];
  analytic_tag_ids = [];
  is_downpayment = false;
  moves_done = [];
}

abbrev pub lines : List ReportLine
lines =
    text_line 1 line_section ∷ chairs 2 500 ∷ text_line 3 line_note ∷ text_line 4 line_section ∷ []

abbrev pub report_of : ℕ → ReportState → List ReportLine → Report
report_of partner state ls = record {
  id = partner;
  name = "report";
  company_id = 1;
  partner_id = partner;
  currency_id = 1;
  state = state;
  client_order_ref = none;
  reference = none;
  analytic_account_id = none;
  commission_line = ls;
}

abbrev pub paid : ℕ → Report
paid partner = report_of partner sale lines

abbrev pub books : Books
books = record { units = units; account_lines = []; journal = λ company. some 3 }

-- An invoice line of a line of a report.
abbrev pub billed : ℕ → ℕ → AccountLine
billed id qty = record {
  move_type = out_invoice;
  move_canceled = false;
  product_uom_id = some 1;
  quantity = pos qty;
  sale_line_ids = [];
  commission_line_ids = id ∷ [];
}
