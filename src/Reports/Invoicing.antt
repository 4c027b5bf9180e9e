-- ===== src/Reports/Invoicing.antt =====
-- The invoices of reports: `_prepare_invoice`, `_prepare_invoice_line` and `create_invoices` of
-- local/sale_commission_1/models/commission_agent_report.py. An invoice that Odoo creates is its
-- values. Left out are the keys of the values that are only passed on and that nothing here
-- depends on, and how a set of texts is joined and cut.
use Prim.Native.String.{String}
use package.text.Mathlib.Text.{◌==◌ as ◌is◌}
use projectname.Prelude.{
  ℕ, Bool, true, false, ◌&&◌, ◌||◌, Option, none, some, List, [], ◌∷◌, ◌++◌, Result, ok, err, ◌>>=◌,
  user_error, key_error, raise_if, ◌>>◌, not, ◌==◌, if◌then◌else◌,
}
use projectname.Prelude.Int.{ℤ, pos}
use projectname.Reports.Line.{
  LineType, Product, AccountLine, ReportLine, Report, is_section, is_zero, lt_ℤ,
}
use projectname.Reports.Status.{Units, get_to_invoice_qty}

-- The values of a line of an invoice.
pub record LineVals : Type 0 where
  pub display_type : Option LineType
  pub sequence : ℕ
  pub product_id : Option ℕ
  pub product_uom_id : Option ℕ
  pub quantity : ℤ
  pub price_unit : ℤ
  pub tax_ids : List ℕ
  pub analytic_account_id : Option ℕ
  pub analytic_tag_ids : List ℕ
  pub sale_line_ids : List ℕ

-- The values of an invoice. A set of texts is the list of its elements.
pub record InvoiceVals : Type 0 where
  pub ref : List String
  pub currency_id : ℕ
  pub partner_id : ℕ
  pub company_id : ℕ
  pub journal_id : ℕ
  pub invoice_origin : List String
  pub invoice_payment_ref : Option String
  pub invoice_line_ids : List LineVals

abbrev product : Option Product → Option ℕ
product none = none
product (some p) = some p.id

abbrev or_empty : Option String → String
or_empty none = ""
or_empty (some s) = s

-- What the methods ask of other models, and the lines of invoices that there are. `journal` is
-- `_get_default_journal` for a company.
pub record Books : Type 0 where
  pub units : Units
  pub account_lines : List AccountLine
  pub journal : ℕ → Option ℕ

module _ (b : Books) where
  unfoldable pub qty_to_invoice : Report → ReportLine → ℤ
  qty_to_invoice report line = get_to_invoice_qty b.units b.account_lines report.state line

  unfoldable pub prepare_invoice_line : Report → ReportLine → LineVals
  prepare_invoice_line report line = record {
    display_type = line.display_type;
    sequence = line.sequence;
    product_id = product line.product_id;
    product_uom_id = line.product_uom;
    quantity = qty_to_invoice report line;
    price_unit = line.price_unit;
    tax_ids = line.tax_id;
    analytic_account_id = report.analytic_account_id;
    analytic_tag_ids = line.analytic_tag_ids;
    sale_line_ids = line.id ∷ [];
  }

  unfoldable pub or_user_error : Option ℕ → Result ℕ
  or_user_error none = err user_error
  or_user_error (some j) = ok j

  abbrev pub blank_vals : Report → ℕ → InvoiceVals
  blank_vals report journal = record {
    ref = or_empty report.client_order_ref ∷ [];
    currency_id = report.currency_id;
    partner_id = report.partner_id;
    company_id = report.company_id;
    journal_id = journal;
    invoice_origin = report.name ∷ [];
    invoice_payment_ref = report.reference;
    invoice_line_ids = [];
  }

  unfoldable pub prepare_invoice : Report → Result InvoiceVals
  unfolding or_user_error
  prepare_invoice report = do
    journal ← or_user_error (b.journal report.company_id)
    ok (blank_vals report journal)

  abbrev pub pending_lines : Report → Option ReportLine → List LineVals
  pending_lines report none = []
  pending_lines report (some section) = prepare_invoice_line report section ∷ []

  -- The loop over the lines of a report, with `pending_section`.
  unfoldable pub scan : Report → Option ReportLine → List ReportLine → List LineVals
  scan report pending_section [] = []
  scan report pending_section (line ∷ lines) =
      let held = scan report (some line) lines in
      let skipped = scan report pending_section lines in
      let rest = scan report none lines in
      let qty = qty_to_invoice report line in
      if is_section line
      then held
      else if is_zero qty
      then skipped
      else if lt_ℤ (pos 0) qty || lt_ℤ qty (pos 0)
      then pending_lines report pending_section ++ (prepare_invoice_line report line ∷ rest)
      else skipped

  abbrev pub if_some_line : InvoiceVals → List LineVals → Result InvoiceVals
  if_some_line vals [] = err user_error
  if_some_line vals (l ∷ ls) = ok (record vals { invoice_line_ids = l ∷ ls })

  unfoldable pub invoice_vals : Report → Result InvoiceVals
  invoice_vals report = do
    vals ← prepare_invoice report
    if_some_line vals (scan report none report.commission_line)

  -- The loop over the reports, `invoice_vals_list`.
  unfoldable pub invoice_vals_list : List Report → Result (List InvoiceVals)
  invoice_vals_list [] = ok []
  invoice_vals_list (report ∷ reports) = do
    vals ← invoice_vals report
    rest ← invoice_vals_list reports
    ok (vals ∷ rest)

-- The sets of a group: `origins`, `payment_refs` and `refs`, and the invoice that stands for it.
pub record Group : Type 0 where
  pub ref_invoice_vals : InvoiceVals
  pub origins : List String
  pub payment_refs : List (Option String)
  pub refs : List String

abbrev is_in : String → List String → Bool
is_in s [] = false
is_in s (t ∷ ts) = s is t || is_in s ts

-- `set.add`
abbrev add_all : List String → List String → List String
add_all [] set = set
add_all (s ∷ ss) set = add_all ss (if is_in s set then set else set ++ (s ∷ []))

abbrev same_ref : Option String → Option String → Bool
same_ref none none = true
same_ref (some s) (some t) = s is t
same_ref _ _ = false

abbrev has_ref : Option String → List (Option String) → Bool
has_ref r [] = false
has_ref r (t ∷ ts) = same_ref r t || has_ref r ts

abbrev add_ref : Option String → List (Option String) → List (Option String)
add_ref r set = if has_ref r set then set else set ++ (r ∷ [])

-- `len(payment_refs) == 1 and payment_refs.pop() or False`
abbrev only_ref : List (Option String) → Option String
only_ref (some s ∷ []) = if s is "" then none else some s
only_ref _ = none

unfoldable pub start_group : InvoiceVals → Group
start_group vals = record {
  ref_invoice_vals = vals;
  origins = vals.invoice_origin;
  payment_refs = vals.invoice_payment_ref ∷ [];
  refs = vals.ref;
}

unfoldable pub add_to_group : Group → InvoiceVals → Group
add_to_group g vals = record {
  ref_invoice_vals = record g.ref_invoice_vals {
    invoice_line_ids = g.ref_invoice_vals.invoice_line_ids ++ vals.invoice_line_ids;
  };
  origins = add_all vals.invoice_origin g.origins;
  payment_refs = add_ref vals.invoice_payment_ref g.payment_refs;
  refs = add_all vals.ref g.refs;
}

unfoldable pub close_group : Group → InvoiceVals
close_group g = record g.ref_invoice_vals {
  ref = g.refs;
  invoice_origin = g.origins;
  invoice_payment_ref = only_ref g.payment_refs;
}

-- Equality of the values of `_get_invoice_grouping_keys`.
unfoldable pub same_key : InvoiceVals → InvoiceVals → Bool
same_key v w =
    v.company_id == w.company_id && v.partner_id == w.partner_id && v.currency_id == w.currency_id

-- `itertools.groupby` and the loops over the groups.
unfoldable pub group_from : Group → List InvoiceVals → List InvoiceVals
group_from g [] = close_group g ∷ []
group_from g (vals ∷ rest) =
    let joined = group_from (add_to_group g vals) rest in
    let apart = close_group g ∷ group_from (start_group vals) rest in
    if same_key g.ref_invoice_vals vals then joined else apart

unfoldable pub group_by_keys : List InvoiceVals → List InvoiceVals
group_by_keys [] = []
group_by_keys (vals ∷ rest) = group_from (start_group vals) rest

abbrev pub none_refused : List InvoiceVals → Result (List InvoiceVals)
none_refused [] = err user_error
none_refused (v ∷ vs) = ok (v ∷ vs)

-- The values that `create_invoices` hands to Odoo's create.
unfoldable pub invoices_to_create : Books → Bool → List Report → Result (List InvoiceVals)
invoices_to_create b grouped reports = do
  made ← invoice_vals_list b reports
  vals ← none_refused made
  ok (if grouped then vals else group_by_keys vals)

-- The loop over the invoices that are created, one for each of the values: the message on an invoice
-- reads `sale_line_ids.report_id`. The lines of sale orders are a model of Odoo; `has_report_id` says
-- whether they have that field, and a name that is no field of theirs is a KeyError.
unfoldable pub post_origins : Bool → List InvoiceVals → Result (List InvoiceVals)
post_origins has_report_id [] = ok []
post_origins has_report_id (move ∷ moves) = do
  raise_if (not has_report_id) key_error
  rest ← post_origins has_report_id moves
  ok (move ∷ rest)

-- `create_invoices` by a user who may create invoices, not final.
unfoldable pub create_invoices : Books → Bool → Bool → List Report → Result (List InvoiceVals)
create_invoices b has_report_id grouped reports = do
  vals ← invoices_to_create b grouped reports
  post_origins has_report_id vals
