-- ===== src/Reports/Line.antt =====
-- The fields of `commission.agent.report` and `commission.agent.report.line`, of
-- local/sale_commission_1/models/commission_agent_report.py and commission_order.py, that the
-- methods read. Quantities are whole numbers of the smallest unit that the decimal precision keeps.
use Prim.Native.String.{String}
use projectname.Prelude.{ℕ, ◌+◌, Bool, true, false, Option, some, List, ◌==◌, ltb}
use projectname.Prelude.Int.{ℤ, pos, negsuc, pos_part, neg_part}

pub data ReportState : Type 0 where
  draft sale done cancel : ReportState

pub data InvoiceStatus : Type 0 where
  upselling invoiced to_invoice no : InvoiceStatus

pub data LineType : Type 0 where
  line_section line_note : LineType

pub data InvoicePolicy : Type 0 where
  order delivery : InvoicePolicy

-- The fields of a product that are read: `invoice_policy`, whether `type` is 'consu' or 'product',
-- and whether `expense_policy` is neither False nor 'no'.
pub record Product : Type 0 where
  pub id : ℕ
  pub invoice_policy : InvoicePolicy
  pub is_goods : Bool
  pub is_expense : Bool

-- The fields of an invoice, `account.move`: its type and whether its state is 'cancel'.
pub data MoveType : Type 0 where
  out_invoice out_refund other_type : MoveType

-- A line of an invoice, `account.move.line`, with the links to lines of sale orders and to lines
-- of reports.
pub record AccountLine : Type 0 where
  pub move_type : MoveType
  pub move_canceled : Bool
  pub product_uom_id : Option ℕ
  pub quantity : ℤ
  pub sale_line_ids : List ℕ
  pub commission_line_ids : List ℕ

-- `moves_done` has, for each of the stock moves of the line, whether its state is 'done' or
-- 'cancel'.
pub record ReportLine : Type 0 where
  pub id : ℕ
  pub sequence : ℕ
  pub display_type : Option LineType
  pub product_id : Option Product
  pub product_uom : Option ℕ
  pub product_uom_qty : ℤ
  pub price_unit : ℤ
  pub tax_id : List ℕ
  pub analytic_tag_ids : List ℕ
  pub is_downpayment : Bool
  pub moves_done : List Bool

pub record Report : Type 0 where
  pub id : ℕ
  pub name : String
  pub company_id : ℕ
  pub partner_id : ℕ
  pub currency_id : ℕ
  pub state : ReportState
  pub client_order_ref : Option String
  pub reference : Option String
  pub analytic_account_id : Option ℕ
  pub commission_line : List ReportLine

abbrev pub is_section : ReportLine → Bool
is_section line = elim line.display_type [ some line_section ↦ true | _ ↦ false ]

-- `state in ('sale', 'done')`
abbrev pub is_confirmed : ReportState → Bool
is_confirmed sale = true
is_confirmed done = true
is_confirmed _ = false

-- `float_is_zero`, `<` and `float_compare`, on whole numbers of the smallest unit.
abbrev pub is_zero : ℤ → Bool
is_zero (pos n) = n == 0
is_zero (negsuc n) = false

abbrev pub lt_ℤ : ℤ → ℤ → Bool
lt_ℤ a b = ltb (pos_part a + neg_part b) (pos_part b + neg_part a)
