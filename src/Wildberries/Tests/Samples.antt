-- ===== src/Wildberries/Tests/Samples.antt =====
-- A platform, items of two reports, and servers.
use projectname.Prelude.{
  ℕ, Bool, true, false, Option, none, some, List, [], ◌∷◌, Result, ok, err, ◌==◌, leb, ltb,
  if◌then◌else◌,
}
use projectname.Wildberries.Rows.{Value, number, text, Platform, Item, Row, create_row}
use projectname.Wildberries.World.{Database, World, orders, report_detail_by_period}
use projectname.Wildberries.Service.{answer, no_answer, Server}
use projectname.Wildberries.Tables.{columns}
use projectname.Wildberries.Sync.{Session}

-- Each text is a moment of day 100.
abbrev pub one_day : Platform
one_day = record { strptime = λ f s. some 8640000; str = λ v. "0"; to_date = λ v. some 100 }

abbrev pub order_item : Item
order_item =
    ("number", text "1")
    ∷ ("date", text "1")
    ∷ ("lastChangeDate", text "1")
    ∷ ("supplierArticle", text "1")
    ∷ ("techSize", text "1")
    ∷ ("barcode", text "1")
    ∷ ("quantity", text "1")
    ∷ ("totalPrice", text "1")
    ∷ ("discountPercent", text "1")
    ∷ ("warehouseName", text "1")
    ∷ ("oblast", text "1")
    ∷ ("incomeID", text "1")
    ∷ ("odid", text "1")
    ∷ ("nmId", text "1")
    ∷ ("subject", text "1")
    ∷ ("category", text "1")
    ∷ ("brand", text "1")
    ∷ ("isCancel", text "1")
    ∷ ("cancel_dt", text "1")
    ∷ []

abbrev pub detail_item : Item
detail_item =
    ("realizationreport_id", text "1")
    ∷ ("suppliercontract_code", text "1")
    ∷ ("rr_dt", text "1")
    ∷ ("rrd_id", number 7)
    ∷ ("gi_id", text "1")
    ∷ ("subject_name", text "1")
    ∷ ("nm_id", text "1")
    ∷ ("brand_name", text "1")
    ∷ ("sa_name", text "1")
    ∷ ("ts_name", text "1")
    ∷ ("barcode", text "1")
    ∷ ("doc_type_name", text "1")
    ∷ ("quantity", text "1")
    ∷ ("nds", text "1")
    ∷ ("cost_amount", text "1")
    ∷ ("retail_price", text "1")
    ∷ ("retail_amount", text "1")
    ∷ ("retail_commission", text "1")
    ∷ ("sale_percent", text "1")
    ∷ ("commission_percent", text "1")
    ∷ ("customer_reward", text "1")
    ∷ ("supplier_reward", text "1")
    ∷ ("office_name", text "1")
    ∷ ("supplier_oper_name", text "1")
    ∷ ("order_dt", text "1")
    ∷ ("sale_dt", text "1")
    ∷ ("shk_id", text "1")
    ∷ ("retail_price_withdisc_rub", text "1")
    ∷ ("for_pay_nds", text "1")
    ∷ ("delivery_amount", text "1")
    ∷ ("return_amount", text "1")
    ∷ ("delivery_rub", text "1")
    ∷ ("gi_box_type_name", text "1")
    ∷ ("product_discount_for_report", text "1")
    ∷ ("supplier_promo", text "1")
    ∷ ("supplier_spp", text "1")
    ∷ []

abbrev or_empty : Result Row → Row
or_empty (err e) = []
or_empty (ok row) = row

abbrev pub order_row : Row
order_row = or_empty (create_row one_day (columns orders) order_item)

abbrev pub detail_row : Row
detail_row = or_empty (create_row one_day (columns report_detail_by_period) detail_item)

abbrev page_after : Value → List Item
page_after (number n) = if n == 0 then detail_item ∷ [] else []
page_after v = []

abbrev document_for : Option Value → List Item
document_for none = order_item ∷ []
document_for (some v) = page_after v

-- One order each day, and a report of one line.
abbrev pub steady : Server
steady = λ n request. answer 200 (some (document_for request.rrdid))

abbrev from_97 : Option ℕ → Bool
from_97 none = false
from_97 (some d) = leb 97 d

-- No answer for day 97 and later.
abbrev pub silent : Server
silent = λ n request. if from_97 request.date_from then no_answer else steady n request

-- Two errors, and then answers.
abbrev pub restarting : Server
restarting = λ n request. if ltb n 2 then answer 503 none else steady n request

-- The key is refused.
abbrev pub refusing : Server
refusing = λ n request. answer 401 none

abbrev pub session : Server → Session
session server = record {
  platform = one_day;
  server = server;
  today = 100;
  has_key = true;
  fuel = 9;
}

abbrev empty : Database
empty = record {
  wb_incomes = [];
  wb_stocks = [];
  wb_orders = [];
  wb_sales = [];
  wb_report_detail = [];
}

abbrev pub world : World
world = record { db = empty; committed = empty; requests = 0 }
