-- ===== src/Wildberries/Tables.antt =====
-- The tables of the reports: `deleting_data_in_wb_report` and the methods that create rows, of
-- local/connector_wb/models/connector_wb.py.
use projectname.Prelude.{
  ℕ, ◌++◌, ◌&&◌, ◌||◌, Bool, false, Option, none, some, List, [], ◌∷◌, type_error, index_error,
  name_error, sql_error, ◌==◌, leb, if◌then◌else◌,
}
use Prim.Native.String.{String}
use projectname.Wildberries.Rows.{Platform, Item, Value, Row, Column, text, get, create_row, day_in}
use projectname.Wildberries.Columns.{
  income_columns, stock_columns, order_columns, sale_columns, detail_columns,
}
use projectname.Wildberries.World.{
  ReportType, incomes, stocks, orders, sales, report_detail_by_period, M, pure, raise, lift, ◌>>=◌,
  ◌>>◌, change_table,
}
use projectname.Wildberries.Service.{
  Suffix, hours, months, Context, Content, items, empty_text, no_content,
}

unfoldable pub columns : ReportType → List Column
columns incomes = income_columns
columns stocks = stock_columns
columns orders = order_columns
columns sales = sale_columns
columns report_detail_by_period = detail_columns

-- The rows for which the WHERE clause of a DELETE does not hold.
unfoldable pub remaining : (Row → Bool) → List Row → List Row
remaining deleted [] = []
remaining deleted (row ∷ rows) =
    let rest = remaining deleted rows in if deleted row then rest else row ∷ rest

-- A comparison with a column that is NULL does not hold.
abbrev day_is : Option ℕ → ℕ → Bool
day_is none d = false
day_is (some e) d = e == d

abbrev day_from : Option ℕ → ℕ → Bool
day_from none d = false
day_from (some e) d = leb d e

abbrev day_until : Option ℕ → ℕ → Bool
day_until none d = false
day_until (some e) d = leb e d

module _ (p : Platform) where
  -- The WHERE clauses.
  abbrev pub on_either : String → ℕ → ℕ → Row → Bool
  on_either column d e row = day_is (day_in p column row) d || day_is (day_in p column row) e

  abbrev pub from_day : String → ℕ → Row → Bool
  from_day column d row = day_from (day_in p column row) d

  abbrev pub in_period : String → ℕ → ℕ → Row → Bool
  in_period column d e row = day_until (day_in p column row) e && day_from (day_in p column row) d

  abbrev delete_rows : ReportType → (Row → Bool) → M (Unit {0})
  delete_rows report deleted = change_table report (remaining deleted)

  -- A date that is not in the context is the text 'None' in the query.
  delete_hours : ReportType → ℕ → Option ℕ → M (Unit {0})
  delete_hours report today none = raise sql_error
  delete_hours report today (some d) = delete_rows report (on_either "last_change_date" today d)

  delete_from : ReportType → Option ℕ → M (Unit {0})
  delete_from report none = raise sql_error
  delete_from report (some d) = delete_rows report (from_day "last_change_date" d)

  delete_period : Option ℕ → Option ℕ → M (Unit {0})
  delete_period (some d) (some e) = delete_rows report_detail_by_period (in_period "rr_dt" d e)
  delete_period _ _ = raise sql_error

  -- With no suffix the query is not assigned.
  delete_by_suffix : ℕ → Context → ReportType → Option Suffix → M (Unit {0})
  unfolding delete_hours delete_from delete_period
  delete_by_suffix today ctx report none = raise name_error
  delete_by_suffix today ctx report_detail_by_period (some hours) = raise sql_error
  delete_by_suffix today ctx report (some hours) = delete_hours report today ctx.date_from
  delete_by_suffix today ctx report_detail_by_period (some months) =
      delete_period ctx.date_from ctx.date_to
  delete_by_suffix today ctx report (some months) = delete_from report ctx.date_from

  unfoldable pub deleting_data_in_wb_report : ℕ → Context → ReportType → M (Unit {0})
  unfolding delete_by_suffix
  deleting_data_in_wb_report today ctx incomes = change_table incomes (λ rows. [])
  deleting_data_in_wb_report today ctx stocks = change_table stocks (λ rows. [])
  deleting_data_in_wb_report today ctx report =
      delete_by_suffix today ctx report ctx.db_cleanup_suffix

  -- One round of the loops: the dictionary and `create`.
  unfoldable pub create_item : ReportType → Item → M (Unit {0})
  create_item report item = do
    row ← lift (create_row p (columns report) item)
    change_table report (λ rows. rows ++ (row ∷ []))

  unfoldable pub create_items : ReportType → List Item → M (Unit {0})
  create_items report [] = pure tt
  create_items report (item ∷ rest) = do create_item report item; create_items report rest

  -- `create_from_wildberries_incomes`, `_stocks`, `_orders` and `_sales`. False is no iterable.
  unfoldable pub create_from_wildberries : ReportType → Content → M (Unit {0})
  create_from_wildberries report (items document) = create_items report document
  create_from_wildberries report empty_text = pure tt
  create_from_wildberries report no_content = raise type_error

  unfoldable pub last_item : Item → List Item → Item
  last_item item [] = item
  last_item item (next ∷ rest) = last_item next rest

  -- The id of the last line, or the text '' where there was none.
  unfoldable pub create_from_wb_report_detail_by_period : Content → M Value
  create_from_wb_report_detail_by_period (items []) = pure (text "")
  create_from_wb_report_detail_by_period (items (item ∷ rest)) = do
    create_items report_detail_by_period (item ∷ rest)
    lift (get "rrd_id" (last_item item rest))
  create_from_wb_report_detail_by_period empty_text = raise index_error
  create_from_wb_report_detail_by_period no_content = raise type_error
