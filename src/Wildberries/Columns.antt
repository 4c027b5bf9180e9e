-- ===== src/Wildberries/Columns.antt =====
-- The columns of the tables of the reports, in the order in which
-- local/connector_wb/models/connector_wb.py fills them.
use projectname.Prelude.{List, [], ◌∷◌}
use projectname.Wildberries.Rows.{Column, same, shown, cancel_moment, moment_of, seconds, fraction}

unfoldable pub income_columns : List Column
income_columns =
    ("incomeid", "incomeId", same)
    ∷ ("number", "number", same)
    ∷ ("date", "date", moment_of seconds)
    ∷ ("last_change_date", "lastChangeDate", moment_of fraction)
    ∷ ("supplier_article", "supplierArticle", same)
    ∷ ("barcode", "barcode", same)
    ∷ ("quantity", "quantity", same)
    ∷ ("total_price", "totalPrice", same)
    ∷ ("date_close", "dateClose", moment_of seconds)
    ∷ ("warehouse_name", "warehouseName", same)
    ∷ ("nmid", "nmId", same)
    ∷ ("status", "status", same)
    ∷ []

unfoldable pub stock_columns : List Column
stock_columns =
    ("last_change_date", "lastChangeDate", moment_of fraction)
    ∷ ("supplier_article", "supplierArticle", same)
    ∷ ("tech_size", "techSize", same)
    ∷ ("barcode", "barcode", same)
    ∷ ("quantity", "quantity", same)
    ∷ ("is_supply", "isSupply", same)
    ∷ ("is_realization", "isRealization", same)
    ∷ ("quantity_full", "quantityFull", same)
    ∷ ("quantity_not_in_orders", "quantityNotInOrders", same)
    ∷ ("warehouse_name", "warehouseName", same)
    ∷ ("in_way_to_client", "inWayToClient", same)
    ∷ ("in_way_from_client", "inWayFromClient", same)
    ∷ ("nmid", "nmId", same)
    ∷ ("subject", "subject", same)
    ∷ ("category", "category", same)
    ∷ ("days_on_site", "daysOnSite", same)
    ∷ ("brand", "brand", same)
    ∷ ("sccode", "SCCode", same)
    ∷ ("price", "Price", same)
    ∷ ("discount", "Discount", same)
    ∷ []

unfoldable pub order_columns : List Column
order_columns =
    ("number", "number", same)
    ∷ ("date", "date", moment_of seconds)
    ∷ ("last_change_date", "lastChangeDate", same)
    ∷ ("last_change_date_and_time", "lastChangeDate", moment_of seconds)
    ∷ ("supplier_article", "supplierArticle", same)
    ∷ ("tech_size", "techSize", same)
    ∷ ("barcode", "barcode", same)
    ∷ ("quantity", "quantity", same)
    ∷ ("total_price", "totalPrice", same)
    ∷ ("discount_percent", "discountPercent", same)
    ∷ ("warehouse_name", "warehouseName", same)
    ∷ ("oblast", "oblast", same)
    ∷ ("income_id", "incomeID", same)
    ∷ ("odid", "odid", same)
    ∷ ("nmid", "nmId", same)
    ∷ ("subject", "subject", same)
    ∷ ("category", "category", same)
    ∷ ("brand", "brand", same)
    ∷ ("is_cancel", "isCancel", shown)
    ∷ ("cancel_dt", "cancel_dt", cancel_moment)
    ∷ []

unfoldable pub sale_columns : List Column
sale_columns =
    ("number", "number", same)
    ∷ ("date", "date", moment_of seconds)
    ∷ ("last_change_date", "lastChangeDate", same)
    ∷ ("last_change_date_and_time", "lastChangeDate", moment_of seconds)
    ∷ ("supplier_article", "supplierArticle", same)
    ∷ ("tech_size", "techSize", same)
    ∷ ("barcode", "barcode", same)
    ∷ ("quantity", "quantity", same)
    ∷ ("total_price", "totalPrice", same)
    ∷ ("discount_percent", "discountPercent", same)
    ∷ ("is_supply", "isSupply", same)
    ∷ ("is_realization", "isRealization", same)
    ∷ ("order_id", "orderId", same)
    ∷ ("promo_code_discount", "promoCodeDiscount", same)
    ∷ ("warehouse_name", "warehouseName", same)
    ∷ ("country_name", "countryName", same)
    ∷ ("oblast_okrug_name", "oblastOkrugName", same)
    ∷ ("region_name", "regionName", same)
    ∷ ("income_id", "incomeID", same)
    ∷ ("sale_id", "saleID", same)
    ∷ ("odid", "odid", same)
    ∷ ("spp", "spp", same)
    ∷ ("for_pay", "forPay", same)
    ∷ ("finished_price", "finishedPrice", same)
    ∷ ("price_with_disc", "priceWithDisc", same)
    ∷ ("nmid", "nmId", same)
    ∷ ("subject", "subject", same)
    ∷ ("category", "category", same)
    ∷ ("brand", "brand", same)
    ∷ ("is_storno", "IsStorno", same)
    ∷ []

unfoldable pub detail_columns : List Column
detail_columns =
    ("realizationreport_id", "realizationreport_id", same)
    ∷ ("suppliercontract_code", "suppliercontract_code", same)
    ∷ ("rr_dt", "rr_dt", same)
    ∷ ("rr_dt_and_time", "rr_dt", moment_of seconds)
    ∷ ("rrd_id", "rrd_id", same)
    ∷ ("gi_id", "gi_id", same)
    ∷ ("subject_name", "subject_name", same)
    ∷ ("nm_id", "nm_id", same)
    ∷ ("brand_name", "brand_name", same)
    ∷ ("sa_name", "sa_name", same)
    ∷ ("ts_name", "ts_name", same)
    ∷ ("barcode", "barcode", same)
    ∷ ("doc_type_name", "doc_type_name", same)
    ∷ ("quantity", "quantity", same)
    ∷ ("nds", "nds", same)
    ∷ ("cost_amount", "cost_amount", same)
    ∷ ("retail_price", "retail_price", same)
    ∷ ("retail_amount", "retail_amount", same)
    ∷ ("retail_commission", "retail_commission", same)
    ∷ ("sale_percent", "sale_percent", same)
    ∷ ("commission_percent", "commission_percent", same)
    ∷ ("customer_reward", "customer_reward", same)
    ∷ ("supplier_reward", "supplier_reward", same)
    ∷ ("office_name", "office_name", same)
    ∷ ("supplier_oper_name", "supplier_oper_name", same)
    ∷ ("order_dt", "order_dt", moment_of seconds)
    ∷ ("sale_dt", "sale_dt", moment_of seconds)
    ∷ ("shk_id", "shk_id", same)
    ∷ ("retail_price_withdisc_rub", "retail_price_withdisc_rub", same)
    ∷ ("for_pay_nds", "for_pay_nds", same)
    ∷ ("delivery_amount", "delivery_amount", same)
    ∷ ("return_amount", "return_amount", same)
    ∷ ("delivery_rub", "delivery_rub", same)
    ∷ ("gi_box_type_name", "gi_box_type_name", same)
    ∷ ("product_discount_for_report", "product_discount_for_report", same)
    ∷ ("supplier_promo", "supplier_promo", same)
    ∷ ("supplier_spp", "supplier_spp", same)
    ∷ []
