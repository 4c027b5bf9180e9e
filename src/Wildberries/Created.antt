-- ===== src/Wildberries/Created.antt =====
-- What the methods that create rows leave in a table.
use projectname.Prelude.{◌≡◌, refl, ◌∙◌, ap, List, [], ◌∷◌, ◌++◌, ok}
use mathlib.Core.List.{append_assoc, append-nil}
use projectname.Wildberries.Rows.{Platform, Item, Row, create_row}
use projectname.Wildberries.World.{
  ReportType, incomes, stocks, orders, sales, report_detail_by_period, Database, table, put_table,
  World, done,
}
use projectname.Wildberries.Tables.{columns, create_item, create_items}

pub table-put_table :
    (r : ReportType) (rows : List Row) (db : Database) → table r (put_table r rows db) ≡ rows
table-put_table incomes rows db = refl
table-put_table stocks rows db = refl
table-put_table orders rows db = refl
table-put_table sales rows db = refl
table-put_table report_detail_by_period rows db = refl

pub put_table-put_table :
    (r : ReportType) (rows old : List Row) (db : Database)
    → put_table r rows (put_table r old db) ≡ put_table r rows db
put_table-put_table incomes rows old db = refl
put_table-put_table stocks rows old db = refl
put_table-put_table orders rows old db = refl
put_table-put_table sales rows old db = refl
put_table-put_table report_detail_by_period rows old db = refl

pub put_table_self : (r : ReportType) (db : Database) → put_table r (table r db) db ≡ db
put_table_self incomes db = refl
put_table_self stocks db = refl
put_table_self orders db = refl
put_table_self sales db = refl
put_table_self report_detail_by_period db = refl

-- The world after rows have been added to a table.
abbrev pub with_rows : ReportType → List Row → World → World
with_rows r rows w = record w { db = put_table r (table r w.db ++ rows) w.db }

pub with_rows-with_rows :
    (r : ReportType) (rows more : List Row) (w : World)
    → with_rows r more (with_rows r rows w) ≡ with_rows r (rows ++ more) w
with_rows-with_rows r rows more w =
    ap (λ (db : Database). record w { db = db })
      (put_table-put_table r _ _ w.db
        ∙ ap (λ rs. put_table r rs w.db)
            (ap (λ rs. rs ++ more) (table-put_table r _ w.db)
              ∙ append_assoc (table r w.db) rows more))

pub with_rows-nil : (r : ReportType) (w : World) → with_rows r [] w ≡ w
with_rows-nil r w =
    ap (λ (db : Database). record w { db = db })
      (ap (λ rs. put_table r rs w.db) (append-nil (table r w.db)) ∙ put_table_self r w.db)

module _ (p : Platform) where
  -- The rows that are made from items.
  abbrev pub RowsOf : ReportType → List Item → List Row → Type 0
  RowsOf r [] rows = rows ≡ []
  RowsOf r (item ∷ rest) [] = ⊥
  RowsOf r (item ∷ rest) (row ∷ rows) =
      (create_row p (columns r) item ≡ ok row) × RowsOf r rest rows

  pub create_items-rows :
      (r : ReportType) (document : List Item) (rows : List Row) (w : World)
      → RowsOf r document rows
      → create_items p r document w ≡ (done tt, with_rows r rows w)
  unfolding create_items create_item
  create_items-rows r [] rows w h = rw (h, with_rows-nil r w) refl
  create_items-rows r (item ∷ rest) [] w h = absurd h
  create_items-rows r (item ∷ rest) (row ∷ rows) w (one, more) =
      rw
        (
          one,
          create_items-rows r rest rows (with_rows r (row ∷ []) w) more,
          with_rows-with_rows r (row ∷ []) rows w,
        )
        refl
