-- ===== src/Wildberries/World.antt =====
-- The database and the calls to the service, and methods that change them. Where a method raises
-- an exception, what it did before stays done until the transaction is rolled back: the cron
-- method catches exceptions.
use projectname.Prelude.{ℕ, ◌≡◌, List, Error, Result, ok, err}
use projectname.Wildberries.Rows.{Row}

-- The report types, whose names are texts in the source.
pub data ReportType : Type 0 where
  incomes stocks orders sales report_detail_by_period : ReportType

-- The tables `wb_incomes`, `wb_stocks`, `wb_orders`, `wb_sales` and `wb_report_detail`.
pub record Database : Type 0 where
  pub wb_incomes : List Row
  pub wb_stocks : List Row
  pub wb_orders : List Row
  pub wb_sales : List Row
  pub wb_report_detail : List Row

abbrev pub table : ReportType → Database → List Row
table incomes db = db.wb_incomes
table stocks db = db.wb_stocks
table orders db = db.wb_orders
table sales db = db.wb_sales
table report_detail_by_period db = db.wb_report_detail

abbrev pub put_table : ReportType → List Row → Database → Database
put_table incomes rows db = record db { wb_incomes = rows }
put_table stocks rows db = record db { wb_stocks = rows }
put_table orders rows db = record db { wb_orders = rows }
put_table sales rows db = record db { wb_sales = rows }
put_table report_detail_by_period rows db = record db { wb_report_detail = rows }

-- The database, as the transaction sees it and as it was last committed, and the number of
-- requests made so far.
pub record World : Type 0 where
  pub db : Database
  pub committed : Database
  pub requests : ℕ

-- `unfinished` is a loop that was stopped by the end of its fuel.
pub data Outcome (A : Type 0) : Type 0 where
  done : A → Outcome A
  raised : Error → Outcome A
  unfinished : Outcome A

abbrev pub M : Type 0 → Type 0
M A = World → Outcome A × World

abbrev pub pure : {A : Type 0} → A → M A
pure a w = (done a, w)

abbrev pub raise : {A : Type 0} → Error → M A
raise e w = (raised e, w)

abbrev pub stop : {A : Type 0} → M A
stop w = (unfinished, w)

abbrev pub lift : {A : Type 0} → Result A → M A
lift (ok a) w = (done a, w)
lift (err e) w = (raised e, w)

abbrev pub after : {A B : Type 0} → (A → M B) → Outcome A × World → Outcome B × World
after f (done a, w) = f a w
after f (raised e, w) = (raised e, w)
after f (unfinished, w) = (unfinished, w)

infixl 5 ◌>>=◌
abbrev pub ◌>>=◌ : {A B : Type 0} → M A → (A → M B) → M B
◌>>=◌ m f w = after f (m w)

infixl 5 ◌>>◌
abbrev pub ◌>>◌ : {B : Type 0} → M (Unit {0}) → M B → M B
◌>>◌ m k w = after (λ _. k) (m w)

-- A change of the rows of one table.
abbrev pub change_table : ReportType → (List Row → List Row) → M (Unit {0})
change_table r f w = (done tt, record w { db = put_table r (f (table r w.db)) w.db })

-- A run from `w` that returns `a` and leaves `w'`.
abbrev pub Returns : {A : Type 0} → M A → World → A → World → Type 0
Returns m w a w' = m w ≡ (done a, w')
