-- ===== src/Wildberries/Rows.antt =====
-- An item of a report of the service, and the row of the database that is made from it: the
-- dictionaries of the methods `create_from_wildberries_*` and
-- `create_from_wb_report_detail_by_period` of local/connector_wb/models/connector_wb.py.
use Prim.Native.String.{String}
use package.text.Mathlib.Text.{◌==◌}
use projectname.Prelude.{
  ℕ, Bool, false, Option, none, some, List, [], ◌∷◌, Result, ok, err, type_error, value_error,
  key_error, ◌>>=◌, if◌then◌else◌, ◌/◌,
}

-- A value of a JSON document. A number that is no natural number is its literal.
pub data Value : Type 0 where
  null : Value
  boolean : Bool → Value
  number : ℕ → Value
  decimal : String → Value
  text : String → Value

pub data Format : Type 0 where
  seconds fraction : Format

-- Python's parsing and printing: `datetime.strptime`, by the seconds since the first day, `str`,
-- and the day that Odoo's Date field keeps of a value.
pub record Platform : Type 0 where
  pub strptime : Format → String → Option ℕ
  pub str : Value → String
  pub to_date : Value → Option ℕ

abbrev pub Item : Type 0
Item = List (String × Value)

-- What becomes of a value in a column: the value, its `datetime.strptime`, its `str`, and the test
-- of `cancel_dt`.
pub data Conversion : Type 0 where
  same shown cancel_moment : Conversion
  moment_of : Format → Conversion

-- A column, the key of the item that fills it, and the conversion.
abbrev pub Column : Type 0
Column = String × String × Conversion

pub data Cell : Type 0 where
  plain : Value → Cell
  moment : ℕ → Cell

abbrev pub Row : Type 0
Row = List (String × Cell)

-- `item[key]`
unfoldable pub get : String → Item → Result Value
get key [] = err key_error
get key ((k, v) ∷ item) = if k == key then ok v else get key item

abbrev or_value_error : Option ℕ → Result ℕ
or_value_error none = err value_error
or_value_error (some t) = ok t

module _ (p : Platform) where
  open p use {strptime, str, to_date}

  -- `datetime.strptime(value, format)`
  parse : Format → Value → Result ℕ
  parse format (text s) = or_value_error (strptime format s)
  parse format _ = err type_error

  is_never : Value → Bool
  is_never (text s) = s == "0001-01-01T00:00:00"
  is_never _ = false

  unfoldable pub convert : Conversion → Value → Result Cell
  unfolding parse is_never
  convert same v = ok (plain v)
  convert shown v = ok (plain (text (str v)))
  convert (moment_of format) v = do t ← parse format v; ok (moment t)
  convert cancel_moment v = do
    t ← parse seconds v
    never ← parse seconds (text "1940-01-01T00:00:00")
    ok (moment (if is_never v then never else t))

  -- The dictionary of a `create`, in the order of its entries.
  unfoldable pub create_row : List Column → Item → Result Row
  create_row [] item = ok []
  create_row ((column, key, conversion) ∷ columns) item = do
    v ← get key item
    cell ← convert conversion v
    row ← create_row columns item
    ok ((column, cell) ∷ row)

  cell_day : Cell → Option ℕ
  cell_day (plain v) = to_date v
  cell_day (moment t) = some (t / 86400)

  -- The day of a row in a Date column. A column that is not filled is NULL.
  unfoldable pub day_in : String → Row → Option ℕ
  unfolding cell_day
  day_in column [] = none
  day_in column ((c, cell) ∷ row) = if c == column then cell_day cell else day_in column row
