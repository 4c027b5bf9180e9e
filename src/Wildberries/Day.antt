-- ===== src/Wildberries/Day.antt =====
-- The update of the orders or the sales of one day, with the flag 1.
use projectname.Prelude.{ℕ, suc, ◌-◌, ◌<◌, ◌≡◌, refl, true, false, Option, some, none, arith, List}
use projectname.Wildberries.Rows.{Item, Row, Value}
use projectname.Wildberries.World.{ReportType, orders, sales, World, done, M, pure, ◌>>◌}
use projectname.Wildberries.Service.{
  Context, Request, answer, items, params, is_retried, read_response, ask, do_request,
  get_event_synchro_dict,
}
use projectname.Wildberries.Tables.{create_from_wildberries}
use projectname.Wildberries.Created.{with_rows, RowsOf, create_items-rows}
use projectname.Wildberries.Sync.{refreshed, Session, update_events, fetch, store, delete_unless}

-- The two reports that are fetched by days.
pub data ByDay : ReportType → Type 0 where
  orders_by_day : ByDay orders
  sales_by_day : ByDay sales

-- The request for the items of a day.
abbrev pub day_request : ReportType → ℕ → Request
day_request r d = record {
  report = r;
  date_from = some d;
  date_to = none;
  flag = some 1;
  limit = none;
  rrdid = none;
}

pub params-day_request :
    (r : ReportType) (ctx : Context) (d : ℕ) (v : Value)
    → ByDay r
    → params (record ctx { date_from = some d }) r 1 v ≡ day_request r d
unfolding params
params-day_request _ ctx d v orders_by_day = refl
params-day_request _ ctx d v sales_by_day = refl

pub not_retried :
    (r : ReportType) (d : ℕ) (body : Option (List Item))
    → ByDay r
    → is_retried (day_request r d) (answer 200 body) ≡ false
unfolding is_retried
not_retried _ d body orders_by_day = refl
not_retried _ d body sales_by_day = refl

store-ByDay :
    (s : Session) (r : ReportType) (ctx : Context) (v : Value) (document : List Item)
    → ByDay r
    → ctx.no_delet ≡ true
    → (w : World)
    → store s ctx r v (items document) w
      ≡ (do create_from_wildberries s.platform r (items document); pure refreshed) w
unfolding store delete_unless
store-ByDay s _ ctx v document orders_by_day h w = rw h refl
store-ByDay s _ ctx v document sales_by_day h w = rw h refl

-- A run that returns `a` and adds rows to a table.
abbrev pub Adds : {A : Type 0} → M A → World → A → ReportType → List Row → Type 0
Adds m w a r rows = (n : ℕ) × (m w ≡ (done a, record (with_rows r rows w) { requests = n }))

module _ (s : Session) (r : ReportType) where
  -- The server answers a request for the items of a day, whenever it is made, and `rows` are made
  -- from them.
  pub record Answers (d : ℕ) (rows : List Row) : Type 0 where
    pub document : List Item
    pub answered : (n : ℕ) → s.server n (day_request r d) ≡ answer 200 (some document)
    pub created : RowsOf s.platform r document rows

  module _ (by_day : ByDay r) (fuel_pos : 0 < s.fuel) where
    pub fetch-day :
        (ctx : Context) (d : ℕ) (v : Value) (rows : List Row) (w : World)
        → (a : Answers d rows)
        → fetch s (record ctx { date_from = some d }) r 1 v w
          ≡ (done (items a.document), record w { requests = suc w.requests })
    unfolding fetch get_event_synchro_dict do_request ask read_response
    fetch-day ctx d v rows w a =
        let e : s.fuel ≡ suc (s.fuel - 1) = omega arith in
        rw
          (
            params-day_request r ctx d v by_day,
            e,
            a.answered w.requests,
            not_retried r d (some a.document) by_day,
          )
          refl

    pub update-day :
        (ctx : Context) (d : ℕ) (v : Value) (rows : List Row) (w : World)
        → Answers d rows
        → Adds
            (update_events s (record ctx { date_from = some d; no_delet = true }) r 1 v)
            w
            refreshed
            r
            rows
    unfolding update_events create_from_wildberries
    update-day ctx d v rows w a = (
      suc w.requests,
      rw
          (
            fetch-day (record ctx { no_delet = true }) d v rows w a,
            store-ByDay s r (record ctx { date_from = some d; no_delet = true }) v a.document by_day
                refl (record w { requests = suc w.requests }),
            create_items-rows s.platform r a.document rows (record w { requests = suc w.requests })
                a.created,
          )
          refl,
    )
