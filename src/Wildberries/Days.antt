-- ===== src/Wildberries/Days.antt =====
-- The synchronisation day by day, of the reports of orders and of sales with the flag 1.
use projectname.Prelude.{
  ℕ, zero, suc, ◌+◌, ◌-◌, ◌≤◌, ◌<◌, ◌≡◌, refl, ◌∙◌, ap, true, false, some, none, arith, List, [],
  ◌++◌, ◌==◌, if◌then◌else◌, user_error,
}
use mathlib.Core.List.{append_assoc}
use projectname.Wildberries.Rows.{Item, Row, Value, number}
use projectname.Wildberries.World.{
  ReportType, Database, table, put_table, World, done, M, pure, raise, ◌>>=◌, ◌>>◌, after,
  change_table,
}
use projectname.Wildberries.Service.{months, Context, items}
use projectname.Wildberries.Tables.{
  create_from_wildberries, remaining, from_day, deleting_data_in_wb_report,
}
use projectname.Wildberries.Created.{
  table-put_table, put_table-put_table, with_rows, with_rows-with_rows, with_rows-nil,
  create_items-rows,
}
use projectname.Wildberries.Sync.{
  Answer, refreshed, Session, update_events, sync_days, sync_from, rest_of_pages,
  synchronize_events, cron_context, synchronize_events_cron, store, delete_unless, log_exception,
}
use projectname.Wildberries.Day.{
  ByDay, orders_by_day, sales_by_day, Adds, Answers, fetch-day, update-day,
}

pub at_end : (d t : ℕ) → d + 0 ≡ t → (d == t) ≡ true
at_end d t h = ground arith

pub before_end : (d k t : ℕ) → d + suc k ≡ t → (d == t) ≡ false
before_end d k t h = ground arith

-- The rows of the days after `d`, for `k` days.
abbrev pub day_rows : (ℕ → List Row) → ℕ → ℕ → List Row
day_rows rows d zero = []
day_rows rows d (suc k) = rows (d + 1) ++ day_rows rows (d + 1) k

module _ (s : Session) (r : ReportType) where
  module _ (by_day : ByDay r) (fuel_pos : 0 < s.fuel) where
    sync_days-rows :
        (rows : ℕ → List Row) (first : ℕ)
        → ((d : ℕ) → first ≤ d → d ≤ s.today → Answers s r d (rows d))
        → (k fuel : ℕ) (ctx : Context) (d : ℕ) (w : World) → first ≤ d
        → k ≤ fuel
        → d + k ≡ s.today
        → Adds (sync_days s fuel ctx r 1 d refreshed) w refreshed r (day_rows rows d k)
    unfolding sync_days
    sync_days-rows rows first all zero zero ctx d w le h e =
        (w.requests, rw (at_end d s.today e, with_rows-nil r w) refl)
    sync_days-rows rows first all zero (suc fuel) ctx d w le h e =
        (w.requests, rw (at_end d s.today e, with_rows-nil r w) refl)
    sync_days-rows rows first all (suc k) zero ctx d w le h e = absurd (omega arith)
    sync_days-rows rows first all (suc k) (suc fuel) ctx d w le h e =
        let (n, one) =
          update-day s r by_day fuel_pos ctx (d + 1) (number 0) (rows (d + 1)) w
            (all (d + 1) (omega arith) (omega arith)) in
        let (m, more) =
          sync_days-rows rows first all k fuel ctx (d + 1)
            (record (with_rows r (rows (d + 1)) w) { requests = n }) (omega arith) (omega arith)
            (omega arith) in
        (
          m,
          rw (before_end d k s.today e, one, more)
              (ap (λ (x : World). (done refreshed, record x { requests = m }))
                (with_rows-with_rows r (rows (d + 1)) (day_rows rows (d + 1) k) w)),
        )

abbrev pub months_context : ℕ → Context
months_context d = record {
  date_from = some d;
  date_to = none;
  db_cleanup_suffix = some months;
  no_delet = false;
}

pub cron_context-ByDay :
    (s : Session) (r : ReportType)
    → ByDay r
    → cron_context s r months ≡ months_context (s.today - 5)
unfolding cron_context
cron_context-ByDay s _ orders_by_day = refl
cron_context-ByDay s _ sales_by_day = refl

store-months :
    (s : Session) (r : ReportType) (d : ℕ) (v : Value) (document : List Item)
    → ByDay r
    → (w : World)
    → store s (months_context d) r v (items document) w
      ≡ (do
        change_table r (remaining (from_day s.platform "last_change_date" d))
        create_from_wildberries s.platform r (items document)
        pure refreshed)
          w
unfolding store delete_unless deleting_data_in_wb_report
store-months s _ d v document orders_by_day w = refl
store-months s _ d v document sales_by_day w = refl

pages-ByDay :
    (s : Session) (r : ReportType) (ctx : Context) (res : Answer)
    → ByDay r
    → (w : World) → rest_of_pages s ctx r res w ≡ (done res, w)
unfolding rest_of_pages
pages-ByDay s _ ctx res orders_by_day w = refl
pages-ByDay s _ ctx res sales_by_day w = refl

-- What `synchronize_events_cron` leaves in the tables of orders and sales, in its monthly mode.
module _ (s : Session) (r : ReportType) (by_day : ByDay r) where
  -- The rows of today and of the last five days are made anew, and the others are kept.
  abbrev pub renewed : List Row → (ℕ → List Row) → List Row
  renewed old rows =
      remaining (from_day s.platform "last_change_date" (s.today - 5)) old
      ++ (rows (s.today - 5) ++ day_rows rows (s.today - 5) 5)

  -- The world after the first update.
  abbrev pub after_first : List Row → World → World
  after_first rows w = record w {
    db =
        put_table r
          (remaining (from_day s.platform "last_change_date" (s.today - 5)) (table r w.db) ++ rows)
          w.db;
    requests = suc w.requests;
  }

  pub update-months :
      (rows : List Row) (w : World)
      → 0 < s.fuel
      → Answers s r (s.today - 5) rows
      → update_events s (months_context (s.today - 5)) r 1 (number 0) w
        ≡ (done refreshed, after_first rows w)
  unfolding update_events create_from_wildberries
  update-months rows w h a =
      let d = s.today - 5 in
      let w1 : World = record w { requests = suc w.requests } in
      let deleted : World = record w1 {
        db = put_table r (remaining (from_day s.platform "last_change_date" d) (table r w.db)) w.db;
      } in
      rw
        (
          fetch-day s r by_day h (months_context d) d (number 0) rows w a,
          store-months s r d (number 0) a.document by_day w1,
          create_items-rows s.platform r a.document rows deleted a.created,
        )
        (ap (λ (db : Database). (done refreshed, record w1 { db = db }))
          (put_table-put_table r _ _ w.db
            ∙ ap (λ rs. put_table r (rs ++ rows) w.db) (table-put_table r _ w.db)))

  -- The first update, then the loop over the days.
  pub first_then_days :
      (ctx : Context) (d : ℕ) (w w1 : World)
      → s.has_key ≡ true
      → ctx.date_from ≡ some d
      → update_events s ctx r 1 (number 0) w ≡ (done refreshed, w1)
      → synchronize_events s ctx r 1 w
        ≡ after (λ res. rest_of_pages s ctx r res) (sync_days s s.fuel ctx r 1 d refreshed w1)
  unfolding synchronize_events sync_from
  first_then_days ctx d w w1 key from first =
      ap (λ b. (if b then run else raise user_error) w) key
      ∙ ap (after rest) first
      ∙ ap (λ o. after (λ res. rest_of_pages s ctx r res) (sync_from s ctx r 1 o refreshed w1)) from
    where
      rest : Answer → M Answer
      rest res = do res' ← sync_from s ctx r 1 ctx.date_from res; rest_of_pages s ctx r res'

      run : M Answer
      run = do res ← update_events s ctx r 1 (number 0); rest res

  -- The rows of the first day and of the later days, in one.
  pub renewed_db :
      (rows : ℕ → List Row) (w : World)
      → (with_rows r (day_rows rows (s.today - 5) 5) (after_first (rows (s.today - 5)) w)).db
        ≡ put_table r (renewed (table r w.db) rows) w.db
  renewed_db rows w =
      put_table-put_table r _ _ w.db
      ∙ ap (λ rs. put_table r rs w.db)
          (ap (λ rs. rs ++ day_rows rows (s.today - 5) 5) (table-put_table r _ w.db)
            ∙ append_assoc _ (rows (s.today - 5)) (day_rows rows (s.today - 5) 5))

  -- In its monthly mode, the cron method makes the rows of orders or sales of today and of the last
  -- five days anew, each day once, in the order of the days, and keeps all others, if the server
  -- answers for each of these days and each answer can be read.
  pub synchronize_events_cron-months :
      (rows : ℕ → List Row) (w : World)
      → s.has_key ≡ true
      → 5 ≤ s.today
      → 5 ≤ s.fuel
      → ((d : ℕ) → s.today - 5 ≤ d → d ≤ s.today → Answers s r d (rows d))
      → (w' : World) × (synchronize_events_cron s r 1 months w ≡ (done tt, w'))
        × (w'.db ≡ put_table r (renewed (table r w.db) rows) w.db)
  unfolding synchronize_events_cron
  synchronize_events_cron-months rows w key day fuel all =
      let d = s.today - 5 in
      let w1 = after_first (rows d) w in
      let (n, days) =
        sync_days-rows s r by_day (omega arith) rows d all 5 s.fuel (months_context d) d w1
          (omega arith) fuel (omega arith) in
      let w2 : World = record (with_rows r (day_rows rows d 5) w1) { requests = n } in
      (
        w2,
        ap (log_exception s) (
            ap (λ ctx. synchronize_events s ctx r 1 w) (cron_context-ByDay s r by_day)
            ∙ first_then_days (months_context d) d w w1 key refl
                (update-months (rows d) w (omega arith) (all d (omega arith) (omega arith)))
            ∙ ap (after (λ res. rest_of_pages s (months_context d) r res)) days
            ∙ pages-ByDay s r (months_context d) refreshed by_day w2),
        renewed_db rows w,
      )
