-- ===== src/Wildberries/Sync.antt =====
-- The synchronisation: `update_events`, `synchronize_events` and `synchronize_events_cron` of
-- local/connector_wb/models/connector_wb.py. The day does not change while they run.
use package.text.Mathlib.Text.{◌==◌ as ◌is◌}
use projectname.Prelude.{
  ℕ, zero, suc, ◌+◌, ◌-◌, ◌&&◌, not, Bool, true, false, Option, none, some, type_error, user_error,
  http_error, ◌==◌, if◌then◌else◌,
}
use projectname.Wildberries.Rows.{Platform, Value, boolean, number, text}
use projectname.Wildberries.World.{
  ReportType, incomes, stocks, orders, sales, report_detail_by_period, World, Outcome, done, raised,
  unfinished, M, pure, raise, stop, ◌>>=◌, ◌>>◌,
}
use projectname.Wildberries.Service.{
  Suffix, hours, months, Context, Content, Server, get_event_synchro_dict,
}
use projectname.Wildberries.Tables.{
  deleting_data_in_wb_report, create_from_wildberries, create_from_wb_report_detail_by_period,
}

-- What `update_events` returns: True, or the id of the last line.
pub data Answer : Type 0 where
  refreshed : Answer
  cursor : Value → Answer

-- What the methods ask of the session, and the fuel of each loop.
pub record Session : Type 0 where
  pub platform : Platform
  pub server : Server
  pub today : ℕ
  pub has_key : Bool
  pub fuel : ℕ

-- `rrd_id == 0` and `rrd_id == ''`, in Python's equality
abbrev pub is_zero : Value → Bool
is_zero (number n) = n == 0
is_zero (boolean b) = not b
is_zero _ = false

abbrev pub is_empty : Value → Bool
is_empty (text s) = s is ""
is_empty _ = false

abbrev pub roll_back : World → World
roll_back w = record w { db = w.committed }

-- The handler of `requests.HTTPError`: after a 410 the transaction is rolled back.
abbrev pub catch_http_error : Outcome Content × World → Outcome Content × World
catch_http_error (raised (http_error status), w) =
    (raised user_error, if status == 410 then roll_back w else w)
catch_http_error r = r

abbrev pub is_months : Option Suffix → Bool
is_months (some months) = true
is_months _ = false

module _ (s : Session) where
  open s use {platform, server, today, has_key, fuel}

  unfoldable pub fetch : Context → ReportType → ℕ → Value → M Content
  fetch ctx report flag rrd_id w =
      catch_http_error (get_event_synchro_dict server fuel ctx report flag rrd_id w)

  unfoldable pub delete_all : Context → ReportType → M (Unit {0})
  delete_all ctx report = deleting_data_in_wb_report platform today ctx report

  unfoldable pub delete_unless : Bool → Context → ReportType → M (Unit {0})
  delete_unless b ctx report =
      if b then pure tt else deleting_data_in_wb_report platform today ctx report

  -- The branch of `update_events` for the report type.
  unfoldable pub store : Context → ReportType → Value → Content → M Answer
  unfolding delete_all delete_unless
  store ctx incomes rrd_id content = do
    delete_all ctx incomes
    create_from_wildberries platform incomes content
    pure refreshed
  store ctx stocks rrd_id content = do
    delete_all ctx stocks
    create_from_wildberries platform stocks content
    pure refreshed
  store ctx orders rrd_id content = do
    delete_unless ctx.no_delet ctx orders
    create_from_wildberries platform orders content
    pure refreshed
  store ctx sales rrd_id content = do
    delete_unless ctx.no_delet ctx sales
    create_from_wildberries platform sales content
    pure refreshed
  store ctx report_detail_by_period rrd_id content = do
    delete_unless (not (is_months ctx.db_cleanup_suffix && is_zero rrd_id)) ctx
        report_detail_by_period
    last ← create_from_wb_report_detail_by_period platform content
    pure (cursor last)

  unfoldable pub update_events : Context → ReportType → ℕ → Value → M Answer
  unfolding fetch store
  update_events ctx report flag rrd_id = do
    content ← fetch ctx report flag rrd_id
    store ctx report rrd_id content

  -- `while update_date != r`
  unfoldable pub sync_days : ℕ → Context → ReportType → ℕ → ℕ → Answer → M Answer
  sync_days zero ctx report flag update_date res = if update_date == today then pure res else stop
  sync_days (suc rounds) ctx report flag update_date res =
      let next = (do
        res' ←
            update_events (record ctx { date_from = some (update_date + 1); no_delet = true })
              report flag (number 0)
        sync_days rounds ctx report flag (update_date + 1) res') in
      if update_date == today then pure res else next

  unfoldable pub sync_from : Context → ReportType → ℕ → Option ℕ → Answer → M Answer
  sync_from ctx report flag none res = raise type_error
  sync_from ctx report flag (some date_from) res = sync_days fuel ctx report flag date_from res

  abbrev pub is_last : Answer → Bool
  is_last refreshed = false
  is_last (cursor v) = is_empty v

  -- The value that the loop hands on as an id.
  abbrev pub id_of : Answer → Value
  id_of refreshed = boolean true
  id_of (cursor v) = v

  -- `while rrd_id != ''`
  unfoldable pub sync_pages : ℕ → Context → Answer → M Answer
  sync_pages zero ctx rrd_id = if is_last rrd_id then pure refreshed else stop
  sync_pages (suc rounds) ctx rrd_id =
      let next = (do
        rrd_id' ← update_events ctx report_detail_by_period 0 (id_of rrd_id)
        sync_pages rounds ctx rrd_id') in
      if is_last rrd_id then pure refreshed else next

  unfoldable pub rest_of_pages : Context → ReportType → Answer → M Answer
  rest_of_pages ctx report_detail_by_period res = sync_pages fuel ctx res
  rest_of_pages ctx report res = pure res

  -- What it returns, "need_refresh", is left out: `res` is always true.
  unfoldable pub synchronize_events : Context → ReportType → ℕ → M Answer
  unfolding sync_from rest_of_pages
  synchronize_events ctx report flag =
      if has_key
      then (do
        res ← update_events ctx report flag (number 0)
        res' ← (if flag == 1 then sync_from ctx report flag ctx.date_from res else pure res)
        rest_of_pages ctx report res')
      else raise user_error

  -- The context that the cron method makes.
  unfoldable pub cron_context : ReportType → Suffix → Context
  cron_context report_detail_by_period hours = record {
    date_from = some (today - 4);
    date_to = some (today - 4);
    db_cleanup_suffix = some hours;
    no_delet = false;
  }
  cron_context report hours = record {
    date_from = some (today - 1);
    date_to = none;
    db_cleanup_suffix = some hours;
    no_delet = false;
  }
  cron_context report_detail_by_period months = record {
    date_from = some (today - 7);
    date_to = some (today - 5);
    db_cleanup_suffix = some months;
    no_delet = false;
  }
  cron_context report months = record {
    date_from = some (today - 5);
    date_to = none;
    db_cleanup_suffix = some months;
    no_delet = false;
  }

  -- `except Exception`
  abbrev pub log_exception : Outcome Answer × World → Outcome (Unit {0}) × World
  log_exception (done res, w) = (done tt, w)
  log_exception (raised e, w) = (done tt, w)
  log_exception (unfinished, w) = (unfinished, w)

  unfoldable pub synchronize_events_cron : ReportType → ℕ → Suffix → M (Unit {0})
  synchronize_events_cron report flag args w =
      log_exception (synchronize_events (cron_context report args) report flag w)
