-- ===== src/Wildberries/Tests/Runs.antt =====
-- The theorems at these servers.
use projectname.Prelude.{ℕ, ◌+◌, ◌≡◌, refl, arith, List, [], ◌∷◌, ◌++◌, ◌≤◌, none, inl}
use projectname.Wildberries.Rows.{Row, number, create_row, get, convert, day_in}
use projectname.Wildberries.Columns.{order_columns, detail_columns}
use projectname.Wildberries.World.{
  orders, report_detail_by_period, World, done, unfinished, put_table,
}
use projectname.Wildberries.Service.{months, is_retried, do_request}
use projectname.Wildberries.Tables.{columns, last_item, remaining, from_day}
use projectname.Wildberries.Retry.{served, do_request-waits, do_request-unfinished}
use projectname.Wildberries.Sync.{synchronize_events_cron, cron_context}
use projectname.Wildberries.Day.{orders_by_day, day_request, Answers}
use projectname.Wildberries.Days.{day_rows, renewed, synchronize_events_cron-months}
use projectname.Wildberries.Interrupted.{synchronize_events_cron-Silent}
use projectname.Wildberries.Twice.{synchronize_events_cron-twice}
use projectname.Wildberries.Pages.{Pages, last, page, kept_before, synchronize_events_cron-Pages}
use projectname.Wildberries.Tests.Samples.{
  order_item, order_row, detail_item, detail_row, steady, silent, restarting, refusing, session,
  world,
}

abbrev one_order : ℕ → List Row
one_order d = order_row ∷ []

steady-Answers : (d : ℕ) → Answers (session steady) orders d (one_order d)
unfolding create_row get convert columns order_columns
steady-Answers d = record {
  document = order_item ∷ [];
  answered = λ n. refl;
  created = (refl, refl);
}

do_request-waits_example :
    do_request restarting 4 (day_request orders 95) world
    ≡ served restarting (day_request orders 95) (0 + 2) world
unfolding is_retried
do_request-waits_example =
    do_request-waits restarting (day_request orders 95) 2 4 world (omega arith)
      (λ i h. ground arith) refl

do_request-unfinished_example :
    do_request refusing 1000 (day_request orders 95) world
    ≡ (unfinished, record world { requests = 1000 + world.requests })
do_request-unfinished_example =
    do_request-unfinished refusing (day_request orders 95) 1000 world (inl refl) refl
      (λ n. (401, none, refl, refl))

synchronize_events_cron-months_example :
    (w' : World) × (synchronize_events_cron (session steady) orders 1 months world ≡ (done tt, w'))
    × (w'.db
        ≡ put_table orders (renewed (session steady) orders orders_by_day [] one_order) world.db)
synchronize_events_cron-months_example =
    synchronize_events_cron-months (session steady) orders orders_by_day one_order world refl
      (omega arith) (omega arith) (λ d h k. steady-Answers d)

synchronize_events_cron-twice_example :
    (w' w'' : World) × (synchronize_events_cron (session steady) orders 1 months world
      ≡ (done tt, w'))
    × (synchronize_events_cron (session steady) orders 1 months w' ≡ (done tt, w''))
    × (w''.db ≡ w'.db)
unfolding create_row get convert columns order_columns day_in
synchronize_events_cron-twice_example =
    synchronize_events_cron-twice (session steady) orders orders_by_day one_order world refl
      (omega arith) (omega arith) (λ d h k. steady-Answers d) (λ d. (refl, tt))

early-Answers : (d : ℕ) → d ≤ 96 → Answers (session silent) orders d (one_order d)
unfolding create_row get convert columns order_columns
early-Answers d h = record {
  document = order_item ∷ [];
  answered = λ n. ground arith;
  created = (refl, refl);
}

synchronize_events_cron-Silent_example :
    (w' : World) × (synchronize_events_cron (session silent) orders 1 months world ≡ (done tt, w'))
    × (w'.db
        ≡ put_table orders
            (remaining (from_day (session silent).platform "last_change_date" 95) []
              ++ (one_order 95 ++ day_rows one_order 95 1))
            world.db)
synchronize_events_cron-Silent_example =
    synchronize_events_cron-Silent (session silent) orders orders_by_day one_order 1 world refl
      (omega arith) (omega arith) (omega arith) (λ d h k. early-Answers d k) (λ n. refl)

one_page :
    Pages
      (session steady)
      (cron_context (session steady) report_detail_by_period months)
      (number 0)
      (detail_row ∷ [])
      2
unfolding create_row get convert columns detail_columns last_item
one_page =
    page detail_item [] (detail_row ∷ []) [] (λ n. refl) (refl, refl) refl refl refl
      (last (λ n. refl)) refl

synchronize_events_cron-Pages_example :
    (w' : World) × (synchronize_events_cron (session steady) report_detail_by_period 2 months world
      ≡ (done tt, w'))
    × (w'.db
        ≡ put_table report_detail_by_period
            (kept_before (session steady) months [] ++ (detail_row ∷ []))
            world.db)
synchronize_events_cron-Pages_example =
    synchronize_events_cron-Pages (session steady) months (detail_row ∷ []) 2 world refl
      (omega arith) (omega arith) one_page
