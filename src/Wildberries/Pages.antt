-- ===== src/Wildberries/Pages.antt =====
-- The report by periods, which the server gives page by page.
use projectname.Prelude.{
  ℕ, zero, suc, ◌-◌, ◌≤◌, ◌<◌, ◌≡◌, refl, ◌∙◌, sym, ap, Bool, true, false, not, ◌&&◌, some, none,
  ok, arith, List, [], ◌∷◌, ◌++◌, if◌then◌else◌, user_error,
}
use mathlib.Core.Bool.{and-false}
use projectname.Wildberries.Rows.{Item, Row, Value, number, text, get}
use projectname.Wildberries.World.{
  report_detail_by_period, put_table, World, done, M, raise, ◌>>=◌, after,
}
use projectname.Wildberries.Service.{
  Suffix, hours, months, Context, Request, answer, items, params, is_retried, read_response, ask,
  do_request, get_event_synchro_dict,
}
use projectname.Wildberries.Tables.{
  create_from_wb_report_detail_by_period, last_item, remaining, in_period,
  deleting_data_in_wb_report,
}
use projectname.Wildberries.Created.{
  with_rows, with_rows-with_rows, with_rows-nil, RowsOf, create_items-rows,
}
use projectname.Wildberries.Sync.{
  Answer, refreshed, cursor, Session, is_zero, is_empty, is_months, update_events, sync_pages,
  rest_of_pages, synchronize_events, cron_context, synchronize_events_cron, fetch, store,
  delete_unless, log_exception,
}

-- The request for the lines after an id.
abbrev pub page_request : Context → Value → Request
page_request ctx v = record {
  report = report_detail_by_period;
  date_from = ctx.date_from;
  date_to = ctx.date_to;
  flag = none;
  limit = some 100000;
  rrdid = some v;
}

module _ (s : Session) (ctx : Context) where
  -- Whenever it is asked, the server gives the lines after the id `c` in pages, each of which ends
  -- with an id from which the next one starts, and then an empty page; `all` are the rows made from
  -- them, and `k` is the number of pages, with the empty one.
  pub data Pages : Value → List Row → ℕ → Type 0 where
    last :
        {c : Value}
        → ((n : ℕ) → s.server n (page_request ctx c) ≡ answer 200 (some []))
        → Pages c [] 1
    page :
        {c next : Value} {k : ℕ} {all : List Row} (item : Item) (rest : List Item)
        (rows more : List Row)
        → ((n : ℕ) → s.server n (page_request ctx c) ≡ answer 200 (some (item ∷ rest)))
        → RowsOf s.platform report_detail_by_period (item ∷ rest) rows
        → get "rrd_id" (last_item s.platform item rest) ≡ ok next
        → is_empty next ≡ false
        → is_zero next ≡ false
        → Pages next more k
        → all ≡ rows ++ more
        → Pages c all (suc k)

  abbrev pub keeps_rows : Value → Bool
  keeps_rows c = not (is_months ctx.db_cleanup_suffix && is_zero c)

  fetch-page :
      (flag : ℕ) (c : Value) (document : List Item) (w : World)
      → 0 < s.fuel
      → s.server w.requests (page_request ctx c) ≡ answer 200 (some document)
      → fetch s ctx report_detail_by_period flag c w
        ≡ (done (items document), record w { requests = suc w.requests })
  unfolding fetch get_event_synchro_dict do_request ask read_response params is_retried
  fetch-page flag c document w h a =
      let e : s.fuel ≡ suc (s.fuel - 1) = omega arith in rw (e, a) refl

  -- What the deletion before the page after `c` leaves of `w`.
  abbrev pub Leaves : Value → World → World → Type 0
  Leaves c w w' =
      (n : ℕ)
      → delete_unless s (keeps_rows c) ctx report_detail_by_period (record w { requests = n })
        ≡ (done tt, record w' { requests = n })

  update-last :
      (flag : ℕ) (c : Value) (w w' : World)
      → 0 < s.fuel
      → s.server w.requests (page_request ctx c) ≡ answer 200 (some [])
      → Leaves c w w'
      → update_events s ctx report_detail_by_period flag c w
        ≡ (done (cursor (text "")), record w' { requests = suc w.requests })
  unfolding update_events store create_from_wb_report_detail_by_period
  update-last flag c w w' h a d = rw (fetch-page flag c [] w h a, d (suc w.requests)) refl

  update-page :
      (flag : ℕ) (c next : Value) (item : Item) (rest : List Item) (rows : List Row) (w w' : World)
      → 0 < s.fuel
      → s.server w.requests (page_request ctx c) ≡ answer 200 (some (item ∷ rest))
      → RowsOf s.platform report_detail_by_period (item ∷ rest) rows
      → get "rrd_id" (last_item s.platform item rest) ≡ ok next
      → Leaves c w w'
      → update_events s ctx report_detail_by_period flag c w ≡ (
        done (cursor next),
        record (with_rows report_detail_by_period rows w') { requests = suc w.requests },
      )
  unfolding update_events store create_from_wb_report_detail_by_period
  update-page flag c next item rest rows w w' h a made id d =
      rw
        (
          fetch-page flag c (item ∷ rest) w h a,
          d (suc w.requests),
          create_items-rows s.platform report_detail_by_period (item ∷ rest) rows
              (record w' { requests = suc w.requests }) made,
          id,
        )
        refl

  Leaves-next : (c : Value) (w : World) → is_zero c ≡ false → Leaves c w w
  unfolding delete_unless
  Leaves-next c w h n = rw (h, and-false (is_months ctx.db_cleanup_suffix)) refl

  sync_pages-end :
      (fuel : ℕ) (w : World) → sync_pages s fuel ctx (cursor (text "")) w ≡ (done refreshed, w)
  unfolding sync_pages
  sync_pages-end zero w = refl
  sync_pages-end (suc fuel) w = refl

  sync_pages-next :
      (fuel : ℕ) (next : Value) (w : World)
      → is_empty next ≡ false
      → sync_pages s (suc fuel) ctx (cursor next) w
        ≡ (do res ← update_events s ctx report_detail_by_period 0 next; sync_pages s fuel ctx res) w
  unfolding sync_pages
  sync_pages-next fuel next w h = rw h refl

  Pages-pos : {c : Value} {all : List Row} {k : ℕ} → Pages c all k → 0 < k
  Pages-pos (last a) = omega arith
  Pages-pos (page item rest rows more a made id e z p eq) = omega arith

  pub Pages-from :
      {c : Value} {all : List Row} {k : ℕ} (flag fuel : ℕ) (w w' : World)
      → Pages c all k
      → 0 < s.fuel
      → k ≤ suc fuel
      → Leaves c w w'
      → (n : ℕ) × ((do
        res ← update_events s ctx report_detail_by_period flag c
        sync_pages s fuel ctx res)
            w
          ≡ (done refreshed, record (with_rows report_detail_by_period all w') { requests = n }))
  Pages-from flag fuel w w' (last {c = c} a) pos h d = (
    suc w.requests,
    ap (after (λ res. sync_pages s fuel ctx res)) (update-last flag c w w' pos (a w.requests) d)
        ∙ sync_pages-end fuel (record w' { requests = suc w.requests })
        ∙ ap (λ (x : World). (done refreshed, record x { requests = suc w.requests }))
            (sym (with_rows-nil report_detail_by_period w')),
  )
  Pages-from flag zero w w' (page item rest rows more a made id e z p eq) pos h d =
      absurd (omega (arith, Pages-pos p))
  Pages-from flag (suc fuel) w w'
        (page {c = c} {next = next} item rest rows more a made id e z p eq) pos h d =
      let w1 : World = record (with_rows report_detail_by_period rows w') {
        requests = suc w.requests;
      } in
      let (n, run) = Pages-from 0 fuel w1 w1 p pos (omega arith) (Leaves-next next w1 z) in
      (
        n,
        ap (after (λ res. sync_pages s (suc fuel) ctx res))
              (update-page flag c next item rest rows w w' pos (a w.requests) made id d)
            ∙ sync_pages-next fuel next w1 e
            ∙ run
            ∙ ap (λ (x : World). (done refreshed, record x { requests = n }))
                (with_rows-with_rows report_detail_by_period rows more w'
                  ∙ ap (λ rs. with_rows report_detail_by_period rs w') (sym eq)),
      )

-- What the cron method leaves of the rows of the report, before it adds rows.
abbrev pub kept_before : Session → Suffix → List Row → List Row
kept_before s hours old = old
kept_before s months old = remaining (in_period s.platform "rr_dt" (s.today - 7) (s.today - 5)) old

module _ (s : Session) where
  first-Leaves :
      (args : Suffix) (w : World)
      → Leaves s (cron_context s report_detail_by_period args) (number 0) w (record w {
        db = put_table report_detail_by_period (kept_before s args w.db.wb_report_detail) w.db;
      })
  unfolding cron_context delete_unless deleting_data_in_wb_report
  first-Leaves hours w n = refl
  first-Leaves months w n = refl

  -- If the server gives the report of the period in pages, and there is fuel for each page, then
  -- the cron method adds the rows of all pages to the table of the report, each page once, in
  -- their order. In its monthly mode it removes the old rows of the period first; in its hourly
  -- mode it removes nothing.
  pub synchronize_events_cron-Pages :
      (args : Suffix) (all : List Row) (k : ℕ) (w : World)
      → s.has_key ≡ true
      → 0 < s.fuel
      → k ≤ suc s.fuel
      → Pages s (cron_context s report_detail_by_period args) (number 0) all k
      → (w' : World) × (synchronize_events_cron s report_detail_by_period 2 args w ≡ (done tt, w'))
        × (w'.db
            ≡ put_table report_detail_by_period
                (kept_before s args w.db.wb_report_detail ++ all)
                w.db)
  unfolding synchronize_events_cron synchronize_events rest_of_pages
  synchronize_events_cron-Pages args all k w key pos h p =
      let ctx = cron_context s report_detail_by_period args in
      let w1 : World = record w {
        db = put_table report_detail_by_period (kept_before s args w.db.wb_report_detail) w.db;
      } in
      let (n, run) = Pages-from s ctx 2 s.fuel w w1 p pos h (first-Leaves args w) in
      (
        record (with_rows report_detail_by_period all w1) { requests = n },
        ap (log_exception s)
            (ap (λ b. (if b then synchronized ctx else raise user_error) w) key ∙ run),
        refl,
      )
    where
      synchronized : Context → M Answer
      synchronized ctx = do
        res ← update_events s ctx report_detail_by_period 2 (number 0)
        sync_pages s s.fuel ctx res
