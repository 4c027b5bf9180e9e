-- ===== src/Wildberries/Interrupted.antt =====
-- The synchronisation of orders and sales when the server stops answering.
use projectname.Prelude.{
  ℕ, zero, suc, ◌+◌, ◌-◌, ◌≤◌, ◌<◌, ◌≡◌, refl, ◌∙◌, sym, ap, subst, true, false, some, arith, List,
  ◌++◌, ◌==◌, connection_error,
}
use mathlib.Core.List.{append_assoc}
use projectname.Wildberries.Rows.{Row, Value, number}
use projectname.Wildberries.World.{ReportType, table, put_table, World, done, raised, after}
use projectname.Wildberries.Service.{
  months, Context, no_answer, is_retried, read_response, ask, do_request, get_event_synchro_dict,
}
use projectname.Wildberries.Tables.{remaining, from_day}
use projectname.Wildberries.Created.{
  table-put_table, put_table-put_table, with_rows, with_rows-with_rows, with_rows-nil,
}
use projectname.Wildberries.Day.{ByDay, day_request, params-day_request, Answers, update-day}
use projectname.Wildberries.Days.{
  day_rows, months_context, cron_context-ByDay, after_first, update-months, first_then_days,
}
use projectname.Wildberries.Sync.{
  refreshed, Session, fetch, update_events, sync_days, rest_of_pages, synchronize_events,
  synchronize_events_cron, log_exception,
}

-- Before the last day.
not_yet : (d t : ℕ) → d < t → (d == t) ≡ false
not_yet d t h = ground arith

module _ (s : Session) (r : ReportType) (by_day : ByDay r) where
  -- The server gives no answer for a day.
  abbrev pub Silent : ℕ → Type 0
  Silent d = (n : ℕ) → s.server n (day_request r d) ≡ no_answer

  update-Silent :
      (ctx : Context) (d : ℕ) (v : Value) (w : World)
      → 0 < s.fuel
      → Silent d
      → update_events s (record ctx { date_from = some d }) r 1 v w
        ≡ (raised connection_error, record w { requests = suc w.requests })
  unfolding update_events fetch get_event_synchro_dict do_request ask is_retried read_response
  update-Silent ctx d v w h silent =
      let e : s.fuel ≡ suc (s.fuel - 1) = omega arith in
      rw (params-day_request r ctx d v by_day, e, silent w.requests) refl

  sync_days-Silent :
      (rows : ℕ → List Row) (first : ℕ) (j fuel : ℕ) (ctx : Context) (d : ℕ) (w : World)
      → 0 < s.fuel
      → ((e : ℕ) → first ≤ e → e ≤ d + j → Answers s r e (rows e))
      → Silent (d + j + 1)
      → first ≤ d
      → j < fuel
      → d + j < s.today
      → (n : ℕ) × (sync_days s fuel ctx r 1 d refreshed w
          ≡ (raised connection_error, record (with_rows r (day_rows rows d j) w) { requests = n }))
  unfolding sync_days
  sync_days-Silent rows first j zero ctx d w pos all silent le h t = absurd (omega arith)
  sync_days-Silent rows first zero (suc fuel) ctx d w pos all silent le h t = (
    suc w.requests,
    rw
        (
          not_yet d s.today (omega arith),
          update-Silent (record ctx { no_delet = true }) (d + 1) (number 0) w pos
              (subst Silent (omega arith) silent),
        )
        (ap (λ (x : World). (raised connection_error, record x { requests = suc w.requests }))
          (sym (with_rows-nil r w))),
  )
  sync_days-Silent rows first (suc j) (suc fuel) ctx d w pos all silent le h t =
      let (n, one) =
        update-day s r by_day pos ctx (d + 1) (number 0) (rows (d + 1)) w
          (all (d + 1) (omega arith) (omega arith)) in
      let (m, more) =
        sync_days-Silent rows first j fuel ctx (d + 1)
          (record (with_rows r (rows (d + 1)) w) { requests = n }) pos
          (λ e le' below. all e le' (omega arith)) (subst Silent (omega arith) silent) (omega arith)
          (omega arith) (omega arith) in
      (
        m,
        rw (not_yet d s.today (omega arith), one, more)
            (ap (λ (x : World). (raised connection_error, record x { requests = m }))
              (with_rows-with_rows r (rows (d + 1)) (day_rows rows (d + 1) j) w)),
      )

  -- If the server answers for the first days and then gives no answer for a day, the cron method
  -- ends without an exception all the same; the rows of all the days are gone from the table, and
  -- only those of the days before have been made anew.
  pub synchronize_events_cron-Silent :
      (rows : ℕ → List Row) (j : ℕ) (w : World)
      → s.has_key ≡ true
      → 5 ≤ s.today
      → 5 ≤ s.fuel
      → j < 5
      → ((d : ℕ) → s.today - 5 ≤ d → d ≤ s.today - 5 + j → Answers s r d (rows d))
      → Silent (s.today - 5 + j + 1)
      → (w' : World) × (synchronize_events_cron s r 1 months w ≡ (done tt, w'))
        × (w'.db
            ≡ put_table r
                (remaining (from_day s.platform "last_change_date" (s.today - 5)) (table r w.db)
                  ++ (rows (s.today - 5) ++ day_rows rows (s.today - 5) j))
                w.db)
  unfolding synchronize_events_cron
  synchronize_events_cron-Silent rows j w key day fuel early all silent =
      let d = s.today - 5 in
      let w1 = after_first s r by_day (rows d) w in
      let (n, days) =
        sync_days-Silent rows d j s.fuel (months_context d) d w1 (omega arith) all silent
          (omega arith) (omega arith) (omega arith) in
      (
        record (with_rows r (day_rows rows d j) w1) { requests = n },
        ap (log_exception s) (
            ap (λ ctx. synchronize_events s ctx r 1 w) (cron_context-ByDay s r by_day)
            ∙ first_then_days s r by_day (months_context d) d w w1 key refl (
                update-months s r by_day (rows d) w (omega arith)
                  (all d (omega arith) (omega arith)))
            ∙ ap (after (λ res. rest_of_pages s (months_context d) r res)) days),
        put_table-put_table r _ _ w.db
            ∙ ap (λ rs. put_table r rs w.db)
                (ap (λ rs. rs ++ day_rows rows d j) (table-put_table r _ w.db)
                  ∙ append_assoc _ (rows d) (day_rows rows d j)),
      )
