-- ===== src/Wildberries/Twice.antt =====
-- The synchronisation of orders and sales, done twice.
use projectname.Prelude.{
  ℕ, suc, ◌+◌, ◌-◌, ◌≤◌, ◌≡◌, refl, ◌∙◌, sym, ap, subst, Bool, true, List, [], ◌∷◌, ◌++◌,
  Bool-cases, inl, inr, zero,
}
use projectname.Wildberries.Rows.{Row}
use projectname.Wildberries.World.{Database, ReportType, World, done, table, put_table}
use projectname.Wildberries.Service.{months}
use projectname.Wildberries.Tables.{remaining, from_day}
use projectname.Wildberries.Created.{table-put_table, put_table-put_table}
use projectname.Wildberries.Sync.{Session, synchronize_events_cron}
use projectname.Wildberries.Day.{ByDay, Answers}
use projectname.Wildberries.Days.{day_rows, renewed, synchronize_events_cron-months}

module _ (deleted : Row → Bool) where
  -- Each of the rows is deleted.
  abbrev pub AllDeleted : List Row → Type 0
  AllDeleted [] = Unit {0}
  AllDeleted (row ∷ rows) = (deleted row ≡ true) × AllDeleted rows

  AllDeleted-append : (xs ys : List Row) → AllDeleted xs → AllDeleted ys → AllDeleted (xs ++ ys)
  AllDeleted-append [] ys h k = k
  AllDeleted-append (x ∷ xs) ys (h, hs) k = (h, AllDeleted-append xs ys hs k)

  remaining-AllDeleted : (rows : List Row) → AllDeleted rows → remaining deleted rows ≡ []
  unfolding remaining
  remaining-AllDeleted [] h = refl
  remaining-AllDeleted (row ∷ rows) (h, hs) = rw h (remaining-AllDeleted rows hs)

  -- Rows that are deleted after rows that a deletion has left.
  pub remaining-remaining :
      (old rows : List Row)
      → AllDeleted rows
      → remaining deleted (remaining deleted old ++ rows) ≡ remaining deleted old
  unfolding remaining
  remaining-remaining [] rows h = remaining-AllDeleted rows h
  remaining-remaining (row ∷ old) rows h = elim (Bool-cases (deleted row)) [
    | inl gone ↦ rw gone (remaining-remaining old rows h)
    | inr kept ↦ rw (kept, kept) (ap (λ rs. row ∷ rs) (remaining-remaining old rows h))
  ]

AllDeleted-day_rows :
    (deleted : Row → Bool) (rows : ℕ → List Row) (d k : ℕ)
    → ((e : ℕ) → AllDeleted deleted (rows e))
    → AllDeleted deleted (day_rows rows d k)
AllDeleted-day_rows deleted rows d zero h = tt
AllDeleted-day_rows deleted rows d (suc k) h =
    AllDeleted-append deleted (rows (d + 1)) (day_rows rows (d + 1) k) (h (d + 1))
      (AllDeleted-day_rows deleted rows (d + 1) k h)

module _ (s : Session) (r : ReportType) (by_day : ByDay r) where
  renewed_twice :
      (rows : ℕ → List Row)
      → ((d : ℕ) → AllDeleted (from_day s.platform "last_change_date" (s.today - 5)) (rows d))
      → (db db' : Database) → db' ≡ put_table r (renewed s r by_day (table r db) rows) db
      → put_table r (renewed s r by_day (table r db') rows) db' ≡ db'
  renewed_twice rows since db db' e =
      subst (λ x. put_table r (renewed s r by_day (table r x) rows) x ≡ x) (sym e)
        (ap (λ t. put_table r (renewed s r by_day t rows) left) (table-put_table r made db)
          ∙ ap (λ t. put_table r t left)
              (ap (λ rs. rs ++ new) (remaining-remaining deleted (table r db) new all_new))
          ∙ put_table-put_table r made made db)
    where
      deleted : Row → Bool
      deleted = from_day s.platform "last_change_date" (s.today - 5)

      new : List Row
      new = rows (s.today - 5) ++ day_rows rows (s.today - 5) 5

      made : List Row
      made = renewed s r by_day (table r db) rows

      left : Database
      left = put_table r made db

      all_new : AllDeleted deleted new
      all_new =
          AllDeleted-append deleted (rows (s.today - 5)) (day_rows rows (s.today - 5) 5)
            (since (s.today - 5)) (AllDeleted-day_rows deleted rows (s.today - 5) 5 since)

  -- If the server answers for today and each of the last five days with rows that are changed last
  -- on these days or later, then in its monthly mode a second run of the cron method for orders or
  -- sales on the same day leaves the tables as the first run does.
  pub synchronize_events_cron-twice :
      (rows : ℕ → List Row) (w : World)
      → s.has_key ≡ true
      → 5 ≤ s.today
      → 5 ≤ s.fuel
      → ((d : ℕ) → s.today - 5 ≤ d → d ≤ s.today → Answers s r d (rows d))
      → ((d : ℕ) → AllDeleted (from_day s.platform "last_change_date" (s.today - 5)) (rows d))
      → (w' w'' : World) × (synchronize_events_cron s r 1 months w ≡ (done tt, w'))
        × (synchronize_events_cron s r 1 months w' ≡ (done tt, w''))
        × (w''.db ≡ w'.db)
  synchronize_events_cron-twice rows w key day fuel all since =
      let (w', run', db') = synchronize_events_cron-months s r by_day rows w key day fuel all in
      let (w'', run'', db'') = synchronize_events_cron-months s r by_day rows w' key day fuel all in
      (w', w'', run', run'', db'' ∙ renewed_twice rows since w.db w'.db db')
