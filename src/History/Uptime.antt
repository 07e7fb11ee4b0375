-- ===== src/History/Uptime.antt =====
-- history.py, `uptime_pct`: what a round adds to the figure, and when there is none.
use vigil_sre.Prelude.{
  ℕ, ◌+◌, String, Bool, not, ◌&&◌, Option, none, some, List, [], ◌∷◌, filter, length, leb,
  if◌then◌else◌, is_some, str_eq, ◌≡◌, refl, arith,
}
use vigil_sre.State.Record.{is_down}
use vigil_sre.Diagnostics.Phases.{ProbePhases}
use vigil_sre.History.{
  Recorded, Row, Database, columns_of, measured_of, insert_outcome, record_run_sync,
}
use vigil_sre.History.Reads.{is_selected, is_available, Uptime, uptime_of, uptime_rows}

unfoldable pub up_count : Option Uptime → ℕ
up_count none = 0
up_count (some u) = u.up

unfoldable pub total_count : Option Uptime → ℕ
total_count none = 0
total_count (some u) = u.total

-- Is the outcome one of this target, since then?
unfoldable pub concerns : String → ℕ → Recorded → Bool
concerns url since o = str_eq o.url url && leb since o.checked_at

-- The probe answered, and the target does not count as DOWN.
unfoldable pub answered : Recorded → Bool
answered o = not (is_down o.status) && is_some o.phases

measured_of-ttfb : (p : Option ProbePhases) → is_some (measured_of p).ttfb ≡ is_some p
unfolding measured_of
measured_of-ttfb none = refl
measured_of-ttfb (some ph) = refl

up_count_lem : (rs : List Row) → up_count (uptime_of rs) ≡ length (filter is_available rs)
unfolding up_count
up_count_lem [] = refl
up_count_lem (r ∷ rs) = refl

total_count_lem : (rs : List Row) → total_count (uptime_of rs) ≡ length rs
unfolding total_count
total_count_lem [] = refl
total_count_lem (r ∷ rs) = refl

module _ (url : String) (since : ℕ) where
  insert-total :
      (t : ℕ) (o : Recorded) (db : Database)
      → total_count (uptime_rows url since (insert_outcome t o db))
        ≡ (if concerns url since o then 1 else 0) + total_count (uptime_rows url since db)
  unfolding uptime_rows is_selected insert_outcome columns_of concerns
  insert-total t o db = ground (
    arith,
    total_count_lem (filter (is_selected url since none) db.results),
    total_count_lem (filter (is_selected url since none) (insert_outcome t o db).results),
  )

  insert-up :
      (t : ℕ) (o : Recorded) (db : Database)
      → up_count (uptime_rows url since (insert_outcome t o db))
        ≡ (if concerns url since o && answered o then 1 else 0)
          + up_count (uptime_rows url since db)
  unfolding uptime_rows is_selected is_available insert_outcome columns_of concerns answered
  insert-up t o db = ground (
    arith,
    measured_of-ttfb o.phases,
    up_count_lem (filter (is_selected url since none) db.results),
    up_count_lem (filter (is_selected url since none) (insert_outcome t o db).results),
  )

-- A recorded round adds to a target's figure one probe for each outcome of the target since the
-- start of the window, and one available probe for each of these that had an answer and is not
-- DOWN: a failed probe that kept a healthy status is not counted as available.
pub uptime_rows-record_run_sync :
    (url : String) (since t : ℕ) (os : List Recorded) (db : Database)
    → (total_count (uptime_rows url since (record_run_sync t os db))
        ≡ length (filter (concerns url since) os) + total_count (uptime_rows url since db))
      × (up_count (uptime_rows url since (record_run_sync t os db))
          ≡ length (filter (λ (o : Recorded). concerns url since o && answered o) os)
            + up_count (uptime_rows url since db))
unfolding record_run_sync
uptime_rows-record_run_sync url since t [] db = (ground arith, ground arith)
uptime_rows-record_run_sync url since t (o ∷ os) db =
    let ih = uptime_rows-record_run_sync url since t os (insert_outcome t o db) in
    (
      ground (arith, ih.0, insert-total url since t o db),
      ground (arith, ih.1, insert-up url since t o db),
    )
