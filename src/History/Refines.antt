-- ===== src/History/Refines.antt =====
-- history.py, `HistoryRecorder`: the database as the list of what was recorded and not yet dropped.
use vigil_sre.Prelude.{
  ℕ, Bool, true, false, ◌||◌, List, [], ◌∷◌, filter, if◌then◌else◌, ◌≡◌, refl, ap, ◌∙◌, Bool-cases,
  inl, inr,
}
use vigil_sre.History.{
  Recorded, Database, HistoryRecorder, empty_database, is_empty, columns_of, insert_outcome,
  record_run_sync, cutoff, prune_sync, record_run, prune,
}
use vigil_sre.History.Ledger.{
  Entry, view, Distinct, Owned, IsSound, insert_outcome-IsSound, view-insert_outcome,
}
use vigil_sre.History.Retention.{is_kept, prune_sync-IsSound, view-prune_sync}

-- A call on the recorder: does its transaction raise, when is it, and what is recorded.
pub data Write : Type 0 where
  recording : Bool → ℕ → List Recorded → Write
  pruning : Bool → ℕ → Write

unfoldable pub perform : HistoryRecorder → Write → Database → Database
perform h (recording raises started os) db = record_run h raises started os db
perform h (pruning raises now) db = prune h raises now db

unfoldable pub perform_all : HistoryRecorder → List Write → Database → Database
unfolding perform
perform_all h [] db = db
perform_all h (w ∷ ws) db = perform_all h ws (perform h w db)

-- The specification: all that the outcomes say goes on record, at the front.
unfoldable pub append_all : ℕ → List Recorded → List Entry → List Entry
append_all started [] es = es
append_all started (o ∷ os) es = append_all started os ((columns_of started o, o.findings) ∷ es)

unfoldable pub ideal : HistoryRecorder → Write → List Entry → List Entry
unfolding append_all is_kept
ideal h (recording raises started os) es =
    if h.is_disabled || raises then es else append_all started os es
ideal h (pruning raises now) es =
    if h.is_disabled || raises then es else filter (is_kept (cutoff h.retention_days now)) es

unfoldable pub ideal_all : HistoryRecorder → List Write → List Entry → List Entry
unfolding ideal
ideal_all h [] es = es
ideal_all h (w ∷ ws) es = ideal_all h ws (ideal h w es)

abbrev Refined : Database → List Entry → Type 0
Refined db es = IsSound db × (view db ≡ es)

record_run_sync-Refined :
    (t : ℕ) (os : List Recorded) (db : Database)
    → IsSound db
    → Refined (record_run_sync t os db) (append_all t os (view db))
unfolding record_run_sync append_all
record_run_sync-Refined t [] db s = (s, refl)
record_run_sync-Refined t (o ∷ os) db s =
    let (s', v) =
      record_run_sync-Refined t os (insert_outcome t o db) (insert_outcome-IsSound t o db s) in
    (s', v ∙ ap (append_all t os) (view-insert_outcome t o db s))

perform-Refined :
    (h : HistoryRecorder) (w : Write) (db : Database)
    → IsSound db
    → Refined (perform h w db) (ideal h w (view db))
unfolding perform ideal record_run prune record_run_sync append_all
perform-Refined h (recording raises t os) db s = elim (Bool-cases h.is_disabled) [
  | inl e ↦ rw e (s, refl)
  | inr e ↦ rw e (go raises os)
]
  where
    go :
        (b : Bool) (os : List Recorded)
        → Refined
            (if is_empty os then db else if b then db else record_run_sync t os db)
            (if b then view db else append_all t os (view db))
    go true [] = (s, refl)
    go false [] = (s, refl)
    go true (o ∷ os) = (s, refl)
    go false (o ∷ os) = record_run_sync-Refined t (o ∷ os) db s
perform-Refined h (pruning raises now) db s = elim (Bool-cases h.is_disabled) [
  | inl e ↦ rw e (s, refl)
  | inr e ↦ rw e (go raises)
]
  where
    go :
        (b : Bool)
        → Refined
            (if b then db else prune_sync h.retention_days now db)
            (if b then view db else filter (is_kept (cutoff h.retention_days now)) (view db))
    go true = (s, refl)
    go false = (prune_sync-IsSound _ now db s, view-prune_sync _ now db s)

perform_all-Refined :
    (h : HistoryRecorder) (ws : List Write) (db : Database)
    → IsSound db
    → Refined (perform_all h ws db) (ideal_all h ws (view db))
unfolding perform_all ideal_all
perform_all-Refined h [] db s = (s, refl)
perform_all-Refined h (w ∷ ws) db s =
    let (s', v) = perform-Refined h w db s in
    let (s'', v') = perform_all-Refined h ws (perform h w db) s' in
    (s'', v' ∙ ap (ideal_all h ws) v)

-- Whatever rounds and prunings a recorder goes through from an empty database, in whatever order
-- and whichever of its transactions raise: no two rows share a key, every finding refers to a row,
-- and the join of the two tables is the list of the recorded outcomes, each with exactly its own
-- findings, less those that a pruning dropped for their age.
pub perform_all_lem :
    (h : HistoryRecorder) (ws : List Write)
    → IsSound (perform_all h ws empty_database)
      × (view (perform_all h ws empty_database) ≡ ideal_all h ws [])
unfolding IsSound Distinct Owned view
perform_all_lem h ws = perform_all-Refined h ws empty_database (tt, tt)
