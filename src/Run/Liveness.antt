-- ===== src/Run/Liveness.antt =====
-- main.py, `liveness_problem`: does the state file show a monitor that completes rounds?
-- Times are whole seconds after the epoch.
pub mod Newest
use vigil_sre.Prelude.{ℕ, ◌-◌, Option, none, some, [], ◌∷◌, leb, ltb, if◌then◌else◌}
use vigil_sre.State.Record.{Stamp, at, garbled}
use vigil_sre.State.Manager.{Targets, Document, absent, unreadable, not_an_object, wrapped, flat}

pub data Problem : Type 0 where
  stale_round_marker : Problem
  no_check_for : ℕ → Problem

-- `newest = seen if newest is None or seen > newest else newest`
unfoldable pub newer : Stamp → Option ℕ → Option ℕ
newer (garbled _) newest = newest
newer (at seen) none = some seen
newer (at seen) (some newest) = if ltb newest seen then some seen else some newest

unfoldable pub newest_check : Targets → Option ℕ → Option ℕ
unfolding newer
newest_check [] newest = newest
newest_check ((k, r) ∷ ts) newest = newest_check ts (newer r.last_checked newest)

unfoldable pub document_targets : Document → Targets
document_targets absent = []
document_targets unreadable = []
document_targets not_an_object = []
document_targets (wrapped none) = []
document_targets (wrapped (some ts)) = ts
document_targets (flat ts) = ts

-- The age of the newest check against the limit, where there is one.
unfoldable pub judge_age : Option ℕ → ℕ → ℕ → Option Problem → Option Problem
judge_age none now max_age stale_round = stale_round
judge_age (some seen) now max_age stale_round =
    if leb (now - seen) max_age then none else some (no_check_for (now - seen))

-- `marker` is when the last round started, if the container loop leaves a marker.
unfoldable pub liveness_problem : Document → Option ℕ → ℕ → ℕ → Option Problem
unfolding newest_check document_targets judge_age
liveness_problem file none now max_age =
    judge_age (newest_check (document_targets file) none) now max_age none
liveness_problem file (some started) now max_age =
    if leb (now - started) max_age
    then none
    else judge_age (newest_check (document_targets file) none) now max_age (some stale_round_marker)
