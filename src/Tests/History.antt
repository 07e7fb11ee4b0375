-- ===== src/Tests/History.antt =====
-- The theorems about the history at concrete inputs.
use vigil_sre.Prelude.{
  ℕ, ◌+◌, ◌-◌, ◌*◌, ◌/◌, true, false, ◌&&◌, Option, none, some, List, [], ◌∷◌, filter, length, ◌≡◌,
  refl, arith,
}
use vigil_sre.Prelude.Dict.{contains}
use vigil_sre.Tests.Data.{api, shop}
use vigil_sre.Diagnostics.Phases.{ProbePhases}
use vigil_sre.State.Record.{Status, up, degraded, down}
use vigil_sre.History.{
  Recorded, Row, Database, HistoryRecorder, empty_database, measured_of, columns_of,
  record_run_sync, insert_outcome,
}
use vigil_sre.History.Ledger.{IsSound, view}
use vigil_sre.History.Refines.{Write, recording, pruning, perform_all, ideal_all, perform_all_lem}
use vigil_sre.History.Reads.{
  tables, is_selected, ttfbs, count_le, reaches, min_of, min_reaching, percentiles_of,
  percentile_rows, uptime_rows,
}
use vigil_sre.History.Uptime.{
  up_count, total_count, concerns, answered, uptime_rows-record_run_sync,
}
use vigil_sre.History.Percentile.{nearest_rank}
use vigil_sre.History.Rank.{percentile_rows_lem}
use vigil_sre.History.Strip.{strip_rows, status_strip}
use vigil_sre.History.Strip.Groups.{slot}
use vigil_sre.History.Strip.Worst.{is_in_slot, AllWithin, worst_of, bar, status_strip_lem}

abbrev phases : ℕ → ProbePhases
phases ttfb = record {
  url = api;
  http_status = 200;
  ttfb = ttfb;
  transfer = 100;
  body_bytes = 12;
  connection_reused = false;
  dns = none;
  connect_total = none;
  rtt = some 1000;
  tls = none;
  server_processing = none;
  goodput = none;
  tls_cert_days_left = none;
  alpn_protocol = none;
  h2_supported = some true;
}

abbrev outcome : Status → ℕ → Option ProbePhases → Recorded
outcome s at ph = record {
  url = api;
  status = s;
  error = none;
  checked_at = at;
  phases = ph;
  findings = [];
}

-- An answer, a failure that kept the status UP, a slow answer.
abbrev outcomes : List Recorded
outcomes =
    outcome up 1000 (some (phases 4000))
    ∷ outcome up 1010 none
    ∷ outcome degraded 1020 (some (phases 9000))
    ∷ []

abbrev recorder : HistoryRecorder
recorder = record { is_disabled = false; retention_days = 30 }

abbrev writes : List Write
writes = recording false 1000 outcomes ∷ pruning false 2593015 ∷ recording true 1030 outcomes ∷ []

perform_all_lem_example :
    IsSound (perform_all recorder writes empty_database)
    × (view (perform_all recorder writes empty_database) ≡ ideal_all recorder writes [])
perform_all_lem_example = perform_all_lem recorder writes

abbrev database : Database
database = record_run_sync 1000 outcomes empty_database

uptime_rows-record_run_sync_example :
    (total_count (uptime_rows api 1000 database)
      ≡ length (filter (concerns api 1000) outcomes)
        + total_count (uptime_rows api 1000 empty_database))
    × (up_count (uptime_rows api 1000 database)
        ≡ length (filter (λ (o : Recorded). concerns api 1000 o && answered o) outcomes)
          + up_count (uptime_rows api 1000 empty_database))
uptime_rows-record_run_sync_example =
    uptime_rows-record_run_sync api 1000 1000 outcomes empty_database

abbrev rows : List Row
rows = filter (is_selected api 1000 none) database.results

percentile_rows_lem_example :
    percentile_rows api 1000 none database
    ≡ percentiles_of
        (nearest_rank 50 (ttfbs rows))
        (nearest_rank 95 (ttfbs rows))
        (length (ttfbs rows))
        (length rows)
percentile_rows_lem_example = percentile_rows_lem api 1000 none database

-- Thirty seconds from 1000 on, in three parts.
abbrev thirds : ℕ → ℕ
thirds checked_at = (checked_at - 1000) * 3 / 30

all_within : AllWithin thirds 3 database.results
unfolding AllWithin record_run_sync insert_outcome columns_of
all_within = (omega arith, (omega arith, (omega arith, tt)))

status_strip_lem_example :
    bar api 1 (status_strip thirds 3 1000 false (shop ∷ api ∷ []) false (tables database))
    ≡ some (worst_of (filter (is_in_slot 1000 thirds api 1) database.results))
unfolding contains
status_strip_lem_example =
    status_strip_lem 1000 thirds 3 (shop ∷ api ∷ []) api 1 database (omega arith) all_within refl

percentiles_test : min_reaching 95 (3 ∷ 1 ∷ 2 ∷ []) ≡ some 3
unfolding min_reaching reaches count_le min_of
percentiles_test = refl

failed_probe_shows :
    bar api 1 (status_strip thirds 3 1000 false (api ∷ []) false (tables database))
    ≡ some (some down)
unfolding status_strip strip_rows slot record_run_sync insert_outcome columns_of measured_of
failed_probe_shows = refl

-- A row as late as the query hides a failure in the last part of the strip.
late_row_hides_failure :
    bar api 2 (
      status_strip thirds 3 1000 false (api ∷ []) false (
        tables (
          record_run_sync 1029
            (outcome down 1029 none ∷ outcome up 1030 (some (phases 4000)) ∷ [])
            empty_database)))
    ≡ some (some up)
unfolding status_strip strip_rows slot record_run_sync insert_outcome columns_of measured_of
late_row_hides_failure = refl
