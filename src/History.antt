-- ===== src/History.antt =====
-- history.py: the rows and the findings that a round leaves in the database, and their pruning.
-- A stamp is the seconds since the epoch: the texts have one fixed width, so they are ordered as
-- their times are. A table is a list, the newest row first. A transaction that raises is rolled
-- back, which a Boolean argument decides.
pub mod Ledger
pub mod Retention
pub mod Refines
pub mod Reads
pub mod Uptime
pub mod Percentile
pub mod Rank
pub mod Strip
pub mod Windows
use vigil_sre.Prelude.{
  ℕ, zero, suc, ◌+◌, ◌-◌, ◌*◌, String, Bool, true, false, not, ◌||◌, Option, none, some, List, [],
  ◌∷◌, ◌++◌, map, filter, ltb, leb, ◌==◌, if◌then◌else◌,
}
use vigil_sre.Prelude.Int.{ℤ, pos, negsuc}
use vigil_sre.State.Record.{Status}
use vigil_sre.Diagnostics.Phases.{ProbePhases, Ratio, is_bandwidth_confidence_high}
use vigil_sre.Diagnostics.Findings.{Diagnosis}

abbrev pub retention_days_default : ℕ
retention_days_default = 30

-- `CheckOutcome`
pub record Recorded : Type 0 where
  pub url : String
  pub status : Status
  pub error : Option String
  pub checked_at : ℕ
  pub phases : Option ProbePhases
  pub findings : List Diagnosis

-- What the probe measured, a column each, NULL where the probe did not answer.
pub record Measured : Type 0 where
  pub http_status : Option ℕ
  pub rtt : Option ℕ
  pub dns : Option ℕ
  pub connect_total : Option ℕ
  pub tls : Option ℕ
  pub ttfb : Option ℕ
  pub server_processing : Option ℕ
  pub transfer : Option ℕ
  pub body_bytes : Option ℕ
  pub goodput : Option Ratio
  pub tls_cert_days_left : Option ℤ
  pub alpn_protocol : Option String
  pub h2_supported : Option ℕ
  pub connection_reused : Option ℕ
  pub is_bandwidth_confident : Option Bool

-- The columns of a row of probe_results but for its key.
pub record Columns : Type 0 where
  pub run_started_at : ℕ
  pub url : String
  pub checked_at : ℕ
  pub status : Status
  pub error : Option String
  pub measured : Measured

pub record Row : Type 0 where
  pub id : ℕ
  pub columns : Columns

pub record FindingRow : Type 0 where
  pub probe_id : ℕ
  pub finding : Diagnosis

pub record Database : Type 0 where
  pub results : List Row
  pub findings : List FindingRow

abbrev pub empty_database : Database
empty_database = record { results = []; findings = [] }

abbrev pub int_of : Bool → ℕ
int_of true = 1
int_of false = 0

abbrev pub int_of_flag : Option Bool → Option ℕ
int_of_flag none = none
int_of_flag (some b) = some (int_of b)

-- `phases.… if phases else None`, for each column.
unfoldable pub measured_of : Option ProbePhases → Measured
measured_of none = record {
  http_status = none;
  rtt = none;
  dns = none;
  connect_total = none;
  tls = none;
  ttfb = none;
  server_processing = none;
  transfer = none;
  body_bytes = none;
  goodput = none;
  tls_cert_days_left = none;
  alpn_protocol = none;
  h2_supported = none;
  connection_reused = none;
  is_bandwidth_confident = none;
}
measured_of (some ph) = record {
  http_status = some ph.http_status;
  rtt = ph.rtt;
  dns = ph.dns;
  connect_total = ph.connect_total;
  tls = ph.tls;
  ttfb = some ph.ttfb;
  server_processing = ph.server_processing;
  transfer = some ph.transfer;
  body_bytes = some ph.body_bytes;
  goodput = ph.goodput;
  tls_cert_days_left = ph.tls_cert_days_left;
  alpn_protocol = ph.alpn_protocol;
  h2_supported = int_of_flag ph.h2_supported;
  connection_reused = some (int_of ph.connection_reused);
  is_bandwidth_confident = some (is_bandwidth_confidence_high ph);
}

-- `row`
unfoldable pub columns_of : ℕ → Recorded → Columns
columns_of started o = record {
  run_started_at = started;
  url = o.url;
  checked_at = o.checked_at;
  status = o.status;
  error = o.error;
  measured = measured_of o.phases;
}

abbrev larger : ℕ → ℕ → ℕ
larger a b = if ltb a b then b else a

-- The key that SQLite gives to the next row: one more than the largest in the table.
unfoldable pub max_id : List Row → ℕ
max_id [] = 0
max_id (r ∷ rs) = larger r.id (max_id rs)

abbrev pub finding_row : ℕ → Diagnosis → FindingRow
finding_row probe_id finding = record { probe_id = probe_id; finding = finding }

-- The two INSERT statements for one outcome.
unfoldable pub insert_outcome : ℕ → Recorded → Database → Database
unfolding max_id
insert_outcome started o db =
    let probe_id = suc (max_id db.results) in
    record {
      results = record { id = probe_id; columns = columns_of started o } ∷ db.results;
      findings = map (finding_row probe_id) o.findings ++ db.findings;
    }

unfoldable pub record_run_sync : ℕ → List Recorded → Database → Database
record_run_sync started [] db = db
record_run_sync started (o ∷ os) db = record_run_sync started os (insert_outcome started o db)

-- `cutoff`
unfoldable pub cutoff : ℕ → ℕ → ℕ
cutoff days now = now - days * 86400

unfoldable pub has_row : ℕ → List Row → Bool
has_row n [] = false
has_row n (r ∷ rs) = r.id == n || has_row n rs

-- `DELETE FROM probe_results WHERE checked_at < ?`, with ON DELETE CASCADE.
unfoldable pub prune_sync : ℕ → ℕ → Database → Database
unfolding cutoff
prune_sync days now db =
    let deleted = filter (λ (r : Row). ltb r.columns.checked_at (cutoff days now)) db.results in
    record {
      results = filter (λ (r : Row). not (ltb r.columns.checked_at (cutoff days now))) db.results;
      findings = filter (λ (f : FindingRow). not (has_row f.probe_id deleted)) db.findings;
    }

-- `HISTORY_RETENTION_DAYS`, as `int` reads it.
abbrev pub positive_or_default : Option ℤ → ℕ
positive_or_default none = retention_days_default
positive_or_default (some (pos zero)) = retention_days_default
positive_or_default (some (pos (suc n))) = suc n
positive_or_default (some (negsuc n)) = retention_days_default

unfoldable pub retention_days_from_env : (String → Option ℤ) → Option String → ℕ
retention_days_from_env int none = retention_days_default
retention_days_from_env int (some raw) = positive_or_default (int raw)

pub record HistoryRecorder : Type 0 where
  pub is_disabled : Bool
  pub retention_days : ℕ

abbrev pub is_empty : List Recorded → Bool
is_empty [] = true
is_empty (o ∷ os) = false

unfoldable pub record_run : HistoryRecorder → Bool → ℕ → List Recorded → Database → Database
record_run h raises started os db =
    if h.is_disabled || is_empty os
    then db
    else if raises
    then db
    else record_run_sync started os db

unfoldable pub prune : HistoryRecorder → Bool → ℕ → Database → Database
prune h raises now db =
    if h.is_disabled then db else if raises then db else prune_sync h.retention_days now db
