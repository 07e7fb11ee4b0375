-- ===== src/History/Reads.antt =====
-- history.py: the file, and the queries of uptime and latency.
-- A percentage is kept as an exact fraction. A float that rounds may differ from it.
use vigil_sre.Prelude.{
  ℕ, suc, ◌-◌, ◌*◌, String, Bool, true, false, not, ◌&&◌, ◌||◌, Option, none, some, List, [], ◌∷◌,
  filter, length, ltb, leb, if◌then◌else◌, is_some, min, str_eq,
}
use vigil_sre.State.Record.{is_down}
use vigil_sre.History.{Row, Database, HistoryRecorder, empty_database}

-- The path of history.db.
pub data File : Type 0 where
  absent directory no_schema : File
  tables : Database → File

-- What a reading function does: it raises, or returns None or a value.
pub data Read {ℓ} (A : Type ℓ) : Type ℓ where
  failed : Read A
  got : Option A → Read A

-- `_init_schema`
abbrev pub with_schema : File → File
with_schema absent = tables empty_database
with_schema directory = directory
with_schema no_schema = tables empty_database
with_schema (tables db) = tables db

abbrev is_dir : File → Bool
is_dir directory = true
is_dir _ = false

-- `HistoryRecorder.__init__`: `raises` says whether SQLite refuses, and `days` is the retention.
unfoldable pub open_recorder : ℕ → Bool → File → HistoryRecorder × File
open_recorder days raises file =
    if is_dir file || raises
    then (record { is_disabled = true; retention_days = days }, file)
    else (record { is_disabled = false; retention_days = days }, with_schema file)

-- The frame of every query: no file, a file that cannot be opened, no table, or a `locked` one.
unfoldable pub read_only {ℓ} : {A : Type ℓ} → Bool → File → (Database → Option A) → Read A
read_only locked absent query = got none
read_only locked directory query = failed
read_only locked no_schema query = if locked then failed else got none
read_only locked (tables db) query = if locked then failed else got (query db)

-- `checked_at >= ? AND (? IS NULL OR checked_at < ?)`
abbrev pub is_before : Option ℕ → ℕ → Bool
is_before none t = true
is_before (some until) t = ltb t until

-- `WHERE url = ? AND …`
unfoldable pub is_selected : String → ℕ → Option ℕ → Row → Bool
is_selected url since until r =
    str_eq r.columns.url url
    && (leb since r.columns.checked_at && is_before until r.columns.checked_at)

-- `status != 'DOWN' AND ttfb_ms IS NOT NULL`
unfoldable pub is_available : Row → Bool
is_available r = not (is_down r.columns.status) && is_some r.columns.measured.ttfb

pub record Uptime : Type 0 where
  pub up : ℕ
  pub total : ℕ

abbrev pub uptime_of : List Row → Option Uptime
uptime_of [] = none
uptime_of (r ∷ rs) =
    some (record { up = length (filter is_available (r ∷ rs)); total = length (r ∷ rs) })

unfoldable pub uptime_rows : String → ℕ → Database → Option Uptime
unfolding is_selected is_available
uptime_rows url since db = uptime_of (filter (is_selected url since none) db.results)

unfoldable pub uptime_pct : String → ℕ → Bool → File → Read Uptime
unfolding uptime_rows
uptime_pct url since locked file = read_only locked file (uptime_rows url since)

-- `ttfb_ms`, of the rows that have one.
unfoldable pub ttfbs : List Row → List ℕ
ttfbs [] = []
ttfbs (r ∷ rs) = push r.columns.measured.ttfb (ttfbs rs)
  where
    push : Option ℕ → List ℕ → List ℕ
    push none xs = xs
    push (some x) xs = x ∷ xs

-- How many are at most x.
unfoldable pub count_le : ℕ → List ℕ → ℕ
count_le x [] = 0
count_le x (y ∷ ys) = if leb y x then suc (count_le x ys) else count_le x ys

-- `CUME_DIST() OVER (ORDER BY ttfb_ms) >= pct / 100`
unfoldable pub reaches : ℕ → List ℕ → ℕ → Bool
unfolding count_le
reaches pct xs x = leb (pct * length xs) (100 * count_le x xs)

abbrev pub min_with : ℕ → Option ℕ → ℕ
min_with x none = x
min_with x (some y) = min x y

unfoldable pub min_of : List ℕ → Option ℕ
min_of [] = none
min_of (x ∷ xs) = some (min_with x (min_of xs))

-- `MIN(CASE WHEN cd >= … THEN ttfb_ms END)`
unfoldable pub min_reaching : ℕ → List ℕ → Option ℕ
unfolding reaches min_of
min_reaching pct xs = min_of (filter (reaches pct xs) xs)

pub record Percentiles : Type 0 where
  pub p50 : ℕ
  pub p95 : Option ℕ
  pub samples : ℕ
  pub total : ℕ

abbrev pub percentiles_of : Option ℕ → Option ℕ → ℕ → ℕ → Option Percentiles
percentiles_of none p95 n total = none
percentiles_of (some p50) p95 n total =
    some (record { p50 = p50; p95 = p95; samples = n; total = total })

unfoldable pub percentile_rows : String → ℕ → Option ℕ → Database → Option Percentiles
unfolding is_selected ttfbs min_reaching
percentile_rows url since until db =
    let rows = filter (is_selected url since until) db.results in
    let xs = ttfbs rows in
    percentiles_of (min_reaching 50 xs) (min_reaching 95 xs) (length xs) (length rows)

unfoldable pub latency_percentiles : String → ℕ → Option ℕ → Bool → File → Read Percentiles
unfolding percentile_rows
latency_percentiles url since until locked file =
    read_only locked file (percentile_rows url since until)

-- The second call is not reached if the first one raises.
unfoldable pub latency_trend_windows :
    String → ℕ → ℕ → Bool → Bool → File → Option (Option Percentiles × Option Percentiles)
unfolding latency_percentiles
latency_trend_windows url window_days now locked locked' file =
    let boundary = now - window_days * 86400 in
    let earliest = now - window_days * 2 * 86400 in
    both (latency_percentiles url boundary none locked file)
      (latency_percentiles url earliest (some boundary) locked' file)
  where
    both : Read Percentiles → Read Percentiles → Option (Option Percentiles × Option Percentiles)
    both failed _ = none
    both (got recent) failed = none
    both (got recent) (got previous) = some (recent, previous)
