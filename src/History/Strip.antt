-- ===== src/History/Strip.antt =====
-- history.py, `status_strip`: the bars of every target, over the window from `since` to the time of
-- the query. The bucket that SQLite computes for a time (`julianday`, in floating point) is the
-- parameter `bucket`; `vanishing` says that the window has no length, where it is NULL. SQL leaves the order of the groups open; here it is that of the
-- rows, the oldest first.
pub mod Groups
pub mod Worst
use vigil_sre.Prelude.{
  ℕ, zero, suc, ◌-◌, ◌*◌, ◌/◌, String, Bool, true, false, ◌&&◌, ◌||◌, Option, none, some, List, [],
  ◌∷◌, map, filter, leb, ltb, ◌==◌, if◌then◌else◌, is_some, min, str_eq,
}
use vigil_sre.Prelude.Dict.{contains, lookup, insert}
use vigil_sre.State.Record.{Status, up, degraded, down, is_down, is_degraded}
use vigil_sre.History.{Row, Database}
use vigil_sre.History.Reads.{File, absent, directory, no_schema, tables}

abbrev pub Strips : Type 0
Strips = List (String × List (Option Status))

-- `CASE WHEN ttfb_ms IS NULL …`
unfoldable pub rank : Row → ℕ
rank r =
    if is_some r.columns.measured.ttfb
    then if is_down r.columns.status then 1 else if is_degraded r.columns.status then 2 else 3
    else 1

unfoldable pub rank_to_status : ℕ → Option Status
rank_to_status zero = none
rank_to_status (suc zero) = some down
rank_to_status (suc (suc zero)) = some degraded
rank_to_status (suc (suc (suc zero))) = some up
rank_to_status (suc (suc (suc (suc n)))) = none

-- `MIN` of a group. No rank is above 3.
unfoldable pub min_rank : List Row → ℕ
unfolding rank
min_rank [] = 3
min_rank (r ∷ rs) = min (rank r) (min_rank rs)

-- `{url: [None] * buckets for url in urls}`
unfoldable pub none_times : ℕ → List (Option Status)
none_times zero = []
none_times (suc n) = none ∷ none_times n

unfoldable pub add_blank : ℕ → List String → Strips → Strips
unfolding none_times insert
add_blank buckets [] strips = strips
add_blank buckets (u ∷ us) strips = add_blank buckets us (insert u (none_times buckets) strips)

abbrev pub blank : ℕ → List String → Strips
blank buckets urls = add_blank buckets urls []

unfoldable pub set_at : ℕ → Option Status → List (Option Status) → List (Option Status)
set_at n s [] = []
set_at zero s (x ∷ xs) = s ∷ xs
set_at (suc n) s (x ∷ xs) = x ∷ set_at n s xs

abbrev is_nil : List Row → Bool
is_nil [] = true
is_nil (r ∷ rs) = false

unfoldable pub has_key : String × ℕ → List (String × ℕ) → Bool
has_key k [] = false
has_key k (j ∷ js) = (str_eq j.0 k.0 && j.1 == k.1) || has_key k js

module _ (bucket : ℕ → ℕ) (buckets : ℕ) where
  -- `CAST((… - since) / ((now - since) / buckets) AS INTEGER)`
  unfoldable pub bucket_of : Row → ℕ
  bucket_of r = bucket r.columns.checked_at

  -- Rows with one url and bucket.
  unfoldable pub is_in_group : String × ℕ → Row → Bool
  unfolding bucket_of
  is_in_group k r = str_eq r.columns.url k.0 && bucket_of r == k.1

  -- `GROUP BY url, bucket`
  unfoldable pub group_keys : List Row → List (String × ℕ)
  unfolding bucket_of has_key
  group_keys [] = []
  group_keys (r ∷ rs) =
      let rest = group_keys rs in
      let k : String × ℕ = (r.columns.url, bucket_of r) in if has_key k rest then rest else k ∷ rest

  -- `strips[url][min(max(int(bucket), 0), buckets - 1)] = rank_to_status.get(worst)`
  unfoldable pub write_slot : List Row → String × ℕ → Strips → Strips
  unfolding lookup insert set_at is_in_group min_rank rank_to_status
  write_slot rows k strips = put (lookup k.0 strips)
    where
      put : Option (List (Option Status)) → Strips
      put none = strips
      put (some strip) =
          insert k.0
            (set_at (min k.1 (buckets - 1))
              (rank_to_status (min_rank (filter (is_in_group k) rows))) strip)
            strips

  -- The loop over the groups: `keys` runs through those of `rows`.
  unfoldable pub paint : List Row → List (String × ℕ) → Strips → Strips
  unfolding write_slot
  paint rows [] strips = strips
  paint rows (k ∷ ks) strips = write_slot rows k (paint rows ks strips)

  unfoldable pub strip_rows : ℕ → Bool → List String → Database → Option Strips
  unfolding contains group_keys paint add_blank
  strip_rows since vanishing urls db =
      let rows =
        filter (λ (r : Row). leb since r.columns.checked_at && contains urls r.columns.url)
          db.results in
      if vanishing
      then if is_nil rows then some (blank buckets urls) else none
      else some (paint rows (group_keys rows) (blank buckets urls))

  -- None where the source raises: on a fault of SQLite, and on a bucket that is NULL.
  unfoldable pub status_strip : ℕ → Bool → List String → Bool → File → Option Strips
  unfolding add_blank strip_rows
  status_strip since vanishing [] locked file = some []
  status_strip since vanishing (u ∷ us) locked file = if ltb buckets 1 then some [] else over file
    where
      over : File → Option Strips
      over absent = some (blank buckets (u ∷ us))
      over directory = none
      over no_schema = if locked then none else some (blank buckets (u ∷ us))
      over (tables db) = if locked then none else strip_rows since vanishing (u ∷ us) db
