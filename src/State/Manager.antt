-- ===== src/State/Manager.antt =====
-- main.py, `StateManager`: the fields, the state file, and the readers.
-- The file system is the script `faults`: whether each coming write fails; past its end none does.
-- `async with self._lock` makes a method one step, so a method is a function of the manager.
use vigil_sre.Prelude.{
  ℕ, ◌+◌, String, Bool, true, false, Option, none, some, List, [], ◌∷◌, if◌then◌else◌, str_eq,
  truthy, get_or,
}
use vigil_sre.Prelude.Dict.{lookup, insert, contains}
use vigil_sre.Prelude.Int.{ℤ}
use vigil_sre.Notifiers.Kind.{
  AlertKind, recovery, performance_recovery, unannounced_outage, kind_value,
}
use vigil_sre.State.Record.{Status, up, is_degraded, Outage, UrlState, owed_an_alert}

abbrev pub Targets : Type 0
Targets = List (String × UrlState)

-- What a reader finds at the state file's path, as parsed JSON.
pub data Document : Type 0 where
  absent unreadable not_an_object : Document
  -- a root with `schema_version`, and its `targets` if there
  wrapped : Option Targets → Document
  -- a root without: the legacy flat mapping
  flat : Targets → Document

pub record StateManager : Type 0 where
  pub targets : Targets
  pub undelivered_advisory : List (String × ℕ)
  pub write_failures : ℕ
  pub armed_by_transition : List String
  pub file : Document
  pub faults : List Bool

unfoldable pub load_sync : Document → Targets
load_sync absent = []
load_sync unreadable = []
load_sync not_an_object = []
load_sync (wrapped none) = []
load_sync (wrapped (some ts)) = ts
load_sync (flat ts) = ts

-- `StateManager(path)`
unfoldable pub new_manager : Document → List Bool → StateManager
unfolding load_sync
new_manager file faults = record {
  targets = load_sync file;
  undelivered_advisory = [];
  write_failures = 0;
  armed_by_transition = [];
  file = file;
  faults = faults;
}

abbrev pub next_fault : List Bool → Bool
next_fault [] = false
next_fault (f ∷ fs) = f

abbrev pub later_faults : List Bool → List Bool
later_faults [] = []
later_faults (f ∷ fs) = fs

-- Write to a temporary file and rename it: a failure leaves the old file, and is counted.
unfoldable pub write_sync : StateManager → StateManager
write_sync m =
    let m' = record m { faults = later_faults m.faults } in
    if next_fault m.faults
    then record m' { write_failures = m.write_failures + 1 }
    else record m' { file = wrapped (some m.targets) }

-- `self._state[url] = record`
unfoldable pub put_record : String → UrlState → StateManager → StateManager
put_record url r m = record m { targets = insert url r m.targets }

unfoldable pub get_record : StateManager → String → Option UrlState
get_record m url = lookup url m.targets

-- The operations of the set `_armed_by_transition`.
unfoldable pub set_add : String → List String → List String
set_add k s = if contains s k then s else k ∷ s

unfoldable pub set_discard : String → List String → List String
set_discard k [] = []
set_discard k (j ∷ s) = let rest = set_discard k s in if str_eq j k then rest else j ∷ rest

-- `self._armed_by_transition.add(url)`, unless an older alert is owed
unfoldable pub arm_set : String → Option UrlState → StateManager → StateManager
arm_set url previous m =
    if owed_an_alert previous
    then m
    else record m { armed_by_transition = set_add url m.armed_by_transition }

-- `_arm` on the record about to be stored
abbrev pub arm_record : UrlState → UrlState
arm_record r = record r { alert_pending = some true }

-- The readers.
unfoldable pub current_status : StateManager → String → Option Status
unfolding get_record
current_status m url = elim (get_record m url) [ none ↦ none | some r ↦ some r.status ]

unfoldable pub missed_outage : StateManager → String → Option Outage
unfolding get_record
missed_outage m url = elim (get_record m url) [ none ↦ none | some r ↦ r.missed_outage ]

unfoldable pub muted_alert_owed : StateManager → String → Bool
unfolding get_record
muted_alert_owed m url = elim (get_record m url) [
  | none ↦ false
  | some r ↦ truthy r.muted_alert_owed
]

unfoldable pub cert_alerted_days : StateManager → String → Option ℤ
unfolding get_record
cert_alerted_days m url = elim (get_record m url) [ none ↦ none | some r ↦ r.cert_alerted_days ]

unfoldable pub cert_last_seen_days : StateManager → String → Option ℤ
unfolding get_record
cert_last_seen_days m url = elim (get_record m url) [ none ↦ none | some r ↦ r.cert_last_seen_days ]

unfoldable pub trend_alerted_p95 : StateManager → String → Option ℕ
unfolding get_record
trend_alerted_p95 m url = elim (get_record m url) [ none ↦ none | some r ↦ r.trend_alerted_p95_ms ]

-- The text of an alert: an f-string is its arguments.
pub data Detail : Type 0 where
  text : String → Detail
  down_from_to : Outage → Status → Detail
  down_for : String → ℕ → Detail
  cert_days : ℤ → ℤ → Detail
  p95_change : ℕ → ℕ → Detail

abbrev pub status_or_up : Option Status → Status
status_or_up none = up
status_or_up (some s) = s

unfoldable pub status_alert : StateManager → String → AlertKind → Detail → AlertKind × Detail
unfolding missed_outage current_status
status_alert m url kind detail = elim (missed_outage m url) [
  | none ↦ (kind, detail)
  | some missed ↦ (unannounced_outage, down_from_to missed (status_or_up (current_status m url)))
]

abbrev pub is_notified_degraded : Option UrlState → Bool
is_notified_degraded none = false
is_notified_degraded (some r) = elim r.notification_status [ none ↦ false | some s ↦ is_degraded s ]

unfoldable pub recovery_kind : StateManager → String → AlertKind
unfolding get_record
recovery_kind m url =
    if is_notified_degraded (get_record m url) then performance_recovery else recovery

unfoldable pub note_undelivered_advisory : AlertKind → StateManager → StateManager
unfolding kind_value
note_undelivered_advisory kind m = record m {
  undelivered_advisory =
      insert (kind_value kind) (get_or (lookup (kind_value kind) m.undelivered_advisory) 0 + 1)
        m.undelivered_advisory;
}
