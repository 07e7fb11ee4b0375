-- ===== src/Tests/Alerts.antt =====
-- Alerts of single targets, over rounds.
use vigil_sre.Prelude.{
  ◌≡◌, refl, Bool, true, false, none, some, List, [], ◌∷◌, arith, inl, ℕ, ◌≤◌, ◌-◌,
}
use vigil_sre.Prelude.Dict.{lookup, insert, contains}
use vigil_sre.Prelude.Int.{pos}
use vigil_sre.State.Setters.{
  set_down, set_up, set_degraded, store, commit, stored, down_step, down_stored, up_decision,
  degraded_decision, first_failure, repeat_failure, pending_failure, confirmed_failure, stabilized,
}
use vigil_sre.State.Target.Machine.{observing, mark_cert, perform, perform_all, calls_on}
use vigil_sre.State.Record.{owed_an_alert}
use vigil_sre.Diagnostics.Reminders.{reminders_due}
use vigil_sre.State.Record.{up, down, at, UrlState, new_record}
use vigil_sre.State.Performance.{within_gap, performance_decision}
use vigil_sre.State.Manager.{
  StateManager, Document, absent, wrapped, new_manager, load_sync, put_record, write_sync, arm_set,
  get_record,
}
use vigil_sre.State.Markers.{
  record_alert_outcome, record_cert_alert, prune, removed_from, kept_from,
}
use vigil_sre.State.Observe.{healthy, failed, observe}
use vigil_sre.State.Rounds.{Turn, play, play_turn, AllOrdinary}
use vigil_sre.State.Announce.Once.{crash-retry, announced_once}
use vigil_sre.State.Announce.Flap.{Calm, flapping_is_silent}
use vigil_sre.State.Announce.Slow.{Warm, slow_then_recovered, slow_turn, healthy_turn}
use vigil_sre.State.Manager.{muted_alert_owed}
use vigil_sre.State.Reminder.{
  FailedTurn, announce, failed_turn, failed_check, remind, reminders_sent, AllFailed,
}
use vigil_sre.State.Reminder.Bound.{reminders_bounded}
use vigil_sre.State.Markers.{claim_reminder_step, claim_of, release_reminder, record_muted_alert}
use vigil_sre.Tests.Data.{api, shop}

-- An UP target whose last status was announced.
abbrev calm_record : UrlState
calm_record = record (new_record up (at 100) (at 40) "") {
  consecutive_failures = some 0;
  alert_pending = some false;
  notification_status = some up;
  cert_alerted_days = some (pos 30);
  cert_last_seen_days = some (pos 25);
}

abbrev struck_record : UrlState
struck_record = record calm_record { consecutive_failures = some 1 }

abbrev down_record : UrlState
down_record = record (new_record down (at 1000) (at 1000) "timeout") {
  consecutive_failures = some 2;
}

-- A manager loaded from a file with one record.
abbrev manager_of : UrlState → StateManager
manager_of r = new_manager (wrapped (some ((api, r) ∷ []))) []

abbrev fresh_manager : StateManager
fresh_manager = new_manager absent []

crash-retry_example :
    (observe true api (failed "refused") (at 220) (
      new_manager
        (observe true api (failed "timeout") (at 160) (manager_of struck_record)).1.file
        [])).0
    ≡ true
unfolding observe new_manager set_down get_record lookup
crash-retry_example =
    crash-retry true api (failed "timeout") (at 160) (manager_of struck_record) (failed "refused")
      (at 220) [] refl refl refl

-- A round that checks another target first, and notes a certificate after its own check.
abbrev round : Turn
round = record {
  seen = healthy none;
  now = at 0;
  reached = true;
  before = (shop, observing true (failed "refused") (at 90)) ∷ [];
  between = [];
  after = (api, mark_cert (some (pos 30)) (some (pos 20))) ∷ [];
  configured = api ∷ shop ∷ [];
  faults = [];
}

abbrev failing : ℕ → Bool → Turn
failing now reached = record round { seen = failed "timeout"; now = at now; reached = reached }

abbrev fine : ℕ → Turn
fine now = record round { now = at now }

abbrev file_of : UrlState → Document
file_of r = wrapped (some ((api, r) ∷ []))

abbrev thrice : List Turn
thrice = failing 160 true ∷ failing 220 false ∷ failing 280 true ∷ []

thrice-AllOrdinary : AllOrdinary true api thrice (file_of struck_record)
unfolding AllOrdinary play_turn new_manager load_sync perform_all perform calls_on observe set_down
    set_up set_degraded store commit stored down_step down_stored record_alert_outcome prune
    get_record put_record write_sync arm_set lookup insert contains removed_from kept_from
    record_cert_alert up_decision degraded_decision owed_an_alert performance_decision first_failure
    repeat_failure pending_failure confirmed_failure stabilized
thrice-AllOrdinary = (
  record { configured = refl; before = refl; between = refl; after = (tt, tt); written = refl },
  (
    record { configured = refl; before = refl; between = refl; after = (tt, tt); written = refl },
    (
      record { configured = refl; before = refl; between = refl; after = (tt, tt); written = refl },
      tt,
    ),
  ),
)

announced_once_example :
    (play true api thrice (file_of struck_record)).0 ≡ true ∷ false ∷ false ∷ []
unfolding play_turn new_manager load_sync perform_all perform calls_on observe set_down set_up
    set_degraded store commit stored down_step down_stored record_alert_outcome prune get_record
    put_record write_sync arm_set lookup insert contains removed_from kept_from record_cert_alert
    up_decision degraded_decision owed_an_alert performance_decision first_failure repeat_failure
    pending_failure confirmed_failure stabilized
announced_once_example =
    announced_once true api (failing 160 true) (failing 220 false ∷ failing 280 true ∷ [])
      (file_of struck_record) thrice-AllOrdinary refl refl (refl, (refl, tt))

abbrev lost_outage : List Turn
lost_outage = failing 100 false ∷ failing 160 false ∷ []

abbrev calm : Calm false calm_record
calm = record { same = refl; notified = refl; clear = refl; announced = refl; failures = refl }

abbrev flapping : List Turn
flapping = failing 160 true ∷ fine 220 ∷ failing 280 true ∷ fine 340 ∷ []

flapping-AllOrdinary : AllOrdinary true api flapping (file_of calm_record)
unfolding AllOrdinary play_turn new_manager load_sync perform_all perform calls_on observe set_down
    set_up set_degraded store commit stored down_step down_stored record_alert_outcome prune
    get_record put_record write_sync arm_set lookup insert contains removed_from kept_from
    record_cert_alert up_decision degraded_decision owed_an_alert performance_decision first_failure
    repeat_failure pending_failure confirmed_failure stabilized
flapping-AllOrdinary = (
  record { configured = refl; before = refl; between = refl; after = (tt, tt); written = refl },
  (
    record { configured = refl; before = refl; between = refl; after = (tt, tt); written = refl },
    (
      record { configured = refl; before = refl; between = refl; after = (tt, tt); written = refl },
      (
        record {
          configured = refl;
          before = refl;
          between = refl;
          after = (tt, tt);
          written = refl;
        },
        tt,
      ),
    ),
  ),
)

flapping_is_silent_example :
    (play true api flapping (file_of calm_record)).0 ≡ false ∷ false ∷ false ∷ false ∷ []
unfolding load_sync lookup
flapping_is_silent_example =
    flapping_is_silent true api false flapping (file_of calm_record) calm_record
      flapping-AllOrdinary refl calm (tt, (tt, (tt, (tt, tt))))

abbrev warm : Warm (at 100) 0 calm_record
warm = record {
  answers = inl refl;
  checked = refl;
  notified = refl;
  clear = refl;
  announced = refl;
  failures = refl;
  runs = omega arith;
}

abbrev slowness : List Turn
slowness =
    slow_turn "slow" (at 160) round
    ∷ slow_turn "slow" (at 220) round
    ∷ slow_turn "slow" (at 280) round
    ∷ healthy_turn (at 340) round
    ∷ healthy_turn (at 400) round
    ∷ []

slowness-AllOrdinary : AllOrdinary true api slowness (file_of calm_record)
unfolding AllOrdinary play_turn new_manager load_sync perform_all perform calls_on observe set_down
    set_up set_degraded store commit stored down_step down_stored record_alert_outcome prune
    get_record put_record write_sync arm_set lookup insert contains removed_from kept_from
    record_cert_alert up_decision degraded_decision owed_an_alert performance_decision first_failure
    repeat_failure pending_failure confirmed_failure stabilized
slowness-AllOrdinary = (
  record { configured = refl; before = refl; between = refl; after = (tt, tt); written = refl },
  (
    record { configured = refl; before = refl; between = refl; after = (tt, tt); written = refl },
    (
      record { configured = refl; before = refl; between = refl; after = (tt, tt); written = refl },
      (
        record {
          configured = refl;
          before = refl;
          between = refl;
          after = (tt, tt);
          written = refl;
        },
        (
          record {
            configured = refl;
            before = refl;
            between = refl;
            after = (tt, tt);
            written = refl;
          },
          tt,
        ),
      ),
    ),
  ),
)

slow_then_recovered_example :
    (play true api slowness (file_of calm_record)).0 ≡ false ∷ false ∷ true ∷ false ∷ true ∷ []
unfolding load_sync lookup within_gap
slow_then_recovered_example =
    slow_then_recovered api "slow" (at 160) (at 220) (at 280) (at 340) (at 400) round round round
      round round (file_of calm_record) (at 100) 0 calm_record slowness-AllOrdinary refl warm refl
      refl refl refl

-- Two rounds of an outage that claim a reminder, and one that hands it back.
abbrev reminding : ℕ → Bool → FailedTurn
reminding now reached = record {
  error = "timeout";
  now = at now;
  reached = reached;
  claimed_at = now;
  before = (shop, observing true (failed "refused") (at 90)) ∷ [];
  after = [];
  configured = api ∷ shop ∷ [];
  faults = [];
}

abbrev three_claims : List FailedTurn
three_claims = reminding 5000 false ∷ reminding 4900 true ∷ reminding 9000 true ∷ []

three_claims-AllFailed : AllFailed 9000 api three_claims (file_of down_record)
unfolding AllFailed failed_turn failed_check remind announce muted_alert_owed claim_reminder_step
    claim_of reminders_due release_reminder record_muted_alert new_manager load_sync perform_all
    perform calls_on observe set_down set_up set_degraded store commit stored down_step down_stored
    record_alert_outcome prune get_record put_record write_sync arm_set lookup insert contains
    removed_from kept_from record_cert_alert up_decision degraded_decision owed_an_alert
    performance_decision first_failure repeat_failure pending_failure confirmed_failure stabilized
three_claims-AllFailed = (
  record { configured = refl; before = refl; after = refl; claimed = omega arith; written = refl },
  (
    record {
      configured = refl;
      before = refl;
      after = refl;
      claimed = omega arith;
      written = refl;
    },
    (
      record {
        configured = refl;
        before = refl;
        after = refl;
        claimed = omega arith;
        written = refl;
      },
      tt,
    ),
  ),
)

reminders_bounded_example :
    reminders_sent api three_claims (file_of down_record) ≤ reminders_due (9000 - 1000)
unfolding load_sync lookup
reminders_bounded_example =
    reminders_bounded api three_claims 1000 9000 (file_of down_record) down_record
      three_claims-AllFailed refl refl refl refl
