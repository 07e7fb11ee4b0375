-- ===== src/Check/Funnel.antt =====
-- main.py, `_alert_unless_muted` and `_announce_if_owed`: the one way an alert leaves the monitor.
pub mod Records
use vigil_sre.Prelude.{
  String, Bool, true, false, not, Option, List, [], ◌∷◌, ◌++◌, if◌then◌else◌, is_some,
}
use vigil_sre.Diagnostics.Maintenance.{Window, in_maintenance}
use vigil_sre.Notifiers.Kind.{AlertKind, is_status_alert_kind}
use vigil_sre.Notifiers.Dispatch.{dispatch_alert}
use vigil_sre.State.Manager.{StateManager, Detail, note_undelivered_advisory, muted_alert_owed}
use vigil_sre.State.Markers.{record_alert_outcome, release_muted_status_alert, record_muted_alert}
use vigil_sre.Check.World.{World, read_clock, with_state}

pub data AlertOutcome : Type 0 where
  delivered muted undelivered : AlertOutcome

abbrev pub is_delivered : AlertOutcome → Bool
is_delivered delivered = true
is_delivered _ = false

abbrev pub is_muted : AlertOutcome → Bool
is_muted muted = true
is_muted _ = false

-- The world after the call of `dispatch_alert`.
unfoldable pub after_dispatch : String → Detail → AlertKind → World → World
after_dispatch url detail kind w =
    let d = dispatch_alert w.channels w.circuits in
    record w {
      channels = d.channels;
      circuits = d.circuits;
      dispatches =
          w.dispatches
          ++ record { url = url; kind = kind; detail = detail; delivered = d.delivered } ∷ [];
    }

-- What the funnel writes down: the flag for a status alert, the tally for a lost advisory.
unfoldable pub note_outcome : String → AlertKind → Bool → StateManager → StateManager
note_outcome url kind sent m =
    if is_status_alert_kind kind
    then record_alert_outcome url sent m
    else if sent
    then m
    else note_undelivered_advisory kind m

unfoldable pub note_mute : String → AlertKind → StateManager → StateManager
note_mute url kind m = if is_status_alert_kind kind then release_muted_status_alert url m else m

unfoldable pub alert_unless_muted :
    String → Detail → AlertKind → Option (List Window) → World → AlertOutcome × World
unfolding after_dispatch note_outcome note_mute
alert_unless_muted url detail kind maintenance w =
    let w' = read_clock w in
    if is_some (in_maintenance maintenance w'.now)
    then (muted, with_state (note_mute url kind) w')
    else let sent = (dispatch_alert w'.channels w'.circuits).delivered in
      (
        if sent then delivered else undelivered,
        with_state (note_outcome url kind sent) (after_dispatch url detail kind w'),
      )

unfoldable pub announce_if_owed : String → Detail → AlertKind → Option (List Window) → World → World
unfolding alert_unless_muted
announce_if_owed url detail kind maintenance w =
    if not (muted_alert_owed w.state url)
    then w
    else let w' = read_clock w in
      if is_some (in_maintenance maintenance w'.now)
      then w'
      else let (outcome, w'') = alert_unless_muted url detail kind maintenance w' in
        if is_muted outcome then w'' else with_state (record_muted_alert url false) w''
