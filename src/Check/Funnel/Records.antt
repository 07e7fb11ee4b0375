-- ===== src/Check/Funnel/Records.antt =====
-- main.py, `_alert_unless_muted`: what an alert's outcome does to the records.
use vigil_sre.Prelude.{
  ℕ, ◌+◌, String, ◌≡◌, refl, Bool, true, false, Option, some, List, if◌then◌else◌, is_some, arith,
  get_or, Bool-cases, inl, inr, ap, ◌∙◌, eq_refl,
}
use vigil_sre.Prelude.Dict.{contains, lookup, lookup-insert}
use vigil_sre.Diagnostics.Maintenance.{Window, in_maintenance}
use vigil_sre.Notifiers.Kind.{AlertKind, is_status_alert_kind, kind_value}
use vigil_sre.Notifiers.Dispatch.{dispatch_alert}
use vigil_sre.State.Record.{UrlState}
use vigil_sre.State.Manager.{StateManager, Detail, note_undelivered_advisory, get_record}
use vigil_sre.State.Markers.{outcome_record}
use vigil_sre.State.Target.{machine-outcome, machine-release_mute}
use vigil_sre.State.Target.Machine.{Machine, step, on_record, unmute}
use vigil_sre.Check.World.{World, read_clock}
use vigil_sre.Check.Funnel.{
  is_delivered, AlertOutcome, delivered, muted, undelivered, alert_unless_muted, after_dispatch,
  note_outcome, note_mute,
}

-- The count of the lost alerts of one kind.
abbrev pub lost : StateManager → AlertKind → ℕ
lost m kind = get_or (lookup (kind_value kind) m.undelivered_advisory) 0

abbrev pub lost_now : AlertOutcome → ℕ
lost_now delivered = 0
lost_now muted = 0
lost_now undelivered = 1

-- An alert that announces no change of status (a certificate, a trend, a reminder) leaves every
-- record, the armed flags and the state file alone; if it reached nobody it is counted once under
-- its kind, and otherwise not at all.
pub advisory_keeps_records :
    (url : String) (detail : Detail) (kind : AlertKind) (maintenance : Option (List Window))
    (w : World)
    → is_status_alert_kind kind ≡ false
    → let (o, w') = alert_unless_muted url detail kind maintenance w in
      (w'.state.targets ≡ w.state.targets)
      × (w'.state.armed_by_transition ≡ w.state.armed_by_transition)
      × (w'.state.file ≡ w.state.file)
      × (lost w'.state kind ≡ lost w.state kind + lost_now o)
unfolding alert_unless_muted after_dispatch note_outcome note_mute note_undelivered_advisory
    read_clock
advisory_keeps_records url detail kind maintenance w h = ground (
  arith,
  lookup-insert (kind_value kind) (kind_value kind) (lost w.state kind + 1)
      w.state.undelivered_advisory,
  eq_refl (kind_value kind),
)

-- What a status alert's outcome makes of its target's record; `armed` says whether the flag was set
-- by a transition of this process.
abbrev pub after_status_alert : AlertOutcome → Bool → UrlState → UrlState
after_status_alert delivered armed r = outcome_record true r
after_status_alert undelivered armed r = outcome_record false r
after_status_alert muted armed r = if armed then unmute r else r

module _ (url : String) (kind : AlertKind) (m : StateManager)
    (status : is_status_alert_kind kind ≡ true) where
  get_record-note_outcome :
      (sent : Bool)
      → get_record (note_outcome url kind sent m) url
        ≡ on_record (outcome_record sent) (get_record m url)
  unfolding note_outcome step
  get_record-note_outcome sent =
      rw status (ap (λ (v : Machine). v.current) (machine-outcome url m sent))

  get_record-note_mute : get_record (note_mute url kind m) url ≡ (
      if contains m.armed_by_transition url
      then on_record unmute (get_record m url)
      else get_record m url)
  unfolding note_mute step
  get_record-note_mute =
      ground (arith, status, ap (λ (v : Machine). v.current) (machine-release_mute url m))

-- The outcome of a status alert is what its target's record says afterwards: delivered, nothing is
-- owed and the status counts as announced; undelivered, the alert is owed; muted, only a flag that
-- this process armed is taken back, and an older debt stays. A muted alert makes no dispatch and
-- touches no channel.
pub status_alert_recorded :
    (url : String) (detail : Detail) (kind : AlertKind) (maintenance : Option (List Window))
    (w : World) (r : UrlState)
    → is_status_alert_kind kind ≡ true
    → get_record w.state url ≡ some r
    → let (o, w') = alert_unless_muted url detail kind maintenance w in
      (get_record w'.state url
        ≡ some (after_status_alert o (contains w.state.armed_by_transition url) r))
      × (o ≡ muted → (w'.dispatches ≡ w.dispatches) × (w'.channels ≡ w.channels))
unfolding alert_unless_muted after_dispatch read_clock
status_alert_recorded url detail kind maintenance w r status e =
    let w1 = read_clock w in
    elim (Bool-cases (is_some (in_maintenance maintenance w1.now))) [
      | inl on ↦
          rw on
            (get_record-note_mute url kind w.state status ∙ ground (arith, e), λ _. (refl, refl))
      | inr off ↦ elim (Bool-cases (dispatch_alert w.channels w.circuits).delivered) [
        | inl ok ↦
            rw (off, ok)
              (
                get_record-note_outcome url kind w.state status true
                    ∙ ap (on_record (outcome_record true)) e,
                λ h. cc,
              )
        | inr ok ↦
            rw (off, ok)
              (
                get_record-note_outcome url kind w.state status false
                    ∙ ap (on_record (outcome_record false)) e,
                λ h. cc,
              )
      ]
    ]

-- Would an alert reach a channel now?
abbrev pub gets_through : Option (List Window) → World → Bool
gets_through maintenance w =
    if is_some (in_maintenance maintenance (read_clock w).now)
    then false
    else (dispatch_alert w.channels w.circuits).delivered

pub delivered-gets_through :
    (url : String) (detail : Detail) (kind : AlertKind) (maintenance : Option (List Window))
    (w : World)
    → is_delivered (alert_unless_muted url detail kind maintenance w).0 ≡ gets_through maintenance w
unfolding alert_unless_muted read_clock
delivered-gets_through url detail kind maintenance w = ground arith
