-- ===== src/State/InStep.antt =====
-- main.py, `StateManager`: while no write has failed, the state file says what the manager does.
use vigil_sre.Prelude.{String, ◌≡◌, refl, List, [], ◌∷◌, arith, ap, Bool, Option}
use vigil_sre.Prelude.Dict.{lookup}
use vigil_sre.Notifiers.Kind.{AlertKind}
use vigil_sre.State.Record.{UrlState, Stamp}
use vigil_sre.State.Manager.{
  StateManager, Document, load_sync, new_manager, write_sync, put_record, get_record,
  note_undelivered_advisory,
}
use vigil_sre.State.Setters.{commit}
use vigil_sre.State.Markers.{
  record_alert_outcome, release_muted_status_alert, record_muted_alert, record_cert_alert,
  record_trend_alert, claim_reminder_step, release_reminder, prune,
}
use vigil_sre.State.Observe.{Observation, observe, observe_lem}
use vigil_sre.State.Target.Machine.{
  Call, observing, outcome, release_mute, mark_muted, mark_cert, mark_trend, claim, unclaim,
  perform, perform_all,
}

pub record InStep (m : StateManager) : Type 0 where
  pub same : m.write_failures ≡ 0 → load_sync m.file ≡ m.targets

pub write_sync-InStep : (m : StateManager) → InStep (write_sync m)
unfolding write_sync load_sync
write_sync-InStep m = record { same = λ h. ground arith }

pub commit-InStep :
    (armed : Bool) (url : String) (previous : Option UrlState) (r : UrlState) (m : StateManager)
    → InStep (commit armed url previous r m)
unfolding commit
commit-InStep armed url previous r m = write_sync-InStep _

observe-InStep :
    (s : Bool) (url : String) (o : Observation) (now : Stamp) (m : StateManager)
    → InStep (observe s url o now m).1
observe-InStep s url o now m = rw (observe_lem s url o now m) (commit-InStep _ _ _ _ _)

module _ (url : String) (m : StateManager) (h : InStep m) where
  pub perform-InStep : (c : Call) → InStep (perform url c m)
  unfolding perform record_muted_alert record_trend_alert record_cert_alert record_alert_outcome
      release_muted_status_alert claim_reminder_step release_reminder write_sync put_record
      load_sync
  perform-InStep (observing s o now) = observe-InStep s url o now m
  perform-InStep (outcome reached) = record { same = ground (arith, h.same) }
  perform-InStep release_mute = record { same = ground (arith, h.same) }
  perform-InStep (mark_muted owed) = record { same = ground (arith, h.same) }
  perform-InStep (mark_cert threshold last_seen) = record { same = ground (arith, h.same) }
  perform-InStep (mark_trend p95) = record { same = ground (arith, h.same) }
  perform-InStep (claim now) = record { same = ground (arith, h.same) }
  perform-InStep (unclaim c) = record { same = ground (arith, h.same) }

pub perform_all-InStep :
    (cs : List (String × Call)) (m : StateManager) → InStep m → InStep (perform_all cs m)
unfolding perform_all
perform_all-InStep [] m h = h
perform_all-InStep ((url, c) ∷ cs) m h =
    perform_all-InStep cs (perform url c m) (perform-InStep url m h c)

pub prune-InStep : (urls : List String) (m : StateManager) → InStep m → InStep (prune urls m).1
unfolding prune write_sync load_sync
prune-InStep urls m h = record { same = ground (arith, h.same) }

pub note_undelivered-InStep :
    (kind : AlertKind) (m : StateManager) → InStep m → InStep (note_undelivered_advisory kind m)
unfolding note_undelivered_advisory
note_undelivered-InStep kind m h = record { same = h.same }

pub new_manager-InStep : (file : Document) (faults : List Bool) → InStep (new_manager file faults)
unfolding new_manager
new_manager-InStep file faults = record { same = λ e. refl }

-- What the next process reads of a target, after one without a failed write.
pub get_record-new_manager :
    (m : StateManager) (url : String) (faults : List Bool)
    → InStep m
    → m.write_failures ≡ 0
    → get_record (new_manager m.file faults) url ≡ get_record m url
unfolding get_record new_manager
get_record-new_manager m url faults h e = ap (lookup url) (h.same e)
