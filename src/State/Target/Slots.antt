-- ===== src/State/Target/Slots.antt =====
-- One target's record and armed flag, under the primitive writes of the manager.
use vigil_sre.Prelude.{
  String, ◌≡◌, Bool, true, false, Option, some, List, [], ◌∷◌, arith, if◌then◌else◌, str_eq, eq_iff,
  eq_refl,
}
use vigil_sre.Prelude.Dict.{lookup-insert, contains}
use vigil_sre.State.Record.{UrlState, owed_an_alert}
use vigil_sre.State.Manager.{
  StateManager, get_record, put_record, write_sync, arm_set, set_add, set_discard,
}
use vigil_sre.State.Setters.{commit}
use vigil_sre.State.Markers.{disarm}
use vigil_sre.State.Target.Machine.{Machine, rearm}

contains-set_add :
    (k j : String) (s : List String)
    → contains (set_add k s) j ≡ (if str_eq k j then true else contains s j)
unfolding contains set_add
contains-set_add k j s = ground (arith, eq_iff k j)

contains-set_discard :
    (k j : String) (s : List String)
    → contains (set_discard k s) j ≡ (if str_eq k j then false else contains s j)
unfolding contains set_discard
contains-set_discard k j [] = ground arith
contains-set_discard k j (i ∷ s) =
    ground (arith, contains-set_discard k j s, eq_iff i k, eq_iff i j, eq_iff k j)

abbrev pub machine : StateManager → String → Machine
machine m j = record { current = get_record m j; armed = contains m.armed_by_transition j }

module _ (url : String) (r : UrlState) (m : StateManager) where
  pub machine-save :
      machine (write_sync (put_record url r m)) url
      ≡ record { current = some r; armed = contains m.armed_by_transition url }
  unfolding get_record write_sync put_record
  machine-save = ground (arith, lookup-insert url url r m.targets, eq_refl url)

  pub machine-save_other :
      (j : String)
      → str_eq url j ≡ false
      → machine (write_sync (put_record url r m)) j ≡ machine m j
  unfolding get_record write_sync put_record
  machine-save_other j ne = ground (arith, lookup-insert url j r m.targets)

  pub machine-commit :
      (armed : Bool) (previous : Option UrlState)
      → machine (commit armed url previous r m) url ≡ record {
        current = some r;
        armed = rearm armed previous (contains m.armed_by_transition url);
      }
  unfolding commit get_record write_sync put_record arm_set owed_an_alert
  machine-commit armed previous = ground (
    arith,
    lookup-insert url url r m.targets,
    eq_refl url,
    contains-set_add url url m.armed_by_transition,
  )

  pub machine-commit_other :
      (armed : Bool) (previous : Option UrlState) (j : String)
      → str_eq url j ≡ false
      → machine (commit armed url previous r m) j ≡ machine m j
  unfolding commit get_record write_sync put_record arm_set owed_an_alert
  machine-commit_other armed previous j ne =
      ground (arith, lookup-insert url j r m.targets, contains-set_add url j m.armed_by_transition)

module _ (url : String) (m : StateManager) where
  pub machine-disarm :
      machine (disarm url m) url ≡ record { current = get_record m url; armed = false }
  unfolding get_record
  machine-disarm = ground (arith, eq_refl url, contains-set_discard url url m.armed_by_transition)

  pub machine-disarm_other :
      (j : String) → str_eq url j ≡ false → machine (disarm url m) j ≡ machine m j
  unfolding get_record
  machine-disarm_other j ne = ground (arith, contains-set_discard url j m.armed_by_transition)
