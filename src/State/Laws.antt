-- ===== src/State/Laws.antt =====
-- How the building blocks of the state manager change the record of a target.
use vigil_sre.Prelude.{
  String, ◌≡◌, Bool, true, false, Option, some, arith, if◌then◌else◌, str_eq, eq_refl,
}
use vigil_sre.Prelude.Dict.{lookup, lookup-insert}
use vigil_sre.State.Record.{UrlState, owed_an_alert}
use vigil_sre.State.Manager.{
  StateManager, load_sync, next_fault, write_sync, put_record, get_record, arm_set,
}
use vigil_sre.State.Setters.{commit}

module _ (m : StateManager) where
  pub get_record-put_record :
      (url j : String) (r : UrlState)
      → get_record (put_record url r m) j ≡ (if str_eq url j then some r else get_record m j)
  unfolding get_record put_record
  get_record-put_record url j r = lookup-insert url j r m.targets

  pub get_record-write_sync : (j : String) → get_record (write_sync m) j ≡ get_record m j
  unfolding get_record write_sync
  get_record-write_sync j = ground arith

  pub get_record-arm_set :
      (url j : String) (previous : Option UrlState)
      → get_record (arm_set url previous m) j ≡ get_record m j
  unfolding get_record arm_set owed_an_alert
  get_record-arm_set url j previous = ground arith

  -- What a restarted process reads after a write that did not fail.
  pub load-write_sync :
      (j : String)
      → next_fault m.faults ≡ false
      → lookup j (load_sync (write_sync m).file) ≡ get_record m j
  unfolding get_record write_sync load_sync
  load-write_sync j ok = ground arith

module _ (url : String) (previous : Option UrlState) (r : UrlState) (m : StateManager) where
  pub get_record-commit :
      (armed : Bool) (j : String)
      → get_record (commit armed url previous r m) j
        ≡ (if str_eq url j then some r else get_record m j)
  unfolding commit
  get_record-commit true j =
      rw (get_record-write_sync, get_record-arm_set) (get_record-put_record m url j r)
  get_record-commit false j = rw get_record-write_sync (get_record-put_record m url j r)

  pub get_record-commit_self :
      (armed : Bool) → get_record (commit armed url previous r m) url ≡ some r
  get_record-commit_self armed = rw (get_record-commit armed url, eq_refl)

  pub load-commit :
      (armed : Bool)
      → next_fault m.faults ≡ false
      → lookup url (load_sync (commit armed url previous r m).file) ≡ some r
  unfolding commit get_record write_sync load_sync arm_set put_record owed_an_alert
  load-commit armed ok = ground (arith, lookup-insert url url r m.targets, eq_refl url)
