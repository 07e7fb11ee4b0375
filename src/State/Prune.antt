-- ===== src/State/Prune.antt =====
-- main.py, `StateManager.prune`: what is left are the records of the configured targets.
use vigil_sre.Prelude.{
  String, ◌≡◌, refl, true, not, ◌&&◌, none, List, [], ◌∷◌, arith, if◌then◌else◌, is_some, eq_iff,
}
use vigil_sre.Prelude.Dict.{lookup, contains}
use vigil_sre.State.Manager.{Targets, StateManager, get_record, write_sync}
use vigil_sre.State.Markers.{prune, removed_from, kept_from, is_empty}

lookup-kept_from :
    (ts : Targets) (urls : List String) (j : String)
    → lookup j (kept_from ts urls) ≡ (if contains urls j then lookup j ts else none)
unfolding lookup kept_from
lookup-kept_from [] urls j = ground arith
lookup-kept_from ((k, r) ∷ ts) urls j = ground (arith, lookup-kept_from ts urls j, eq_iff k j)

contains-removed_from :
    (ts : Targets) (urls : List String) (j : String)
    → contains (removed_from ts urls) j ≡ (is_some (lookup j ts) && not (contains urls j))
unfolding lookup removed_from contains
contains-removed_from [] urls j = refl
contains-removed_from ((k, r) ∷ ts) urls j =
    ground (arith, contains-removed_from ts urls j, eq_iff k j)

kept-all :
    (ts : Targets) (urls : List String)
    → is_empty (removed_from ts urls) ≡ true
    → kept_from ts urls ≡ ts
unfolding removed_from kept_from
kept-all [] urls e = refl
kept-all ((k, r) ∷ ts) urls e = ground (arith, kept-all ts urls)

-- After the pruning a configured target has the record that it had, any other target has none, and
-- the names returned are those of the unconfigured targets that had one.
pub prune_lem :
    (urls : List String) (m : StateManager) (j : String)
    → (get_record (prune urls m).1 j ≡ (if contains urls j then get_record m j else none))
      × (contains (prune urls m).0 j ≡ (is_some (get_record m j) && not (contains urls j)))
unfolding prune get_record write_sync contains
prune_lem urls m j = ground (
  arith,
  lookup-kept_from m.targets urls j,
  contains-removed_from m.targets urls j,
  kept-all m.targets urls,
)
