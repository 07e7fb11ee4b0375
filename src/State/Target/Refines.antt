-- ===== src/State/Target/Refines.antt =====
-- Interleaved calls: each target sees its own.
use vigil_sre.Prelude.{
  String, ap, ◌∙◌, subst, ◌≡◌, refl, List, [], ◌∷◌, str_eq, eq_iff, Bool-cases, inl, inr,
}
use vigil_sre.State.Manager.{StateManager}
use vigil_sre.State.Target.Machine.{Call, perform, perform_all, calls_on, step, steps}
use vigil_sre.State.Target.Slots.{machine}
use vigil_sre.State.Target.Own.{machine-perform}
use vigil_sre.State.Target.Others.{machine-perform_other}

-- However the calls on the targets are interleaved, what a target's record and armed flag become is
-- what its own calls, in their order, make of them.
pub interleaving :
    (j : String) (cs : List (String × Call)) (m : StateManager)
    → machine (perform_all cs m) j ≡ steps (calls_on j cs) (machine m j)
unfolding perform_all calls_on steps
interleaving j [] m = refl
interleaving j ((url, c) ∷ cs) m = elim (Bool-cases (str_eq url j)) [
  | inl e ↦ rw e (
      interleaving j cs (perform url c m)
      ∙ ap (λ v. steps (calls_on j cs) v) (same ((eq_iff url j).0 e)))
  | inr ne ↦ rw ne (
      interleaving j cs (perform url c m)
      ∙ ap (λ v. steps (calls_on j cs) v) (machine-perform_other url m j ne c))
]
  where
    same : url ≡ j → machine (perform url c m) j ≡ step c (machine m j)
    same p =
        subst (λ k. machine (perform url c m) k ≡ step c (machine m k)) p (machine-perform url m c)
