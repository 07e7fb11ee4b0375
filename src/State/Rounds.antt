-- ===== src/State/Rounds.antt =====
-- Many rounds of one target. A round is a process of its own: it starts from the file that the round
-- before left, and what it knows at its end is what it wrote.
use vigil_sre.Prelude.{
  String, ◌≡◌, refl, Bool, Option, some, List, [], ◌∷◌, if◌then◌else◌, Bool-cases, inl, inr, ap,
  ◌∙◌, true,
}
use vigil_sre.Prelude.Dict.{lookup, contains}
use vigil_sre.State.Record.{Stamp, UrlState}
use vigil_sre.State.Manager.{StateManager, Document, load_sync, new_manager, get_record}
use vigil_sre.State.Markers.{record_alert_outcome, outcome_record, prune}
use vigil_sre.State.Observe.{Observation, observe, observe_lem, answer, observed}
use vigil_sre.State.Laws.{get_record-commit_self}
use vigil_sre.State.InStep.{
  InStep, perform_all-InStep, perform-InStep, prune-InStep, new_manager-InStep,
  get_record-new_manager,
}
use vigil_sre.State.Prune.{prune_lem}
use vigil_sre.State.Target.{machine, interleaving, machine-outcome}
use vigil_sre.State.Target.Machine.{
  Call, perform, perform_all, calls_on, observing, outcome, Machine, step, steps, on_record,
}
use vigil_sre.State.Marks.{AllMarks, marked, steps-marked}

-- What a round observes, when, and whether an alert sent in it would reach a channel; the calls that
-- the round makes before the observation, before the outcome of its alert and after it, on any
-- targets; the URLs that it prunes to; and which of its writes fail.
pub record Turn : Type 0 where
  pub seen : Observation
  pub now : Stamp
  pub reached : Bool
  pub before : List (String × Call)
  pub between : List (String × Call)
  pub after : List (String × Call)
  pub configured : List String
  pub faults : List Bool

-- One round outside maintenance, from the file it finds: the observation, the outcome of the alert
-- if one is due, and the manager at its end.
unfoldable pub play_turn : Bool → String → Turn → Document → Bool × StateManager
play_turn s url t file =
    let (alert, m1) =
      observe s url t.seen t.now (perform_all t.before (new_manager file t.faults)) in
    let m2 = perform_all t.between m1 in
    let m3 = if alert then record_alert_outcome url t.reached m2 else m2 in
    (alert, (prune t.configured (perform_all t.after m3)).1)

-- The rounds of one target: the answers, and the file behind them.
unfoldable pub play : Bool → String → List Turn → Document → List Bool × Document
unfolding play_turn
play s url [] file = ([], file)
play s url (t ∷ ts) file =
    let (alert, m) = play_turn s url t file in
    let (alerts, file') = play s url ts m.file in (alert ∷ alerts, file')

-- A round that checks a configured target once, and whose writes all go through.
pub record Ordinary (s : Bool) (url : String) (t : Turn) (file : Document) : Type 0 where
  pub configured : contains t.configured url ≡ true
  pub before : calls_on url t.before ≡ []
  pub between : calls_on url t.between ≡ []
  pub after : AllMarks (calls_on url t.after)
  pub written : (play_turn s url t file).1.write_failures ≡ 0

unfoldable pub AllOrdinary : Bool → String → List Turn → Document → Type 0
AllOrdinary s url [] file = Unit
AllOrdinary s url (t ∷ ts) file =
    Ordinary s url t file × AllOrdinary s url ts (play_turn s url t file).1.file

-- The record that a file holds of a target.
abbrev pub recorded : Document → String → Option UrlState
recorded file url = lookup url (load_sync file)

-- The same on the record alone.
unfoldable pub turn_record : Bool → Turn → Option UrlState → UrlState
turn_record s t previous =
    let r = observed s t.seen previous t.now in
    if answer s t.seen previous t.now then outcome_record t.reached r else r

abbrev pub end_record : Bool → String → Turn → Option UrlState → UrlState
end_record s url t previous = marked (calls_on url t.after) (turn_record s t previous)

unfoldable pub alerts : Bool → String → List Turn → Option UrlState → List Bool
alerts s url [] previous = []
alerts s url (t ∷ ts) previous =
    answer s t.seen previous t.now ∷ alerts s url ts (some (end_record s url t previous))

-- Calls on other targets leave a target's record alone.
pub get_record-calls :
    (url : String) (cs : List (String × Call)) (m : StateManager)
    → calls_on url cs ≡ []
    → get_record (perform_all cs m) url ≡ get_record m url
unfolding steps
get_record-calls url cs m e =
    ap (λ (v : Machine). v.current)
      (interleaving url cs m ∙ ap (λ (ds : List Call). steps ds (machine m url)) e)

module _ (s : Bool) (url : String) (t : Turn) (file : Document) (h : Ordinary s url t file) where
  start-record :
      get_record (perform_all t.before (new_manager file t.faults)) url ≡ recorded file url
  unfolding get_record new_manager
  start-record = get_record-calls url t.before (new_manager file t.faults) h.before

  pub play_turn-answer : (play_turn s url t file).0 ≡ answer s t.seen (recorded file url) t.now
  unfolding play_turn
  play_turn-answer =
      rw (observe_lem s url t.seen t.now (perform_all t.before (new_manager file t.faults)))
        (rw start-record refl)

  after_outcome :
      let (alert, m1) =
        observe s url t.seen t.now (perform_all t.before (new_manager file t.faults)) in
      let m2 = perform_all t.between m1 in
      get_record (if alert then record_alert_outcome url t.reached m2 else m2) url
      ≡ some (turn_record s t (recorded file url))
  unfolding turn_record step
  after_outcome =
      let m0 = perform_all t.before (new_manager file t.faults) in
      let previous = recorded file url in
      let a = answer s t.seen previous t.now in
      let m1 = (observe s url t.seen t.now m0).1 in
      let m2 = perform_all t.between m1 in
      let seen : get_record m1 url ≡ some (observed s t.seen previous t.now) =
        rw (observe_lem s url t.seen t.now m0)
          (rw start-record (get_record-commit_self _ _ _ _ _)) in
      let seen' = get_record-calls url t.between m1 h.between ∙ seen in
      let due : (observe s url t.seen t.now m0).0 ≡ a =
        rw (observe_lem s url t.seen t.now m0) (rw start-record refl) in
      elim (Bool-cases a) [
        | inl e ↦
            rw (due, e)
              (ap (λ (v : Machine). v.current) (machine-outcome url m2 t.reached)
                ∙ ap (on_record (outcome_record t.reached)) seen')
        | inr e ↦ rw (due, e) seen'
      ]

  get_record-play_turn :
      get_record (play_turn s url t file).1 url ≡ some (end_record s url t (recorded file url))
  unfolding play_turn
  get_record-play_turn =
      let (alert, m1) =
        observe s url t.seen t.now (perform_all t.before (new_manager file t.faults)) in
      let m2 = perform_all t.between m1 in
      let m3 = if alert then record_alert_outcome url t.reached m2 else m2 in
      let kept = (prune_lem t.configured (perform_all t.after m3) url).0 in
      (kept ∙ rw h.configured refl)
      ∙ ap (λ (v : Machine). v.current) (interleaving url t.after m3)
      ∙ steps-marked (calls_on url t.after) (machine m3 url) _ h.after after_outcome

  play_turn-InStep : InStep (play_turn s url t file).1
  unfolding play_turn observe perform
  play_turn-InStep =
      let (alert, m1) =
        observe s url t.seen t.now (perform_all t.before (new_manager file t.faults)) in
      let m2 = perform_all t.between m1 in
      let i0 = perform_all-InStep t.before _ (new_manager-InStep file t.faults) in
      let i2 =
        perform_all-InStep t.between m1 (perform-InStep url _ i0 (observing s t.seen t.now)) in
      let i3 : InStep (if alert then record_alert_outcome url t.reached m2 else m2) =
        elim (Bool-cases alert) [
          | inl e ↦ rw e (perform-InStep url m2 i2 (outcome t.reached))
          | inr e ↦ rw e i2
        ] in
      prune-InStep t.configured _ (perform_all-InStep t.after _ i3)

  -- What the next round finds.
  pub recorded-play_turn :
      recorded (play_turn s url t file).1.file url ≡ some (end_record s url t (recorded file url))
  unfolding get_record new_manager
  recorded-play_turn =
      get_record-new_manager (play_turn s url t file).1 url [] play_turn-InStep h.written
      ∙ get_record-play_turn

pub play-alerts :
    (s : Bool) (url : String) (ts : List Turn) (file : Document)
    → AllOrdinary s url ts file
    → (play s url ts file).0 ≡ alerts s url ts (recorded file url)
unfolding play alerts AllOrdinary
play-alerts s url [] file h = refl
play-alerts s url (t ∷ ts) file h =
    rw
      (
        play-alerts s url ts (play_turn s url t file).1.file h.1,
        recorded-play_turn s url t file h.0,
        play_turn-answer s url t file h.0,
      )
      refl
