-- ===== src/Targetctl/Failed.antt =====
-- targetctl.py: a command that reports an error has written nothing.
use vigil_sre.Prelude.{
  ◌≡◌, ◌≢◌, ◌⊎◌, inl, inr, refl, ap, ◌∙◌, subst, String, Bool, true, false, not, ◌&&◌, ◌==◌, List,
  length, Option, some,
}
use vigil_sre.Prelude.Dict.{lookup}
use vigil_sre.Targets.Text.{strip}
use vigil_sre.Targets.Value.{Value, elements, items, of_items}
use vigil_sre.Targets.Entry.{Entry, Env}
use vigil_sre.Targets.Store.{Disk}
use vigil_sre.Api.{PutReply, replaced, put_status, put_targets}
use vigil_sre.Api.Guarded.{put_targets-Admitted}
use vigil_sre.Targetctl.Settings.{Problem, Try, good, bad, parse_settings}
use vigil_sre.Targetctl.Wire.{
  call_of, Way, arrives, request_lost, answer_lost, Service, Payload, token_of, is_managed,
  is_seed_lost, any_url, snapshot, put_answer, put_body_value, request_of, put_call,
}
use vigil_sre.Targetctl.{
  Command, add, remove, run_command, Outcome, done, stopped, Net, is_empty, kept_without,
  outcome_of, raise_if, put_all, add_to, add_with, cmd_add, remove_from, remove_with, cmd_remove,
}

-- Was the answer to the command's PUT not lost?
abbrev pub IsAnswered : Way → Type 0
IsAnswered way = way ≢ answer_lost

outcome_of-disk : (notice : Bool) (t : Try Payload) (d : Disk) → (outcome_of notice (t, d)).1 ≡ d
outcome_of-disk notice (good p) d = refl
outcome_of-disk notice (bad p) d = refl

-- An answer with the list, if it arrives, is no error.
not_stopped :
    (carry : Value → Option Value) (notice : Bool) (es : List Entry) (d d' : Disk) (p : Problem)
    → ((v : Value) → carry v ≡ some v)
    → (outcome_of notice (put_call carry arrives (replaced es, d') d)).0 ≡ stopped p
    → ⊥
unfolding lookup items elements of_items
not_stopped carry notice es d d' p c h =
    let printed : done _ notice ≡ stopped p = rw (c (put_answer (replaced es))) at h in cc

answered_unchanged :
    (carry : Value → Option Value) (notice : Bool) (way : Way) (r : PutReply) (d d' : Disk)
    (p : Problem)
    → ((v : Value) → carry v ≡ some v)
    → IsAnswered way
    → (d'.store ≡ d.store) ⊎ ((es : List Entry) × (r ≡ replaced es))
    → (outcome_of notice (put_call carry way (r, d') d)).0 ≡ stopped p
    → (outcome_of notice (put_call carry way (r, d') d)).1.store ≡ d.store
answered_unchanged carry notice request_lost r d d' p c a u h = refl
answered_unchanged carry notice answer_lost r d d' p c a u h = elim (a refl) [ ]
answered_unchanged carry notice arrives r d d' p c a (inl same) h =
    ap (λ (e : Disk). e.store)
      (outcome_of-disk notice (call_of carry arrives (put_status r) (put_answer r)) d')
    ∙ same
answered_unchanged carry notice arrives r d d' p c a (inr (es, e)) h =
    elim (not_stopped carry notice es d d' p c (
      subst (λ (t : PutReply). (outcome_of notice (put_call carry arrives (t, d') d)).0 ≡ stopped p)
        e h)) [ ]

module _ (sv : Service) (net : Net) (c : (v : Value) → sv.carry v ≡ some v)
    (a : IsAnswered net.put_way) where
  put_all-stopped :
      (token : String) (notice : Bool) (targets : List Value) (allow : Bool) (d : Disk)
      (p : Problem)
      → (put_all sv net token notice targets allow d).0 ≡ stopped p
      → (put_all sv net token notice targets allow d).1.store ≡ d.store
  unfolding put_all
  put_all-stopped token notice targets allow d p h =
      let q = request_of sv token (put_body_value targets allow) in
      let answer = put_targets sv.py sv.env sv.json q net.fault d in
      answered_unchanged sv.carry notice net.put_way answer.0 d answer.1 p c a
        (elim (put_targets-Admitted sv.py sv.env sv.json q net.fault d) [
          | inl same ↦ inl same
          | inr (admitted, r) ↦ inr r
        ])
        h

  -- The store is as it was at the beginning, or as others have left it.
  abbrev pub Unwritten : Disk → Outcome × Disk → Type 0
  Unwritten d answer = (answer.1.store ≡ d.store) ⊎ (answer.1.store ≡ (net.meanwhile d).store)

  abbrev WhenStopped : Problem → Disk → Outcome × Disk → Type 0
  WhenStopped p d answer = answer.0 ≡ stopped p → Unwritten d answer

  raise_if-stopped :
      (p : Problem) (d : Disk) (test : Bool) (q : Problem) (rest : Outcome × Disk)
      → WhenStopped p d rest
      → WhenStopped p d (raise_if test q d rest)
  raise_if-stopped p d true q rest w h = inl refl
  raise_if-stopped p d false q rest w h = w h

  add_to-stopped :
      (settings : List (String × Value)) (url token : String) (r : Try Payload) (d : Disk)
      (p : Problem)
      → WhenStopped p d (add_to sv net settings url token r d)
  add_to-stopped settings url token (bad b) d p h = inl refl
  add_to-stopped settings url token (good s) d p h =
      raise_if-stopped p d (is_seed_lost s) _ _
        (raise_if-stopped p d (any_url url s.targets) _ _
          (λ k. inr (put_all-stopped token (not (is_managed s)) _ false (net.meanwhile d) p k)))
        h

  add_with-stopped :
      (settings : Try (List (String × Value))) (url : String) (token : Try String) (d : Disk)
      (p : Problem)
      → WhenStopped p d (add_with sv net settings url token d)
  add_with-stopped (bad b) url token d p h = inl refl
  add_with-stopped (good settings) url (bad b) d p h = inl refl
  add_with-stopped (good settings) url (good token) d p h =
      add_to-stopped settings url token (snapshot sv net.get_way d) d p h

  remove_from-stopped :
      (allow_empty : Bool) (url token : String) (r : Try Payload) (d : Disk) (p : Problem)
      → WhenStopped p d (remove_from sv net allow_empty url token r d)
  remove_from-stopped allow_empty url token (bad b) d p h = inl refl
  remove_from-stopped allow_empty url token (good s) d p h =
      let kept = kept_without url s.targets in
      raise_if-stopped p d (is_seed_lost s) _ _
        (raise_if-stopped p d (length kept == length s.targets) _ _ (
          raise_if-stopped p d (is_empty kept && not allow_empty) _ _
            (λ k. inr (put_all-stopped token (not (is_managed s)) _ _ (net.meanwhile d) p k))))
        h

  remove_with-stopped :
      (allow_empty : Bool) (url : String) (token : Try String) (d : Disk) (p : Problem)
      → WhenStopped p d (remove_with sv net allow_empty url token d)
  remove_with-stopped allow_empty url (bad b) d p h = inl refl
  remove_with-stopped allow_empty url (good token) d p h =
      remove_from-stopped allow_empty url token (snapshot sv net.get_way d) d p h

-- If every JSON value arrives as it was sent and the answer to the PUT is not lost, a command that
-- stops with an error has left the content of the store as it was, or as others have left it between
-- its two requests.
pub run_command-Unwritten :
    (sv : Service) (net : Net) (client : Env) (command : Command) (d : Disk) (p : Problem)
    → ((v : Value) → sv.carry v ≡ some v)
    → IsAnswered net.put_way
    → (run_command sv net client command d).0 ≡ stopped p
    → ((run_command sv net client command d).1.store ≡ d.store)
      ⊎ ((run_command sv net client command d).1.store ≡ (net.meanwhile d).store)
unfolding run_command cmd_add cmd_remove
run_command-Unwritten sv net client (add words pairs url) d p c a h =
    add_with-stopped sv net c a (parse_settings words pairs) (strip url) (token_of client) d p h
run_command-Unwritten sv net client (remove allow_empty url) d p c a h =
    remove_with-stopped sv net c a allow_empty (strip url) (token_of client) d p h
