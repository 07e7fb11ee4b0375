-- ===== src/Targetctl/Put.antt =====
-- targetctl.py, `_put`: what a command that prints a list has had stored.
use vigil_sre.Prelude.{
  ◌≡◌, refl, ap, sym, ◌∙◌, subst, String, Bool, true, false, Option, none, some, List, [], map, leb,
  if◌then◌else◌,
}
use vigil_sre.Prelude.Dict.{lookup}
use vigil_sre.Targets.Value.{
  Value, elements, of_elements, items, of_items, list_of, elements-of_elements,
}
use vigil_sre.Targets.Checked.{Checked, ok, refused}
use vigil_sre.Targets.Url.{Python}
use vigil_sre.Targets.Entry.{Entry, Env, entry_value}
use vigil_sre.Targets.Store.{
  validate_all, StoreRead, never_written, stored, unusable, Disk, WriteFault, mkdir_fails,
  create_fails, write_fails, replace_fails, content, Saved, saved, Json, document, read_store,
  write_store, write_checked, write_payload,
}
use vigil_sre.Targets.Store.Kept.{saved-injective}
use vigil_sre.Api.{
  body_lost, body_too_large, parsed_body, max_body_bytes, PutReply, replaced, not_found,
  not_authorised, empty_without_flag, bad_body, store_error, invalid, not_saved, is_authorised,
  read_json_body, body_entries, put_list, put_over, put_body, put_targets,
}
use vigil_sre.Api.Listed.{replaced-saved}
use vigil_sre.Targetctl.Wire.{
  Way, arrives, request_lost, answer_lost, put_answer, put_body_value, request_of, put_call,
  Service,
}
use vigil_sre.Targetctl.{Outcome, done, stopped, Net, put_all, outcome_of}

module _ (py : Python) (env : Env) (json : Json) (us : List Entry) where
  -- A save that went through, of these entries.
  abbrev Went : Value → Saved × Disk → Type 0
  Went entries answer =
      (validate_all py env true (some entries) ≡ ok us)
      × (answer.1.store ≡ content (json.dumps (document us)))

  checked-Went :
      (entries : Value) (fault : Option WriteFault) (d : Disk)
      → (write_store py env json entries fault d).0 ≡ saved us
      → Went entries (write_store py env json entries fault d)
  unfolding write_store write_payload
  checked-Went entries fault d h = go (validate_all py env true (some entries)) fault h
    where
      go :
          (c : Checked (List Entry)) (fault : Option WriteFault)
          → (write_checked py env json c fault d).0 ≡ saved us
          → (c ≡ ok us)
            × ((write_checked py env json c fault d).1.store ≡ content (json.dumps (document us)))
      go (refused r) fault h = cc
      go (ok ws) (some mkdir_fails) h = cc
      go (ok ws) (some create_fails) h = cc
      go (ok ws) (some (write_fails part)) h = cc
      go (ok ws) (some replace_fails) h = cc
      go (ok ws) none h =
          let same = saved-injective h in
          (ap ok same, ap (λ (l : List Entry). content (json.dumps (document l))) same)

  -- The same of an answer to a PUT.
  abbrev Replaced : Value → PutReply × Disk → Type 0
  Replaced entries answer =
      answer.0 ≡ replaced us
      → (validate_all py env true (some entries) ≡ ok us)
        × (answer.1.store ≡ content (json.dumps (document us)))

  list-Replaced :
      (blank : Bool) (entries : Value) (fault : Option WriteFault) (d : Disk)
      → Replaced entries (put_list py env json blank entries fault d)
  list-Replaced true entries fault d h = cc
  list-Replaced false entries fault d h =
      checked-Went entries fault d (replaced-saved (write_store py env json entries fault d) us h)

  over-Replaced :
      (r : StoreRead) (v : Value) (fault : Option WriteFault) (d : Disk)
      → Replaced (body_entries v) (put_over py env json r v fault d)
  unfolding put_over
  over-Replaced (unusable t) v fault d h = cc
  over-Replaced (stored es) v fault d h = list-Replaced _ (body_entries v) fault d h
  over-Replaced never_written v fault d h = list-Replaced _ (body_entries v) fault d h

  body-Replaced :
      (authorised big : Bool) (v : Value) (fault : Option WriteFault) (d : Disk)
      → Replaced (body_entries v) (
          put_body py env json authorised
            (if big then parsed_body (some v) else body_lost body_too_large)
            fault
            d)
  body-Replaced authorised false v fault d h = cc
  body-Replaced false true v fault d h = cc
  body-Replaced true true v fault d h =
      over-Replaced (read_store py env json false d.store) v fault d h

body_entries-put_body_value :
    (vs : List Value) (allow : Bool) → body_entries (put_body_value vs allow) ≡ list_of vs
unfolding body_entries lookup items of_items
body_entries-put_body_value vs true = refl
body_entries-put_body_value vs false = refl

abbrev targets_in : Outcome → List Value
targets_in (done vs n) = vs
targets_in (stopped p) = []

-- A client that prints a list has had an answer with it.
answered_with :
    (carry : Value → Option Value) (notice : Bool) (way : Way) (r : PutReply) (d d' : Disk)
    (vs : List Value) (n : Bool)
    → ((v : Value) → carry v ≡ some v)
    → (outcome_of notice (put_call carry way (r, d') d)).0 ≡ done vs n
    → (us : List Entry) × (r ≡ replaced us)
      × (vs ≡ map entry_value us)
      × ((outcome_of notice (put_call carry way (r, d') d)).1 ≡ d')
unfolding lookup items elements of_items
answered_with carry notice request_lost r d d' vs n c h = cc
answered_with carry notice answer_lost r d d' vs n c h = cc
answered_with carry notice arrives (replaced es) d d' vs n c h =
    let b = put_answer (replaced es) in
    let printed : done (elements (of_elements (map entry_value es))) notice ≡ done vs n =
      rw (c b) at h in
    (
      es,
      refl,
      sym (ap targets_in printed) ∙ elements-of_elements (map entry_value es),
      rw (c b) refl,
    )
answered_with carry notice arrives not_found d d' vs n c h = cc
answered_with carry notice arrives not_authorised d d' vs n c h = cc
answered_with carry notice arrives empty_without_flag d d' vs n c h = cc
answered_with carry notice arrives (bad_body p) d d' vs n c h = cc
answered_with carry notice arrives (store_error t) d d' vs n c h = cc
answered_with carry notice arrives (invalid r) d d' vs n c h = cc
answered_with carry notice arrives (not_saved f) d d' vs n c h = cc

module _ (sv : Service) (net : Net) where
  request-Replaced :
      (token : String) (v : Value) (us : List Entry) (d : Disk)
      → sv.carry v ≡ some v
      → Replaced sv.py sv.env sv.json us
          (body_entries v)
          (put_targets sv.py sv.env sv.json (request_of sv token v) net.fault d)
  unfolding put_targets read_json_body
  request-Replaced token v us d c = rw c (
      body-Replaced sv.py sv.env sv.json us (is_authorised sv.env (request_of sv token v))
        (leb (sv.size v) max_body_bytes) v net.fault d)

  -- What a command that prints a list has stored.
  pub put_all-done :
      (token : String) (notice : Bool) (targets : List Value) (allow : Bool) (d : Disk)
      (vs : List Value) (n : Bool)
      → ((v : Value) → sv.carry v ≡ some v)
      → (put_all sv net token notice targets allow d).0 ≡ done vs n
      → (us : List Entry) × (validate_all sv.py sv.env true (some (list_of targets)) ≡ ok us)
        × ((put_all sv net token notice targets allow d).1.store
            ≡ content (sv.json.dumps (document us)))
        × (vs ≡ map entry_value us)
  unfolding put_all
  put_all-done token notice targets allow d vs n c h =
      let body = put_body_value targets allow in
      let answer = put_targets sv.py sv.env sv.json (request_of sv token body) net.fault d in
      let (us, r, same, disk) =
        answered_with sv.carry notice net.put_way answer.0 d answer.1 vs n c h in
      let (valid, file) = request-Replaced token body us d (c body) r in
      (
        us,
        subst (λ (v : Value). validate_all sv.py sv.env true (some v) ≡ ok us)
            (body_entries-put_body_value targets allow) valid,
        ap (λ (e : Disk). e.store) disk ∙ file,
        same,
      )
