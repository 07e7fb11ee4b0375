-- ===== src/Api/Listed.antt =====
-- api.py: what a PUT has saved is what a GET answers with.
use vigil_sre.Prelude.{
  ◌≡◌, refl, ap, sym, subst, Bool, true, false, Option, none, some, str_eq, if◌then◌else◌, List, [],
  is_some,
}
use vigil_sre.Targets.Value.{Value}
use vigil_sre.Targets.Url.{Python}
use vigil_sre.Targets.Entry.{Entry, Env}
use vigil_sre.Targets.Store.{
  StoreRead, never_written, stored, unusable, Disk, WriteFault, Saved, saved, rejected, failed,
  Json, read_store, write_store, document,
}
use vigil_sre.Targets.Store.Kept.{read_store-write_store}
use vigil_sre.Targets.Load.{SeedFile, Show}
use vigil_sre.Api.{
  Request, not_found, BodyRead, body_lost, body_read, PutReply, replaced, is_authorised,
  write_token, read_json_body, body_entries, reply_of, put_saved, put_list, put_over, put_body,
  put_targets, listing, get_targets,
}

module _ (py : Python) (env : Env) (json : Json) (fault : Option WriteFault) (d : Disk)
    (es : List Entry) where
  -- An answer with the list is that of a save.
  abbrev Through : PutReply × Disk → Type 0
  Through answer =
      answer.0 ≡ replaced es
      → (entries : Value) × (answer ≡ put_saved (write_store py env json entries fault d))

  list-Through :
      (blank : Bool) (entries : Value) → Through (put_list py env json blank entries fault d)
  list-Through true entries h = cc
  list-Through false entries h = (entries, refl)

  over-Through : (r : StoreRead) (v : Value) → Through (put_over py env json r v fault d)
  unfolding put_over
  over-Through (unusable t) v h = cc
  over-Through (stored us) v h = list-Through _ (body_entries v) h
  over-Through never_written v h = list-Through _ (body_entries v) h

  body-Through :
      (authorised : Bool) (b : BodyRead) → Through (put_body py env json authorised b fault d)
  body-Through authorised (body_lost p) h = cc
  body-Through false (body_read v) h = cc
  body-Through true (body_read v) h = over-Through (read_store py env json false d.store) v h

  put_targets-Through : (q : Request) → Through (put_targets py env json q fault d)
  unfolding put_targets
  put_targets-Through q = go (str_eq q.route "/api/targets")
    where
      go :
          (b : Bool)
          → Through (
              if b
              then put_body py env json (is_authorised env q) (read_json_body q) fault d
              else (not_found, d))
      go true h = body-Through (is_authorised env q) (read_json_body q) h
      go false h = cc

abbrev entries_in : PutReply → List Entry
entries_in (replaced es) = es
entries_in _ = []

pub reply_of-saved : (o : Saved) (es : List Entry) → reply_of o ≡ replaced es → o ≡ saved es
reply_of-saved (saved us) es h = ap saved (ap entries_in h)
reply_of-saved (rejected r) es h = cc
reply_of-saved (failed f) es h = cc

pub replaced-saved :
    (a : Saved × Disk) (es : List Entry) → (put_saved a).0 ≡ replaced es → a.0 ≡ saved es
replaced-saved (o, d) es h = reply_of-saved o es h

-- After a save that a PUT has answered with its list, a GET answers with that list, as managed by the
-- dashboard and whatever the seed holds, if `json.loads` inverts `json.dumps` at its document.
pub get_targets-put_targets :
    (py : Python) (env : Env) (show : Show) (json : Json) (q : Request) (fault : Option WriteFault)
    (d : Disk) (seed : SeedFile) (es : List Entry)
    → json.loads (json.dumps (document es)) ≡ some (document es)
    → (put_targets py env json q fault d).0 ≡ replaced es
    → get_targets py env show json ((put_targets py env json q fault d).1).store seed
      ≡ listing (record {
        targets = es;
        managed = true;
        seed_error = none;
        writable = is_some (write_token env);
      })
unfolding get_targets
get_targets-put_targets py env show json q fault d seed es codec h =
    let (entries, through) = put_targets-Through py env json fault d es q h in
    let outcome =
      replaced-saved (write_store py env json entries fault d) es
        (subst (λ (a : PutReply × Disk). a.0 ≡ replaced es) through h) in
    let read = read_store-write_store py env env json entries fault d es codec outcome in
    rw
      (subst (λ (a : PutReply × Disk). read_store py env json false a.1.store ≡ stored es)
        (sym through) read)
      refl
