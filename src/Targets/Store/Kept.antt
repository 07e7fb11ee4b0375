-- ===== src/Targets/Store/Kept.antt =====
-- targetstore.py: what is written to the store is what is read from it.
use vigil_sre.Prelude.{
  leb-true, length-map, ◌≤◌, ◌≡◌, refl, ap, subst, ◌⊎◌, inl, inr, Bool, true, false, List, [],
  Option, none, some, map, length, leb, arith,
}
use vigil_sre.Targets.Value.{
  Value, array, elements, elements-of_elements, of_items, list_of, null, non_finite, boolean,
  integer, decimal, text, object,
}
use vigil_sre.Targets.Checked.{
  Checked, ok, refused, guard, ◌>>=◌, ◌>>◌, bind-ok, guard-ok, then-ok, check_each, Each,
  check_each-length, check_each-Each, check_each-again,
}
use vigil_sre.Targets.Url.{Python}
use vigil_sre.Targets.Entry.{Entry, Env, validate_entry, entry_value}
use vigil_sre.Targets.Entry.Again.{Accepted, validate_entry-Accepted, Accepted-again}
use vigil_sre.Targets.Store.{
  check_unseen, url_of, validate_all, content, stored, entries_of, Disk, WriteFault, mkdir_fails,
  create_fails, write_fails, replace_fails, Saved, saved, rejected, failed, write_payload, document,
  Json, read_store, write_store, write_checked,
}
use vigil_sre.Targets.Store.Distinct.{Distinct, check_unseen-Distinct}

-- The lists that the store holds.
pub record IsList (py : Python) (es : List Entry) : Type 0 where
  pub few : length es ≤ 200
  pub accepted : Each (Accepted py) es
  pub unseen : check_unseen [] (map url_of es) ≡ ok tt

module _ (py : Python) (env : Env) (check_env : Bool) where
  validate_elements :
      (vs : List Value) {es : List Entry}
      → leb (length vs) 200 ≡ true
      → (check_each (validate_entry py env check_env) vs >>= λ es.
          check_unseen [] (map url_of es) >> ok es)
        ≡ ok es
      → IsList py es
  validate_elements vs few h =
      let f = validate_entry py env check_env in
      let (es, e, h1) = bind-ok (check_each f vs) _ h in
      let (unseen, same) = then-ok (check_unseen [] (map url_of es)) h1 in
      let count = check_each-length f vs e in
      subst (IsList py) same (record {
        few = ground arith;
        accepted =
            check_each-Each f (Accepted py) (λ v x. validate_entry-Accepted py env check_env v) vs
              e;
        unseen = unseen;
      })

  pub validate_all-IsList :
      (v : Option Value) {es : List Entry} → validate_all py env check_env v ≡ ok es → IsList py es
  unfolding validate_all
  validate_all-IsList (some (array vs)) h =
      let (u, few, h0) = bind-ok (guard (leb (length (elements vs)) 200) _) _ h in
      validate_elements (elements vs) (guard-ok _ _ few) h0
  validate_all-IsList none h = cc
  validate_all-IsList (some null) h = cc
  validate_all-IsList (some (non_finite x)) h = cc
  validate_all-IsList (some (boolean b)) h = cc
  validate_all-IsList (some (integer n)) h = cc
  validate_all-IsList (some (decimal m p)) h = cc
  validate_all-IsList (some (text s)) h = cc
  validate_all-IsList (some (object fs)) h = cc

  -- A validated list has at most 200 targets, and no URL twice.
  pub validate_all-Distinct :
      (v : Option Value) (es : List Entry)
      → validate_all py env check_env v ≡ ok es
      → (length es ≤ 200) × Distinct (map url_of es)
  validate_all-Distinct v es h =
      let l = validate_all-IsList v h in
      (l.few, (check_unseen-Distinct [] (map url_of es) l.unseen).1)

-- A validated list, written as a value, is validated to itself, whatever the environment.
pub validate_all-again :
    (py : Python) (env env' : Env) (check_env : Bool) (v : Option Value) (es : List Entry)
    → validate_all py env check_env v ≡ ok es
    → validate_all py env' false (some (list_of (map entry_value es))) ≡ ok es
unfolding validate_all
validate_all-again py env env' check_env v es h =
    let l = validate_all-IsList py env check_env v h in
    let each =
      check_each-again (validate_entry py env' false) (Accepted py) entry_value
        (Accepted-again py env') es l.accepted in
    rw (elements-of_elements (map entry_value es)) (
      rw (length-map entry_value es, leb-true (length es) 200 l.few) (rw each (rw (l.unseen) refl)))

abbrev entries_saved : Saved → List Entry
entries_saved (saved es) = es
entries_saved (rejected r) = []
entries_saved (failed fault) = []

pub saved-injective : {es us : List Entry} → saved es ≡ saved us → es ≡ us
saved-injective h = ap entries_saved h

module _ (py : Python) (env env' : Env) (json : Json) where
  -- What is read of a document that was written.
  read_document :
      (v : Value) (es : List Entry)
      → json.loads (json.dumps (document es)) ≡ some (document es)
      → validate_all py env true (some v) ≡ ok es
      → read_store py env' json false (content (json.dumps (document es))) ≡ stored es
  unfolding read_store document entries_of of_items
  read_document v es codec h =
      rw codec (rw (validate_all-again py env env' true (some v) es h) refl)

  -- If `json.loads` inverts `json.dumps` at the document of a list that `write_store` has stored, then
  -- `read_store` returns that list, in any environment.
  pub read_store-write_store :
      (entries : Value) (fault : Option WriteFault) (d : Disk) (es : List Entry)
      → json.loads (json.dumps (document es)) ≡ some (document es)
      → (write_store py env json entries fault d).0 ≡ saved es
      → read_store py env' json false ((write_store py env json entries fault d).1).store
        ≡ stored es
  unfolding write_store write_payload
  read_store-write_store entries fault d es codec h =
      go fault (validate_all py env true (some entries)) refl h
    where
      go :
          (fault : Option WriteFault) (c : Checked (List Entry))
          → validate_all py env true (some entries) ≡ c
          → (write_checked py env json c fault d).0 ≡ saved es
          → read_store py env' json false ((write_checked py env json c fault d).1).store
            ≡ stored es
      go fault (refused r) e h = cc
      go (some mkdir_fails) (ok us) e h = cc
      go (some create_fails) (ok us) e h = cc
      go (some (write_fails part)) (ok us) e h = cc
      go (some replace_fails) (ok us) e h = cc
      go none (ok us) e h =
          let same = saved-injective h in rw same (read_document entries es codec (rw (← same) e))

abbrev pub IsSaved : Saved → Type 0
IsSaved (saved es) = Unit
IsSaved (rejected r) = ⊥
IsSaved (failed fault) = ⊥

-- A save is all or nothing: either it reports the new list and the store's file holds that list's
-- document, or the store's file is as it was; no temporary file is left in either case.
pub write_store-atomic :
    (py : Python) (env : Env) (json : Json) (entries : Value) (fault : Option WriteFault) (d : Disk)
    → let (outcome, d') = write_store py env json entries fault d in
      (d'.temporaries ≡ d.temporaries)
      × (((¬ IsSaved outcome) × (d'.store ≡ d.store))
          ⊎ ((es : List Entry) × (outcome ≡ saved es)
              × (d'.store ≡ content (json.dumps (document es)))))
unfolding write_store write_payload
write_store-atomic py env json entries fault d = go (validate_all py env true (some entries)) fault
  where
    go :
        (c : Checked (List Entry)) (fault : Option WriteFault)
        → let (outcome, d') = write_checked py env json c fault d in
          (d'.temporaries ≡ d.temporaries)
          × (((¬ IsSaved outcome) × (d'.store ≡ d.store))
              ⊎ ((es : List Entry) × (outcome ≡ saved es)
                  × (d'.store ≡ content (json.dumps (document es)))))
    go (refused r) fault = (refl, inl (λ h. h, refl))
    go (ok es) (some mkdir_fails) = (refl, inl (λ h. h, refl))
    go (ok es) (some create_fails) = (refl, inl (λ h. h, refl))
    go (ok es) (some (write_fails part)) = (refl, inl (λ h. h, refl))
    go (ok es) (some replace_fails) = (refl, inl (λ h. h, refl))
    go (ok es) none = (refl, inr (es, refl, refl))
