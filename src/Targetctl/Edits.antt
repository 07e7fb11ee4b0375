-- ===== src/Targetctl/Edits.antt =====
-- targetctl.py, `cmd_add` and `cmd_remove`: what a command that succeeds has done to the list.
use vigil_sre.Prelude.{
  ◌≡◌, refl, ap, sym, ◌∙◌, subst, String, Bool, true, false, not, ◌&&◌, some, List, [], ◌∷◌, ◌++◌,
  map, ◌==◌, length,
}
use vigil_sre.Prelude.Dict.{contains}
use vigil_sre.Targets.Text.{strip}
use vigil_sre.Targets.Value.{Value, text, list_of, dict_of}
use vigil_sre.Targets.Checked.{ok, Each}
use vigil_sre.Targets.Entry.{Entry, Env, validate_entry, entry_value}
use vigil_sre.Targets.Entry.Again.{Accepted}
use vigil_sre.Targets.Store.{validate_all, url_of, Disk, content, document}
use vigil_sre.Api.{Listing, listing, get_targets}
use vigil_sre.Targetctl.Settings.{Problem, Words, Try, good, bad, parse_settings}
use vigil_sre.Targetctl.Wire.{
  Payload, Service, token_of, is_managed, is_seed_lost, any_url, snapshot,
}
use vigil_sre.Targetctl.{
  raise_if, Outcome, done, Net, is_empty, kept_without, put_all, add_to, add_with, cmd_add,
  remove_from, remove_with, cmd_remove,
}
use vigil_sre.Targetctl.Kept.{validate_all-added, validate_all-kept}
use vigil_sre.Targetctl.Put.{put_all-done}
use vigil_sre.Targetctl.Shown.{snapshot-good}
use vigil_sre.Targetctl.Without.{
  any_url-entry_value, without, kept_without-entry_value, Each-without, was_listed,
  is_empty-entry_value,
}

-- A command that prints a list has passed the test in front of the rest.
raise_if-done :
    (test : Bool) (p : Problem) (d : Disk) (rest : Outcome × Disk) {vs : List Value} {n : Bool}
    → (raise_if test p d rest).0 ≡ done vs n
    → (test ≡ false) × (rest.0 ≡ done vs n)
raise_if-done true p d rest h = cc
raise_if-done false p d rest h = (refl, h)

module _ (sv : Service) (net : Net) where
  -- The list that a command started from, and the one that it has left, in the file of the store
  -- and on the screen.
  pub record Replacing (d : Disk) (answer : Outcome × Disk)
      (change : List Entry → List Entry → Type 0) : Type 0 where
    pub before : Listing
    pub after : List Entry
    pub notice : Bool
    pub listed : get_targets sv.py sv.env sv.show sv.json d.store sv.seed ≡ listing before
    pub changed : change before.targets after
    pub printed : answer.0 ≡ done (map entry_value after) notice
    pub file : answer.1.store ≡ content (sv.json.dumps (document after))

  -- One entry goes last. It is the validated one of the command, and its URL was not in the list.
  abbrev pub AddedTo : Words → List String → String → List Entry → List Entry → Type 0
  AddedTo words pairs url before after =
      (settings : List (String × Value)) × (e : Entry) × (parse_settings words pairs
        ≡ good settings)
      × (validate_entry sv.py sv.env true (dict_of (("url", text (strip url)) ∷ settings)) ≡ ok e)
      × (contains (map url_of before) (strip url) ≡ false)
      × (after ≡ before ++ e ∷ [])

  -- The URL's entries are gone and all others are left; an empty list was allowed.
  abbrev pub RemovedFrom : Bool → String → List Entry → List Entry → Type 0
  RemovedFrom allow_empty url before after =
      (after ≡ without (strip url) before)
      × (contains (map url_of before) (strip url) ≡ true)
      × ((length after == 0 && not allow_empty) ≡ false)

  -- From the answer to the PUT.
  put_all-Replacing :
      (token : String) (notice : Bool) (targets : List Value) (allow : Bool) (d : Disk)
      (s : Payload) (vs : List Value) (n : Bool) (change : List Entry → List Entry → Type 0)
      → ((v : Value) → sv.carry v ≡ some v)
      → snapshot sv net.get_way d ≡ good s
      → ((l : Listing)
          → s.targets ≡ map entry_value l.targets
          → Each (Accepted sv.py) l.targets
          → (us : List Entry) → validate_all sv.py sv.env true (some (list_of targets)) ≡ ok us
          → change l.targets us)
      → (put_all sv net token notice targets allow (net.meanwhile d)).0 ≡ done vs n
      → Replacing d (put_all sv net token notice targets allow (net.meanwhile d)) change
  put_all-Replacing token notice targets allow d s vs n change c e f h =
      let (l, listed, shown, a) = snapshot-good sv net.get_way d s c e in
      let (us, valid, file, printed) =
        put_all-done sv net token notice targets allow (net.meanwhile d) vs n c h in
      record {
        before = l;
        after = us;
        notice = n;
        listed = listed;
        changed = f l shown a us valid;
        printed = h ∙ ap (λ (ws : List Value). done ws n) printed;
        file = file;
      }

  added :
      (words : Words) (pairs : List String) (url : String) (settings : List (String × Value))
      (es : List Entry) {vs : List Value}
      → parse_settings words pairs ≡ good settings
      → any_url (strip url) vs ≡ false
      → vs ≡ map entry_value es
      → Each (Accepted sv.py) es
      → (us : List Entry)
      → validate_all sv.py sv.env true
          (some (list_of (vs ++ dict_of (("url", text (strip url)) ∷ settings) ∷ [])))
        ≡ ok us
      → AddedTo words pairs url es us
  added words pairs url settings es p new shown a us valid =
      let v = dict_of (("url", text (strip url)) ∷ settings) in
      let (e, accepted, same) = validate_all-added sv.py sv.env es v us a (
        subst
          (λ (ws : List Value).
            validate_all sv.py sv.env true (some (list_of (ws ++ v ∷ []))) ≡ ok us)
          shown valid) in
      (
        settings,
        e,
        p,
        accepted,
        sym (any_url-entry_value (strip url) es) ∙ sym (ap (any_url (strip url)) shown) ∙ new,
        same,
      )

  removed :
      (allow_empty : Bool) (url : String) (es : List Entry) {vs : List Value}
      → (length (kept_without (strip url) vs) == length vs) ≡ false
      → (is_empty (kept_without (strip url) vs) && not allow_empty) ≡ false
      → vs ≡ map entry_value es
      → Each (Accepted sv.py) es
      → (us : List Entry)
      → validate_all sv.py sv.env true (some (list_of (kept_without (strip url) vs))) ≡ ok us
      → RemovedFrom allow_empty url es us
  removed allow_empty url es {vs} found few shown a us valid =
      let u = strip url in
      let left = ap (kept_without u) shown ∙ kept_without-entry_value u es in
      let same =
        validate_all-kept sv.py sv.env (without u es) us (Each-without (Accepted sv.py) u es a) (
          subst (λ (ws : List Value). validate_all sv.py sv.env true (some (list_of ws)) ≡ ok us)
            left valid) in
      let found' = subst (λ (ws : List Value). (length ws == length vs) ≡ false) left found in
      let few' = subst (λ (ws : List Value). (is_empty ws && not allow_empty) ≡ false) left few in
      (
        same,
        was_listed u es (
            subst
              (λ (ws : List Value). (length (map entry_value (without u es)) == length ws) ≡ false)
              shown found'),
        rw same (rw (is_empty-entry_value (without u es)) at few'),
      )

  module _ (c : (v : Value) → sv.carry v ≡ some v) (d : Disk) (vs : List Value) (n : Bool) where
    add_to-done :
        (words : Words) (pairs : List String) (url token : String)
        (settings : List (String × Value)) (r : Try Payload)
        → parse_settings words pairs ≡ good settings
        → snapshot sv net.get_way d ≡ r
        → (add_to sv net settings (strip url) token r d).0 ≡ done vs n
        → Replacing d (add_to sv net settings (strip url) token r d) (AddedTo words pairs url)
    add_to-done words pairs url token settings (bad b) p e h = cc
    add_to-done words pairs url token settings (good s) p e h =
        let new_entry = dict_of (("url", text (strip url)) ∷ settings) in
        let (lost, h1) = raise_if-done (is_seed_lost s) _ _ _ h in
        let (known, h2) = raise_if-done (any_url (strip url) s.targets) _ _ _ h1 in
        rw (lost, known)
          (put_all-Replacing token (not (is_managed s)) (s.targets ++ new_entry ∷ []) false d s vs n
            (AddedTo words pairs url) c e
            (λ (l : Listing) shown a us valid.
              added words pairs url settings l.targets p known shown a us valid)
            h2)

    remove_from-done :
        (allow_empty : Bool) (url token : String) (r : Try Payload)
        → snapshot sv net.get_way d ≡ r
        → (remove_from sv net allow_empty (strip url) token r d).0 ≡ done vs n
        → Replacing d
            (remove_from sv net allow_empty (strip url) token r d)
            (RemovedFrom allow_empty url)
    remove_from-done allow_empty url token (bad b) e h = cc
    remove_from-done allow_empty url token (good s) e h =
        let kept = kept_without (strip url) s.targets in
        let (lost, h1) = raise_if-done (is_seed_lost s) _ _ _ h in
        let (found, h2) = raise_if-done (length kept == length s.targets) _ _ _ h1 in
        let (few, h3) = raise_if-done (is_empty kept && not allow_empty) _ _ _ h2 in
        rw (lost, found, few)
          (put_all-Replacing token (not (is_managed s)) kept (is_empty kept) d s vs n
            (RemovedFrom allow_empty url) c e
            (λ (l : Listing) shown a us valid.
              removed allow_empty url l.targets found few shown a us valid)
            h3)

-- If every JSON value arrives as it was sent, a command "add" that reports success has replaced the
-- stored list by the one that its GET listed, unchanged and in order, with one entry behind it: the
-- validated entry of its URL and settings, whose URL was not listed. What others saved in between is
-- gone. The list that it counts is the stored one.
pub cmd_add-Replacing :
    (sv : Service) (net : Net) (words : Words) (client : Env) (pairs : List String) (url : String)
    (d : Disk) (vs : List Value) (n : Bool)
    → ((v : Value) → sv.carry v ≡ some v)
    → (cmd_add sv net words client pairs url d).0 ≡ done vs n
    → Replacing sv net d (cmd_add sv net words client pairs url d) (AddedTo sv net words pairs url)
unfolding cmd_add
cmd_add-Replacing sv net words client pairs url d vs n c h =
    go (parse_settings words pairs) (token_of client) refl h
  where
    go :
        (settings : Try (List (String × Value))) (token : Try String)
        → parse_settings words pairs ≡ settings
        → (add_with sv net settings (strip url) token d).0 ≡ done vs n
        → Replacing sv net d
            (add_with sv net settings (strip url) token d)
            (AddedTo sv net words pairs url)
    go (bad p) token e h = cc
    go (good settings) (bad p) e h = cc
    go (good settings) (good token) e h =
        add_to-done sv net c d vs n words pairs url token settings (snapshot sv net.get_way d) e
          refl h

-- If every JSON value arrives as it was sent, a command "remove" that reports success has replaced
-- the stored list by the one that its GET listed without the entries of its URL, of which there was
-- one, all others unchanged and in order; the list that is left has an entry, or an empty one was
-- allowed. The list that it counts is the stored one.
pub cmd_remove-Replacing :
    (sv : Service) (net : Net) (client : Env) (allow_empty : Bool) (url : String) (d : Disk)
    (vs : List Value) (n : Bool)
    → ((v : Value) → sv.carry v ≡ some v)
    → (cmd_remove sv net client allow_empty url d).0 ≡ done vs n
    → Replacing sv net d
        (cmd_remove sv net client allow_empty url d)
        (RemovedFrom sv net allow_empty url)
unfolding cmd_remove
cmd_remove-Replacing sv net client allow_empty url d vs n c h = go (token_of client) h
  where
    go :
        (token : Try String)
        → (remove_with sv net allow_empty (strip url) token d).0 ≡ done vs n
        → Replacing sv net d
            (remove_with sv net allow_empty (strip url) token d)
            (RemovedFrom sv net allow_empty url)
    go (bad p) h = cc
    go (good token) h =
        remove_from-done sv net c d vs n allow_empty url token (snapshot sv net.get_way d) refl h
