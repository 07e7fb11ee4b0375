-- ===== src/Targets/Load/Source.antt =====
-- main.py, `load_targets`: which file the targets come from, and that each is listed once.
use vigil_sre.Prelude.{
  ◌≡◌, ◌≢◌, refl, ap, sym, subst, false, not, List, [], Option, none, some, map,
}
use vigil_sre.Targets.Value.{Value}
use vigil_sre.Targets.Checked.{
  Checked, ok, refused, guard, bind-ok, then-ok, ok-injective, check_each, check_each-map,
}
use vigil_sre.Targets.Url.{Python}
use vigil_sre.Targets.Entry.{Entry, Env}
use vigil_sre.Targets.Store.{
  check_unseen, url_of, validate_all, StoreFile, absent, unreadable, content, Json, read_store,
  read_of, read_value, entries_of,
}
use vigil_sre.Targets.Store.Distinct.{Distinct, check_unseen-Distinct}
use vigil_sre.Targets.Store.Kept.{validate_all-Distinct}
use vigil_sre.Targets.Target.{Loaded, resolve_given, if_any, target_of_entry, target_url}
use vigil_sre.Targets.Load.{
  SeedFile, missing, undecodable, not_yaml, parsed, Show, target_of_value, seed_entries,
  seed_targets, load_seed, load_from, load_targets, is_empty,
}

module _ (py : Python) (env : Env) (show : Show) (json : Json) where
  -- The seed counts only if there is no file of the store: one that is there and unusable, or that
  -- holds no target, is not replaced by the seed.
  pub load_targets-store :
      (store : StoreFile) (seed seed' : SeedFile)
      → store ≢ absent
      → load_targets py env show json store seed ≡ load_targets py env show json store seed'
  unfolding load_targets load_from read_store
  load_targets-store absent seed seed' h = absurd (h refl)
  load_targets-store unreadable seed seed' h = refl
  load_targets-store (content s) seed seed' h = same (json.loads s)
    where
      checked :
          (c : Checked (List Entry))
          → load_from py env show (read_of c) seed ≡ load_from py env show (read_of c) seed'
      checked (ok es) = refl
      checked (refused r) = refl

      same :
          (v : Option Value)
          → load_from py env show (read_value py env json false v) seed
            ≡ load_from py env show (read_value py env json false v) seed'
      same none = refl
      same (some v) = checked (validate_all py env false (entries_of v))

  target_of_entry-url : (e : Entry) (t : Loaded) → target_of_entry env e ≡ ok t → t.url ≡ e.url
  unfolding target_of_entry
  target_of_entry-url e t h =
      let (r, e0, h0) = bind-ok (resolve_given env (if_any e.expect_substring)) _ h in
      sym (ap target_url (ok-injective h0))

  stored-Distinct :
      (es : List Entry) (ts : List Loaded)
      → Distinct (map url_of es)
      → check_each (target_of_entry env) es ≡ ok ts
      → Distinct (map target_url ts)
  stored-Distinct es ts d h =
      rw (check_each-map (target_of_entry env) target_url url_of target_of_entry-url es h) d

  seed_targets-Distinct :
      (vs : List Value) (ts : List Loaded)
      → seed_targets py env show vs ≡ ok ts
      → Distinct (map target_url ts)
  unfolding seed_targets
  seed_targets-Distinct vs ts h =
      let (us, e, h0) = bind-ok (check_each (target_of_value py env show) vs) _ h in
      let (x, some_, h1) = bind-ok (guard (not (is_empty us)) _) _ h0 in
      let (unseen, same) = then-ok (check_unseen [] (map target_url us)) h1 in
      subst (λ us. Distinct (map target_url us)) same
        (check_unseen-Distinct [] (map target_url us) unseen).1

  load_seed-Distinct :
      (seed : SeedFile) (ts : List Loaded)
      → load_seed py env show seed ≡ ok ts
      → Distinct (map target_url ts)
  unfolding load_seed
  load_seed-Distinct (parsed v) ts h =
      let (vs, e, h0) = bind-ok (seed_entries v) _ h in seed_targets-Distinct vs ts h0
  load_seed-Distinct missing ts h = cc
  load_seed-Distinct undecodable ts h = cc
  load_seed-Distinct not_yaml ts h = cc

  -- Whichever file they come from, no two targets of a round have the same URL.
  pub load_targets-Distinct :
      (store : StoreFile) (seed : SeedFile) (ts : List Loaded)
      → load_targets py env show json store seed ≡ ok ts
      → Distinct (map target_url ts)
  unfolding load_targets load_from read_store
  load_targets-Distinct absent seed ts h = load_seed-Distinct seed ts h
  load_targets-Distinct unreadable seed ts h = cc
  load_targets-Distinct (content s) seed ts h = go (json.loads s) h
    where
      checked :
          (v : Option Value) (c : Checked (List Entry))
          → validate_all py env false v ≡ c
          → load_from py env show (read_of c) seed ≡ ok ts
          → Distinct (map target_url ts)
      checked v (ok es) e h = stored-Distinct es ts (validate_all-Distinct py env false v es e).1 h
      checked v (refused r) e h = cc

      go :
          (o : Option Value)
          → load_from py env show (read_value py env json false o) seed ≡ ok ts
          → Distinct (map target_url ts)
      go none h = cc
      go (some v) h = checked (entries_of v) (validate_all py env false (entries_of v)) refl h
