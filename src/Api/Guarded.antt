-- ===== src/Api/Guarded.antt =====
-- api.py, `do_PUT`: what it takes to change the list of targets.
use vigil_sre.Prelude.{
  ◌≡◌, ◌≢◌, refl, ap, sym, ◌∙◌, ◌⊎◌, inl, inr, String, Bool, true, false, not, ◌&&◌, Option, none,
  some, str_eq, if◌then◌else◌, List, Bool-cases, eq_iff, get_or,
}
use vigil_sre.Targets.Value.{Value}
use vigil_sre.Targets.Url.{Python}
use vigil_sre.Targets.Entry.{Entry, Env}
use vigil_sre.Targets.Store.{
  StoreRead, never_written, stored, unusable, Disk, WriteFault, Json, read_store, write_store,
}
use vigil_sre.Targets.Store.Kept.{write_store-atomic}
use vigil_sre.Api.{
  Request, BodyRead, body_lost, body_read, PutReply, replaced, is_authorised, matches, write_token,
  nonempty, read_json_body, body_entries, allow_empty, is_empty_list, reply_of, put_saved, put_list,
  put_over, put_body, put_targets,
}

-- The store may be replaced: it is not one that is there and unusable.
abbrev pub Usable : StoreRead → Type 0
Usable (unusable t) = ⊥
Usable (stored es) = Unit
Usable never_written = Unit

-- A body that says that an empty list is meant, or does not send one.
abbrev pub Meant : Value → Type 0
Meant body = (is_empty_list (body_entries body) && not (allow_empty body)) ≡ false

module _ (py : Python) (env : Env) (json : Json) where
  -- What a request that changes the list has shown.
  pub record Admitted (q : Request) (d : Disk) : Type 0 where
    pub route : q.route ≡ "/api/targets"
    pub token : write_token env ≡ some q.token
    pub nonempty_token : q.token ≢ ""
    pub usable : Usable (read_store py env json false d.store)
    pub body : (v : Value) × (read_json_body q ≡ body_read v) × Meant v

  -- The store keeps its content, or the request was entitled to change it.
  abbrev Change : Type 0 → Disk → PutReply × Disk → Type 0
  Change P d answer =
      (answer.1.store ≡ d.store) ⊎ (P × ((es : List Entry) × (answer.0 ≡ replaced es)))

  save-Change :
      (entries : Value) (fault : Option WriteFault) (d : Disk)
      → Change Unit d (put_saved (write_store py env json entries fault d))
  save-Change entries fault d = elim (write_store-atomic py env json entries fault d).1 [
    | inl (unsaved, same) ↦ inl same
    | inr (es, e, new) ↦ inr (tt, (es, ap reply_of e))
  ]

  list-Change :
      (blank : Bool) (entries : Value) (fault : Option WriteFault) (d : Disk)
      → Change (blank ≡ false) d (put_list py env json blank entries fault d)
  list-Change true entries fault d = inl refl
  list-Change false entries fault d = elim (save-Change entries fault d) [
    | inl same ↦ inl same
    | inr (u, r) ↦ inr (refl, r)
  ]

  over-Change :
      (r : StoreRead) (v : Value) (fault : Option WriteFault) (d : Disk)
      → Change (Usable r × Meant v) d (put_over py env json r v fault d)
  unfolding put_over
  over-Change (unusable t) v fault d = inl refl
  over-Change (stored es) v fault d = elim (list-Change _ (body_entries v) fault d) [
    | inl same ↦ inl same
    | inr (m, r) ↦ inr ((tt, m), r)
  ]
  over-Change never_written v fault d = elim (list-Change _ (body_entries v) fault d) [
    | inl same ↦ inl same
    | inr (m, r) ↦ inr ((tt, m), r)
  ]

  abbrev BodyMeant : BodyRead → Type 0
  BodyMeant b = (v : Value) × (b ≡ body_read v) × Meant v

  body-Change :
      (authorised : Bool) (b : BodyRead) (fault : Option WriteFault) (d : Disk)
      → Change
          ((authorised ≡ true) × (Usable (read_store py env json false d.store) × BodyMeant b))
          d
          (put_body py env json authorised b fault d)
  body-Change authorised (body_lost p) fault d = inl refl
  body-Change false (body_read v) fault d = inl refl
  body-Change true (body_read v) fault d =
      elim (over-Change (read_store py env json false d.store) v fault d) [
        | inl same ↦ inl same
        | inr ((usable, m), r) ↦ inr ((refl, (usable, (v, refl, m))), r)
      ]

  matches-token : (o : Option String) (s : String) → matches o s ≡ true → o ≡ some s
  matches-token none s h = cc
  matches-token (some t) s h = ap some (sym ((eq_iff s t).0 h))

  nonempty-nonempty : (o : Option String) (s : String) → nonempty o ≡ some s → s ≢ ""
  nonempty-nonempty none s h = cc
  nonempty-nonempty (some t) s h = go (str_eq t "") refl h
    where
      go : (b : Bool) → str_eq t "" ≡ b → (if b then none else some t) ≡ some s → s ≢ ""
      go true e h = cc
      go false e h = let same = ap (λ o. get_or o t) h in λ q. cc (e, (eq_iff t "").1 (same ∙ q))

  write_token-nonempty : (s : String) → write_token env ≡ some s → s ≢ ""
  unfolding write_token
  write_token-nonempty s h = nonempty-nonempty (env "API_WRITE_TOKEN") s h

  -- A PUT leaves the content of the store as it was, or it answers with the new list, and then the
  -- request went to "/api/targets" with the configured token, which is not empty, the store's file
  -- was absent or usable, and the body sent a list that is not empty or said that an empty one is
  -- meant.
  pub put_targets-Admitted :
      (q : Request) (fault : Option WriteFault) (d : Disk)
      → (((put_targets py env json q fault d).1).store ≡ d.store)
        ⊎ (Admitted q d
            × ((es : List Entry) × ((put_targets py env json q fault d).0 ≡ replaced es)))
  unfolding put_targets is_authorised
  put_targets-Admitted q fault d = elim (Bool-cases (str_eq q.route "/api/targets")) [
    | inr e ↦ rw e (inl refl)
    | inl e ↦ rw e (elim (body-Change (is_authorised env q) (read_json_body q) fault d) [
      | inl same ↦ inl same
      | inr ((auth, (usable, meant)), r) ↦ inr (
        record {
          route = (eq_iff q.route "/api/targets").0 e;
          token = matches-token (write_token env) q.token auth;
          nonempty_token =
              write_token-nonempty q.token (matches-token (write_token env) q.token auth);
          usable = usable;
          body = meant;
        },
        r,
      )
    ])
  ]
