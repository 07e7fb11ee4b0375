-- ===== src/Targetctl/Shown.antt =====
-- targetctl.py, `_snapshot`: the list that a command starts from.
use vigil_sre.Prelude.{◌≡◌, refl, ap, sym, ◌∙◌, subst, false, Option, none, some, List, [], map}
use vigil_sre.Prelude.Dict.{lookup}
use vigil_sre.Targets.Value.{Value, elements, items, of_items, elements-of_elements}
use vigil_sre.Targets.Checked.{Checked, ok, refused, Each}
use vigil_sre.Targets.Url.{Python}
use vigil_sre.Targets.Entry.{Entry, Env, entry_value}
use vigil_sre.Targets.Entry.Again.{Accepted}
use vigil_sre.Targets.Store.{
  validate_all, entries_of, StoreFile, absent, unreadable, content, StoreRead, never_written,
  stored, unusable, Disk, Json, read_store, read_of, read_value,
}
use vigil_sre.Targets.Store.Kept.{validate_all-IsList}
use vigil_sre.Targets.Load.{SeedFile, Show}
use vigil_sre.Targets.Seed.{read_seed, read_seed-again}
use vigil_sre.Api.{
  Listing, GetReply, listing, unreadable_store, seed_listing, get_over, get_targets,
}
use vigil_sre.Targetctl.Settings.{Try, good, bad}
use vigil_sre.Targetctl.Wire.{
  Way, arrives, request_lost, answer_lost, Payload, Service, call_get, listing_value, snapshot,
}

module _ (py : Python) (env : Env) (show : Show) (json : Json) where
  abbrev entries_of_read : StoreRead → List Entry
  entries_of_read (stored es) = es
  entries_of_read never_written = []
  entries_of_read (unusable t) = []

  abbrev targets_of : GetReply → List Entry
  targets_of (listing l) = l.targets
  targets_of (unreadable_store t) = []

  -- The entries that a read of the store returns are accepted.
  read_of-Accepted :
      (c : Checked (List Entry))
      → ((es : List Entry) → c ≡ ok es → Each (Accepted py) es)
      → Each (Accepted py) (entries_of_read (read_of c))
  read_of-Accepted (ok es) p = p es refl
  read_of-Accepted (refused r) p = tt

  read_value-Accepted :
      (o : Option Value) → Each (Accepted py) (entries_of_read (read_value py env json false o))
  read_value-Accepted none = tt
  read_value-Accepted (some v) =
      read_of-Accepted (validate_all py env false (entries_of v))
        (λ (es : List Entry) e. (validate_all-IsList py env false (entries_of v) e).accepted)

  read_store-Accepted :
      (f : StoreFile) → Each (Accepted py) (entries_of_read (read_store py env json false f))
  unfolding read_store
  read_store-Accepted absent = tt
  read_store-Accepted unreadable = tt
  read_store-Accepted (content s) = read_value-Accepted (json.loads s)

  seed_listing-Accepted :
      (c : Checked (List Entry))
      → ((es : List Entry) → c ≡ ok es → Each (Accepted py) es)
      → Each (Accepted py) (seed_listing py env show json c).targets
  seed_listing-Accepted (ok es) p = p es refl
  seed_listing-Accepted (refused r) p = tt

  get_over-Accepted :
      (r : StoreRead) (seed : SeedFile)
      → Each (Accepted py) (entries_of_read r)
      → Each (Accepted py) (targets_of (get_over py env show json r seed))
  get_over-Accepted (stored es) seed a = a
  get_over-Accepted (unusable t) seed a = tt
  get_over-Accepted never_written seed a =
      seed_listing-Accepted (read_seed py env show seed) (λ (es : List Entry) e.
        (validate_all-IsList py env false _ (read_seed-again py env env show seed es e)).accepted)

  -- The entries that a GET answers with are accepted.
  get_targets-Accepted :
      (f : StoreFile) (seed : SeedFile)
      → Each (Accepted py) (targets_of (get_targets py env show json f seed))
  unfolding get_targets
  get_targets-Accepted f seed =
      get_over-Accepted (read_store py env json false f) seed (read_store-Accepted f)

abbrev values_of : Try Payload → List Value
values_of (good s) = s.targets
values_of (bad p) = []

call_get-good :
    (sv : Service) (way : Way) (r : GetReply) (s : Payload)
    → ((v : Value) → sv.carry v ≡ some v)
    → call_get sv way r ≡ good s
    → (l : Listing) × (r ≡ listing l) × (s.targets ≡ map entry_value l.targets)
unfolding listing_value lookup items elements of_items
call_get-good sv arrives (unreadable_store t) s c h = cc
call_get-good sv request_lost (unreadable_store t) s c h = cc
call_get-good sv answer_lost (unreadable_store t) s c h = cc
call_get-good sv request_lost (listing l) s c h = cc
call_get-good sv answer_lost (listing l) s c h = cc
call_get-good sv arrives (listing l) s c h =
    let read = rw (c (listing_value sv.message l)) at h in
    (l, refl, sym (ap values_of read) ∙ elements-of_elements (map entry_value l.targets))

-- A snapshot is what a GET lists, and its entries are accepted.
pub snapshot-good :
    (sv : Service) (way : Way) (d : Disk) (s : Payload)
    → ((v : Value) → sv.carry v ≡ some v)
    → snapshot sv way d ≡ good s
    → (l : Listing) × (get_targets sv.py sv.env sv.show sv.json d.store sv.seed ≡ listing l)
      × (s.targets ≡ map entry_value l.targets)
      × Each (Accepted sv.py) l.targets
unfolding snapshot
snapshot-good sv way d s c h =
    let reply = get_targets sv.py sv.env sv.show sv.json d.store sv.seed in
    let (l, e, t) = call_get-good sv way reply s c h in
    let a = get_targets-Accepted sv.py sv.env sv.show sv.json d.store sv.seed in
    (
      l,
      e,
      t,
      subst (λ (r : GetReply). Each (Accepted sv.py) (targets_of sv.py sv.env sv.show sv.json r)) e
          a,
    )
