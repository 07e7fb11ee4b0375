-- ===== src/Api.antt =====
-- api.py: the endpoint "/api/targets", over the target store.
pub mod Guarded
pub mod Listed
use vigil_sre.Prelude.{
  ℕ, ◌*◌, String, Bool, true, false, not, ◌&&◌, Option, none, some, str_eq, leb, if◌then◌else◌,
  List, [], is_some,
}
use vigil_sre.Prelude.Int.{ℤ, pos, negsuc}
use vigil_sre.Prelude.Dict.{lookup}
use vigil_sre.Targets.Value.{Value, null, boolean, array, no_value, object, items}
use vigil_sre.Targets.Checked.{Checked, ok, refused, Refusal}
use vigil_sre.Targets.Url.{Python}
use vigil_sre.Targets.Entry.{Entry, Env}
use vigil_sre.Targets.Store.{
  StoreFile, StoreRead, never_written, stored, unusable, Trouble, Disk, WriteFault, Saved, saved,
  rejected, failed, Json, read_store, write_store,
}
use vigil_sre.Targets.Load.{SeedFile, Show}
use vigil_sre.Targets.Seed.{read_seed}

abbrev pub max_body_bytes : ℕ
max_body_bytes = 256 * 1024

-- The header "Content-Length": `int` of it.
pub data Length : Type 0 where
  not_given not_a_number : Length
  given_length : ℤ → Length

pub record Request : Type 0 where
  -- the path of the URL, without the slashes at its end
  pub route : String
  pub content_length : Length
  -- what that many bytes of the body decode and parse to
  pub body : ℕ → Option Value
  -- the header "X-Vigil-Token", "" if it is missing
  pub token : String

-- The `ValueError` of `_read_json_body`.
pub data BodyProblem : Type 0 where
  length_not_a_number negative_length body_too_large invalid_json : BodyProblem

-- The answers to a PUT, by their bodies.
pub data PutReply : Type 0 where
  not_found not_authorised empty_without_flag : PutReply
  bad_body : BodyProblem → PutReply
  store_error : Trouble → PutReply
  invalid : Refusal → PutReply
  not_saved : WriteFault → PutReply
  replaced : List Entry → PutReply

-- The status codes.
abbrev pub put_status : PutReply → ℕ
put_status not_found = 404
put_status not_authorised = 401
put_status empty_without_flag = 400
put_status (bad_body p) = 400
put_status (store_error t) = 409
put_status (invalid r) = 400
put_status (not_saved f) = 500
put_status (replaced es) = 200

-- `write_token`: an empty variable is no token.
abbrev pub nonempty : Option String → Option String
nonempty none = none
nonempty (some s) = if str_eq s "" then none else some s

unfoldable pub write_token : Env → Option String
write_token env = nonempty (env "API_WRITE_TOKEN")

abbrev pub matches : Option String → String → Bool
matches none supplied = false
matches (some expected) supplied = str_eq supplied expected

unfoldable pub is_authorised : Env → Request → Bool
unfolding write_token
is_authorised env q = matches (write_token env) q.token

-- The body, or why it is none.
pub data BodyRead : Type 0 where
  body_read : Value → BodyRead
  body_lost : BodyProblem → BodyRead

abbrev pub parsed_body : Option Value → BodyRead
parsed_body none = body_lost invalid_json
parsed_body (some v) = body_read v

abbrev pub body_of_length : Length → (ℕ → Option Value) → BodyRead
body_of_length not_given body = parsed_body (body 0)
body_of_length not_a_number body = body_lost length_not_a_number
body_of_length (given_length (negsuc n)) body = body_lost negative_length
body_of_length (given_length (pos n)) body =
    if leb n max_body_bytes then parsed_body (body n) else body_lost body_too_large

unfoldable pub read_json_body : Request → BodyRead
read_json_body q = body_of_length q.content_length q.body

abbrev pub or_null : Option Value → Value
or_null none = null
or_null (some v) = v

-- `body.get("targets") if isinstance(body, dict) else body`
unfoldable pub body_entries : Value → Value
unfolding lookup items
body_entries (object fs) = or_null (lookup "targets" (items fs))
body_entries v = v

abbrev pub is_exactly_true : Option Value → Bool
is_exactly_true (some (boolean b)) = b
is_exactly_true _ = false

-- `isinstance(body, dict) and body.get("allow_empty") is True`
unfoldable pub allow_empty : Value → Bool
unfolding lookup items
allow_empty (object fs) = is_exactly_true (lookup "allow_empty" (items fs))
allow_empty v = false

-- `entries == []`
abbrev pub is_empty_list : Value → Bool
is_empty_list (array no_value) = true
is_empty_list _ = false

abbrev pub reply_of : Saved → PutReply
reply_of (saved es) = replaced es
reply_of (rejected r) = invalid r
reply_of (failed f) = not_saved f

abbrev pub put_saved : Saved × Disk → PutReply × Disk
put_saved (outcome, d) = (reply_of outcome, d)

module _ (py : Python) (env : Env) (json : Json) where
  -- From the list that was sent on.
  abbrev pub put_list : Bool → Value → Option WriteFault → Disk → PutReply × Disk
  put_list blank entries fault d =
      if blank then (empty_without_flag, d) else put_saved (write_store py env json entries fault d)

  unfoldable pub put_over : StoreRead → Value → Option WriteFault → Disk → PutReply × Disk
  unfolding body_entries allow_empty write_store
  put_over (unusable t) body fault d = (store_error t, d)
  put_over (stored es) body fault d =
      put_list (is_empty_list (body_entries body) && not (allow_empty body)) (body_entries body)
        fault d
  put_over never_written body fault d =
      put_list (is_empty_list (body_entries body) && not (allow_empty body)) (body_entries body)
        fault d

  abbrev pub put_body : Bool → BodyRead → Option WriteFault → Disk → PutReply × Disk
  put_body authorised (body_lost p) fault d = (bad_body p, d)
  put_body authorised (body_read body) fault d =
      if authorised
      then put_over (read_store py env json false d.store) body fault d
      else (not_authorised, d)

  -- `do_PUT`; `fault` is what a save may meet.
  unfoldable pub put_targets : Request → Option WriteFault → Disk → PutReply × Disk
  unfolding read_json_body is_authorised put_over read_store
  put_targets q fault d =
      if str_eq q.route "/api/targets"
      then put_body (is_authorised env q) (read_json_body q) fault d
      else (not_found, d)

-- The body of the answer to a GET.
pub record Listing : Type 0 where
  pub targets : List Entry
  pub managed : Bool
  pub seed_error : Option Refusal
  pub writable : Bool

pub data GetReply : Type 0 where
  unreadable_store : Trouble → GetReply
  listing : Listing → GetReply

module _ (py : Python) (env : Env) (show : Show) (json : Json) where
  abbrev pub seed_listing : Checked (List Entry) → Listing
  seed_listing (ok es) = record {
    targets = es;
    managed = false;
    seed_error = none;
    writable = is_some (write_token env);
  }
  seed_listing (refused r) = record {
    targets = [];
    managed = false;
    seed_error = some r;
    writable = is_some (write_token env);
  }

  abbrev pub get_over : StoreRead → SeedFile → GetReply
  get_over (unusable t) seed = unreadable_store t
  get_over (stored es) seed = listing (record {
    targets = es;
    managed = true;
    seed_error = none;
    writable = is_some (write_token env);
  })
  get_over never_written seed = listing (seed_listing (read_seed py env show seed))

  -- `do_GET` of "/api/targets"
  unfoldable pub get_targets : StoreFile → SeedFile → GetReply
  unfolding read_store read_seed write_token
  get_targets store seed = get_over (read_store py env json false store) seed
