-- ===== src/Targetctl/Wire.antt =====
-- targetctl.py: the requests of the client, and what it reads off the answers. `carry` is what
-- arrives of a JSON value that is sent over HTTP, none if it does not parse or is too large.
use vigil_sre.Prelude.{
  ℕ, String, Bool, true, false, not, ◌&&◌, ◌||◌, Option, none, some, List, [], ◌∷◌, map, str_eq,
  ◌==◌, leb, if◌then◌else◌,
}
use vigil_sre.Prelude.Int.{pos}
use vigil_sre.Prelude.Dict.{lookup}
use Prim.Native.String.{[] as no_char, ◌∷◌ as ◌⊳◌}
use Prim.Native.Char.{code}
use vigil_sre.Targets.Value.{
  Value, null, boolean, text, array, object, elements, items, list_of, dict_of, is_truthy,
}
use vigil_sre.Targets.Checked.{Refusal}
use vigil_sre.Targets.Url.{Python}
use vigil_sre.Targets.Entry.{Env, entry_value}
use vigil_sre.Targets.Store.{Disk, Json}
use vigil_sre.Targets.Load.{SeedFile, Show}
use vigil_sre.Api.{
  Request, given_length, PutReply, replaced, put_status, Listing, GetReply, unreadable_store,
  listing, get_targets,
}
use vigil_sre.Targetctl.Settings.{
  no_token, unsendable_token, no_connection, not_the_api, http_failure, Try, good, bad,
}

-- `token.isascii()`, and no control character.
unfoldable pub is_sendable : String → Bool
is_sendable no_char = true
is_sendable (c ⊳ s) = (leb b' ' (code c) && leb (code c) b'~') && is_sendable s

abbrev pub checked_token : Option String → Try String
checked_token none = bad no_token
checked_token (some s) =
    if str_eq s "" then bad no_token else if is_sendable s then good s else bad unsendable_token

-- `_token`
unfoldable pub token_of : Env → Try String
unfolding is_sendable
token_of env = checked_token (env "API_WRITE_TOKEN")

-- What becomes of a request, or of the answer to it.
pub data Way : Type 0 where
  arrives request_lost answer_lost : Way

-- A payload that is a dict with a list of targets.
pub record Payload : Type 0 where
  pub targets : List Value
  pub fields : List (String × Value)

abbrev payload_of_list : List (String × Value) → Option Value → Try Payload
payload_of_list fs (some (array vs)) = good (record { targets = elements vs; fields = fs })
payload_of_list fs _ = bad not_the_api

abbrev pub payload_of : Option Value → Try Payload
payload_of (some (object fs)) = payload_of_list (items fs) (lookup "targets" (items fs))
payload_of _ = bad not_the_api

-- `payload.get(key)` as a condition
abbrev pub truth_of : Option Value → Bool
truth_of none = false
truth_of (some v) = is_truthy v

unfoldable pub is_managed : Payload → Bool
unfolding lookup is_truthy
is_managed s = truth_of (lookup "managed" s.fields)

-- The condition of `_guard_seed`.
unfoldable pub is_seed_lost : Payload → Bool
unfolding lookup is_truthy is_managed
is_seed_lost s = not (is_managed s) && truth_of (lookup "seed_error" s.fields)

abbrev text_of : Option Value → Option String
text_of (some (text s)) = some s
text_of _ = none

-- `_url_of`, if it is a text
unfoldable pub url_of_value : Value → Option String
unfolding lookup items
url_of_value (object fs) = text_of (lookup "url" (items fs))
url_of_value v = none

abbrev same_url : String → Option String → Bool
same_url url none = false
same_url url (some s) = str_eq s url

-- `_url_of(entry) == url`
unfoldable pub has_url : String → Value → Bool
unfolding url_of_value
has_url url v = same_url url (url_of_value v)

unfoldable pub any_url : String → List Value → Bool
unfolding has_url
any_url url [] = false
any_url url (v ∷ vs) = has_url url v || any_url url vs

-- The API that a command talks to, with its seed; `message` is the text of a refusal and `size` the
-- length of a body.
pub record Service : Type 0 where
  pub py : Python
  pub env : Env
  pub show : Show
  pub json : Json
  pub seed : SeedFile
  pub message : Refusal → String
  pub size : Value → ℕ
  pub carry : Value → Option Value

-- `_call`, from the status and the body of the answer
abbrev pub call_of : (Value → Option Value) → Way → ℕ → Value → Try Payload
call_of carry arrives status body =
    if status == 200 then payload_of (carry body) else bad (http_failure status)
call_of carry request_lost status body = bad no_connection
call_of carry answer_lost status body = bad no_connection

abbrev message_value : (Refusal → String) → Option Refusal → Value
message_value message none = null
message_value message (some r) = text (message r)

unfoldable pub listing_value : (Refusal → String) → Listing → Value
listing_value message l = dict_of (
    ("targets", list_of (map entry_value l.targets))
    ∷ ("managed", boolean l.managed)
    ∷ ("seed_error", message_value message l.seed_error)
    ∷ ("writable", boolean l.writable)
    ∷ [])

abbrev pub call_get : Service → Way → GetReply → Try Payload
call_get sv way (unreadable_store t) = call_of sv.carry way 500 null
call_get sv way (listing l) = call_of sv.carry way 200 (listing_value sv.message l)

-- `_snapshot`
unfoldable pub snapshot : Service → Way → Disk → Try Payload
unfolding listing_value get_targets lookup items elements
snapshot sv way d = call_get sv way (get_targets sv.py sv.env sv.show sv.json d.store sv.seed)

abbrev pub put_answer : PutReply → Value
put_answer (replaced es) = dict_of (("targets", list_of (map entry_value es)) ∷ [])
put_answer _ = null

abbrev pub put_body_value : List Value → Bool → Value
put_body_value targets false = dict_of (("targets", list_of targets) ∷ [])
put_body_value targets true =
    dict_of (("targets", list_of targets) ∷ ("allow_empty", boolean true) ∷ [])

abbrev pub request_of : Service → String → Value → Request
request_of sv token body = record {
  route = "/api/targets";
  content_length = given_length (pos (sv.size body));
  body = λ n. sv.carry body;
  token = token;
}

abbrev pub put_call : (Value → Option Value) → Way → PutReply × Disk → Disk → Try Payload × Disk
put_call carry request_lost answer d = (bad no_connection, d)
put_call carry arrives answer d =
    (call_of carry arrives (put_status answer.0) (put_answer answer.0), answer.1)
put_call carry answer_lost answer d = (bad no_connection, answer.1)
