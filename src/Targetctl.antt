-- ===== src/Targetctl.antt =====
-- targetctl.py: the commands that write, as clients of api.py. Other clients may save between the
-- two requests of a command: `meanwhile` says what becomes of the disk.
pub mod Settings
pub mod Wire
pub mod Files
pub mod Kept
pub mod Put
pub mod Shown
pub mod Without
pub mod Edits
pub mod Failed
use vigil_sre.Prelude.{
  ℕ, String, Bool, true, false, not, ◌&&◌, ◌||◌, Option, none, some, List, [], ◌∷◌, ◌++◌, map,
  filter, str_eq, ◌==◌, leb, if◌then◌else◌, length, is_some,
}
use vigil_sre.Prelude.Int.{pos}
use vigil_sre.Prelude.Dict.{lookup}
use Prim.Native.String.{[] as no_char, ◌∷◌ as ◌⊳◌}
use Prim.Native.Char.{code}
use vigil_sre.Targets.Text.{strip}
use vigil_sre.Targets.Value.{
  Value, null, boolean, text, array, object, elements, items, list_of, dict_of, is_truthy,
}
use vigil_sre.Targets.Checked.{Checked, ok, refused, Refusal}
use vigil_sre.Targets.Url.{Python}
use vigil_sre.Targets.Entry.{Entry, Env, entry_value}
use vigil_sre.Targets.Store.{Disk, WriteFault, Json, validate_all}
use vigil_sre.Targets.Load.{SeedFile, Show}
use vigil_sre.Api.{
  Request, given_length, PutReply, replaced, put_status, put_targets, Listing, GetReply,
  unreadable_store, listing, get_targets,
}
use vigil_sre.Targetctl.Settings.{
  Words, Problem, no_token, unsendable_token, no_connection, not_the_api, http_failure,
  seed_unreadable, already_a_target, not_a_target, last_target, entry_without_url, file_unreadable,
  file_not_valid, no_list, empty_list, invalid_entries, Try, good, bad, parse_settings,
}
use vigil_sre.Targetctl.Wire.{
  Payload, Service, Way, answer_lost, any_url, arrives, call_get, call_of, checked_token, has_url,
  is_managed, is_seed_lost, is_sendable, listing_value, payload_of, put_answer, put_body_value,
  put_call, request_lost, request_of, snapshot, token_of, truth_of, url_of_value,
}

-- The list that is now stored and whether the notice about the seed is printed; or a `CliError`.
pub data Outcome : Type 0 where
  done : List Value → Bool → Outcome
  stopped : Problem → Outcome

pub record Net : Type 0 where
  pub get_way : Way
  pub put_way : Way
  pub fault : Option WriteFault
  pub meanwhile : Disk → Disk

abbrev pub outcome_of : Bool → Try Payload × Disk → Outcome × Disk
outcome_of notice (good p, d) = (done p.targets notice, d)
outcome_of notice (bad problem, d) = (stopped problem, d)

abbrev pub is_empty : List Value → Bool
is_empty [] = true
is_empty (v ∷ vs) = false

abbrev pub kept_without : String → List Value → List Value
kept_without url vs = filter (λ (v : Value). not (has_url url v)) vs

-- `if test: raise CliError(...)` in front of the rest of a command
abbrev pub raise_if : Bool → Problem → Disk → Outcome × Disk → Outcome × Disk
raise_if test p d rest = if test then (stopped p, d) else rest

module _ (sv : Service) (net : Net) where
  -- `_put` and what is printed of it
  unfoldable pub put_all : String → Bool → List Value → Bool → Disk → Outcome × Disk
  unfolding put_targets lookup items elements
  put_all token notice targets allow_empty d =
      let q = request_of sv token (put_body_value targets allow_empty) in
      outcome_of notice
        (put_call sv.carry net.put_way (put_targets sv.py sv.env sv.json q net.fault d) d)

  -- From the snapshot on.
  abbrev pub add_to : List (String × Value) → String → String → Try Payload → Disk → Outcome × Disk
  add_to settings url token (bad p) d = (stopped p, d)
  add_to settings url token (good s) d = raise_if (is_seed_lost s) seed_unreadable d (
      raise_if (any_url url s.targets) already_a_target d (
        put_all token (not (is_managed s))
          (s.targets ++ dict_of (("url", text url) ∷ settings) ∷ []) false (net.meanwhile d)))

  abbrev pub add_with : Try (List (String × Value)) → String → Try String → Disk → Outcome × Disk
  add_with (bad p) url token d = (stopped p, d)
  add_with (good settings) url (bad p) d = (stopped p, d)
  add_with (good settings) url (good token) d =
      add_to settings url token (snapshot sv net.get_way d) d

  -- `cmd_add`; `client` is the environment of the client.
  unfoldable pub cmd_add : Words → Env → List String → String → Disk → Outcome × Disk
  unfolding parse_settings token_of strip is_seed_lost is_managed any_url put_all snapshot
  cmd_add words client pairs url d =
      add_with (parse_settings words pairs) (strip url) (token_of client) d

  abbrev pub remove_from : Bool → String → String → Try Payload → Disk → Outcome × Disk
  remove_from allow_empty url token (bad p) d = (stopped p, d)
  remove_from allow_empty url token (good s) d =
      let kept = kept_without url s.targets in
      raise_if (is_seed_lost s) seed_unreadable d (
        raise_if (length kept == length s.targets) not_a_target d (
          raise_if (is_empty kept && not allow_empty) last_target d
            (put_all token (not (is_managed s)) kept (is_empty kept) (net.meanwhile d))))

  abbrev pub remove_with : Bool → String → Try String → Disk → Outcome × Disk
  remove_with allow_empty url (bad p) d = (stopped p, d)
  remove_with allow_empty url (good token) d =
      remove_from allow_empty url token (snapshot sv net.get_way d) d

  -- `cmd_remove`
  unfoldable pub cmd_remove : Env → Bool → String → Disk → Outcome × Disk
  unfolding token_of strip is_seed_lost is_managed has_url put_all snapshot
  cmd_remove client allow_empty url d = remove_with allow_empty (strip url) (token_of client) d

pub data Command : Type 0 where
  add : Words → List String → String → Command
  remove : Bool → String → Command

-- `_COMMANDS[args.command](args, api)`, for the commands that write
unfoldable pub run_command : Service → Net → Env → Command → Disk → Outcome × Disk
unfolding cmd_add cmd_remove
run_command sv net client (add words pairs url) d = cmd_add sv net words client pairs url d
run_command sv net client (remove allow_empty url) d = cmd_remove sv net client allow_empty url d
