-- ===== src/Targetctl/Files.antt =====
-- targetctl.py: the commands "list" and "validate", which write nothing.
use vigil_sre.Prelude.{
  ℕ, Bool, true, not, ◌&&◌, Option, some, List, [], ◌∷◌, map, if◌then◌else◌, length, is_some,
}
use vigil_sre.Prelude.Dict.{lookup}
use vigil_sre.Targets.Value.{Value, text, array, object, elements, items, list_of, dict_of}
use vigil_sre.Targets.Checked.{Checked, ok, refused}
use vigil_sre.Targets.Url.{Python}
use vigil_sre.Targets.Entry.{Entry, Env}
use vigil_sre.Targets.Store.{Disk, validate_all}
use vigil_sre.Targetctl.Settings.{
  seed_unreadable, entry_without_url, file_unreadable, file_not_valid, no_list, empty_list,
  invalid_entries, Try, good, bad,
}
use vigil_sre.Targetctl.Wire.{
  Payload, Service, Way, is_managed, is_seed_lost, snapshot, url_of_value,
}
use vigil_sre.Targetctl.{is_empty}

-- What `cmd_list` prints of the entries: the managed flag with each entry's text, here the entry.
abbrev all_have_url : List Value → Bool
all_have_url [] = true
all_have_url (v ∷ vs) = is_some (url_of_value v) && all_have_url vs

abbrev list_of_snapshot : Try Payload → Try (Bool × List Value)
list_of_snapshot (bad p) = bad p
list_of_snapshot (good s) =
    if is_seed_lost s
    then bad seed_unreadable
    else if all_have_url s.targets
    then good (is_managed s, s.targets)
    else bad entry_without_url

-- `cmd_list`
unfoldable pub cmd_list : Service → Way → Disk → Try (Bool × List Value)
unfolding snapshot is_seed_lost is_managed url_of_value
cmd_list sv way d = list_of_snapshot (snapshot sv way d)

-- What reading and parsing a target file comes to.
pub data TargetFile : Type 0 where
  cannot_read not_valid : TargetFile
  parsed_file : Value → TargetFile

abbrev as_entry : Value → Value
as_entry (text s) = dict_of (("url", text s) ∷ [])
as_entry v = v

abbrev raw_list : Bool → Option Value → Try (List Value)
raw_list is_json (some (array vs)) =
    if is_empty (elements vs) && not is_json
    then bad empty_list
    else good (map as_entry (elements vs))
raw_list is_json _ = bad no_list

-- `load_target_file`
unfoldable pub load_target_file : Bool → TargetFile → Try (List Value)
unfolding lookup items elements
load_target_file is_json cannot_read = bad file_unreadable
load_target_file is_json not_valid = bad file_not_valid
load_target_file is_json (parsed_file (object fs)) = raw_list is_json (lookup "targets" (items fs))
load_target_file is_json (parsed_file v) = raw_list is_json (some v)

abbrev verdict_of : Checked (List Entry) → Try ℕ
verdict_of (ok es) = good (length es)
verdict_of (refused r) = bad (invalid_entries r)

abbrev verdict_on : Python → Env → Bool → Try (List Value) → Try ℕ
verdict_on py env check_env (bad p) = bad p
verdict_on py env check_env (good vs) =
    verdict_of (validate_all py env check_env (some (list_of vs)))

-- `cmd_validate`, with the number of valid targets
unfoldable pub cmd_validate : Python → Env → Bool → Bool → TargetFile → Try ℕ
unfolding load_target_file validate_all
cmd_validate py env check_env is_json file =
    verdict_on py env check_env (load_target_file is_json file)
