-- ===== src/Tests/Commands.antt =====
-- The theorems about the command line editor at concrete inputs.
use vigil_sre.Prelude.{true, false, none, some, [], ◌∷◌, str_eq, if◌then◌else◌, ◌≡◌, ◌⊎◌, refl}
use vigil_sre.Prelude.Dict.{contains}
use vigil_sre.Tests.Data.{api, shop, api_entry, python, api_env}
use vigil_sre.Targets.Value.{Value, text, of_elements, of_items, list_of, dict_of}
use vigil_sre.Targets.Checked.{entry_not_an_object}
use vigil_sre.Targets.Value.Dict.{given}
use vigil_sre.Targets.Window.{window_value, days_value}
use vigil_sre.Targets.Entry.{Entry, entry_value}
use vigil_sre.Targets.Store.{Disk, content, Json, document, read_store, unusable, refused_entry}
use vigil_sre.Targets.Load.{missing}
use vigil_sre.Targetctl.Settings.{Words, already_a_target, good}
use vigil_sre.Targetctl.Wire.{arrives, Service}
use vigil_sre.Targetctl.{Net, cmd_add, cmd_remove, add, run_command}
use vigil_sre.Targetctl.Files.{parsed_file, cmd_validate}
use vigil_sre.Targetctl.Edits.{
  Replacing, AddedTo, RemovedFrom, cmd_add-Replacing, cmd_remove-Replacing,
}
use vigil_sre.Targetctl.Failed.{run_command-Unwritten}

-- The entry of `shop`.
abbrev shop_entry : Entry
shop_entry = record {
  url = shop;
  expect_substring = none;
  expected_status = none;
  timeout_s = none;
  degraded_ttfb_ms = none;
  degraded_rtt_ms = none;
  degraded_backend_ms = none;
  maintenance = none;
  remind = true;
  trend_alerts = true;
}

abbrev json : Json
json = record {
  dumps = λ v. "{new}";
  loads = λ s. if str_eq s "{old}" then some (document (api_entry ∷ [])) else none;
}

abbrev service : Service
service = record {
  py = python;
  env = api_env;
  show = λ v. "?";
  json = json;
  seed = missing;
  message = λ r. "refused";
  size = λ v. 180;
  carry = λ v. some v;
}

abbrev net : Net
net = record { get_way = arrives; put_way = arrives; fault = none; meanwhile = λ d. d }

abbrev words : Words
words = record { lower = λ s. s; int = λ s. none; float = λ s. none; loads = λ s. none }

abbrev disk : Disk
disk = record { store = content "{old}"; temporaries = [] }

cmd_add-Replacing_example :
    Replacing service net disk
      (cmd_add service net words api_env ("remind=true" ∷ []) shop disk)
      (AddedTo service net words ("remind=true" ∷ []) shop)
unfolding cmd_add of_elements of_items entry_value document contains given window_value days_value
cmd_add-Replacing_example =
    cmd_add-Replacing service net words api_env ("remind=true" ∷ []) shop disk
      (entry_value api_entry ∷ entry_value shop_entry ∷ []) false (λ v. refl) refl

cmd_remove-Replacing_example :
    Replacing service net disk
      (cmd_remove service net api_env true api disk)
      (RemovedFrom service net true api)
unfolding cmd_remove of_elements of_items entry_value document contains given window_value
    days_value
cmd_remove-Replacing_example =
    cmd_remove-Replacing service net api_env true api disk [] false (λ v. refl) refl

run_command-Unwritten_example :
    let answer = run_command service net api_env (add words [] api) disk in
    (answer.1.store ≡ disk.store) ⊎ (answer.1.store ≡ disk.store)
unfolding run_command of_elements of_items entry_value document contains given window_value
    days_value
run_command-Unwritten_example =
    run_command-Unwritten service net api_env (add words [] api) disk already_a_target (λ v. refl)
      (λ e. cc) refl

-- A JSON file that lists an URL as a bare text is valid for the command "validate", and unusable as
-- the store.
abbrev bare_file : Value
bare_file = dict_of (("targets", list_of (text api ∷ [])) ∷ [])

bare_text_is_validated : cmd_validate python api_env false true (parsed_file bare_file) ≡ good 1
unfolding cmd_validate of_elements of_items contains
bare_text_is_validated = refl

bare_text_is_unusable :
    read_store python api_env
      (record { dumps = λ v. ""; loads = λ s. some bare_file })
      false
      (content "")
    ≡ unusable (refused_entry entry_not_an_object)
unfolding read_store of_elements of_items contains
bare_text_is_unusable = refl
