-- ===== src/Targets/Store.antt =====
-- targetstore.py: the list of targets, its file, and the seed as the editor shows it.
-- The codecs of JSON and YAML are parameters; a file system fault is an argument.
pub mod Distinct
pub mod Kept
pub mod Environment
use vigil_sre.Prelude.{
  ℕ, String, Bool, true, false, not, List, [], ◌∷◌, Option, none, some, leb, if◌then◌else◌, map,
  length,
}
use vigil_sre.Prelude.Dict.{lookup, contains}
use vigil_sre.Targets.Value.{
  Value, text, array, object, elements, items, list_of, dict_of, is_truthy,
}
use vigil_sre.Targets.Checked.{
  Checked, ok, refused, Refusal, guard, ◌>>=◌, ◌>>◌, check_each, not_a_list, too_many_targets,
  duplicate_target,
}
use vigil_sre.Targets.Url.{Python}
use vigil_sre.Targets.Entry.{Entry, Env, validate_entry, entry_value, allowed_keys}

abbrev pub max_targets : ℕ
max_targets = 200

-- The loop that refuses a URL that is listed twice, with the URLs seen so far.
unfoldable pub check_unseen : List String → List String → Checked (Unit {0})
unfolding contains
check_unseen seen [] = ok tt
check_unseen seen (url ∷ urls) = do
  guard (not (contains seen url)) (duplicate_target url)
  check_unseen (url ∷ seen) urls

abbrev pub url_of : Entry → String
url_of e = e.url

module _ (py : Python) (env : Env) (check_env : Bool) where
  unfoldable pub validate_all : Option Value → Checked (List Entry)
  unfolding check_each validate_entry check_unseen elements
  validate_all (some (array vs)) = do
    guard (leb (length (elements vs)) max_targets) too_many_targets
    validated ← check_each (validate_entry py env check_env) (elements vs)
    check_unseen [] (map url_of validated)
    ok validated
  validate_all _ = refused not_a_list

-- The store's file.
pub data StoreFile : Type 0 where
  absent unreadable : StoreFile
  content : String → StoreFile

-- Why a store that is there cannot be used: `StoreError`.
pub data Trouble : Type 0 where
  cannot_be_read not_valid_json : Trouble
  refused_entry : Refusal → Trouble

pub data StoreRead : Type 0 where
  never_written : StoreRead
  stored : List Entry → StoreRead
  unusable : Trouble → StoreRead

-- `raw.get("targets") if isinstance(raw, dict) else raw`
unfoldable pub entries_of : Value → Option Value
unfolding lookup items
entries_of (object fs) = lookup "targets" (items fs)
entries_of v = some v

abbrev pub read_of : Checked (List Entry) → StoreRead
read_of (ok es) = stored es
read_of (refused r) = unusable (refused_entry r)

-- The disk: the store's file, and the temporary files beside it.
pub record Disk : Type 0 where
  pub store : StoreFile
  pub temporaries : List String

-- The call of `write_store` that raises, with what has been written to the temporary file.
pub data WriteFault : Type 0 where
  mkdir_fails create_fails : WriteFault
  write_fails : String → WriteFault
  replace_fails : WriteFault

pub data Saved : Type 0 where
  saved : List Entry → Saved
  rejected : Refusal → Saved
  failed : WriteFault → Saved

abbrev pub create : String → Disk → Disk
create s d = record d { temporaries = s ∷ d.temporaries }

-- `unlink` of the temporary file that was created last.
abbrev pub dropped : List String → List String
dropped [] = []
dropped (s ∷ rest) = rest

abbrev pub unlink : Disk → Disk
unlink d = record d { temporaries = dropped d.temporaries }

abbrev pub first_content : List String → StoreFile → StoreFile
first_content [] old = old
first_content (s ∷ rest) old = content s

-- `os.replace` of the store by that temporary file.
abbrev pub replace : Disk → Disk
replace d = record {
  store = first_content d.temporaries d.store;
  temporaries = dropped d.temporaries;
}

unfoldable pub write_payload : String → List Entry → Option WriteFault → Disk → Saved × Disk
write_payload payload es (some mkdir_fails) d = (failed mkdir_fails, d)
write_payload payload es (some create_fails) d = (failed create_fails, d)
write_payload payload es (some (write_fails part)) d =
    (failed (write_fails part), unlink (create part d))
write_payload payload es (some replace_fails) d = (failed replace_fails, unlink (create payload d))
write_payload payload es none d = (saved es, replace (create payload d))

-- The document that the store's file holds.
unfoldable pub document : List Entry → Value
document es = dict_of (("targets", list_of (map entry_value es)) ∷ [])

pub record Json : Type 0 where
  pub dumps : Value → String
  -- `none` is a JSONDecodeError or a RecursionError
  pub loads : String → Option Value

module _ (py : Python) (env : Env) (json : Json) where
  abbrev pub read_value : Bool → Option Value → StoreRead
  read_value check_env none = unusable not_valid_json
  read_value check_env (some raw) = read_of (validate_all py env check_env (entries_of raw))

  unfoldable pub read_store : Bool → StoreFile → StoreRead
  unfolding validate_all entries_of
  read_store check_env absent = never_written
  read_store check_env unreadable = unusable cannot_be_read
  read_store check_env (content s) = read_value check_env (json.loads s)

  abbrev pub write_checked : Checked (List Entry) → Option WriteFault → Disk → Saved × Disk
  write_checked (refused r) fault d = (rejected r, d)
  write_checked (ok es) fault d = write_payload (json.dumps (document es)) es fault d

  unfoldable pub write_store : Value → Option WriteFault → Disk → Saved × Disk
  unfolding validate_all write_payload document
  write_store entries fault d = write_checked (validate_all py env true (some entries)) fault d
