-- ===== src/Rollback/Names.antt =====
-- krkn/rollback/config.py: the names of version files and of context directories.
pub mod Split
pub mod Roundtrip
use krkn.Base.{
  ℕ, ◌-◌, Bool, true, false, not, ◌&&◌, ◌||◌, Option, none, some, List, [], ◌∷◌, ◌++◌, is_empty,
  ltb, ◌==◌, length, if◌then◌else◌,
}
use krkn.Base.Text.{
  Text, text, text_eq, split, join, isdigit, isalnum, decimal, digits_from, ends_with, drop_last,
}

-- The parts of a name split at `_`: `_`.join(parts[:-2]), parts[-2] and parts[-1]; `none` with
-- fewer than three parts.
unfoldable pub last_two : List Text → Option (List Text × Text × Text)
last_two [] = none
last_two (a ∷ []) = none
last_two (a ∷ b ∷ []) = some ([], a, b)
last_two (a ∷ b ∷ c ∷ parts) = elim (last_two (b ∷ c ∷ parts)) [
  | none ↦ none
  | some (front, stamp, hash) ↦ some (a ∷ front, stamp, hash)
]

-- An expected value is compared only where it is given and not empty.
abbrev pub agrees : Option Text → Text → Bool
agrees none actual = true
agrees (some expected) actual = is_empty expected || text_eq actual expected

-- The tests on the three fields of a version file name, the extension still on the last.
unfoldable pub fields_valid : Option Text → List Text × Text × Text → Bool
fields_valid expected (front, timestamp_str, hash_suffix_with_ext) =
    let hash_suffix = drop_last 3 hash_suffix_with_ext in
    if not (agrees expected (join b'_' front))
    then false
    else if not (isdigit timestamp_str)
    then false
    else if not (length hash_suffix == 8) || not (isalnum hash_suffix)
    then false
    else true

-- With fewer than three parts the name is refused.
unfoldable pub parts_valid : Option Text → List Text → Bool
unfolding fields_valid last_two
parts_valid expected parts =
    if ltb (length parts) 3
    then false
    else elim (last_two parts) [ none ↦ false | some fields ↦ fields_valid expected fields ]

unfoldable pub is_rollback_version_file_format : Text → Option Text → Bool
unfolding parts_valid
is_rollback_version_file_format file_name expected_scenario_type =
    if not (ends_with (text ".py") file_name)
    then false
    else parts_valid expected_scenario_type (split b'_' file_name)

-- `directory_name.split("-", 1)`, where it has two parts.
unfoldable pub split_once : ℕ → Text → Option (Text × Text)
split_once sep [] = none
split_once sep (c ∷ s) =
    let rest = split_once sep s in
    if c == sep
    then some ([], s)
    else elim rest [ none ↦ none | some (before, after) ↦ some (c ∷ before, after) ]

unfoldable pub is_rollback_context_directory_format : Text → Option Text → Bool
unfolding split_once
is_rollback_context_directory_format directory_name expected_run_uuid =
    elim (split_once b'-' directory_name) [
      | none ↦ false
      | some (timestamp_str, run_uuid) ↦ isdigit timestamp_str && agrees expected_run_uuid run_uuid
    ]

-- `get_rollback_timestamp` of a file's own name: `rsplit("_", 2)[-2]` as a number, 0 where there is
-- no such part or it is no number.
unfoldable pub stamp_of_parts : List Text → ℕ
unfolding last_two
stamp_of_parts [] = 0
stamp_of_parts (a ∷ []) = 0
stamp_of_parts (a ∷ b ∷ parts) = elim (last_two (a ∷ b ∷ parts)) [
  | none ↦ 0
  | some (front, stamp, hash) ↦ if isdigit stamp then digits_from 0 stamp else 0
]

unfoldable pub get_rollback_timestamp : Text → ℕ
unfolding stamp_of_parts
get_rollback_timestamp filename = stamp_of_parts (split b'_' filename)

pub record Version : Type 0 where
  pub scenario_type : Text
  pub rollback_context : Text
  pub timestamp : ℕ
  pub hash_suffix : Text

-- `RollbackContext(run_uuid)`: the present time and the run's id.
unfoldable pub rollback_context : ℕ → Text → Text
rollback_context time_ns run_uuid = decimal time_ns ++ b'-' ∷ run_uuid

unfoldable pub version_file_name : Version → Text
version_file_name v =
    v.scenario_type ++ b'_' ∷ (decimal v.timestamp ++ b'_' ∷ (v.hash_suffix ++ text ".py"))
