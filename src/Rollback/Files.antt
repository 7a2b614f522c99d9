-- ===== src/Rollback/Files.antt =====
-- The versions directory, and its search (krkn/rollback/config.py): context directories, each with
-- its files, in the order in which `os.listdir` gives them.
pub mod Sorting
pub mod Search
use krkn.Base.{
  ℕ, Bool, true, false, not, ◌&&◌, ◌||◌, Option, none, some, List, [], ◌∷◌, ◌++◌, keep, leb, any,
  if◌then◌else◌, map,
}
use krkn.Base.Text.{Text, text, text_eq, ends_with}
use krkn.Base.Dict.{Dict, insert}
use krkn.Rollback.Names.{
  is_rollback_version_file_format, is_rollback_context_directory_format, get_rollback_timestamp,
}

-- A directory's name and a file's name in it.
abbrev pub FilePath : Type 0
FilePath = Text × Text

unfoldable pub path_eq : FilePath → FilePath → Bool
path_eq (d, f) (d', f') = text_eq d d' && text_eq f f'

unfoldable pub elem : FilePath → List FilePath → Bool
elem p ps = any (path_eq p) ps

abbrev pub stamp : FilePath → ℕ
stamp (_, file) = get_rollback_timestamp file

-- `sort(key=get_rollback_timestamp, reverse=True)`: latest first, equal ones in their order.
insert_sorted : FilePath → List FilePath → List FilePath
insert_sorted p [] = p ∷ []
insert_sorted p (q ∷ qs) = if leb (stamp q) (stamp p) then p ∷ q ∷ qs else q ∷ insert_sorted p qs

unfoldable pub sort_latest_first : List FilePath → List FilePath
unfolding insert_sorted
sort_latest_first [] = []
sort_latest_first (p ∷ ps) = insert_sorted p (sort_latest_first ps)

-- The versions directory: context directories and the files in them, with what is stored.
abbrev pub Files : Type 0 → Type 0
Files C = Dict (Dict C)

abbrev pub executed_name : Text → Text
executed_name file = file ++ text ".executed"

-- What the loop over a directory's files takes.
unfoldable pub file_matches : Option Text → Text → Bool
file_matches scenario_type file =
    if text_eq file (text "__pycache__") || ends_with (text ".executed") file
    then false
    else is_rollback_version_file_format file scenario_type

module _ {C : Type 0} where
  unfoldable pub files_in : Option Text → Text → Dict C → List FilePath
  files_in scenario_type dir [] = []
  files_in scenario_type dir ((file, _) ∷ files) =
      let rest = files_in scenario_type dir files in
      if file_matches scenario_type file then (dir, file) ∷ rest else rest

  -- The version files before they are sorted.
  unfoldable pub version_files : Option Text → Option Text → Files C → List FilePath
  unfolding files_in file_matches
  version_files run_uuid scenario_type [] = []
  version_files run_uuid scenario_type ((dir, files) ∷ dirs) =
      let rest = version_files run_uuid scenario_type dirs in
      if is_rollback_context_directory_format dir run_uuid
      then files_in scenario_type dir files ++ rest
      else rest

  -- `none` is a versions directory that does not exist.
  unfoldable pub search_rollback_version_files :
      Option Text → Option Text → Option (Files C) → List FilePath
  unfolding version_files sort_latest_first
  search_rollback_version_files run_uuid scenario_type none = []
  search_rollback_version_files run_uuid scenario_type (some fs) =
      sort_latest_first (version_files run_uuid scenario_type fs)

  -- `os.rename(file, file + ".executed")` in one directory: a file that has the new name is replaced.
  unfoldable pub rename_file : Text → Dict C → Dict C
  rename_file file [] = []
  rename_file file ((name, c) ∷ files) =
      let rest = rename_file file files in
      if text_eq name file
      then (executed_name file, c) ∷ rest
      else if text_eq name (executed_name file)
      then rest
      else (name, c) ∷ rest

  -- `os.remove(file)` in one directory.
  unfoldable pub remove_file : Text → Dict C → Dict C
  remove_file file [] = []
  remove_file file ((name, c) ∷ files) =
      let rest = remove_file file files in if text_eq name file then rest else (name, c) ∷ rest

  -- A change of the files of one directory.
  unfoldable pub in_directory : (Dict C → Dict C) → Text → Files C → Files C
  in_directory change dir [] = []
  in_directory change dir ((name, files) ∷ dirs) =
      (name, if text_eq name dir then change files else files) ∷ in_directory change dir dirs

  unfoldable pub mark_executed : FilePath → Files C → Files C
  unfolding in_directory rename_file
  mark_executed (dir, file) fs = in_directory (rename_file file) dir fs

  unfoldable pub remove_path : FilePath → Files C → Files C
  unfolding in_directory remove_file
  remove_path (dir, file) fs = in_directory (remove_file file) dir fs
