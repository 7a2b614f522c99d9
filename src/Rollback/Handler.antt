-- ===== src/Rollback/Handler.antt =====
-- krkn/rollback/handler.py: running, marking and cleaning up version files. What Python's import
-- makes of a file, what a callable does to the cluster and what the file system refuses are
-- parameters; the calls made are recorded in order.
pub mod Execution
pub mod Outcome
pub mod Context
use krkn.Base.{
  ℕ, Bool, true, false, not, ◌&&◌, ◌||◌, Option, none, some, List, [], ◌∷◌, ◌++◌, is_empty,
  if◌then◌else◌,
}
use krkn.Base.Text.{Text, text, starts_with, occurs}
use krkn.Base.Result.{Result, ok, err, ◌>>=◌}
use krkn.Rollback.Files.{FilePath, Files, search_rollback_version_files, mark_executed, remove_path}

-- A member of a loaded module, by `inspect.getmembers`: a function has its parameters' annotations.
pub record Member : Type 0 where
  pub name : Text
  pub is_function : Bool
  pub annotations : List Text

pub record Content : Type 0 where
  pub skip_kubernetes : Bool

-- `rollback_content` is missing, `None`, or a value.
pub record LoadedModule : Type 0 where
  pub members : List Member
  pub rollback_content : Option (Option Content)

pub data Error : Type 0 where
  import_error no_function no_content content_is_none callable_failed : Error
  rename_failed remove_failed : Error

abbrev pub signature_fits : List Text → Bool
signature_fits (a ∷ b ∷ []) =
    occurs (text "RollbackContent") a && occurs (text "KrknTelemetryOpenshift") b
signature_fits _ = false

unfoldable pub is_rollback_function : Member → Bool
is_rollback_function m =
    m.is_function && starts_with (text "rollback_") m.name && signature_fits m.annotations

-- The loop that stops at the first fitting function.
unfoldable pub find_callable : List Member → Option Member
unfolding is_rollback_function
find_callable [] = none
find_callable (m ∷ members) =
    let rest = find_callable members in if is_rollback_function m then some m else rest

abbrev pub content_of : Option (Option Content) → Result Error Content
content_of none = err no_content
content_of (some none) = err content_is_none
content_of (some (some content)) = ok content

-- `_parse_rollback_module`; `none` is a file that does not load.
unfoldable pub parse_rollback_module : Option LoadedModule → Result Error (Member × Content)
unfolding find_callable
parse_rollback_module none = err import_error
parse_rollback_module (some m) = elim (find_callable m.members) [
  | none ↦ err no_function
  | some callable ↦ content_of m.rollback_content >>= λ content. ok (callable, content)
]

-- A call of a rollback function, with or without the telemetry object.
pub record Call : Type 0 where
  pub path : FilePath
  pub function : Text
  pub telemetry : Bool

-- The telemetry object is kept from a callable whose content says `skip_kubernetes`.
unfoldable pub call_of : FilePath → Bool → Member → Content → Call
call_of path telemetry_ocp callable content = record {
  path = path;
  function = callable.name;
  telemetry = if content.skip_kubernetes then false else telemetry_ocp;
}

-- What the outside does with each file.
pub record World : Type 0 where
  pub load : FilePath → Option LoadedModule
  pub call_returns : FilePath → Bool
  pub rename_works : FilePath → Bool
  pub remove_works : FilePath → Bool

-- The versions directory, if it exists, and the calls so far.
pub record State (C : Type 0) : Type 0 where
  pub files : Option (Files C)
  pub calls : List Call

module _ {C : Type 0} (world : World) where
  open world use {load, call_returns, rename_works, remove_works}

  abbrev pub change_files : (Files C → Files C) → Option (Files C) → Option (Files C)
  change_files f none = none
  change_files f (some fs) = some (f fs)

  -- The end of a round: the file is renamed once its callable has returned.
  unfoldable pub finish_one : FilePath → State C → Option Error × State C
  finish_one path st =
      if not (call_returns path)
      then (some callable_failed, st)
      else if not (rename_works path)
      then (some rename_failed, st)
      else (none, record st { files = change_files (mark_executed path) st.files })

  -- One round of the loop. `telemetry_ocp` says whether there is a telemetry object.
  unfoldable pub execute_one : Bool → FilePath → State C → Option Error × State C
  unfolding finish_one call_of
  execute_one telemetry_ocp path st = elim (parse_rollback_module (load path)) [
    | err e ↦ (some e, st)
    | ok (callable, content) ↦
        finish_one path
          (record st { calls = st.calls ++ call_of path telemetry_ocp callable content ∷ [] })
  ]

  -- The loop: an exception ends it.
  pub execute_from : Bool → List FilePath → State C → Option Error × State C
  execute_from telemetry_ocp [] st = (none, st)
  execute_from telemetry_ocp (path ∷ paths) st =
      let (failed, st') = execute_one telemetry_ocp path st in
      let rest = execute_from telemetry_ocp paths st' in
      elim failed [ some e ↦ (some e, st') | none ↦ rest ]

  unfoldable pub execute_rollback_version_files :
      (auto telemetry_ocp : Bool) (run_uuid scenario_type : Option Text) (ignore_auto : Bool)
      → State C
      → Option Error × State C
  unfolding execute_from
  execute_rollback_version_files auto telemetry_ocp run_uuid scenario_type ignore_auto st =
      let version_files = search_rollback_version_files run_uuid scenario_type st.files in
      if not ignore_auto && not auto
      then (none, st)
      else if is_empty version_files
      then (none, st)
      else execute_from telemetry_ocp version_files st

  pub remove_from : List FilePath → State C → Option Error × State C
  remove_from [] st = (none, st)
  remove_from (path ∷ paths) st =
      let rest =
        remove_from paths (record st { files = change_files (remove_path path) st.files }) in
      if remove_works path then rest else (some remove_failed, st)

  unfoldable pub cleanup_rollback_version_files :
      (run_uuid scenario_type : Option Text) → State C → Option Error × State C
  unfolding remove_from
  cleanup_rollback_version_files run_uuid scenario_type st =
      let version_files = search_rollback_version_files run_uuid scenario_type st.files in
      if is_empty version_files then (none, st) else remove_from version_files st

  -- krkn/rollback/command.py, `execute_rollback`: the exit code of the command.
  unfoldable pub execute_rollback :
      (auto telemetry_ocp : Bool) (run_uuid scenario_type : Option Text) → State C → ℕ × State C
  execute_rollback auto telemetry_ocp run_uuid scenario_type st =
      let (failed, st') =
        execute_rollback_version_files auto telemetry_ocp run_uuid scenario_type true st in
      (elim failed [ none ↦ 0 | some _ ↦ 1 ], st')
