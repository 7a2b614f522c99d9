-- ===== src/Rollback/Handler/Execution.antt =====
-- What a rollback run leaves behind, when it succeeds and when it stops at a failure.
use krkn.Base.{
  ◌≡◌, refl, ◌∙◌, sym, ap, Bool, not, Option, none, some, List, [], ◌∷◌, ◌++◌, arith, map,
  if◌then◌else◌, inl, inr, All,
}
use mathlib.Core.List.{append-nil, append_assoc}
use krkn.Base.Text.{Text}
use krkn.Base.Result.{ok, err, Result-cases}
use krkn.Rollback.Files.{FilePath, Files, version_files, mark_executed, remove_path}
use krkn.Rollback.Files.Search.{
  without, outside, outside-cons, outside-nil, version_files-mark_executed,
  version_files-remove_path,
}
use krkn.Rollback.Handler.{
  Error, World, State, Call, call_of, parse_rollback_module, callable_failed, rename_failed,
  change_files, execute_one, execute_from,
}

module _ (world : World) where
  -- Why the round of a file raises, if it does.
  abbrev pub failure : FilePath → Option Error
  failure path = elim (parse_rollback_module (world.load path)) [
    | err e ↦ some e
    | ok _ ↦
        if not (world.call_returns path)
        then some callable_failed
        else if not (world.rename_works path)
        then some rename_failed
        else none
  ]

  abbrev pub called : {C : Type 0} → State C → List FilePath
  called st = map (λ (c : Call). c.path) st.calls

-- The version files of a run and scenario type that a directory still has.
abbrev pub pending : {C : Type 0} → Option Text → Option Text → Option (Files C) → List FilePath
pending run_uuid scenario_type none = []
pending run_uuid scenario_type (some fs) = version_files run_uuid scenario_type fs

calls-append :
    (calls : List Call) (c : Call)
    → map (λ (x : Call). x.path) (calls ++ c ∷ []) ≡ map (λ (x : Call). x.path) calls ++ c.path ∷ []
calls-append [] c = refl
calls-append (x ∷ calls) c = ap (λ (l : List FilePath). x.path ∷ l) (calls-append calls c)

module _ {C : Type 0} (world : World) (run_uuid scenario_type : Option Text) where
  pending-mark_executed :
      (path : FilePath) (files : Option (Files C))
      → pending run_uuid scenario_type (change_files world (mark_executed path) files)
        ≡ without path (pending run_uuid scenario_type files)
  pending-mark_executed path none = refl
  pending-mark_executed path (some fs) = version_files-mark_executed run_uuid scenario_type path fs

  pub pending-remove_path :
      (path : FilePath) (files : Option (Files C))
      → pending run_uuid scenario_type (change_files world (remove_path path) files)
        ≡ without path (pending run_uuid scenario_type files)
  pending-remove_path path none = refl
  pending-remove_path path (some fs) = version_files-remove_path run_uuid scenario_type path fs

  module _ (telemetry : Bool) where
    -- A round that works calls the file's function and marks the file.
    execute_one_works :
        (path : FilePath) (st : State C)
        → failure world path ≡ none
        → let (failed, st') = execute_one world telemetry path st in
          (failed ≡ none)
          × (called world st' ≡ called world st ++ path ∷ [])
          × (st'.files ≡ change_files world (mark_executed path) st.files)
    unfolding execute_one
    execute_one_works path st h = elim (Result-cases (parse_rollback_module (world.load path))) [
      | inl ((callable, content), e) ↦
          ground (arith, calls-append st.calls (call_of path telemetry callable content))
      | inr (x, e) ↦ ground arith
    ]

    execute_one_fails :
        (path : FilePath) (st : State C) {e : Error}
        → failure world path ≡ some e
        → let (failed, st') = execute_one world telemetry path st in
          (failed ≡ some e) × (st'.files ≡ st.files)
    unfolding execute_one
    execute_one_fails path st h = ground arith

    -- Without a failure among them every file is called, in order, and marked.
    pub execute_from_works :
        (paths : List FilePath) (st : State C)
        → All (λ p. failure world p ≡ none) paths
        → let (failed, st') = execute_from world telemetry paths st in
          (failed ≡ none)
          × (called world st' ≡ called world st ++ paths)
          × (pending run_uuid scenario_type st'.files
              ≡ outside paths (pending run_uuid scenario_type st.files))
    unfolding execute_from
    execute_from_works [] st h = (refl, sym (append-nil _), sym (outside-nil _))
    execute_from_works (path ∷ paths) st h =
        let (works, calls, files) = execute_one_works path st h.0 in
        let after = (execute_one world telemetry path st).1 in
        let (done, more, left) = execute_from_works paths after h.1 in
        rw (works, execute_from)
          (
            done,
            more
                ∙ ap (λ (l : List FilePath). l ++ paths) calls
                ∙ append_assoc (called world st) (path ∷ []) paths,
            left
                ∙ ap (λ (f : Option (Files C)). outside paths (pending run_uuid scenario_type f))
                    files
                ∙ ap (outside paths) (pending-mark_executed path st.files)
                ∙ outside-cons path paths (pending run_uuid scenario_type st.files),
          )

    -- A failure stops the run at its file: those before it are marked, it and those behind it are
    -- not.
    pub execute_from_stops :
        (done : List FilePath) (path : FilePath) (later : List FilePath) (st : State C) {e : Error}
        → All (λ p. failure world p ≡ none) done
        → failure world path ≡ some e
        → let (failed, st') = execute_from world telemetry (done ++ path ∷ later) st in
          (failed ≡ some e)
          × (pending run_uuid scenario_type st'.files
              ≡ outside done (pending run_uuid scenario_type st.files))
    unfolding execute_from
    execute_from_stops [] path later st h f =
        let (fails, files) = execute_one_fails path st f in
        rw (fails, execute_from)
          (refl, ap (pending run_uuid scenario_type) files ∙ sym (outside-nil _))
    execute_from_stops (first ∷ done) path later st h f =
        let (works, calls, files) = execute_one_works first st h.0 in
        let after = (execute_one world telemetry first st).1 in
        let (stops, left) = execute_from_stops done path later after h.1 f in
        rw (works, execute_from)
          (
            stops,
            left
                ∙ ap (λ (x : Option (Files C)). outside done (pending run_uuid scenario_type x))
                    files
                ∙ ap (outside done) (pending-mark_executed first st.files)
                ∙ outside-cons first done (pending run_uuid scenario_type st.files),
          )
