-- ===== src/Rollback/Handler/Outcome.antt =====
-- The rollback of a run as a whole: which files are run, in which order, and what is left.
use krkn.Base.{
  ◌≡◌, refl, ◌∙◌, sym, ap, Bool, true, ◌||◌, Option, none, some, List, [], ◌∷◌, ◌++◌, arith,
  is_empty, Bool-cases, inl, inr, All,
}
use mathlib.Core.List.{Perm}
use krkn.Base.Text.{Text}
use krkn.Rollback.Files.{
  FilePath, Files, sort_latest_first, search_rollback_version_files, remove_path,
}
use krkn.Rollback.Files.Sorting.{LatestFirst, sort_latest_first-LatestFirst, sort_latest_first-perm}
use krkn.Rollback.Files.Search.{outside, outside-cons, outside-nil, outside-sort}
use krkn.Rollback.Handler.{
  Error, World, State, change_files, execute_rollback_version_files, execute_from, remove_from,
  cleanup_rollback_version_files,
}
use krkn.Rollback.Handler.Execution.{
  failure, called, pending, pending-remove_path, execute_from_works, execute_from_stops,
}

module _ {C : Type 0} (run_uuid scenario_type : Option Text) where
  search-pending :
      (files : Option (Files C))
      → search_rollback_version_files run_uuid scenario_type files
        ≡ sort_latest_first (pending run_uuid scenario_type files)
  unfolding search_rollback_version_files
  search-pending none = refl
  search-pending (some fs) = refl

  -- The search returns the matching files that are there, each as often as it is there, and the
  -- latest first.
  pub search-LatestFirst :
      (files : Option (Files C))
      → let found = search_rollback_version_files run_uuid scenario_type files in
        LatestFirst found × Perm found (pending run_uuid scenario_type files)
  search-LatestFirst files = rw (search-pending files) (
    sort_latest_first-LatestFirst (pending run_uuid scenario_type files),
    sort_latest_first-perm _,
  )

  nothing_left :
      (files : Option (Files C))
      → outside
          (search_rollback_version_files run_uuid scenario_type files)
          (pending run_uuid scenario_type files)
        ≡ []
  nothing_left files = rw (search-pending files) (outside-sort _)

  -- A directory in which nothing is found has nothing pending.
  nothing_found :
      (files : Option (Files C))
      → is_empty (search_rollback_version_files run_uuid scenario_type files) ≡ true
      → (search_rollback_version_files run_uuid scenario_type files ≡ [])
        × (pending run_uuid scenario_type files ≡ [])
  nothing_found files h = (
    found,
    sym (outside-nil _)
        ∙ ap (λ l. outside l (pending run_uuid scenario_type files)) (sym found)
        ∙ nothing_left files,
  )
    where
      found : search_rollback_version_files run_uuid scenario_type files ≡ []
      found = ground arith

  nothing_pending :
      (files : Option (Files C))
      → pending run_uuid scenario_type files ≡ []
      → search_rollback_version_files run_uuid scenario_type files ≡ []
  unfolding sort_latest_first
  nothing_pending files e = search-pending files ∙ ap sort_latest_first e

module _ {C : Type 0} (world : World) (auto telemetry : Bool) (run_uuid scenario_type : Option Text)
    (ignore_auto : Bool) where
  abbrev pub run : State C → Option Error × State C
  run = execute_rollback_version_files world auto telemetry run_uuid scenario_type ignore_auto

  abbrev pub found : State C → List FilePath
  found st = search_rollback_version_files run_uuid scenario_type st.files

  -- Where rollback is enabled, it is the loop over what the search finds.
  run-loop :
      (st : State C)
      → (ignore_auto || auto) ≡ true
      → run st ≡ execute_from world telemetry (found st) st
  unfolding execute_rollback_version_files execute_from
  run-loop st enabled = elim (Bool-cases (is_empty (found st))) [
    | inl e ↦ rw (nothing_found run_uuid scenario_type st.files e).0 (ground arith)
    | inr e ↦ ground arith
  ]

  -- Where rollback is enabled and no file fails, every version file of the run and the scenario
  -- type is called once, in the order of the search, and none is left pending: the same rollback
  -- again changes nothing.
  pub execute_rollback_version_files_works :
      (st : State C)
      → (ignore_auto || auto) ≡ true
      → All (λ p. failure world p ≡ none) (found st)
      → let (failed, st') = run st in
        (failed ≡ none)
        × (called world st' ≡ called world st ++ found st)
        × (pending run_uuid scenario_type st'.files ≡ [])
        × (run st' ≡ (none, st'))
  unfolding execute_from
  execute_rollback_version_files_works st enabled h =
      let (done, calls, left) =
        execute_from_works world run_uuid scenario_type telemetry (found st) st h in
      let gone = left ∙ nothing_left run_uuid scenario_type st.files in
      let after = (execute_from world telemetry (found st) st).1 in
      rw (run-loop st enabled) (
        done,
        calls,
        gone,
        run-loop after enabled
            ∙ ap (λ l. execute_from world telemetry l after)
                (nothing_pending run_uuid scenario_type after.files gone),
      )

  -- Where rollback is enabled, the first file that fails ends the rollback with its error: the
  -- files before it in the order of the search are marked, and all the others are still pending
  -- for the next attempt.
  pub execute_rollback_version_files_stops :
      (st : State C) (done : List FilePath) (path : FilePath) (later : List FilePath) {e : Error}
      → (ignore_auto || auto) ≡ true
      → found st ≡ done ++ path ∷ later
      → All (λ p. failure world p ≡ none) done
      → failure world path ≡ some e
      → let (failed, st') = run st in
        (failed ≡ some e)
        × (pending run_uuid scenario_type st'.files
            ≡ outside done (pending run_uuid scenario_type st.files))
  execute_rollback_version_files_stops st done path later enabled order h f =
      rw (run-loop st enabled) (
        rw order (execute_from_stops world run_uuid scenario_type telemetry done path later st h f))

module _ {C : Type 0} (world : World) (run_uuid scenario_type : Option Text) where
  cleanup-loop :
      (st : State C)
      → cleanup_rollback_version_files world run_uuid scenario_type st
        ≡ remove_from world (search_rollback_version_files run_uuid scenario_type st.files) st
  unfolding cleanup_rollback_version_files remove_from
  cleanup-loop st =
      elim (Bool-cases (is_empty (search_rollback_version_files run_uuid scenario_type st.files))) [
        | inl e ↦ rw (nothing_found run_uuid scenario_type st.files e).0
        | inr e ↦ rw e
      ]

  remove_from_works :
      (run' type' : Option Text) (paths : List FilePath) (st : State C)
      → All (λ p. world.remove_works p ≡ true) paths
      → let (failed, st') = remove_from world paths st in
        (failed ≡ none)
        × (st'.calls ≡ st.calls)
        × (pending run' type' st'.files ≡ outside paths (pending run' type' st.files))
  unfolding remove_from
  remove_from_works run' type' [] st h = (refl, refl, sym (outside-nil _))
  remove_from_works run' type' (path ∷ paths) st h =
      let after = record st { files = change_files world (remove_path path) st.files } in
      let (done, calls, left) = remove_from_works run' type' paths after h.1 in
      rw h.0 (
        done,
        calls,
        left
            ∙ ap (outside paths) (pending-remove_path world run' type' path st.files)
            ∙ outside-cons path paths (pending run' type' st.files),
      )

  -- Where every removal works, the cleanup after a successful scenario calls nothing, leaves no
  -- version file of the run and the scenario type, and hides from any search just the files that
  -- it found.
  pub cleanup_rollback_version_files_works :
      (run' type' : Option Text) (st : State C)
      → All
          (λ p. world.remove_works p ≡ true)
          (search_rollback_version_files run_uuid scenario_type st.files)
      → let (failed, st') = cleanup_rollback_version_files world run_uuid scenario_type st in
        (failed ≡ none)
        × (st'.calls ≡ st.calls)
        × (pending run_uuid scenario_type st'.files ≡ [])
        × (pending run' type' st'.files
            ≡ outside
                (search_rollback_version_files run_uuid scenario_type st.files)
                (pending run' type' st.files))
  cleanup_rollback_version_files_works run' type' st h =
      let paths = search_rollback_version_files run_uuid scenario_type st.files in
      let (done, calls, other) = remove_from_works run' type' paths st h in
      let (_, _, own) = remove_from_works run_uuid scenario_type paths st h in
      rw (cleanup-loop st) (done, calls, own ∙ nothing_left run_uuid scenario_type st.files, other)
