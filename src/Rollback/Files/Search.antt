-- ===== src/Rollback/Files/Search.antt =====
-- What the search finds after a file is marked as executed, or removed.
use krkn.Base.{
  ◌≡◌, refl, ◌∙◌, sym, ap, true, false, not, Option, List, [], ◌∷◌, ◌++◌, arith, keep,
  if◌then◌else◌, Bool-cases, inl, inr, keep-append, keep-keep, keep-eq,
}
use mathlib.Core.Path.{ap₂, subst}
use krkn.Base.Text.{Text, text, text_eq, text_eq_iff, text_eq_refl}
use krkn.Base.Text.Laws.{ends_with-append}
use krkn.Base.Dict.{Dict}
use krkn.Rollback.Names.{is_rollback_context_directory_format}
use krkn.Rollback.Files.Sorting.{sort_latest_first-elem}
use krkn.Rollback.Files.{
  sort_latest_first, FilePath, path_eq, elem, Files, executed_name, file_matches, files_in,
  version_files, rename_file, remove_file, in_directory, mark_executed, remove_path,
}

-- The paths other than one.
abbrev pub without : FilePath → List FilePath → List FilePath
without p = keep (λ q. not (path_eq p q))

executed_matches :
    (scenario_type : Option Text) (file : Text)
    → file_matches scenario_type (executed_name file) ≡ false
unfolding file_matches
executed_matches scenario_type file = ground (arith, ends_with-append (text ".executed") file)

module _ {C : Type 0} (scenario_type : Option Text) where
  files_in-rename :
      (dir file : Text) (files : Dict C)
      → files_in scenario_type dir (rename_file file files)
        ≡ without (dir, file) (files_in scenario_type dir files)
  unfolding files_in rename_file path_eq
  files_in-rename dir file [] = refl
  files_in-rename dir file ((name, c) ∷ files) = ground (
    arith,
    files_in-rename dir file files,
    executed_matches scenario_type file,
    text_eq_iff name file,
    text_eq_iff file name,
    text_eq_iff name (executed_name file),
    text_eq_refl dir,
  )

  files_in-remove :
      (dir file : Text) (files : Dict C)
      → files_in scenario_type dir (remove_file file files)
        ≡ without (dir, file) (files_in scenario_type dir files)
  unfolding files_in remove_file path_eq
  files_in-remove dir file [] = refl
  files_in-remove dir file ((name, c) ∷ files) = ground (
    arith,
    files_in-remove dir file files,
    text_eq_iff name file,
    text_eq_iff file name,
    text_eq_refl dir,
  )

  files_in-other :
      (dir file other : Text) (files : Dict C)
      → text_eq dir other ≡ false
      → without (dir, file) (files_in scenario_type other files)
        ≡ files_in scenario_type other files
  unfolding files_in path_eq
  files_in-other dir file other [] h = refl
  files_in-other dir file other ((name, c) ∷ files) h =
      ground (arith, files_in-other dir file other files h)

  module _ (run_uuid : Option Text) (change : Dict C → Dict C) (dir file : Text)
      (changed : (files : Dict C)
        → files_in scenario_type dir (change files)
          ≡ without (dir, file) (files_in scenario_type dir files)) where
    directory_changed :
        (name : Text) (files : Dict C)
        → files_in scenario_type name (if text_eq name dir then change files else files)
          ≡ without (dir, file) (files_in scenario_type name files)
    directory_changed name files = elim (Bool-cases (text_eq name dir)) [
      | inl e ↦
          let same = (text_eq_iff name dir).0 e in
          rw e (
            subst
              (λ d.
                files_in scenario_type d (change files)
                ≡ without (dir, file) (files_in scenario_type d files))
              (sym same) (changed files))
      | inr e ↦
          let other : text_eq dir name ≡ false =
            ground (arith, text_eq_iff name dir, text_eq_iff dir name) in
          rw e (sym (files_in-other dir file name files other))
    ]

    -- A change that drops one path from a directory drops it from the search, and no other.
    version_files-in_directory :
        (fs : Files C)
        → version_files run_uuid scenario_type (in_directory change dir fs)
          ≡ without (dir, file) (version_files run_uuid scenario_type fs)
    unfolding version_files in_directory
    version_files-in_directory [] = refl
    version_files-in_directory ((name, files) ∷ fs) =
        elim (Bool-cases (is_rollback_context_directory_format name run_uuid)) [
          | inl e ↦ rw e (
              ap₂ ◌++◌ (directory_changed name files) (version_files-in_directory fs)
              ∙ sym (
                  keep-append _ (files_in scenario_type name files)
                    (version_files run_uuid scenario_type fs)))
          | inr e ↦ rw e (version_files-in_directory fs)
        ]

module _ {C : Type 0} (run_uuid scenario_type : Option Text) (p : FilePath) (fs : Files C) where
  -- Marking a file as executed hides it from every search, and hides no other file.
  pub version_files-mark_executed :
      version_files run_uuid scenario_type (mark_executed p fs)
      ≡ without p (version_files run_uuid scenario_type fs)
  unfolding mark_executed
  version_files-mark_executed =
      version_files-in_directory scenario_type run_uuid (rename_file p.1) p.0 p.1
        (files_in-rename scenario_type p.0 p.1) fs

  -- So does its removal.
  pub version_files-remove_path :
      version_files run_uuid scenario_type (remove_path p fs)
      ≡ without p (version_files run_uuid scenario_type fs)
  unfolding remove_path
  version_files-remove_path =
      version_files-in_directory scenario_type run_uuid (remove_file p.1) p.0 p.1
        (files_in-remove scenario_type p.0 p.1) fs

-- The paths that a list does not hold.
abbrev pub outside : List FilePath → List FilePath → List FilePath
outside gone = keep (λ q. not (elem q gone))

path_eq_sym : (p q : FilePath) → path_eq p q ≡ path_eq q p
unfolding path_eq
path_eq_sym (d, f) (d', f') =
    ground (arith, text_eq_iff d d', text_eq_iff d' d, text_eq_iff f f', text_eq_iff f' f)

pub outside-cons :
    (p : FilePath) (gone ps : List FilePath) → outside gone (without p ps) ≡ outside (p ∷ gone) ps
unfolding elem
outside-cons p gone ps =
    keep-keep (λ q. not (elem q gone)) (λ q. not (path_eq p q)) ps
    ∙ keep-eq _ _ (λ q. ground (arith, path_eq_sym p q)) ps

pub outside-nil : (ps : List FilePath) → outside [] ps ≡ ps
unfolding elem
outside-nil [] = refl
outside-nil (p ∷ ps) = ap (λ (l : List FilePath). p ∷ l) (outside-nil ps)

path_eq_refl : (p : FilePath) → path_eq p p ≡ true
unfolding path_eq
path_eq_refl (d, f) = ground (arith, text_eq_refl d, text_eq_refl f)

outside_all :
    (ps gone : List FilePath)
    → ((q : FilePath) → elem q ps ≡ true → elem q gone ≡ true)
    → outside gone ps ≡ []
unfolding elem
outside_all [] gone h = refl
outside_all (p ∷ ps) gone h =
    let first : elem p gone ≡ true = h p (ground (arith, path_eq_refl p)) in
    rw first (outside_all ps gone (λ q e. h q (ground arith)))

-- Nothing is left outside the sorted list.
pub outside-sort : (ps : List FilePath) → outside (sort_latest_first ps) ps ≡ []
outside-sort ps = outside_all ps (sort_latest_first ps) (λ q e. sort_latest_first-elem q ps ∙ e)
