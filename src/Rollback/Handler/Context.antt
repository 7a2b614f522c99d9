-- ===== src/Rollback/Handler/Context.antt =====
-- krkn/rollback/handler.py: the class `RollbackHandler`, `set_rollback_context_decorator`, and the
-- versions that it writes (krkn/rollback/config.py, krkn/rollback/serialization.py).
use krkn.Base.{
  ℕ, ◌≡◌, ◌∙◌, Option, none, some, [], ◌∷◌, arith, is_empty, if◌then◌else◌, Option-cases, inl, inr,
  ap,
}
use krkn.Base.Text.{Text, text, text_eq_refl}
use krkn.Base.Dict.{Dict, insert, lookup}
use krkn.Rollback.Names.{Version, version_file_name, rollback_context}
use krkn.Rollback.Files.{Files}

-- The defaults of the dataclass `Version`: evaluated once, when the module is loaded.
pub record Defaults : Type 0 where
  pub timestamp : ℕ
  pub hash_suffix : Text

unfoldable pub new_version : Defaults → Text → Text → Version
new_version defaults scenario_type context = record {
  scenario_type = scenario_type;
  rollback_context = context;
  timestamp = defaults.timestamp;
  hash_suffix = defaults.hash_suffix;
}

pub record RollbackHandler : Type 0 where
  pub scenario_type : Text
  pub context : Option Text

unfoldable pub set_context : ℕ → Text → RollbackHandler → RollbackHandler
set_context time_ns run_uuid self = record self {
  context = some (rollback_context time_ns run_uuid);
}

unfoldable pub clear_context : RollbackHandler → RollbackHandler
clear_context self = record self { context = none }

-- `str(rollback_context)`
abbrev pub context_text : Option Text → Text
context_text none = text "None"
context_text (some context) = context

module _ {C : Type 0} where
  -- `os.makedirs` and `open(path, "w")`: the file is made, or its content replaced.
  unfoldable pub write_file : Text → Text → C → Files C → Files C
  write_file dir file content fs = elim (lookup dir fs) [
    | none ↦ insert dir ((file, content) ∷ []) fs
    | some files ↦ insert dir (insert file content files) fs
  ]

  -- `set_rollback_callable`: `none` is a callable that does not serialise, which is only logged.
  unfoldable pub set_rollback_callable : Defaults → RollbackHandler → Option C → Files C → Files C
  unfolding write_file new_version
  set_rollback_callable defaults self none fs = fs
  set_rollback_callable defaults self (some content) fs =
      let version = new_version defaults self.scenario_type (context_text self.context) in
      write_file version.rollback_context (version_file_name version) content fs

-- `wrapper` of `set_rollback_context_decorator`, round a `run` that may raise: the handler's
-- context is set for a run id that is not empty, and cleared in `finally`.
module _ {R S : Type 0} where
  unfoldable pub with_rollback_context :
      ℕ
      → Text
      → (RollbackHandler → S → R × RollbackHandler × S)
      → RollbackHandler
      → S
      → R × RollbackHandler × S
  unfolding set_context clear_context
  with_rollback_context time_ns run_uuid func handler st =
      let before = if is_empty run_uuid then handler else set_context time_ns run_uuid handler in
      let (result, after, st') = func before st in (result, clear_context after, st')

insert-insert {ℓ} :
    {V : Type ℓ} (k : Text) (v w : V) (d : Dict V) → insert k v (insert k w d) ≡ insert k v d
unfolding insert
insert-insert k v w [] = ground (arith, text_eq_refl k)
insert-insert k v w ((j, x) ∷ d) = ground (arith, insert-insert k v w d)

lookup-insert_self {ℓ} :
    {V : Type ℓ} (k : Text) (v : V) (d : Dict V) → lookup k (insert k v d) ≡ some v
unfolding lookup insert
lookup-insert_self k v [] = ground (arith, text_eq_refl k)
lookup-insert_self k v ((j, x) ∷ d) = ground (arith, lookup-insert_self k v d)

write_file-write_file :
    {C : Type 0} (dir file : Text) (first second : C) (fs : Files C)
    → write_file dir file second (write_file dir file first fs) ≡ write_file dir file second fs
unfolding write_file insert
write_file-write_file dir file first second fs = elim (Option-cases (lookup dir fs)) [
  | inl e ↦
      let made : write_file dir file first fs ≡ insert dir ((file, first) ∷ []) fs =
        rw (e, write_file) in
      rw made (
        rw (lookup-insert_self dir ((file, first) ∷ []) fs, write_file)
          (rw (e, write_file)
            (insert-insert dir (insert file second ((file, first) ∷ [])) ((file, first) ∷ []) fs
              ∙ ap (λ d. insert dir d fs) (insert-insert file second first []))))
  | inr (files, e) ↦
      let made : write_file dir file first fs ≡ insert dir (insert file first files) fs =
        rw (e, write_file) in
      rw made (
        rw (lookup-insert_self dir (insert file first files) fs, write_file)
          (rw (e, write_file)
            (insert-insert dir (insert file second (insert file first files))
                (insert file first files) fs
              ∙ ap (λ d. insert dir d fs) (insert-insert file second first files))))
]

-- Two callables that one handler sets in one context are written to the same file, so the second
-- replaces the first, whose rollback is lost: the timestamp and the suffix of a version are those
-- of the program's start.
pub set_rollback_callable_replaces :
    {C : Type 0} (defaults : Defaults) (self : RollbackHandler) (first second : C) (fs : Files C)
    → set_rollback_callable defaults self
        (some second)
        (set_rollback_callable defaults self (some first) fs)
      ≡ set_rollback_callable defaults self (some second) fs
unfolding set_rollback_callable
set_rollback_callable_replaces defaults self first second fs =
    write_file-write_file (context_text self.context) _ first second fs
