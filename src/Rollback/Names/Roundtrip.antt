-- ===== src/Rollback/Names/Roundtrip.antt =====
-- The names that the program writes are those that its search accepts.
use krkn.Base.{
  ℕ, ◌≡◌, refl, ◌∙◌, ap, true, false, not, ◌||◌, Option, some, List, [], ◌∷◌, ◌++◌, arith, length,
  ◌==◌, if◌then◌else◌, length-append,
}
use mathlib.Core.List.{append_assoc}
use krkn.Base.Text.{
  Text, text, split, is_digit, is_letter, isdigit, isalnum, decimal, digits_from, ends_with,
}
use krkn.Base.Text.Laws.{
  all_mono, isdigit-decimal, digits_from-decimal, ends_with-append, drop_last-append, all-append,
}
use krkn.Rollback.Names.{
  last_two, agrees, fields_valid, parts_valid, is_rollback_version_file_format, split_once,
  is_rollback_context_directory_format, stamp_of_parts, get_rollback_timestamp, Version,
  rollback_context, version_file_name,
}
use krkn.Rollback.Names.Split.{split-cons, Lacks, split-Lacks, split-append, join-split}

isdigit-Lacks : (sep : ℕ) (s : Text) → is_digit sep ≡ false → isdigit s ≡ true → Lacks sep s
unfolding isdigit
isdigit-Lacks sep s no_digit h = all_mono is_digit _ (λ c d. ground arith) s (ground arith)

isalnum-Lacks : (s : Text) → isalnum s ≡ true → Lacks b'_' s
unfolding isalnum
isalnum-Lacks s h =
    all_mono (λ c. is_digit c || is_letter c) _ (λ c d. ground arith) s (ground arith)

last_two-append :
    (front : List Text) (a b : Text) → last_two (front ++ a ∷ b ∷ []) ≡ some (front, a, b)
unfolding last_two
last_two-append [] a b = refl
last_two-append (x ∷ []) a b = refl
last_two-append (x ∷ y ∷ []) a b = refl
last_two-append (x ∷ y ∷ z ∷ front) a b = rw (last_two-append (y ∷ z ∷ front) a b, last_two)

-- A version whose suffix is as `get_random_string(8)` makes it.
abbrev pub HasSuffix : Version → Type 0
HasSuffix v = (length v.hash_suffix ≡ 8) × (isalnum v.hash_suffix ≡ true)

suffix-Lacks : (v : Version) → HasSuffix v → Lacks b'_' (v.hash_suffix ++ text ".py")
suffix-Lacks v h = ground (
  arith,
  all-append (λ c. not (c == b'_')) v.hash_suffix (text ".py"),
  isalnum-Lacks v.hash_suffix h.1,
)

version_parts :
    (v : Version)
    → HasSuffix v
    → split b'_' (version_file_name v)
      ≡ split b'_' v.scenario_type ++ decimal v.timestamp ∷ (v.hash_suffix ++ text ".py") ∷ []
unfolding version_file_name
version_parts v h =
    let rest = v.hash_suffix ++ text ".py" in
    split-append b'_' v.scenario_type (decimal v.timestamp ++ b'_' ∷ rest)
    ∙ ap (λ (l : List Text). split b'_' v.scenario_type ++ l)
        (split-append b'_' (decimal v.timestamp) rest
          ∙ rw
              (split-Lacks b'_' (decimal v.timestamp)
                (isdigit-Lacks b'_' _ refl (isdigit-decimal v.timestamp)))
              (rw (split-Lacks b'_' rest (suffix-Lacks v h))))

fields_of_version :
    (v : Version) (expected : Option Text)
    → HasSuffix v
    → fields_valid expected
        (split b'_' v.scenario_type, decimal v.timestamp, v.hash_suffix ++ text ".py")
      ≡ agrees expected v.scenario_type
unfolding fields_valid
fields_of_version v expected h = rw (join-split b'_' v.scenario_type) (
    rw (drop_last-append 3 v.hash_suffix (text ".py") refl)
      (ground (arith, isdigit-decimal v.timestamp)))

parts_valid-append :
    (expected : Option Text) (part a b : Text) (front : List Text)
    → parts_valid expected ((part ∷ front) ++ a ∷ b ∷ [])
      ≡ fields_valid expected (part ∷ front, a, b)
unfolding parts_valid
parts_valid-append expected part a b front =
    ground (arith, last_two-append (part ∷ front) a b, length-append {0} front (a ∷ b ∷ []))

stamp_of_parts-append :
    (front : List Text) (a b : Text)
    → stamp_of_parts (front ++ a ∷ b ∷ []) ≡ (if isdigit a then digits_from 0 a else 0)
unfolding stamp_of_parts
stamp_of_parts-append [] a b = refl
stamp_of_parts-append (x ∷ []) a b = refl
stamp_of_parts-append (x ∷ y ∷ front) a b = rw (last_two-append (x ∷ y ∷ front) a b, stamp_of_parts)

version_name-ends : (v : Version) → ends_with (text ".py") (version_file_name v) ≡ true
unfolding version_file_name
version_name-ends v =
    let stem = v.scenario_type ++ b'_' ∷ (decimal v.timestamp ++ b'_' ∷ v.hash_suffix) in
    let whole : version_file_name v ≡ stem ++ text ".py" = simp append_assoc in
    rw whole (ends_with-append (text ".py") stem)

version_name-valid :
    (v : Version) (expected : Option Text)
    → HasSuffix v
    → parts_valid expected (split b'_' (version_file_name v)) ≡ agrees expected v.scenario_type
version_name-valid v expected h =
    let (part, front, e) = split-cons b'_' v.scenario_type in
    rw (version_parts v h) (
      rw e
        (parts_valid-append expected part _ _ front ∙ (rw e at (fields_of_version v expected h))))

-- The name of a version file, whose suffix is 8 letters or digits, passes the format test exactly
-- where its scenario type is the expected one, or the expected one is absent or empty, though the
-- type may hold underscores; and the name gives back the timestamp by which the search sorts.
pub version_file_name_roundtrip :
    (v : Version) (expected : Option Text)
    → HasSuffix v
    → (is_rollback_version_file_format (version_file_name v) expected
        ≡ agrees expected v.scenario_type)
      × (get_rollback_timestamp (version_file_name v) ≡ v.timestamp)
unfolding is_rollback_version_file_format get_rollback_timestamp
version_file_name_roundtrip v expected h = (
  rw (version_name-ends v) (version_name-valid v expected h),
  rw (version_parts v h) (
      stamp_of_parts-append (split b'_' v.scenario_type) _ _
      ∙ rw (isdigit-decimal v.timestamp) (digits_from-decimal v.timestamp)),
)

split_once-append :
    (sep : ℕ) (s t : Text) → Lacks sep s → split_once sep (s ++ sep ∷ t) ≡ some (s, t)
unfolding split_once
split_once-append sep [] t h = ground arith
split_once-append sep (c ∷ s) t h = ground (arith, split_once-append sep s t)

-- A context directory's name passes the format test exactly where its run is the expected one, or
-- the expected one is absent or empty, though the run's id may hold dashes.
pub rollback_context_roundtrip :
    (time_ns : ℕ) (run_uuid : Text) (expected : Option Text)
    → is_rollback_context_directory_format (rollback_context time_ns run_uuid) expected
      ≡ agrees expected run_uuid
unfolding is_rollback_context_directory_format rollback_context
rollback_context_roundtrip time_ns run_uuid expected =
    let lacks = isdigit-Lacks b'-' (decimal time_ns) refl (isdigit-decimal time_ns) in
    rw
      (
        split_once-append b'-' (decimal time_ns) run_uuid lacks,
        is_rollback_context_directory_format,
      )
      (ground (arith, isdigit-decimal time_ns))
