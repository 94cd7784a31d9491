-- ===== src/Prelude/FilePath.antt =====
-- `std::path` on Unix, for what the program asks of it: joining, and the parts of the name of a file
-- in a directory, which has no slash and is neither `.` nor `..`.
use mathlib.Core.Option.{Option, none, some}
use mathlib.Core.List.{◌++◌}
use mathlib.Core.Bool.{◌||◌}
use konnector.Prelude.Tests.{if◌then◌else◌}
use konnector.Prelude.Strings.{Text, codes, is_empty, starts_with, ends_with, rsplit_once}

unfoldable pub join_path : Text → Text → Text
unfolding starts_with ends_with
join_path base path =
    if starts_with path (codes "/")
    then path
    else if is_empty base || ends_with base (codes "/")
    then base ++ path
    else base ++ codes "/" ++ path

-- A name that starts with its last dot has no extension.
unfoldable pub extension : Text → Option Text
unfolding rsplit_once
extension name = elim (rsplit_once name b'.') [
  | none ↦ none
  | some (before, after) ↦ if is_empty before then none else some after
]

unfoldable pub file_stem : Text → Text
unfolding rsplit_once
file_stem name = elim (rsplit_once name b'.') [
  | none ↦ name
  | some (before, after) ↦ if is_empty before then name else before
]
