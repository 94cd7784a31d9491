-- ===== src/Platform/Tail.antt =====
-- src/platform_ops.rs: what `cmd_logs` shows of a log file at first. The file that is followed is read
-- on line by line, which is not modelled.
use konnector.Prelude.{
  ℕ, zero, suc, ◌≡◌, ◌-◌, ◌^◌, sym, Option, none, some, List, [], ◌∷◌, ◌++◌, arith, if◌then◌else◌,
  Text, leb, length, drop, take, take-append-drop, unwrap_or, parse_uint,
}
use konnector.EnvFile.{lines}
use konnector.Configs.Env.{Env}
use konnector.LogFiles.{resolve_log_target}

abbrev usize_max : ℕ
usize_max = 2 ^ 64 - 1

-- `lines.parse().unwrap_or(100)`
unfoldable pub line_count : Text → ℕ
line_count text = unwrap_or (parse_uint usize_max text) 100

-- The last lines of the file; one that cannot be read is shown as an empty one.
unfoldable pub last_lines : ℕ → Option Text → List Text
unfolding lines
last_lines count contents =
    let all_lines = lines (unwrap_or contents []) in drop (length all_lines - count) all_lines

pub data Shown : Type 0 where
  no_log : Text → Shown
  shown : List Text → Shown

-- `read` is none for a path that is no file, and has no text where the file cannot be read.
unfoldable pub cmd_logs_at : (Text → Option (Option Text)) → Env → Text → Text → Shown
unfolding line_count last_lines resolve_log_target
cmd_logs_at read env count target =
    let path = resolve_log_target env target in
    elim (read path) [
      | none ↦ no_log path
      | some contents ↦ shown (last_lines (line_count count) contents)
    ]

length-drop {ℓ} : {A : Type ℓ} (n : ℕ) (xs : List A) → length (drop n xs) ≡ length xs - n
length-drop zero xs = omega arith
length-drop (suc n) [] = omega arith
length-drop (suc n) (x ∷ xs) = omega (arith, length-drop n xs)

-- What is shown ends the file, and has as many lines as were asked for, or all of them if the file
-- has no more.
pub last_lines_lem :
    (count : ℕ) (contents : Text)
    → ((before : List Text) × (lines contents ≡ before ++ last_lines count (some contents)))
      × (length (last_lines count (some contents))
          ≡ (if leb count (length (lines contents)) then count else length (lines contents)))
unfolding last_lines
last_lines_lem count contents =
    let all_lines = lines contents in
    let start = length all_lines - count in
    (
      (take start all_lines, sym (take-append-drop start all_lines)),
      ground (arith, length-drop start all_lines),
    )
