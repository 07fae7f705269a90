-- ===== src/Command/Tests.antt =====
-- main with a LOG_LEVEL that parses.
use shorty.Base.{Str, str, ℕ, ◌≡◌, refl, if◌then◌else◌, Option, none, some, [], ◌∷◌}
use shorty.Errors.{Err, Result, ok, Outcome, returns}
use shorty.Command.{
  Level, debug, warn, exit_with, sync_logger, returning, run_deferred, get_logger, main,
}
use shorty.Command.Levels.{ending_of, is_accepted, main-level}

abbrev parse_level : Str → Level × Option Err
parse_level s = (warn, none)

abbrev config_new : Level → Outcome (Result ℕ)
config_new lvl = returns (ok 3)

abbrev app_run : Level → ℕ → ℕ
app_run lvl cfg = 0

main-level_example : main parse_level config_new app_run (some (str "warn")) ≡ (
    if is_accepted parse_level (some (str "warn"))
    then ending_of parse_level config_new app_run (config_new debug)
    else returning (exit_with 1 ∷ sync_logger ∷ []))
main-level_example = main-level parse_level config_new app_run (some (str "warn"))

-- At a normal end the logger is not synced: os.Exit runs first.
unsynced : run_deferred (exit_with 0 ∷ sync_logger ∷ []) ≡ exit_with 0 ∷ []
unfolding run_deferred
unsynced = refl

level : get_logger parse_level (some (str "warn")) ≡ (debug, none)
unfolding get_logger shorty.Base.str_eq
level = refl
