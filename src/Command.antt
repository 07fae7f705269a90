-- ===== src/Command.antt =====
-- cmd/shortener/main.go: getLogger and main. zap's ParseLevel is a parameter; the log itself is left
-- out.
pub mod Levels
mod Tests
use shorty.Base.{Str, str, ℕ, Option, none, some, List, [], ◌∷◌, str_eq, if◌then◌else◌}
use shorty.Errors.{Err, Result, ok, err, message, wrap, Outcome, returns, panics}

-- zapcore.Level, as it is numbered.
pub data Level : Type 0 where
  debug info warn error dpanic panic_ fatal : Level

abbrev default_log_level : Level
default_log_level = debug

-- ParseLevel returns a level also with an error.
module _ (parse_level : Str → Level × Option Err) where
  abbrev parsed_level : Level × Option Err → Level × Option Err
  parsed_level (lvl, some e) = (lvl, some (wrap (str "cannot parse log level") e))
  parsed_level (lvl, none) = (default_log_level, none)

  -- getLogger: the level of the logger and the error, from the variable LOG_LEVEL.
  pub get_logger : Option Str → Level × Option Err
  get_logger none = (default_log_level, none)
  get_logger (some log_level) =
      if str_eq log_level (str "")
      then (default_log_level, some (message (str "LOG_LEVEL env is defined but empty")))
      else parsed_level (parse_level log_level)

-- The deferred calls, the last one first: the sync of the logger, and os.Exit.
pub data Deferred : Type 0 where
  sync_logger : Deferred
  exit_with : ℕ → Deferred

-- What runs of them: os.Exit ends the program.
pub run_deferred : List Deferred → List Deferred
run_deferred [] = []
run_deferred (sync_logger ∷ later) = let rest = run_deferred later in sync_logger ∷ rest
run_deferred (exit_with code ∷ later) = exit_with code ∷ []

-- What main does: it may read the configuration and run the application, with a logger of this level,
-- and it ends by deferred calls, by logger.Fatal, or by a panic, after which its deferred calls run.
pub data Ending : Type 0 where
  returning : List Deferred → Ending
  fatally : Ending
  panicking : List Deferred → Ending

module _ {C : Type 0} (parse_level : Str → Level × Option Err)
    (config_new : Level → Outcome (Result C)) (app_run : Level → C → ℕ) where
  abbrev configured_main : Level → Outcome (Result C) → Ending
  configured_main lvl panics = panicking (sync_logger ∷ [])
  configured_main lvl (returns (err e)) = fatally
  configured_main lvl (returns (ok cfg)) =
      returning (exit_with (app_run lvl cfg) ∷ sync_logger ∷ [])

  abbrev logged_main : Level × Option Err → Ending
  logged_main (lvl, some e) = returning (exit_with 1 ∷ sync_logger ∷ [])
  logged_main (lvl, none) = configured_main lvl (config_new lvl)

  -- main
  pub main : Option Str → Ending
  main env = logged_main (get_logger parse_level env)
