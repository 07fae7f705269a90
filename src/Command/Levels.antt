-- ===== src/Command/Levels.antt =====
-- What LOG_LEVEL decides of main (cmd/shortener/main.go).
use shorty.Base.{
  Str, str, ℕ, ◌≡◌, refl, Bool, true, false, not, ◌&&◌, Option, none, some, [], ◌∷◌, str_eq,
  Bool-cases, inl, inr, if◌then◌else◌,
}
use shorty.Errors.{Err, Result, ok, err, Outcome, returns, panics}
use shorty.Command.{
  Level, debug, Ending, sync_logger, exit_with, returning, fatally, panicking, get_logger,
  parsed_level, main, configured_main, logged_main,
}

abbrev is_nil : Option Err → Bool
is_nil none = true
is_nil (some e) = false

-- LOG_LEVEL is not set, or it parses; an empty one does not.
abbrev pub is_accepted : (Str → Level × Option Err) → Option Str → Bool
is_accepted parse_level none = true
is_accepted parse_level (some text) = not (str_eq text (str "")) && is_nil (parse_level text).1

module _ {C : Type 0} (parse_level : Str → Level × Option Err)
    (config_new : Level → Outcome (Result C)) (app_run : Level → C → ℕ) where
  -- What main does with a result of New, when the logger has the level debug.
  abbrev pub ending_of : Outcome (Result C) → Ending
  ending_of panics = panicking (sync_logger ∷ [])
  ending_of (returns (err e)) = fatally
  ending_of (returns (ok cfg)) = returning (exit_with (app_run debug cfg) ∷ sync_logger ∷ [])

  configured_main_lem :
      (r : Outcome (Result C))
      → configured_main parse_level config_new app_run debug r ≡ ending_of r
  configured_main_lem panics = refl
  configured_main_lem (returns (err e)) = refl
  configured_main_lem (returns (ok cfg)) = refl

  logged_parsed :
      (r : Level × Option Err)
      → logged_main parse_level config_new app_run (parsed_level parse_level r) ≡ (
          if is_nil r.1
          then ending_of (config_new debug)
          else returning (exit_with 1 ∷ sync_logger ∷ []))
  logged_parsed (lvl, none) = configured_main_lem (config_new debug)
  logged_parsed (lvl, some e) = refl

  -- Where LOG_LEVEL is not set or parses, main calls New with a logger of the level debug, whatever
  -- level it names, and ends as the result of New says: with the code of Run, by logger.Fatal where
  -- it is an error, and by its panic. Where LOG_LEVEL is empty or does not parse, main exits with
  -- code 1, whatever New and Run would do.
  pub main-level :
      (env : Option Str)
      → main parse_level config_new app_run env ≡ (
          if is_accepted parse_level env
          then ending_of (config_new debug)
          else returning (exit_with 1 ∷ sync_logger ∷ []))
  unfolding main get_logger
  main-level none = configured_main_lem (config_new debug)
  main-level (some text) = elim (Bool-cases (str_eq text (str ""))) [
    | inl empty ↦ rw empty refl
    | inr full ↦ rw full (logged_parsed (parse_level text))
  ]
