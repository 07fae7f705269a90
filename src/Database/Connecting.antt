-- ===== src/Database/Connecting.antt =====
-- internal/storage/database/config.go and internal/storage/database/migrate.go. pgxpool, iofs and
-- golang-migrate are parameters; the log and the tracers' output are left out.
mod Tests
use shorty.Base.{Str, str, ℕ, ◌*◌, ◌^◌, Bool, true, false, Option, none, some, if◌then◌else◌}
use shorty.Errors.{Err, Result, ok, err, message, wrap}

-- The fields that preparePoolConfig sets; durations are numbers of nanoseconds. `exec_mode` is
-- pgx.QueryExecModeExec.
pub record PoolConfig : Type 0 where
  pub connect_timeout : ℕ
  pub exec_mode : Bool
  pub max_conn_lifetime : ℕ
  pub max_conn_lifetime_jitter : ℕ
  pub max_conn_idle_time : ℕ
  pub max_conns : ℕ
  pub min_conns : ℕ
  pub health_check_period : ℕ
  -- the tracers are attached
  pub traced : Bool

abbrev seconds : ℕ → ℕ
seconds n = n * 10 ^ 9

pub prepare_pool_config : PoolConfig → PoolConfig
prepare_pool_config c = record c {
  connect_timeout = seconds 3;
  exec_mode = true;
  max_conn_lifetime = seconds 3600;
  max_conn_lifetime_jitter = seconds 300;
  max_conn_idle_time = seconds 60;
  max_conns = 5;
  min_conns = 2;
  health_check_period = seconds 3;
}

-- The logger may be nil.
pub record DatabaseConfig : Type 0 where
  pub has_logger : Bool
  pub dsn : Str
  pub migrate : Bool
  pub trace : Bool

-- m.Up has no error, or the error that there is no change, or another one.
pub data UpResult : Type 0 where
  applied no_change : UpResult
  up_error : Err → UpResult

-- P is what pgxpool.NewWithConfig makes.
pub record PgLibrary (P : Type 0) : Type 0 where
  pub parse_config : Str → Result PoolConfig
  pub iofs_error : Option Err
  pub instance_error : Str → Option Err
  pub up : Str → UpResult
  pub new_with_config : PoolConfig → Result P

module _ {P : Type 0} (lib : PgLibrary P) where
  abbrev migrated : UpResult → Result Bool
  migrated applied = ok true
  migrated no_change = ok false
  migrated (up_error e) = err (wrap (str "failed to apply migrations to the DB") e)

  abbrev with_instance : Str → Option Err → Result Bool
  with_instance dsn (some e) = err (wrap (str "failed to get a new migrate instance") e)
  with_instance dsn none = migrated (lib.up dsn)

  abbrev with_driver : Str → Option Err → Result Bool
  with_driver dsn (some e) = err (wrap (str "failed to return an iofs driver") e)
  with_driver dsn none = with_instance dsn (lib.instance_error dsn)

  -- runMigrations: whether there was a change
  pub run_migrations : Str → Result Bool
  run_migrations dsn = with_driver dsn lib.iofs_error

  abbrev migration_error : Result Bool → Option Err
  migration_error (err e) = some e
  migration_error (ok change) = none

  pub migrate : DatabaseConfig → Option Err
  migrate cfg = if cfg.migrate then migration_error (run_migrations cfg.dsn) else none

  abbrev pooled : Result P → Result P
  pooled (err e) = err (wrap (str "cannot create pgx connection pool") e)
  pooled (ok pool) = ok pool

  abbrev after_migration : PoolConfig → Option Err → Result P
  after_migration pool_config (some e) = err e
  after_migration pool_config none = pooled (lib.new_with_config pool_config)

  -- init
  pub init_database : DatabaseConfig → PoolConfig → Result P
  init_database cfg pool_config = after_migration pool_config (migrate cfg)

  abbrev with_tracers : Bool → PoolConfig → PoolConfig
  with_tracers true c = record c { traced = true }
  with_tracers false c = c

  abbrev with_pool_config : DatabaseConfig → Result PoolConfig → Result P
  with_pool_config cfg (err e) = err (wrap (str "cannot parse DSN") e)
  with_pool_config cfg (ok c) = init_database cfg (with_tracers cfg.trace (prepare_pool_config c))

  -- New
  pub new_database : DatabaseConfig → Result P
  new_database cfg =
      if cfg.has_logger
      then with_pool_config cfg (lib.parse_config cfg.dsn)
      else err (message (str "nil logger"))
