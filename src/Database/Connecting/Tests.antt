-- ===== src/Database/Connecting/Tests.antt =====
-- Connecting to a database without pending migrations, and to one where they fail.
use shorty.Base.{str, ℕ, ◌≡◌, refl, true, false, none}
use shorty.Errors.{ok, err, message, wrap}
use shorty.Database.Connecting.{
  PoolConfig, DatabaseConfig, UpResult, no_change, up_error, PgLibrary, new_database, init_database,
  migrate, run_migrations, prepare_pool_config,
}

abbrev empty : PoolConfig
empty = record {
  connect_timeout = 0;
  exec_mode = false;
  max_conn_lifetime = 0;
  max_conn_lifetime_jitter = 0;
  max_conn_idle_time = 0;
  max_conns = 4;
  min_conns = 0;
  health_check_period = 0;
  traced = false;
}

-- A pool is the number of its connections.
abbrev library : UpResult → PgLibrary ℕ
library result = record {
  parse_config = λ dsn. ok empty;
  iofs_error = none;
  instance_error = λ dsn. none;
  up = λ dsn. result;
  new_with_config = λ c. ok c.max_conns;
}

abbrev settings : DatabaseConfig
settings = record { has_logger = true; dsn = str "postgres://"; migrate = true; trace = false }

up_to_date : new_database (library no_change) settings ≡ ok 5
unfolding new_database init_database migrate run_migrations prepare_pool_config
up_to_date = refl

not_migrated :
    new_database (library (up_error (message (str "dirty database")))) settings
    ≡ err (wrap (str "failed to apply migrations to the DB") (message (str "dirty database")))
unfolding new_database init_database migrate run_migrations
not_migrated = refl
