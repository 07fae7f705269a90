-- ===== src/Config.antt =====
-- internal/config: config.go, merge.go and env.go. A nil pointer to a part of the configuration is
-- `none`. The flags, as internal/config/flags.go parses them, the environment, what reading and
-- decoding a configuration file gives, strconv.ParseBool and net/url's Parse are parameters.
pub mod Precedence
pub mod Encryption
pub mod Reading
mod Tests
use shorty.Base.{Str, str, Bool, true, not, ◌&&◌, ◌||◌, Option, none, some, str_eq, if◌then◌else◌}
use shorty.Errors.{Err, Result, ok, err, wrap, Outcome, returns, panics}
pub use shorty.Certificates.{Tls}
use shorty.Certificates.{TlsConfig, CertLibrary, get_tls_config}
use shorty.Filter.{Netip, Filter}
use shorty.Filter as F

pub record FilterConfig : Type 0 where
  pub subnets : Str
  pub trust_xff : Bool
  pub trust_x_real_ip : Bool

pub record StorageConfig : Type 0 where
  pub database_dsn : Str
  pub file_storage_path : Str
  pub trace_db : Bool

pub record Config : Type 0 where
  pub storage : Option StorageConfig
  pub tls : Option Tls
  pub filter : Option FilterConfig
  pub config_file_path : Str
  pub listen_addr : Str
  pub grpc_listen_addr : Str
  pub base_url : Str
  pub redirect_scheme : Str
  pub jwt_secret : Str
  pub pprof_server_addr : Str
  pub served_host : Str
  pub served_scheme : Str
  pub grpc_reflection : Bool
  pub trust_request_id : Bool

abbrev pub default_listen_addr : Str
default_listen_addr = str ":8080"

abbrev pub default_grpc_listen_addr : Str
default_grpc_listen_addr = str ":9090"

abbrev pub default_base_url : Str
default_base_url = str "http://localhost:8080"

abbrev pub default_jwt_secret : Str
default_jwt_secret = str "supersecret"

abbrev pub default_file_storage_path : Str
default_file_storage_path = str "/tmp/short-url-db.json"

-- mergeStringDef, mergeString and mergeBool: the new value of `dst`.
abbrev pub merge_string_def : Str → Str → Str → Str
merge_string_def dst src def =
    if not (str_eq src (str "")) && (str_eq dst (str "") || not (str_eq src def)) then src else dst

abbrev merge_string : Str → Str → Str
merge_string dst src = if not (str_eq src (str "")) then src else dst

abbrev merge_bool : Bool → Bool → Bool
merge_bool dst src = if src then true else dst

abbrev merge_tls : Option Tls → Option Tls → Option Tls
merge_tls none src = src
merge_tls (some d) none = some d
merge_tls (some d) (some s) = some (record {
  cert_path = merge_string d.cert_path s.cert_path;
  key_path = merge_string d.key_path s.key_path;
  enable = merge_bool d.enable s.enable;
  use_self_signed = merge_bool d.use_self_signed s.use_self_signed;
})

abbrev merge_storage : Option StorageConfig → Option StorageConfig → Option StorageConfig
merge_storage none src = src
merge_storage (some d) none = some d
merge_storage (some d) (some s) = some (record {
  database_dsn = merge_string d.database_dsn s.database_dsn;
  file_storage_path =
      merge_string_def d.file_storage_path s.file_storage_path default_file_storage_path;
  trace_db = merge_bool d.trace_db s.trace_db;
})

-- merge: `dst`, which is the file's, with `src`, the flags. The filter is not merged.
pub merge : Config → Config → Config
merge dst src = record dst {
  tls = merge_tls dst.tls src.tls;
  storage = merge_storage dst.storage src.storage;
  listen_addr = merge_string_def dst.listen_addr src.listen_addr default_listen_addr;
  grpc_listen_addr =
      merge_string_def dst.grpc_listen_addr src.grpc_listen_addr default_grpc_listen_addr;
  base_url = merge_string_def dst.base_url src.base_url default_base_url;
  redirect_scheme = merge_string dst.redirect_scheme src.redirect_scheme;
  jwt_secret = merge_string_def dst.jwt_secret src.jwt_secret default_jwt_secret;
  pprof_server_addr = merge_string dst.pprof_server_addr src.pprof_server_addr;
  trust_request_id = merge_bool dst.trust_request_id src.trust_request_id;
  grpc_reflection = merge_bool dst.grpc_reflection src.grpc_reflection;
}

abbrev or_set : Option Str → Str → Str
or_set none param = param
or_set (some val) param = val

module _ (env : Str → Option Str) where
  -- envOverride
  abbrev pub env_override : Str → Str → Str
  env_override name param = or_set (env name) param

  module _ (parse_bool : Str → Result Bool) where
    abbrev bool_set : Str → Option Str → Bool → Result Bool
    bool_set name none param = ok param
    bool_set name (some val) param = elim (parse_bool val) [
      | ok b ↦ ok b
      | err e ↦ err (wrap (str "cannot parse bool value in env") e)
    ]

    -- envOverrideBool
    abbrev env_override_bool : Str → Bool → Result Bool
    env_override_bool name param = bool_set name (env name) param

    abbrev overridden : Config → StorageConfig → FilterConfig → Tls → Bool → Config
    overridden cfg s f t enable = record cfg {
      listen_addr = env_override (str "SERVER_ADDRESS") cfg.listen_addr;
      pprof_server_addr = env_override (str "PPROF_ADDRESS") cfg.pprof_server_addr;
      base_url = env_override (str "BASE_URL") cfg.base_url;
      storage = some (record s {
        file_storage_path = env_override (str "FILE_STORAGE_PATH") s.file_storage_path;
        database_dsn = env_override (str "DATABASE_DSN") s.database_dsn;
      });
      jwt_secret = env_override (str "JWT_SECRET") cfg.jwt_secret;
      filter = some (record f { subnets = env_override (str "TRUSTED_SUBNETS") f.subnets });
      tls = some (record t { enable = enable });
    }

    abbrev enabled : Config → StorageConfig → FilterConfig → Tls → Result Bool → Result Config
    enabled cfg s f t (err e) = err e
    enabled cfg s f t (ok enable) = ok (overridden cfg s f t enable)

    abbrev on_parts :
        Config → Option StorageConfig → Option FilterConfig → Option Tls → Outcome (Result Config)
    on_parts cfg none f t = panics
    on_parts cfg (some s) none t = panics
    on_parts cfg (some s) (some f) none = panics
    on_parts cfg (some s) (some f) (some t) =
        returns (enabled cfg s f t (env_override_bool (str "ENABLE_HTTPS") t.enable))

    -- mergeEnvs: the address of a field of a nil pointer panics.
    pub merge_envs : Config → Outcome (Result Config)
    merge_envs cfg = on_parts cfg cfg.storage cfg.filter cfg.tls

-- The configuration, with the filter and the TLS configuration that are made of it.
pub record Configured (net : Netip) : Type 0 where
  pub config : Config
  pub made : Filter net
  -- nil at `none`
  pub tls_made : Option TlsConfig

module _ (net : Netip) (env : Str → Option Str) (parse_bool : Str → Result Bool)
    (parse_url : Str → Result (Str × Str)) (certs : CertLibrary)
    (new_from_file : Str → Result Config) where
  abbrev merged_file : Config → Result Config → Result Config
  merged_file flags (err e) = err e
  merged_file flags (ok file) = ok (merge file flags)

  -- The flags, or the file that they name with the flags merged into it.
  pub read_config : Config → Result Config
  read_config flags =
      let path = env_override env (str "CONFIG") flags.config_file_path in
      if not (str_eq path (str ""))
      then merged_file (record flags { config_file_path = path }) (new_from_file path)
      else ok (record flags { config_file_path = path })

  abbrev made_filter :
      Config → Option TlsConfig → Result (Filter net) → Outcome (Result (Configured net))
  made_filter cfg tls (err e) = returns (err (wrap (str "cannot configure filter") e))
  made_filter cfg tls (ok f) = returns (ok (record { config = cfg; made = f; tls_made = tls }))

  abbrev with_filter :
      Config → Option TlsConfig → Option FilterConfig → Outcome (Result (Configured net))
  with_filter cfg tls none = panics
  with_filter cfg tls (some f) =
      made_filter cfg tls (F.new net f.subnets f.trust_xff f.trust_x_real_ip)

  -- createTLSConfig, and the test of its error.
  abbrev checked_tls : Config → Option TlsConfig × Option Err → Outcome (Result (Configured net))
  checked_tls cfg (tls, some e) = returns (err (wrap (str "tls config error") e))
  checked_tls cfg (tls, none) = with_filter cfg tls cfg.filter

  abbrev with_tls : Config → Option Tls → Outcome (Result (Configured net))
  with_tls cfg none = panics
  with_tls cfg (some t) =
      if t.enable
      then checked_tls cfg (get_tls_config certs t cfg.served_host)
      else with_filter cfg none cfg.filter

  abbrev with_base_url : Config → Result (Str × Str) → Outcome (Result (Configured net))
  with_base_url cfg (err e) = returns (err (wrap (str "cannot parse base server URL") e))
  with_base_url cfg (ok (host, scheme)) =
      with_tls (record cfg { served_host = host; served_scheme = scheme }) cfg.tls

  abbrev with_envs : Outcome (Result Config) → Outcome (Result (Configured net))
  with_envs panics = panics
  with_envs (returns (err e)) = returns (err e)
  with_envs (returns (ok cfg)) = with_base_url cfg (parse_url cfg.base_url)

  abbrev with_config : Result Config → Outcome (Result (Configured net))
  with_config (err e) = returns (err e)
  with_config (ok cfg) = with_envs (merge_envs env parse_bool cfg)

  -- New, from the flags.
  pub new_config : Config → Outcome (Result (Configured net))
  new_config flags = with_config (read_config flags)
