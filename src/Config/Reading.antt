-- ===== src/Config/Reading.antt =====
-- internal/config/flags.go and internal/config/file.go. pflag, the file system and encoding/json are
-- parameters.
use shorty.Base.{Str, str, Bool, false, Option, some}
use shorty.Errors.{Result, ok, err, wrap, Outcome, returns}
use shorty.Certificates.{CertLibrary}
use shorty.Filter.{Netip}
use shorty.Config.{
  Config, Configured, new_config, default_listen_addr, default_grpc_listen_addr, default_base_url,
  default_jwt_secret, default_file_storage_path,
}

-- The values of newFromFlags before the arguments are parsed.
abbrev pub default_flags : Config
default_flags = record {
  storage = some (record {
    database_dsn = str "";
    file_storage_path = default_file_storage_path;
    trace_db = false;
  });
  tls =
      some
        (record { cert_path = str ""; key_path = str ""; enable = false; use_self_signed = false });
  filter =
      some (record {
        subnets = str "127.0.0.0/8,::1/128";
        trust_xff = false;
        trust_x_real_ip = false;
      });
  config_file_path = str "";
  listen_addr = default_listen_addr;
  grpc_listen_addr = default_grpc_listen_addr;
  base_url = default_base_url;
  redirect_scheme = str "";
  jwt_secret = default_jwt_secret;
  pprof_server_addr = str "";
  served_host = str "";
  served_scheme = str "";
  grpc_reflection = false;
  trust_request_id = false;
}

-- What the arguments make of the values.
unfoldable pub new_from_flags : (Config → Result Config) → Result Config
new_from_flags parse_args = elim (parse_args default_flags) [
  | ok cfg ↦ ok cfg
  | err e ↦ err (wrap (str "cannot parse command line arguments") e)
]

-- Opening a file, reading it whole, and decoding its bytes.
module _ (open_file : Str → Result Str) (read_all : Str → Result Str)
    (unmarshal : Str → Result Config) where
  abbrev decoded_config : Result Config → Result Config
  decoded_config (err e) = err (wrap (str "cannot unmarshal config") e)
  decoded_config (ok cfg) = ok cfg

  abbrev read_config_bytes : Result Str → Result Config
  read_config_bytes (err e) = err (wrap (str "cannot read config file") e)
  read_config_bytes (ok bytes) = decoded_config (unmarshal bytes)

  abbrev opened_config : Result Str → Result Config
  opened_config (err e) = err (wrap (str "cannot open config file") e)
  opened_config (ok f) = read_config_bytes (read_all f)

  -- newFromFile
  unfoldable pub new_from_file : Str → Result Config
  new_from_file path = opened_config (open_file path)

module _ (net : Netip) (env : Str → Option Str) (parse_bool : Str → Result Bool)
    (parse_url : Str → Result (Str × Str)) (certs : CertLibrary)
    (read_file : Str → Result Config) where
  abbrev flagged : Result Config → Outcome (Result (Configured net))
  flagged (err e) = returns (err e)
  flagged (ok flags) = new_config net env parse_bool parse_url certs read_file flags

  -- New, from the command line arguments.
  unfoldable pub new_from_args : (Config → Result Config) → Outcome (Result (Configured net))
  new_from_args parse_args = flagged (new_from_flags parse_args)
