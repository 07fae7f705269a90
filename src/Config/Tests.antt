-- ===== src/Config/Tests.antt =====
-- A configuration file with a flag and a variable of the environment.
use shorty.Base.{
  Str, str, ℕ, ◌+◌, ◌≡◌, ◌≢◌, refl, Bool, true, false, Option, none, some, [], ◌∷◌, str_eq,
  if◌then◌else◌,
}
use shorty.Errors.{Result, ok, err, message, wrap, Outcome, returns, panics}
use shorty.Certificates.{CertLibrary}
use shorty.Filter.{Netip, Filter}
use shorty.Config.{
  FilterConfig, Config, Configured, env_override, new_config, read_config, merge, merge_envs,
  default_listen_addr, default_grpc_listen_addr, default_base_url, default_jwt_secret,
  default_file_storage_path,
}
use shorty.Config.Encryption.{IsEncrypted, new_config-IsEncrypted}
use shorty.Config.Reading.{default_flags, new_from_flags, new_from_file, new_from_args}
use shorty.Config.Precedence.{
  first_of, explicit, non_empty, new_config-precedence, new_config_panics,
}

abbrev net : Netip
net = record {
  Addr = ℕ;
  Prefix = ℕ;
  parse_addr = λ s. ok 0;
  parse_addr_port = λ s. ok 0;
  parse_prefix = λ s. ok 0;
  contains = λ p a. true;
}

abbrev env : Str → Option Str
env name = if str_eq name (str "JWT_SECRET") then some (str "from env") else none

abbrev parse_bool : Str → Result Bool
parse_bool s = ok true

abbrev parse_url : Str → Result (Str × Str)
parse_url s = ok (str "sho.rt", str "https")

abbrev certs : CertLibrary
certs = record {
  generate_key = λ bits. ok (str "key");
  create_certificate = λ ca key. ok (str "cert");
  load_x509_key_pair = λ c k. ok (record { certificate = c; private_key = k });
  int63 = 7;
  now = 0;
  add_years = λ t n. t + n;
}

-- The listen address is given as a flag.
abbrev flags : Config
flags = record {
  storage = some (record {
    database_dsn = [];
    file_storage_path = default_file_storage_path;
    trace_db = false;
  });
  tls = some (record { cert_path = []; key_path = []; enable = false; use_self_signed = false });
  filter = some (record { subnets = []; trust_xff = false; trust_x_real_ip = false });
  config_file_path = str "c.json";
  listen_addr = str ":1";
  grpc_listen_addr = default_grpc_listen_addr;
  base_url = default_base_url;
  redirect_scheme = [];
  jwt_secret = default_jwt_secret;
  pprof_server_addr = [];
  served_host = [];
  served_scheme = [];
  grpc_reflection = false;
  trust_request_id = false;
}

-- The file has a listen address, a base URL, and perhaps a filter.
abbrev file : Option FilterConfig → Config
file f = record {
  storage = none;
  tls = none;
  filter = f;
  config_file_path = [];
  listen_addr = str ":2";
  grpc_listen_addr = [];
  base_url = str "https://sho.rt";
  redirect_scheme = [];
  jwt_secret = [];
  pprof_server_addr = [];
  served_host = [];
  served_scheme = [];
  grpc_reflection = false;
  trust_request_id = false;
}

abbrev no_subnets : FilterConfig
no_subnets = record { subnets = []; trust_xff = false; trust_x_real_ip = false }

abbrev read_file : Option FilterConfig → Str → Result Config
read_file f path = ok (file f)

-- The configuration that New makes.
abbrev made : Configured net
made = record {
  config = record (file (some no_subnets)) {
    storage = some (record {
      database_dsn = [];
      file_storage_path = default_file_storage_path;
      trace_db = false;
    });
    tls = some (record { cert_path = []; key_path = []; enable = false; use_self_signed = false });
    listen_addr = str ":1";
    grpc_listen_addr = default_grpc_listen_addr;
    jwt_secret = str "from env";
    served_host = str "sho.rt";
    served_scheme = str "https";
  };
  made = record { subnets = []; trust_xff = false; trust_x_real_ip = false };
  tls_made = none;
}

configured :
    new_config net env parse_bool parse_url certs (read_file (some no_subnets)) flags
    ≡ returns (ok made)
unfolding new_config read_config merge merge_envs str_eq shorty.Filter.new
    shorty.Filter.parse_slice_from_string
configured = refl

file_named : env_override env (str "CONFIG") flags.config_file_path ≢ str ""
unfolding str_eq
file_named e = cc e

new_config-precedence_example :
    (str ":1"
      ≡ first_of
          (env (str "SERVER_ADDRESS")
            ∷ explicit (str ":1") default_listen_addr
            ∷ non_empty (str ":2")
            ∷ [])
          default_listen_addr)
    × (str "https://sho.rt"
        ≡ first_of
            (env (str "BASE_URL")
              ∷ explicit default_base_url default_base_url
              ∷ non_empty (str "https://sho.rt")
              ∷ [])
            default_base_url)
    × (str "from env"
        ≡ first_of
            (env (str "JWT_SECRET")
              ∷ explicit default_jwt_secret default_jwt_secret
              ∷ non_empty (str "")
              ∷ [])
            default_jwt_secret)
new_config-precedence_example =
    new_config-precedence net env parse_bool parse_url certs (read_file (some no_subnets)) flags
      (file (some no_subnets)) made file_named refl (λ e. cc e) (λ e. cc e) (λ e. cc e) configured

new_config_panics_case :
    new_config net env parse_bool parse_url certs (read_file none) flags ≡ panics
new_config_panics_case =
    new_config_panics net env parse_bool parse_url certs (read_file none) flags (file none)
      file_named refl refl

new_config-IsEncrypted_example : IsEncrypted net made
new_config-IsEncrypted_example =
    new_config-IsEncrypted net env parse_bool parse_url certs (read_file (some no_subnets)) flags
      made configured

-- Without arguments, with a file that cannot be opened.
abbrev unopened : Str → Result Str
unopened path = err (message (str "no such file"))

no_arguments :
    new_from_args net
      (λ name. none)
      parse_bool
      parse_url
      certs
      (new_from_file unopened ok (λ bytes. ok default_flags))
      ok
    ≡ returns (
        ok (record {
          config = record default_flags { served_host = str "sho.rt"; served_scheme = str "https" };
          made = record { subnets = 0 ∷ 0 ∷ []; trust_xff = false; trust_x_real_ip = false };
          tls_made = none;
        }))
unfolding new_from_args new_from_flags new_config read_config merge_envs str_eq shorty.Filter.new
    shorty.Filter.parse_slice_from_string shorty.Filter.parse_entities shorty.Filter.add_entity
    shorty.Filter.split_comma shorty.Filter.trim_left
no_arguments = refl

bad_file : Outcome (Result (Configured net))
unfolding new_from_args
bad_file =
    new_from_args net (λ name. none) parse_bool parse_url certs
      (new_from_file unopened ok (λ bytes. ok default_flags))
      (λ flags. ok (record flags { config_file_path = str "c.json" }))

file_missing :
    bad_file ≡ returns (err (wrap (str "cannot open config file") (message (str "no such file"))))
unfolding bad_file new_from_flags new_from_file new_config read_config str_eq
file_missing = refl
