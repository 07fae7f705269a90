-- ===== src/Config/Precedence.antt =====
-- Which setting counts where several are given (internal/config/config.go, internal/config/merge.go,
-- internal/config/env.go).
use shorty.Base.{
  Str, str, ◌≡◌, ◌≢◌, refl, sym, ap, ◌∙◌, Bool, Option, none, some, List, [], ◌∷◌, str_eq,
  str_eq_iff, str_eq-ne, if◌then◌else◌, Bool-cases, if_both, inl, inr,
}
use shorty.Errors.{Err, Result, ok, err, Outcome, returns, panics}
use shorty.Certificates.{TlsConfig, CertLibrary, get_tls_config}
use shorty.Filter.{Netip, Filter}
use shorty.Config.{
  Tls, FilterConfig, StorageConfig, Config, default_listen_addr, default_base_url,
  default_jwt_secret, merge_string_def, merge, or_set, env_override, overridden, enabled, on_parts,
  merge_envs, Configured, read_config, made_filter, with_filter, with_tls, checked_tls,
  with_base_url, with_envs, with_config, new_config,
}

-- The first that is given, or else the default.
abbrev pub first_of : List (Option Str) → Str → Str
first_of [] def = def
first_of (none ∷ others) def = first_of others def
first_of (some s ∷ others) def = s

-- A flag that is not left at its default.
abbrev pub explicit : Str → Str → Option Str
explicit flag def = if str_eq flag def then none else some flag

abbrev pub non_empty : Str → Option Str
non_empty s = if str_eq s (str "") then none else some s

first_of-merge :
    (e : Option Str) (file flag def : Str)
    → flag ≢ str ""
    → or_set e (merge_string_def file flag def)
      ≡ first_of (e ∷ explicit flag def ∷ non_empty file ∷ []) def
first_of-merge (some s) file flag def h = refl
first_of-merge none file flag def h = elim (Bool-cases (str_eq flag def)) [
  | inl same_ ↦ elim (Bool-cases (str_eq file (str ""))) [
    | inl empty ↦ rw (str_eq-ne flag (str "") h, same_, empty) ((str_eq_iff flag def).0 same_)
    | inr full ↦ rw (str_eq-ne flag (str "") h, same_, full) refl
  ]
  | inr other ↦ elim (Bool-cases (str_eq file (str ""))) [
    | inl empty ↦ rw (str_eq-ne flag (str "") h, other, empty) refl
    | inr full ↦ rw (str_eq-ne flag (str "") h, other, full) refl
  ]
]

module _ (net : Netip) where
  -- A configuration that is returned has these settings.
  abbrev HasSettings : Str → Str → Str → Outcome (Result (Configured net)) → Type 0
  HasSettings listen base secret panics = Unit
  HasSettings listen base secret (returns (err e)) = Unit
  HasSettings listen base secret (returns (ok c)) =
      (c.config.listen_addr ≡ listen) × (c.config.base_url ≡ base) × (c.config.jwt_secret ≡ secret)

  HasSettings-returned :
      (listen base secret : Str) (o : Outcome (Result (Configured net))) (c : Configured net)
      → HasSettings listen base secret o
      → o ≡ returns (ok c)
      → HasSettings listen base secret (returns (ok c))
  HasSettings-returned listen base secret o c h e = rw e at h

  module _ (env : Str → Option Str) (parse_bool : Str → Result Bool)
      (parse_url : Str → Result (Str × Str)) (certs : CertLibrary)
      (new_from_file : Str → Result Config) where
    made_filter-HasSettings :
        (cfg : Config) (tls : Option TlsConfig) (r : Result (Filter net))
        → HasSettings cfg.listen_addr cfg.base_url cfg.jwt_secret
            (made_filter net env parse_bool parse_url certs new_from_file cfg tls r)
    made_filter-HasSettings cfg tls (err e) = tt
    made_filter-HasSettings cfg tls (ok f) = (refl, refl, refl)

    with_filter-HasSettings :
        (cfg : Config) (tls : Option TlsConfig) (f : Option FilterConfig)
        → HasSettings cfg.listen_addr cfg.base_url cfg.jwt_secret
            (with_filter net env parse_bool parse_url certs new_from_file cfg tls f)
    with_filter-HasSettings cfg tls none = tt
    with_filter-HasSettings cfg tls (some f) = made_filter-HasSettings cfg tls _

    checked_tls-HasSettings :
        (cfg : Config) (e : Option TlsConfig × Option Err)
        → HasSettings cfg.listen_addr cfg.base_url cfg.jwt_secret
            (checked_tls net env parse_bool parse_url certs new_from_file cfg e)
    checked_tls-HasSettings cfg (tls, some e) = tt
    checked_tls-HasSettings cfg (tls, none) = with_filter-HasSettings cfg tls cfg.filter

    with_tls-HasSettings :
        (cfg : Config) (t : Option Tls)
        → HasSettings cfg.listen_addr cfg.base_url cfg.jwt_secret
            (with_tls net env parse_bool parse_url certs new_from_file cfg t)
    with_tls-HasSettings cfg none = tt
    with_tls-HasSettings cfg (some t) =
        if_both (λ o. HasSettings cfg.listen_addr cfg.base_url cfg.jwt_secret o) t.enable _ _
          (checked_tls-HasSettings cfg (get_tls_config certs t cfg.served_host))
          (with_filter-HasSettings cfg none cfg.filter)

    with_base_url-HasSettings :
        (cfg : Config) (r : Result (Str × Str))
        → HasSettings cfg.listen_addr cfg.base_url cfg.jwt_secret
            (with_base_url net env parse_bool parse_url certs new_from_file cfg r)
    with_base_url-HasSettings cfg (err e) = tt
    with_base_url-HasSettings cfg (ok (host, scheme)) =
        with_tls-HasSettings (record cfg { served_host = host; served_scheme = scheme }) cfg.tls

    enabled-HasSettings :
        (cfg : Config) (s : StorageConfig) (f : FilterConfig) (t : Tls) (r : Result Bool)
        → HasSettings
            (env_override env (str "SERVER_ADDRESS") cfg.listen_addr)
            (env_override env (str "BASE_URL") cfg.base_url)
            (env_override env (str "JWT_SECRET") cfg.jwt_secret)
            (with_envs net env parse_bool parse_url certs new_from_file
              (returns (enabled env parse_bool cfg s f t r)))
    enabled-HasSettings cfg s f t (err e) = tt
    enabled-HasSettings cfg s f t (ok b) =
        let cfg' = overridden env parse_bool cfg s f t b in
        with_base_url-HasSettings cfg' (parse_url cfg'.base_url)

    on_parts-HasSettings :
        (cfg : Config) (s : Option StorageConfig) (f : Option FilterConfig) (t : Option Tls)
        → HasSettings
            (env_override env (str "SERVER_ADDRESS") cfg.listen_addr)
            (env_override env (str "BASE_URL") cfg.base_url)
            (env_override env (str "JWT_SECRET") cfg.jwt_secret)
            (with_envs net env parse_bool parse_url certs new_from_file
              (on_parts env parse_bool cfg s f t))
    on_parts-HasSettings cfg none f t = tt
    on_parts-HasSettings cfg (some s) none t = tt
    on_parts-HasSettings cfg (some s) (some f) none = tt
    on_parts-HasSettings cfg (some s) (some f) (some t) = enabled-HasSettings cfg s f t _

    on_parts-no_filter :
        (cfg : Config) (s : Option StorageConfig) (t : Option Tls)
        → on_parts env parse_bool cfg s none t ≡ panics
    on_parts-no_filter cfg none t = refl
    on_parts-no_filter cfg (some s) t = refl

    -- The file that CONFIG names, or else the flag.
    abbrev file_path : Config → Str
    file_path flags = env_override env (str "CONFIG") flags.config_file_path

    read_config-file :
        (flags file : Config)
        → file_path flags ≢ str ""
        → new_from_file (file_path flags) ≡ ok file
        → read_config net env parse_bool parse_url certs new_from_file flags
          ≡ ok (merge file (record flags { config_file_path = file_path flags }))
    unfolding read_config
    read_config-file flags file named r = rw (str_eq-ne (file_path flags) (str "") named, r) refl

    -- Where a configuration file is named and read, the flags in question are not empty, and New
    -- returns a configuration: of the listen address, the base URL and the JWT secret counts the
    -- environment variable, or else a flag that differs from its default, or else what the file
    -- has, or else the default.
    pub new_config-precedence :
        (flags file : Config) (c : Configured net)
        → file_path flags ≢ str ""
        → new_from_file (file_path flags) ≡ ok file
        → flags.listen_addr ≢ str ""
        → flags.base_url ≢ str ""
        → flags.jwt_secret ≢ str ""
        → new_config net env parse_bool parse_url certs new_from_file flags ≡ returns (ok c)
        → (c.config.listen_addr
            ≡ first_of
                (env (str "SERVER_ADDRESS")
                  ∷ explicit flags.listen_addr default_listen_addr
                  ∷ non_empty file.listen_addr
                  ∷ [])
                default_listen_addr)
          × (c.config.base_url
              ≡ first_of
                  (env (str "BASE_URL")
                    ∷ explicit flags.base_url default_base_url
                    ∷ non_empty file.base_url
                    ∷ [])
                  default_base_url)
          × (c.config.jwt_secret
              ≡ first_of
                  (env (str "JWT_SECRET")
                    ∷ explicit flags.jwt_secret default_jwt_secret
                    ∷ non_empty file.jwt_secret
                    ∷ [])
                  default_jwt_secret)
    unfolding new_config merge_envs merge
    new_config-precedence flags file c named r hl hb hs h =
        let merged = merge file (record flags { config_file_path = file_path flags }) in
        let settings = on_parts-HasSettings merged merged.storage merged.filter merged.tls in
        let returned = HasSettings-returned _ _ _ _ c settings (
          ap (with_config net env parse_bool parse_url certs new_from_file)
            (sym (read_config-file flags file named r))
          ∙ h) in
        (
          returned.0
              ∙ first_of-merge (env (str "SERVER_ADDRESS")) file.listen_addr flags.listen_addr
                  default_listen_addr hl,
          returned.1
              ∙ first_of-merge (env (str "BASE_URL")) file.base_url flags.base_url default_base_url
                  hb,
          returned.2
              ∙ first_of-merge (env (str "JWT_SECRET")) file.jwt_secret flags.jwt_secret
                  default_jwt_secret hs,
        )

    -- Where a configuration file is named and read that has no filter section, New panics,
    -- whatever the flags and the environment are.
    pub new_config_panics :
        (flags file : Config)
        → file_path flags ≢ str ""
        → new_from_file (file_path flags) ≡ ok file
        → file.filter ≡ none
        → new_config net env parse_bool parse_url certs new_from_file flags ≡ panics
    unfolding new_config merge_envs merge
    new_config_panics flags file named r no_filter =
        rw (read_config-file flags file named r, no_filter)
          (rw
            (on_parts-no_filter (merge file (record flags { config_file_path = file_path flags })) _
              _)
            refl)
