-- ===== src/Config/Encryption.antt =====
-- When New makes a TLS configuration (internal/config/config.go, internal/config/tls.go).
use shorty.Base.{Str, ◌≡◌, refl, Bool, true, false, Option, none, some, if_split, inl, inr}
use shorty.Errors.{Err, Result, ok, err, Outcome, returns, panics}
use shorty.Certificates.{Tls, TlsConfig, CertLibrary, get_tls_config}
use shorty.Certificates.Complete.{IsUsable, IsEither, get_tls_config-IsEither}
use shorty.Filter.{Netip, Filter}
use shorty.Config.{
  FilterConfig, Config, Configured, made_filter, with_filter, with_tls, checked_tls, with_base_url,
  with_envs, with_config, merge_envs, read_config, new_config,
}

-- A usable configuration where TLS is enabled, and none where it is not.
abbrev Encrypts : Bool → Option TlsConfig → Type 0
Encrypts true none = ⊥
Encrypts true (some c) = IsUsable c
Encrypts false c = c ≡ none

module _ (net : Netip) where
  -- The setting of a configuration that New returned, and what it has made of it.
  abbrev pub IsEncrypted : Configured net → Type 0
  IsEncrypted c = (t : Tls) × (c.config.tls ≡ some t) × Encrypts t.enable c.tls_made

  abbrev HasTls : Outcome (Result (Configured net)) → Type 0
  HasTls panics = Unit
  HasTls (returns (err e)) = Unit
  HasTls (returns (ok c)) = IsEncrypted c

  HasTls-returned :
      (o : Outcome (Result (Configured net))) (c : Configured net)
      → HasTls o
      → o ≡ returns (ok c)
      → IsEncrypted c
  HasTls-returned o c h e = rw e at h

  module _ (env : Str → Option Str) (parse_bool : Str → Result Bool)
      (parse_url : Str → Result (Str × Str)) (certs : CertLibrary)
      (new_from_file : Str → Result Config) where
    made_filter-HasTls :
        (cfg : Config) (tls : Option TlsConfig) (t : Tls) (r : Result (Filter net))
        → cfg.tls ≡ some t
        → Encrypts t.enable tls
        → HasTls (made_filter net env parse_bool parse_url certs new_from_file cfg tls r)
    made_filter-HasTls cfg tls t (err e) h k = tt
    made_filter-HasTls cfg tls t (ok f) h k = (t, h, k)

    with_filter-HasTls :
        (cfg : Config) (tls : Option TlsConfig) (t : Tls) (f : Option FilterConfig)
        → cfg.tls ≡ some t
        → Encrypts t.enable tls
        → HasTls (with_filter net env parse_bool parse_url certs new_from_file cfg tls f)
    with_filter-HasTls cfg tls t none h k = tt
    with_filter-HasTls cfg tls t (some f) h k = made_filter-HasTls cfg tls t _ h k

    checked_tls-HasTls :
        (cfg : Config) (t : Tls) (made : Option TlsConfig × Option Err)
        → cfg.tls ≡ some t
        → t.enable ≡ true
        → IsEither made
        → HasTls (checked_tls net env parse_bool parse_url certs new_from_file cfg made)
    checked_tls-HasTls cfg t made h on (inl (c, e, usable)) =
        rw e (with_filter-HasTls cfg (some c) t cfg.filter h (rw on usable))
    checked_tls-HasTls cfg t made h on (inr (e, failed)) = rw failed tt

    with_tls-HasTls :
        (cfg : Config) (o : Option Tls)
        → cfg.tls ≡ o
        → HasTls (with_tls net env parse_bool parse_url certs new_from_file cfg o)
    with_tls-HasTls cfg none h = tt
    with_tls-HasTls cfg (some t) h =
        if_split HasTls t.enable _ _
          (λ on.
            checked_tls-HasTls cfg t (get_tls_config certs t cfg.served_host) h on
              (get_tls_config-IsEither certs t cfg.served_host))
          (λ off. with_filter-HasTls cfg none t cfg.filter h (rw off refl))

    with_base_url-HasTls :
        (cfg : Config) (r : Result (Str × Str))
        → HasTls (with_base_url net env parse_bool parse_url certs new_from_file cfg r)
    with_base_url-HasTls cfg (err e) = tt
    with_base_url-HasTls cfg (ok (host, scheme)) =
        with_tls-HasTls (record cfg { served_host = host; served_scheme = scheme }) cfg.tls refl

    with_envs-HasTls :
        (o : Outcome (Result Config))
        → HasTls (with_envs net env parse_bool parse_url certs new_from_file o)
    with_envs-HasTls panics = tt
    with_envs-HasTls (returns (err e)) = tt
    with_envs-HasTls (returns (ok cfg)) = with_base_url-HasTls cfg (parse_url cfg.base_url)

    with_config-HasTls :
        (r : Result Config)
        → HasTls (with_config net env parse_bool parse_url certs new_from_file r)
    with_config-HasTls (err e) = tt
    with_config-HasTls (ok cfg) = with_envs-HasTls (merge_envs env parse_bool cfg)

    -- Where New returns a configuration, it has made a TLS configuration if TLS is enabled in it,
    -- with one certificate and TLS 1.3 as its lowest version, and none if TLS is not enabled.
    pub new_config-IsEncrypted :
        (flags : Config) (c : Configured net)
        → new_config net env parse_bool parse_url certs new_from_file flags ≡ returns (ok c)
        → IsEncrypted c
    unfolding new_config
    new_config-IsEncrypted flags c h =
        HasTls-returned _ c
          (with_config-HasTls (read_config net env parse_bool parse_url certs new_from_file flags))
          h
