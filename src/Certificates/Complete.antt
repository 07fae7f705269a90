-- ===== src/Certificates/Complete.antt =====
-- A TLS configuration or an error (internal/config/tls.go).
use shorty.Base.{
  Str, str, ◌≡◌, refl, ◌⊎◌, inl, inr, Option, none, some, [], ◌∷◌, str_eq, Bool-cases,
}
use shorty.Errors.{Err, Result, ok, err}
use shorty.Certificates.{
  Tls, KeyPair, TlsConfig, CertLibrary, min_tls_version, get_tls_config, get_self_signed_tls_config,
  with_key, self_signed, loaded,
}

-- TLS 1.3 at least, with one certificate.
abbrev pub IsUsable : TlsConfig → Type 0
IsUsable c = (c.min_version ≡ min_tls_version) × ((k : KeyPair) × (c.certificates ≡ k ∷ []))

-- A usable configuration without an error, or an error without a configuration.
abbrev pub IsEither : Option TlsConfig × Option Err → Type 0
IsEither r =
    ((c : TlsConfig) × (r ≡ (some c, none)) × IsUsable c) ⊎ ((e : Err) × (r ≡ (none, some e)))

module _ (lib : CertLibrary) where
  self_signed-IsEither : (key : Str) (r : Result Str) → IsEither (self_signed lib key r)
  self_signed-IsEither key (err e) = inr (_, refl)
  self_signed-IsEither key (ok cert) = inl (_, refl, (refl, (_, refl)))

  with_key-IsEither : (cn : Str) (r : Result Str) → IsEither (with_key lib cn r)
  with_key-IsEither cn (err e) = inr (_, refl)
  with_key-IsEither cn (ok key) = self_signed-IsEither key _

  loaded-IsEither : (r : Result KeyPair) → IsEither (loaded lib r)
  loaded-IsEither (err e) = inr (_, refl)
  loaded-IsEither (ok cert) = inl (_, refl, (refl, (_, refl)))

  pub get_tls_config-IsEither : (cfg : Tls) (host : Str) → IsEither (get_tls_config lib cfg host)
  unfolding get_tls_config get_self_signed_tls_config
  get_tls_config-IsEither cfg host = elim (Bool-cases cfg.use_self_signed) [
    | inl own ↦ rw own (with_key-IsEither host (lib.generate_key 4096))
    | inr given ↦ elim (Bool-cases (str_eq cfg.key_path (str ""))) [
      | inl no_key ↦ elim (Bool-cases (str_eq cfg.cert_path (str ""))) [
        | inl no_cert ↦ rw (given, no_key, no_cert) (inr (_, refl))
        | inr cert ↦ rw (given, no_key, cert) (inr (_, refl))
      ]
      | inr key ↦ elim (Bool-cases (str_eq cfg.cert_path (str ""))) [
        | inl no_cert ↦ rw (given, key, no_cert) (inr (_, refl))
        | inr cert ↦
            rw (given, key, cert)
              (loaded-IsEither (lib.load_x509_key_pair cfg.cert_path cfg.key_path))
      ]
    ]
  ]
