-- ===== src/Certificates.antt =====
-- internal/config/tls.go. crypto/rsa, crypto/x509, crypto/tls, the random numbers and the clock are
-- parameters.
pub mod Complete
use shorty.Base.{
  Str, str, ℕ, Bool, not, ◌&&◌, Option, none, some, List, [], ◌∷◌, str_eq, if◌then◌else◌,
}
use shorty.Errors.{Err, Result, ok, err, message, wrap, join}

pub record Tls : Type 0 where
  pub cert_path : Str
  pub key_path : Str
  pub enable : Bool
  pub use_self_signed : Bool

-- The fields that getCA sets of an x509.Certificate; the key usages are left out.
pub record CertTemplate : Type 0 where
  serial_number : ℕ
  country : Str
  organization : Str
  common_name : Str
  ip_addresses : List Str
  dns_names : List Str
  not_before : ℕ
  not_after : ℕ
  subject_key_id : List ℕ

-- tls.Certificate and tls.Config, as far as they are set.
pub record KeyPair : Type 0 where
  pub certificate : Str
  pub private_key : Str

pub record TlsConfig : Type 0 where
  pub min_version : ℕ
  pub certificates : List KeyPair

-- rsa.GenerateKey with a number of bits, x509.CreateCertificate for a template that signs itself,
-- tls.LoadX509KeyPair, rand.Int63, time.Now, and its AddDate for a number of years.
pub record CertLibrary : Type 0 where
  pub generate_key : ℕ → Result Str
  pub create_certificate : CertTemplate → Str → Result Str
  pub load_x509_key_pair : Str → Str → Result KeyPair
  pub int63 : ℕ
  pub now : ℕ
  pub add_years : ℕ → ℕ → ℕ

abbrev private_key_rsa_len : ℕ
private_key_rsa_len = 4096

-- tls.VersionTLS13
abbrev pub min_tls_version : ℕ
min_tls_version = 0x0304

abbrev ca_valid_years : ℕ
ca_valid_years = 10

module _ (lib : CertLibrary) where
  abbrev get_ca : Str → CertTemplate
  get_ca cn = record {
    serial_number = lib.int63;
    country = str "RU";
    organization = str "Shorty";
    common_name = cn;
    ip_addresses = str "127.0.0.1" ∷ str "::1" ∷ [];
    dns_names = cn ∷ [];
    not_before = lib.now;
    not_after = lib.add_years lib.now ca_valid_years;
    subject_key_id = 1 ∷ 2 ∷ 3 ∷ 4 ∷ 6 ∷ [];
  }

  abbrev self_signed : Str → Result Str → Option TlsConfig × Option Err
  self_signed key (err e) = (none, some (wrap (str "cannot create x509 certificate") e))
  self_signed key (ok cert) = (
    some (record {
      min_version = min_tls_version;
      certificates = record { certificate = cert; private_key = key } ∷ [];
    }),
    none,
  )

  abbrev with_key : Str → Result Str → Option TlsConfig × Option Err
  with_key cn (err e) = (none, some (wrap (str "cannot generate rsa private key") e))
  with_key cn (ok key) = self_signed key (lib.create_certificate (get_ca cn) key)

  -- A configuration, nil at `none`, and an error.
  unfoldable get_self_signed_tls_config : Str → Option TlsConfig × Option Err
  get_self_signed_tls_config cn = with_key cn (lib.generate_key private_key_rsa_len)

  abbrev loaded : Result KeyPair → Option TlsConfig × Option Err
  loaded (err e) = (none, some (wrap (str "cannot load x509 cert and key") e))
  loaded (ok cert) =
      (some (record { min_version = min_tls_version; certificates = cert ∷ [] }), none)

  -- errors.Join, where the first error may be nil.
  abbrev join_to : Option Err → Err → Option Err
  join_to none e = some e
  join_to (some d) e = some (join d e)

  abbrev missing_key : Str → Option Err
  missing_key path =
      if str_eq path (str "") then join_to none (message (str "key path is empty")) else none

  abbrev missing_cert : Str → Option Err → Option Err
  missing_cert path e =
      if str_eq path (str "") then join_to e (message (str "cert path is empty")) else e

  pub get_tls_config : Tls → Str → Option TlsConfig × Option Err
  unfolding get_self_signed_tls_config
  get_tls_config cfg host =
      if cfg.use_self_signed
      then get_self_signed_tls_config host
      else if not (str_eq cfg.key_path (str "")) && not (str_eq cfg.cert_path (str ""))
      then loaded (lib.load_x509_key_pair cfg.cert_path cfg.key_path)
      else (none, missing_cert cfg.cert_path (missing_key cfg.key_path))
