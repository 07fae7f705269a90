-- ===== src/Errors.antt =====
-- Go errors as values: the sentinel errors of internal/model, internal/services/resolver,
-- internal/services/shortener and internal/services/status, and the `errors` and `fmt` wrapping
-- that the code builds over them.
use shorty.Base.{Str, ℕ, Bool, false, ◌||◌, ◌==◌}

-- internal/model: storage errors.
pub data ModelError : Type 0 where
  not_found already_exists conflict deleted : ModelError

-- internal/services/resolver: service errors.
pub data ResolverError : Type 0 where
  invalid_path storage_error : ResolverError

-- internal/services/shortener: service errors.
pub data ShortenerError : Type 0 where
  invalid_url unsupported_url_scheme storage_failed unauthorized delete_error empty_batch :
      ShortenerError

-- internal/services/status: the service error.
pub data StatusError : Type 0 where
  status_storage_error : StatusError

pub data Sentinel : Type 0 where
  model : ModelError → Sentinel
  resolver : ResolverError → Sentinel
  shortener : ShortenerError → Sentinel
  status : StatusError → Sentinel

-- `message` is an error made in place or by foreign code; `wrap` is fmt.Errorf with %w; `join` is
-- errors.Join of two errors.
pub data Err : Type 0 where
  sentinel : Sentinel → Err
  message : Str → Err
  wrap : Str → Err → Err
  join : Err → Err → Err

abbrev pub model_err : ModelError → Err
model_err e = sentinel (model e)

abbrev pub resolver_err : ResolverError → Err
resolver_err e = sentinel (resolver e)

abbrev pub shortener_err : ShortenerError → Err
shortener_err e = sentinel (shortener e)

abbrev pub status_err : StatusError → Err
status_err e = sentinel (status e)

abbrev rank : Sentinel → ℕ
rank (model not_found) = 0
rank (model already_exists) = 1
rank (model conflict) = 2
rank (model deleted) = 3
rank (resolver invalid_path) = 4
rank (resolver storage_error) = 5
rank (shortener invalid_url) = 6
rank (shortener unsupported_url_scheme) = 7
rank (shortener storage_failed) = 8
rank (shortener unauthorized) = 9
rank (shortener delete_error) = 10
rank (shortener empty_batch) = 11
rank (status status_storage_error) = 12

-- The `==` of two error values: pointers to sentinels. Every other error is a new pointer, and the
-- code never compares such an error with itself.
abbrev pub same : Err → Err → Bool
same (sentinel a) (sentinel b) = rank a == rank b
same (sentinel a) (message m) = false
same (sentinel a) (wrap m e) = false
same (sentinel a) (join e f) = false
same (message m) t = false
same (wrap m e) t = false
same (join e f) t = false

-- errors.Is(err, target)
abbrev pub is : Err → Err → Bool
is (sentinel s) t = same (sentinel s) t
is (message m) t = false
is (wrap m e) t = is e t
is (join e f) t = is e t || is f t

pub data Result {ℓ} (A : Type ℓ) : Type ℓ where
  ok : A → Result A
  err : Err → Result A

-- A call returns, or panics.
pub data Outcome {ℓ} (A : Type ℓ) : Type ℓ where
  returns : A → Outcome A
  panics : Outcome A
