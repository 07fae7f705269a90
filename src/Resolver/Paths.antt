-- ===== src/Resolver/Paths.antt =====
-- Which paths resolve (internal/services/resolver/resolver.go).
use shorty.Base.{
  Str, str, ℕ, ◌≡◌, refl, ◌↔◌, Bool, true, false, ◌&&◌, [], ◌∷◌, arith, all, ◌==◌, if◌then◌else◌,
}
use shorty.Errors.{
  Err, Result, ok, err, message, join, resolver_err, invalid_path, returns, panics, is,
}
use shorty.Resolver.{is_path_byte, validate_bytes, validate_path, resolve, storage_result}

validate_bytes_lem :
    (s : Str)
    → validate_bytes s
      ≡ (if all is_path_byte s then ok tt else err (message (str "invalid character in path")))
unfolding validate_bytes
validate_bytes_lem [] = refl
validate_bytes_lem (c ∷ s) = ground (arith, validate_bytes_lem s)

-- The path is a slash and then letters and digits.
abbrev pub is_valid : Str → Bool
is_valid [] = false
is_valid (c ∷ key) = c == b'/' && all is_path_byte key

module _ {S : Type 0} (get : Str → S → Result Str × S) where
  -- A path of a slash and then letters and digits asks the storage for what follows the slash; the
  -- answer and the new state are the storage's.
  pub resolve-eq-get :
      (key : Str) (s : S)
      → all is_path_byte key ≡ true
      → resolve get (b'/' ∷ key) s ≡ (returns (storage_result (get key s).0), (get key s).1)
  unfolding resolve validate_path
  resolve-eq-get key s h = rw (validate_bytes_lem key, h)

  -- Every other path leaves the storage unasked and is answered by an invalid path error, unless it
  -- is empty.
  pub resolve_invalid :
      (c : ℕ) (key : Str) (s : S)
      → is_valid (c ∷ key) ≡ false
      → (e : Err) × (resolve get (c ∷ key) s ≡ (returns (err e), s))
        × (is e (resolver_err invalid_path) ≡ true)
  unfolding resolve validate_path
  resolve_invalid c key s h = (
    join (resolver_err invalid_path) (
        message
          (if c == b'/' then str "invalid character in path" else str "path is not starts with /")),
    ground (arith, validate_bytes_lem key),
    refl,
  )

  -- Resolve panics at the empty path, and at no other.
  pub resolve_panics_iff : (path : Str) (s : S) → ((resolve get path s).0 ≡ panics) ↔ (path ≡ [])
  unfolding resolve validate_path
  resolve_panics_iff [] s = (λ h. refl, λ h. refl)
  resolve_panics_iff (c ∷ key) s = (λ h. ground (arith, validate_bytes_lem key), λ h. cc)
