-- ===== src/Resolver/Tests.antt =====
-- Resolve with a storage of one key.
use shorty.Base.{Str, str, ℕ, suc, ◌≡◌, refl, ◌↔◌, [], ◌∷◌, str_eq, if◌then◌else◌}
use shorty.Errors.{Result, ok, err, model_err, not_found, returns, panics}
use shorty.Resolver.{resolve, validate_path, validate_bytes, resolve_valid}
use shorty.Resolver.Paths.{resolve_panics_iff}

-- The state counts the calls.
abbrev get_one : Str → ℕ → Result Str × ℕ
get_one key n = (
  if str_eq key (str "k1") then ok (str "https://k.example") else err (model_err not_found),
  suc n,
)

resolve_test : resolve get_one (str "/k1") 0 ≡ (returns (ok (str "https://k.example")), 1)
unfolding resolve validate_path validate_bytes resolve_valid str_eq
resolve_test = refl

-- A byte of a UTF-8 letter passes the test as a Latin-1 letter; `/` and `-` do not.
bytes_test :
    ((resolve get_one (b'/' ∷ 0xc3 ∷ []) 0).1 ≡ 1)
    × ((resolve get_one (str "/a-b") 0).1 ≡ 0)
    × ((resolve get_one (str "//a") 0).1 ≡ 0)
unfolding resolve validate_path validate_bytes resolve_valid
bytes_test = (refl, refl, refl)

resolve_panics_iff_case : ((resolve get_one (str "") 0).0 ≡ panics) ↔ (str "" ≡ [])
resolve_panics_iff_case = resolve_panics_iff get_one (str "") 0
