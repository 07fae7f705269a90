-- ===== src/Resolver.antt =====
-- internal/services/resolver/resolver.go.
pub mod Paths
mod Tests
use shorty.Base.{Str, str, ℕ, Bool, not, ◌&&◌, ◌||◌, [], ◌∷◌, leb, ◌==◌, if◌then◌else◌}
use shorty.Errors.{
  Result, ok, err, message, join, resolver_err, invalid_path, storage_error, Outcome, returns,
  panics,
}

-- unicode.IsDigit and unicode.IsLetter at a rune below 256.
abbrev is_digit : ℕ → Bool
is_digit c = leb b'0' c && leb c b'9'

abbrev is_letter : ℕ → Bool
is_letter c =
    leb b'A' c && leb c b'Z'
    || leb b'a' c && leb c b'z'
    || c == 0xaa
    || c == 0xb5
    || c == 0xba
    || leb 0xc0 c && leb c 0xd6
    || leb 0xd8 c && leb c 0xf6
    || leb 0xf8 c && leb c 0xff

abbrev pub is_path_byte : ℕ → Bool
is_path_byte c = is_letter c || is_digit c

-- The loop of validatePath. The text of an error is kept without the values printed into it.
pub validate_bytes : Str → Result (Unit {0})
validate_bytes [] = ok tt
validate_bytes (c ∷ rest) =
    if not (is_letter c) && not (is_digit c)
    then err (message (str "invalid character in path"))
    else validate_bytes rest

-- `path[0]` panics at an empty path.
pub validate_path : Str → Outcome (Result (Unit {0}))
validate_path [] = panics
validate_path (c ∷ rest) =
    if not (c == b'/')
    then returns (err (message (str "path is not starts with /")))
    else returns (validate_bytes rest)

-- `path[1:]`
abbrev after_slash : Str → Str
after_slash [] = []
after_slash (c ∷ rest) = rest

abbrev pub storage_result : Result Str → Result Str
storage_result (ok url) = ok url
storage_result (err e) = err (join (resolver_err storage_error) e)

module _ {S : Type 0} (get : Str → S → Result Str × S) where
  resolve_valid : Outcome (Result (Unit {0})) → Str → S → Outcome (Result Str) × S
  resolve_valid panics path s = (panics, s)
  resolve_valid (returns (err e)) path s = (returns (err (join (resolver_err invalid_path) e)), s)
  resolve_valid (returns (ok _)) path s =
      let (r, s') = get (after_slash path) s in (returns (storage_result r), s')

  unfoldable pub resolve : Str → S → Outcome (Result Str) × S
  unfolding resolve_valid
  resolve path s = resolve_valid (validate_path path) path s
