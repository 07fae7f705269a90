-- ===== src/Base/Maps.antt =====
-- Go's `map[string]V`: entries with distinct keys. Go iterates over a map in an unspecified order;
-- here it is the order of the entries.
use mathlib.Core.Path.{◌≡◌, refl}
use mathlib.Core.Option.{Option, none, some}
use mathlib.Core.List.{List, [], ◌∷◌}
use native.Mathlib.Omega.{arith}
use shorty.Base.Tests.{if◌then◌else◌}
use shorty.Base.Strings.{Str, str_eq, str_eq_iff}

abbrev pub GoMap : Type 0 → Type 0
GoMap V = List (Str × V)

module _ {V : Type 0} where
  -- v, ok := m[k]
  unfoldable pub lookup : Str → GoMap V → Option V
  lookup k [] = none
  lookup k ((j, v) ∷ m) = if str_eq j k then some v else lookup k m

  -- m[k] = v
  unfoldable pub insert : Str → V → GoMap V → GoMap V
  insert k v [] = (k, v) ∷ []
  insert k v ((j, w) ∷ m) = if str_eq j k then (k, v) ∷ m else (j, w) ∷ insert k v m

  -- Every entry is the one that its key finds: no key occurs twice.
  abbrev pub HasDistinctKeys : GoMap V → Type 0
  HasDistinctKeys [] = Unit
  HasDistinctKeys ((k, v) ∷ m) = (lookup k m ≡ none) × HasDistinctKeys m

  pub lookup-insert :
      (k j : Str) (v : V) (m : GoMap V)
      → lookup j (insert k v m) ≡ (if str_eq k j then some v else lookup j m)
  unfolding lookup insert
  lookup-insert k j v [] = refl
  lookup-insert k j v ((i, w) ∷ m) =
      ground (arith, str_eq_iff k j, str_eq_iff i k, str_eq_iff i j, lookup-insert k j v m)

  pub insert-HasDistinctKeys :
      (k : Str) (v : V) (m : GoMap V) → HasDistinctKeys m → HasDistinctKeys (insert k v m)
  unfolding lookup insert
  insert-HasDistinctKeys k v [] h = (refl, tt)
  insert-HasDistinctKeys k v ((j, w) ∷ m) (fresh, h) =
      ground
        (arith, str_eq_iff j k, str_eq_iff k j, lookup-insert k j v m, insert-HasDistinctKeys k v m)
