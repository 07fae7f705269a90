-- ===== src/Generators/Alphabet.antt =====
-- What RandString returns (internal/generators/generators.go).
use shorty.Base.{
  Str, ℕ, zero, suc, ◌<◌, ◌+◌, ◌≡◌, refl, ap, Bool, true, ◌&&◌, ◌||◌, [], ◌∷◌, arith, length,
  get_or, all, leb,
}
use shorty.Generators.{alphabet, rand_string}

-- What math/rand documents of Intn.
abbrev pub IsIntn : (ℕ → ℕ → ℕ) → Type 0
IsIntn intn = (n i : ℕ) → 0 < n → intn n i < n

abbrev pub is_alphanumeric : ℕ → Bool
is_alphanumeric c = leb b'0' c && leb c b'9' || leb b'a' c && leb c b'z' || leb b'A' c && leb c b'Z'

all-get_or :
    (p : ℕ → Bool) (s : Str) (i : ℕ) → all p s ≡ true → i < length s → p (get_or s i 0) ≡ true
all-get_or p [] i h lt = absurd (omega arith)
all-get_or p (c ∷ s) zero h lt = ground arith
all-get_or p (c ∷ s) (suc i) h lt = ground (arith, all-get_or p s i)

module _ (intn : ℕ → ℕ → ℕ) (range : IsIntn intn) where
  -- Where Intn keeps its bound, RandString returns a string of the length asked for, of letters
  -- and digits only, and draws one number for each.
  pub rand_string_lem :
      (n i : ℕ)
      → (length (rand_string intn n i).0 ≡ n)
        × (all is_alphanumeric (rand_string intn n i).0 ≡ true)
        × ((rand_string intn n i).1 ≡ n + i)
  unfolding rand_string
  rand_string_lem zero i = (refl, refl, omega arith)
  rand_string_lem (suc n) i =
      let ih = rand_string_lem n (suc i) in
      let fits = all-get_or is_alphanumeric alphabet (intn 62 i) refl (range 62 i (omega arith)) in
      (ap suc ih.0, rw (fits, ih.1), omega (arith, ih.2))
